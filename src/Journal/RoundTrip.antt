-- ===== src/Journal/RoundTrip.antt =====
-- Rendering a journal and reading it back (libexec/wg_healthcheck_setup/apply_journal.py).
use air_vpn_wg_healthcheck.Text.Split.{split, split-but_last-unlines, unlines}
use mathlib.Core.List.{tail}
use air_vpn_wg_healthcheck.Prelude.{
  All, All-map, Bool, arith, false, not-false, refl, true, ||_false, ℕ, ◌≡◌, ◌≤◌,
}
use air_vpn_wg_healthcheck.Result.{>>=-eq_ok, ok, ok-injective, raise_if_ok, raise_if_then}
use air_vpn_wg_healthcheck.Text.{All-mem_text, Text, but_last, codes, mem_text, text_eq}
use air_vpn_wg_healthcheck.Text.Decimal.{
  int_text-str_int, length_below, str_int, str_int-is_canonical,
}
use air_vpn_wg_healthcheck.Journal.{
  SetupJournal, bit_text, exceeds_uint, field_line, field_lines, field_order, field_values,
  invalid_record, journal_of, max_canonical_uint, operation_phases, operations, parse_journal,
  phases, read_bit, read_lines, read_uint, render_journal, validate_semantics, version_3_order,
  version_phases, with_defaults,
}
use air_vpn_wg_healthcheck.Journal.Render.{
  IsClean, IsClean-Lacks, IsPlain, bit_text-IsPlain, field_lines-IsClean, read_fields_lem,
  str_int-IsPlain, unlines-is_journal_text,
}

-- What `_validate_semantics` guarantees of the two words.
pub validate_words :
    (version : Text) (j : SetupJournal)
    → validate_semantics version j ≡ ok tt
    → (mem_text j.operation operations ≡ true)
      × (mem_text j.phase (version_phases version) ≡ true)
      × (mem_text j.phase (operation_phases j.operation) ≡ true)
unfolding validate_semantics
validate_words version j h =
    let (_, first, _) = >>=-eq_ok _ _ h in
    let (a, _) = ||_false _ _ (raise_if_ok invalid_record first) in
    let (b, _) = ||_false _ _ a in
    let (c, d) = ||_false _ _ b in
    let (e, f) = ||_false _ _ c in (not-false _ e, not-false _ f, not-false _ d)

pub phases-IsPlain : (p : Text) → mem_text p phases ≡ true → IsPlain p
phases-IsPlain p = All-mem_text IsPlain p phases (ground arith)

pub operations-IsPlain : (o : Text) → mem_text o operations ≡ true → IsPlain o
operations-IsPlain o = All-mem_text IsPlain o operations (ground arith)

keys-IsPlain : All IsPlain version_3_order
keys-IsPlain = ground arith

values-IsPlain :
    (j : SetupJournal) → validate_semantics (codes "3") j ≡ ok tt → All IsPlain (field_values j)
values-IsPlain j h =
    let (op, ph, _) = validate_words (codes "3") j h in
    search
      (
        operations-IsPlain j.operation op,
        phases-IsPlain j.phase (unfold text_eq in ph),
        bit_text-IsPlain,
        str_int-IsPlain,
        tt,
      )
      depth 20

lines-IsClean :
    (j : SetupJournal)
    → validate_semantics (codes "3") j ≡ ok tt
    → All IsClean (field_lines version_3_order (field_values j))
lines-IsClean j v =
    field_lines-IsClean version_3_order (field_values j) keys-IsPlain (values-IsPlain j v)

read_bit-bit_text : (b : Bool) → read_bit (bit_text b) ≡ ok b
unfolding read_bit text_eq
read_bit-bit_text true = refl
read_bit-bit_text false = refl

read_uint-str_int : (n : ℕ) → n ≤ max_canonical_uint → read_uint (str_int n) ≡ ok n
unfolding read_uint
read_uint-str_int n h =
    rw (str_int-is_canonical n)
      (ground (arith, length_below 19 n (omega arith), int_text-str_int n))

pub journal_of_lem :
    (version : Text) (j : SetupJournal)
    → validate_semantics version j ≡ ok tt
    → j.verify_started ≤ max_canonical_uint
    → j.status_before_dev ≤ max_canonical_uint
    → j.status_before_ino ≤ max_canonical_uint
    → journal_of version (with_defaults (field_values j)) ≡ ok j
unfolding journal_of
journal_of_lem version j v a b c = rw (
  read_bit-bit_text j.had_key,
  read_bit-bit_text j.had_pre_managed,
  read_bit-bit_text j.key_changed,
  read_uint-str_int j.verify_started a,
  read_uint-str_int j.status_before_dev b,
  read_uint-str_int j.status_before_ino c,
  v,
)

read_lines_lem :
    (j : SetupJournal)
    → validate_semantics (codes "3") j ≡ ok tt
    → journal_of (codes "3") (with_defaults (field_values j)) ≡ ok j
    → read_lines (field_lines version_3_order (field_values j)) ≡ ok j
unfolding read_lines field_order text_eq
read_lines_lem j v h =
    rw (read_fields_lem version_3_order (field_values j) refl keys-IsPlain (values-IsPlain j v), h)

-- The record's text, in the order of the keys.
abbrev pub journal_text : SetupJournal → Text
journal_text j = unlines b'\n' (field_lines version_3_order (field_values j))

-- What `render_journal` has checked of a journal that it renders.
pub record IsRendered (j : SetupJournal) (payload : Text) : Type 0 where
  pub valid : validate_semantics (codes "3") j ≡ ok tt
  pub started : j.verify_started ≤ max_canonical_uint
  pub dev : j.status_before_dev ≤ max_canonical_uint
  pub ino : j.status_before_ino ≤ max_canonical_uint
  pub text : journal_text j ≡ payload

pub render-IsRendered :
    (j : SetupJournal) {payload : Text} → render_journal j ≡ ok payload → IsRendered j payload
unfolding render_journal
render-IsRendered j h =
    let (u, valid, rest) = >>=-eq_ok (validate_semantics (codes "3") j) _ h in
    let (small, last) =
      raise_if_then (exceeds_uint j) "the setup transaction record is invalid" (ok (journal_text j))
        rest in
    record {
      valid = valid;
      started = ground arith;
      dev = ground arith;
      ino = ground arith;
      text = ok-injective last;
    }

-- The reader takes the text apart into the lines that were written.
split-journal_text :
    (j : SetupJournal)
    → validate_semantics (codes "3") j ≡ ok tt
    → split b'\n' (but_last (journal_text j)) ≡ field_lines version_3_order (field_values j)
split-journal_text j v =
    split-but_last-unlines b'\n' (field_line (codes "version") (codes "3"))
      (field_lines (tail version_3_order) (tail (field_values j)))
      (All-map IsClean-Lacks (field_lines version_3_order (field_values j)) (lines-IsClean j v))

-- The text of a journal that `render_journal` accepts is read back by `parse_journal` as that
-- journal.
pub read-render :
    (j : SetupJournal) {payload : Text}
    → render_journal j ≡ ok payload
    → parse_journal payload ≡ ok j
unfolding parse_journal
read-render j h =
    let r = render-IsRendered j h in
    rw (← r.text) (
      rw
        (
          unlines-is_journal_text b'v' (codes "ersion=3")
              (field_lines (tail version_3_order) (tail (field_values j)))
              (lines-IsClean j r.valid),
          split-journal_text j r.valid,
        )
        (read_lines_lem j r.valid (journal_of_lem (codes "3") j r.valid r.started r.dev r.ino)))
