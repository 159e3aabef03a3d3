-- ===== src/Journal/Size.antt =====
-- The size of the records that `render_journal` (libexec/wg_healthcheck_setup/apply_journal.py) writes.
use air_vpn_wg_healthcheck.Prelude.{
  Bool, List, [], arith, false, length, length-append, refl, subst, true, ℕ, ◌+◌, ◌∷◌, ◌≡◌, ◌≤◌,
}
use air_vpn_wg_healthcheck.Result.{ok}
use air_vpn_wg_healthcheck.Text.{All-mem_text, Text, codes, mem_text, text_eq}
use air_vpn_wg_healthcheck.Text.Decimal.{length_below, str_int}
use air_vpn_wg_healthcheck.Text.Split.{unlines}
use air_vpn_wg_healthcheck.Journal.{
  SetupJournal, bit_text, field_line, field_lines, field_values, max_canonical_uint,
  max_journal_bytes, operations, phases, render_journal, version_3_order,
}
use air_vpn_wg_healthcheck.Journal.RoundTrip.{render-IsRendered, validate_words}

-- The bytes of the lines: each key, its value, the equals sign and the newline.
abbrev line_bytes : List Text → List Text → ℕ
line_bytes [] vs = 0
line_bytes (k ∷ ks) [] = 0
line_bytes (k ∷ ks) (v ∷ vs) = length k + length v + 2 + line_bytes ks vs

length-unlines : (ks vs : List Text) → length (unlines b'\n' (field_lines ks vs)) ≡ line_bytes ks vs
unfolding unlines
length-unlines [] vs = refl
length-unlines (k ∷ ks) [] = refl
length-unlines (k ∷ ks) (v ∷ vs) = omega (
  arith,
  length-append (field_line k v) (b'\n' ∷ unlines b'\n' (field_lines ks vs)),
  length-append k (b'=' ∷ v),
  length-unlines ks vs,
)

abbrev AtMost : ℕ → Text → Type 0
AtMost n s = length s ≤ n

operations-AtMost : (op : Text) → mem_text op operations ≡ true → AtMost 14 op
operations-AtMost op = All-mem_text (AtMost 14) op operations (search (tt, arith) depth 20)

phases-AtMost : (phase : Text) → mem_text phase phases ≡ true → AtMost 11 phase
phases-AtMost phase = All-mem_text (AtMost 11) phase phases (search (tt, arith) depth 20)

bit_text-AtMost : (b : Bool) → AtMost 1 (bit_text b)
bit_text-AtMost true = omega arith
bit_text-AtMost false = omega arith

str_int-AtMost : (n : ℕ) → n ≤ max_canonical_uint → AtMost 20 (str_int n)
str_int-AtMost n h = length_below 19 n (omega arith)

-- Every record that `render_journal` writes is within the 512 bytes that `read_journal` reads.
pub length-render_journal :
    (j : SetupJournal) {payload : Text}
    → render_journal j ≡ ok payload
    → length payload ≤ max_journal_bytes
unfolding text_eq
length-render_journal j {payload} h =
    let r = render-IsRendered j h in
    let (op, ph, _) = validate_words (codes "3") j r.valid in
    subst (λ s. length s ≤ max_journal_bytes) r.text
      (omega (
        arith,
        length-unlines version_3_order (field_values j),
        operations-AtMost j.operation op,
        phases-AtMost j.phase ph,
        bit_text-AtMost j.had_key,
        bit_text-AtMost j.had_pre_managed,
        bit_text-AtMost j.key_changed,
        str_int-AtMost j.verify_started r.started,
        str_int-AtMost j.status_before_dev r.dev,
        str_int-AtMost j.status_before_ino r.ino,
      ))
