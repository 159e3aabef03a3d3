-- ===== src/Journal/Versions.antt =====
-- The text of a journal in the three versions of its record
-- (libexec/wg_healthcheck_setup/apply_journal.py), and that the reader takes no other.
use air_vpn_wg_healthcheck.Journal.Lines.{length-read_fields, read_fields-lines}
use mathlib.Core.List.{tail}
use air_vpn_wg_healthcheck.Text.Decimal.{int_text, int_text-str_int, value}
use air_vpn_wg_healthcheck.Journal.Values.{IsReading, IsUint, journal_of-IsReading}
use air_vpn_wg_healthcheck.Prelude.{
  Bool, Bool-cases, List, [], any, ap, arith, false, inl, inr, length, refl, some, subst, suc, sym,
  true, ℕ, ◌==◌, ◌∙◌, ◌∷◌, ◌≡◌,
}
use air_vpn_wg_healthcheck.Result.{>>=-eq_ok, ok}
use air_vpn_wg_healthcheck.Text.{Text, codes, text_eq, text_eq→eq}
use air_vpn_wg_healthcheck.Text.Split.{unlines}
use air_vpn_wg_healthcheck.Journal.{
  SetupJournal, bit_text, exceeds_uint, field_line, field_lines, field_order, field_values,
  journal_of, read_fields, read_lines, render_journal, validate_semantics, version_1_order,
  version_2_order, version_3_order, with_defaults,
}

-- The values of the older versions.
abbrev pub version_1_values : SetupJournal → List Text
version_1_values j =
    codes "1" ∷ j.operation ∷ j.phase ∷ bit_text j.had_key ∷ bit_text j.had_pre_managed ∷ []

abbrev pub version_2_values : SetupJournal → List Text
version_2_values j =
    codes "2"
    ∷ j.operation
    ∷ j.phase
    ∷ bit_text j.had_key
    ∷ bit_text j.had_pre_managed
    ∷ bit_text j.key_changed
    ∷ []

abbrev pub HasNoProof : SetupJournal → Type 0
HasNoProof j = (j.verify_started ≡ 0) × (j.status_before_dev ≡ 0) × (j.status_before_ino ≡ 0)

-- The text of a journal, in each of the three versions.
pub data IsRecord (payload : Text) (j : SetupJournal) : Type 0 where
  version_1 :
      payload ≡ unlines b'\n' (field_lines version_1_order (version_1_values j))
      → j.key_changed ≡ true
      → HasNoProof j
      → validate_semantics (codes "1") j ≡ ok tt
      → IsRecord payload j
  version_2 :
      payload ≡ unlines b'\n' (field_lines version_2_order (version_2_values j))
      → HasNoProof j
      → validate_semantics (codes "2") j ≡ ok tt
      → IsRecord payload j
  version_3 : render_journal j ≡ ok payload → IsRecord payload j

no_number : {n : ℕ} → IsUint (codes "0") n → n ≡ 0
no_number {n} u =
    sym (int_text-str_int n) ∙ ap int_text (sym u.text) ∙ (unfold int_text value in refl)

is_set : (b : Bool) → codes "1" ≡ bit_text b → b ≡ true
is_set true e = refl
is_set false e = absurd (one (ap (any (λ c. c == b'1')) e))
  where
    one : true ≡ false → ⊥
    one h = cc

-- The value behind the key "version" of the first line.
version_value :
    (v n : Text) → field_line (codes "version") v ≡ field_line (codes "version") n → v ≡ n
version_value v n e = cc

-- The values behind the version, in a payload that is read.
abbrev ReadBehind : Text → Text → List Text → SetupJournal → Type 0
ReadBehind payload n ks j =
    (vs : List Text) × (length vs ≡ length ks)
    × (payload ≡ unlines b'\n' (field_lines (codes "version" ∷ ks) (n ∷ vs)))
    × (journal_of n (with_defaults (n ∷ vs)) ≡ ok j)

read_lines-ReadBehind :
    (payload first : Text) (rest : List Text) (n : Text) (ks : List Text) {j : SetupJournal}
    → payload ≡ unlines b'\n' (first ∷ rest)
    → first ≡ field_line (codes "version") n
    → field_order first ≡ some (n, codes "version" ∷ ks)
    → read_lines (first ∷ rest) ≡ ok j
    → ReadBehind payload n ks j
unfolding read_lines
read_lines-ReadBehind payload first rest n ks {j} whole line e h =
    let order : List Text = codes "version" ∷ ks in
    let (values, read, meaning) =
      >>=-eq_ok (read_fields order (first ∷ rest)) (λ values. journal_of n (with_defaults values))
        (ground arith) in
    behind values (length-read_fields order (first ∷ rest) read)
      (read_fields-lines order (first ∷ rest) read) meaning
  where
    behind :
        (values : List Text)
        → length values ≡ suc (length ks)
        → first ∷ rest ≡ field_lines (codes "version" ∷ ks) values
        → journal_of n (with_defaults values) ≡ ok j
        → ReadBehind payload n ks j
    behind [] l t m = absurd (omega arith)
    behind (v ∷ vs) l t m =
        let same : v ≡ n = version_value v n (cc (t, line)) in
        let text : payload ≡ unlines b'\n' (field_lines (codes "version" ∷ ks) (v ∷ vs)) =
          whole ∙ ap (unlines b'\n') t in
        (
          vs,
          omega arith,
          subst (λ x. payload ≡ unlines b'\n' (field_lines (codes "version" ∷ ks) (x ∷ vs))) same
              text,
          subst (λ x. journal_of n (with_defaults (x ∷ vs)) ≡ ok j) same m,
        )

from_version_1 :
    (payload : Text) (vs : List Text) {j : SetupJournal}
    → length vs ≡ 4
    → payload ≡ unlines b'\n' (field_lines version_1_order (codes "1" ∷ vs))
    → journal_of (codes "1") (with_defaults (codes "1" ∷ vs)) ≡ ok j
    → IsRecord payload j
from_version_1 payload (op ∷ ph ∷ hk ∷ hp ∷ []) l text m =
    let r = journal_of-IsReading _ op ph hk hp _ _ _ _ m in
    version_1
      (rw (← r.operation) (rw (← r.phase) (rw (← r.had_key) (rw (← r.had_pre_managed) text))))
      (is_set _ r.key_changed) (no_number r.started, no_number r.dev, no_number r.ino) r.valid
from_version_1 payload _ l text m = absurd (omega arith)

from_version_2 :
    (payload : Text) (vs : List Text) {j : SetupJournal}
    → length vs ≡ 5
    → payload ≡ unlines b'\n' (field_lines version_2_order (codes "2" ∷ vs))
    → journal_of (codes "2") (with_defaults (codes "2" ∷ vs)) ≡ ok j
    → IsRecord payload j
from_version_2 payload (op ∷ ph ∷ hk ∷ hp ∷ kc ∷ []) l text m =
    let r = journal_of-IsReading _ op ph hk hp kc _ _ _ m in
    version_2
      (rw (← r.operation)
        (rw (← r.phase) (rw (← r.had_key) (rw (← r.had_pre_managed) (rw (← r.key_changed) text)))))
      (no_number r.started, no_number r.dev, no_number r.ino) r.valid
from_version_2 payload _ l text m = absurd (omega arith)

from_version_3 :
    (payload : Text) (vs : List Text) {j : SetupJournal}
    → length vs ≡ 8
    → payload ≡ unlines b'\n' (field_lines version_3_order (codes "3" ∷ vs))
    → journal_of (codes "3") (with_defaults (codes "3" ∷ vs)) ≡ ok j
    → IsRecord payload j
unfolding render_journal
from_version_3 payload (op ∷ ph ∷ hk ∷ hp ∷ kc ∷ vs ∷ sd ∷ si ∷ []) {j} l text m =
    let r = journal_of-IsReading _ op ph hk hp kc vs sd si m in
    let small : exceeds_uint j ≡ false =
      ground (arith, r.started.bound, r.dev.bound, r.ino.bound) in
    version_3 (rw (r.valid, small) (ap ok (sym (text ∙ ap (unlines b'\n') (same_lines r)))))
  where
    same_lines :
        IsReading (codes "3") op ph hk hp kc vs sd si j
        → field_lines version_3_order (codes "3" ∷ op ∷ ph ∷ hk ∷ hp ∷ kc ∷ vs ∷ sd ∷ si ∷ [])
          ≡ field_lines version_3_order (field_values j)
    same_lines r =
        let same : codes "3" ∷ op ∷ ph ∷ hk ∷ hp ∷ kc ∷ vs ∷ sd ∷ si ∷ [] ≡ field_values j = cc (
          r.operation, r.phase, r.had_key, r.had_pre_managed, r.key_changed, r.started.text,
          r.dev.text, r.ino.text,
        ) in
        ap (field_lines version_3_order) same
from_version_3 payload _ l text m = absurd (omega arith)

lines-IsRecord :
    (payload first : Text) (rest : List Text) {j : SetupJournal}
    → payload ≡ unlines b'\n' (first ∷ rest)
    → read_lines (first ∷ rest) ≡ ok j
    → IsRecord payload j
lines-IsRecord payload first rest {j} whole h =
    elim (Bool-cases (text_eq first (codes "version=1"))) [
      | inl a ↦
          let (vs, l, t, m) =
            read_lines-ReadBehind payload first rest (codes "1") (tail version_1_order) whole
              (text_eq→eq first _ a) (unfold field_order in rw a refl) h in
          from_version_1 payload vs l t m
      | inr a ↦ elim (Bool-cases (text_eq first (codes "version=2"))) [
        | inl b ↦
            let (vs, l, t, m) =
              read_lines-ReadBehind payload first rest (codes "2") (tail version_2_order) whole
                (text_eq→eq first _ b) (unfold field_order in rw (a, b) refl) h in
            from_version_2 payload vs l t m
        | inr b ↦ elim (Bool-cases (text_eq first (codes "version=3"))) [
          | inl c ↦
              let (vs, l, t, m) =
                read_lines-ReadBehind payload first rest (codes "3") (tail version_3_order) whole
                  (text_eq→eq first _ c) (unfold field_order in rw (a, b, c) refl) h in
              from_version_3 payload vs l t m
          | inr c ↦ unfold field_order read_lines in absurd (ground arith)
        ]
      ]
    ]

pub read_lines-IsRecord :
    (payload : Text) (lines : List Text) {j : SetupJournal}
    → payload ≡ unlines b'\n' lines
    → read_lines lines ≡ ok j
    → IsRecord payload j
read_lines-IsRecord payload [] whole h = unfold read_lines in cc
read_lines-IsRecord payload (first ∷ rest) whole h = lines-IsRecord payload first rest whole h
