-- ===== src/Journal/Records.antt =====
-- The payloads that `read_journal` (libexec/wg_healthcheck_setup/apply_journal.py) accepts, as the texts of
-- the journals in the three versions of the record.
use air_vpn_wg_healthcheck.Journal.Versions.{
  HasNoProof, IsRecord, read_lines-IsRecord, version_1, version_1_values, version_2,
  version_2_values, version_3,
}
use air_vpn_wg_healthcheck.Journal.Lines.{unlines-split}
use air_vpn_wg_healthcheck.Journal.RoundTrip.{
  journal_of_lem, operations-IsPlain, read-render, validate_words,
}
use air_vpn_wg_healthcheck.Journal.Render.{
  IsClean, IsClean-Lacks, IsPlain, bit_text-IsPlain, field_lines-IsClean, length-field_lines,
  read_fields_lem, unlines-is_journal_text,
}
use mathlib.Core.List.{tail}
use air_vpn_wg_healthcheck.Text.Decimal.{str_int, str_int_small}
use air_vpn_wg_healthcheck.Prelude.{
  ==_iff, All, All-map, List, [], ap, arith, length, refl, some, suc, sym, true, ℕ, ◌++◌, ◌↔◌, ◌∙◌,
  ◌∷◌, ◌≡◌, ◌≤◌,
}
use air_vpn_wg_healthcheck.Result.{ok}
use air_vpn_wg_healthcheck.Text.{
  All-mem_text, Text, but_last, but_last_lem, codes, mem_text, text_eq,
}
use air_vpn_wg_healthcheck.Text.Split.{split, split-but_last-unlines, unlines}
use air_vpn_wg_healthcheck.Journal.{
  SetupJournal, bit_text, field_line, field_lines, field_order, is_journal_text, journal_of,
  legacy_phases, max_canonical_uint, parse_journal, read_lines, validate_semantics, version_1_order,
  version_2_order, version_phases, with_defaults,
}

-- A payload of clean lines with the keys in order is read.
ReadBehind-accepted :
    (n : Text) (ks vs : List Text) {j : SetupJournal}
    → field_order (field_line (codes "version") n) ≡ some (n, codes "version" ∷ ks)
    → length ks ≡ length vs
    → All IsPlain (n ∷ ks)
    → All IsPlain vs
    → journal_of n (with_defaults (n ∷ vs)) ≡ ok j
    → parse_journal (unlines b'\n' (field_lines (codes "version" ∷ ks) (n ∷ vs))) ≡ ok j
unfolding parse_journal read_lines field_order text_eq
ReadBehind-accepted n ks vs order l (pn, pks) pvs m =
    let clean : All IsClean (field_lines (codes "version" ∷ ks) (n ∷ vs)) =
      field_lines-IsClean (codes "version" ∷ ks) (n ∷ vs) (refl, pks) (pn, pvs) in
    rw
      (
        unlines-is_journal_text b'v' (codes "ersion=" ++ n) (field_lines ks vs) clean,
        split-but_last-unlines b'\n' (field_line (codes "version") n) (field_lines ks vs)
            (All-map IsClean-Lacks (field_lines (codes "version" ∷ ks) (n ∷ vs)) clean),
        order,
        (==_iff _ _).1 (ap suc (length-field_lines ks vs l)),
        read_fields_lem (codes "version" ∷ ks) (n ∷ vs) (ap suc l) (refl, pks) (pn, pvs),
      )
      m

-- The words of a journal that is valid in an older version.
legacy_words :
    (n : Text) (j : SetupJournal)
    → version_phases n ≡ legacy_phases
    → validate_semantics n j ≡ ok tt
    → IsPlain j.operation × IsPlain j.phase
legacy_words n j older valid =
    let (op, ph, _) = validate_words n j valid in
    (
      operations-IsPlain j.operation op,
      All-mem_text IsPlain j.phase legacy_phases (ground arith)
          (ap (mem_text j.phase) (sym older) ∙ ph),
    )

small_zero : {n : ℕ} → n ≡ 0 → n ≤ max_canonical_uint
small_zero e = omega arith

zero_text : {n : ℕ} → n ≡ 0 → str_int n ≡ codes "0"
zero_text e = ap str_int e ∙ str_int_small 0 (omega arith)

version_1-accepted :
    (j : SetupJournal)
    → j.key_changed ≡ true
    → HasNoProof j
    → validate_semantics (codes "1") j ≡ ok tt
    → parse_journal (unlines b'\n' (field_lines version_1_order (version_1_values j))) ≡ ok j
version_1-accepted j set (s, d, i) valid =
    let (op, ph) = legacy_words (codes "1") j (unfold text_eq in refl) valid in
    ReadBehind-accepted (codes "1") (tail version_1_order) (tail (version_1_values j))
      (unfold field_order text_eq in refl) refl (ground arith)
      (op, (ph, (bit_text-IsPlain j.had_key, (bit_text-IsPlain j.had_pre_managed, tt))))
      (ap
          (λ t.
            journal_of (codes "1")
              (some (j.operation ∷ j.phase ∷ bit_text j.had_key ∷ bit_text j.had_pre_managed ∷ t)))
          tails
        ∙ journal_of_lem (codes "1") j valid (small_zero s) (small_zero d) (small_zero i))
  where
    tails :
        codes "1" ∷ codes "0" ∷ codes "0" ∷ codes "0" ∷ []
        ≡ bit_text j.key_changed
          ∷ str_int j.verify_started
          ∷ str_int j.status_before_dev
          ∷ str_int j.status_before_ino
          ∷ []
    tails = rw (set, zero_text s, zero_text d, zero_text i) refl

version_2-accepted :
    (j : SetupJournal)
    → HasNoProof j
    → validate_semantics (codes "2") j ≡ ok tt
    → parse_journal (unlines b'\n' (field_lines version_2_order (version_2_values j))) ≡ ok j
version_2-accepted j (s, d, i) valid =
    let (op, ph) = legacy_words (codes "2") j (unfold text_eq in refl) valid in
    ReadBehind-accepted (codes "2") (tail version_2_order) (tail (version_2_values j))
      (unfold field_order text_eq in refl) refl (ground arith)
      (
        op,
        (
          ph,
          (
            bit_text-IsPlain j.had_key,
            (bit_text-IsPlain j.had_pre_managed, (bit_text-IsPlain j.key_changed, tt)),
          ),
        ),
      )
      (ap
          (λ t. journal_of (codes "2") (
            some (
              j.operation
              ∷ j.phase
              ∷ bit_text j.had_key
              ∷ bit_text j.had_pre_managed
              ∷ bit_text j.key_changed
              ∷ t)))
          tails
        ∙ journal_of_lem (codes "2") j valid (small_zero s) (small_zero d) (small_zero i))
  where
    tails :
        codes "0" ∷ codes "0" ∷ codes "0" ∷ []
        ≡ str_int j.verify_started ∷ str_int j.status_before_dev ∷ str_int j.status_before_ino ∷ []
    tails = rw (zero_text s, zero_text d, zero_text i) refl

IsRecord-accepted :
    (payload : Text) (j : SetupJournal) → IsRecord payload j → parse_journal payload ≡ ok j
IsRecord-accepted payload j (version_1 text set none_ valid) =
    ap parse_journal text ∙ version_1-accepted j set none_ valid
IsRecord-accepted payload j (version_2 text none_ valid) =
    ap parse_journal text ∙ version_2-accepted j none_ valid
IsRecord-accepted payload j (version_3 rendered) = read-render j rendered

accepted-IsRecord :
    (payload : Text) {j : SetupJournal} → parse_journal payload ≡ ok j → IsRecord payload j
unfolding parse_journal is_journal_text
accepted-IsRecord payload h =
    read_lines-IsRecord payload (split b'\n' (but_last payload))
      (sym (unlines-split b'\n' (but_last payload) ∙ but_last_lem b'\n' payload (ground arith)))
      (ground arith)

-- `parse_journal` returns a journal for a payload exactly when the payload is, byte for byte, the text of
-- this journal in one of the three versions. In version 3 it is what `render_journal` writes for it. In
-- version 1 it is the five lines of version, operation, phase and the two bits, in version 2 a sixth line
-- with the bit key_changed; the journal then has no health proof, in version 1 its key_changed is true, and
-- it satisfies the semantic rules of that version.
pub parse_journal-IsRecord :
    (payload : Text) (j : SetupJournal) → (parse_journal payload ≡ ok j) ↔ IsRecord payload j
parse_journal-IsRecord payload j = (accepted-IsRecord payload, IsRecord-accepted payload j)
