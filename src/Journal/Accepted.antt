-- ===== src/Journal/Accepted.antt =====
-- What `read_journal` (libexec/wg_healthcheck_setup/apply_journal.py) guarantees of the journals that
-- it accepts.
use air_vpn_wg_healthcheck.Prelude.{
  List, Option, Option-cases, [], arith, inl, inr, not, some, subst, ◌∷◌, ◌≡◌,
}
use air_vpn_wg_healthcheck.Result.{>>=-eq_ok, ok, ok-injective, raise_if}
use air_vpn_wg_healthcheck.Text.{Text, but_last}
use air_vpn_wg_healthcheck.Text.Split.{split}
use air_vpn_wg_healthcheck.Journal.{
  SetupJournal, field_order, invalid_record, is_journal_text, journal_of, parse_journal, read_bit,
  read_fields, read_lines, read_uint, validate_semantics, with_defaults,
}

journal_of-valid :
    (version : Text) (values : Option (List Text)) {j : SetupJournal}
    → journal_of version values ≡ ok j
    → validate_semantics version j ≡ ok tt
unfolding journal_of
journal_of-valid version (some (op ∷ ph ∷ hk ∷ hp ∷ kc ∷ vs ∷ sd ∷ si ∷ [])) h =
    let (a, _, h1) = >>=-eq_ok (read_bit hk) _ h in
    let (b, _, h2) = >>=-eq_ok (read_bit hp) _ h1 in
    let (c, _, h3) = >>=-eq_ok (read_bit kc) _ h2 in
    let (d, _, h4) = >>=-eq_ok (read_uint vs) _ h3 in
    let (e, _, h5) = >>=-eq_ok (read_uint sd) _ h4 in
    let (f, _, h6) = >>=-eq_ok (read_uint si) _ h5 in
    let read : SetupJournal = record {
      operation = op;
      phase = ph;
      had_key = a;
      had_pre_managed = b;
      key_changed = c;
      verify_started = d;
      status_before_dev = e;
      status_before_ino = f;
    } in
    let (_, valid, last) = >>=-eq_ok (validate_semantics version read) _ h6 in
    subst (λ x. validate_semantics version x ≡ ok tt) (ok-injective last) valid
journal_of-valid version _ h = cc

read_lines-valid :
    (lines : List Text) {j : SetupJournal}
    → read_lines lines ≡ ok j
    → (version : Text) × (validate_semantics version j ≡ ok tt)
unfolding read_lines
read_lines-valid [] h = cc
read_lines-valid (first ∷ rest) h = elim (Option-cases (field_order first)) [
  | inl e ↦ ground arith
  | inr ((version, order), e) ↦
      let (values, _, last) =
        >>=-eq_ok (read_fields order (first ∷ rest))
          (λ values. journal_of version (with_defaults values)) (ground arith) in
      (version, journal_of-valid version (with_defaults values) last)
]

pub parse_journal-valid :
    (payload : Text) {j : SetupJournal}
    → parse_journal payload ≡ ok j
    → (version : Text) × (validate_semantics version j ≡ ok tt)
unfolding parse_journal
parse_journal-valid payload h =
    let (_, _, last) = >>=-eq_ok (raise_if (not (is_journal_text payload)) invalid_record) _ h in
    read_lines-valid (split b'\n' (but_last payload)) last
