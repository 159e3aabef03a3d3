-- ===== src/Application/Journals.antt =====
-- The journals that a transaction derives from the one it read
-- (libexec/wg_healthcheck_setup/application.py): `_rolled_back` and `_begin_journaled_health_proof`.
use air_vpn_wg_healthcheck.System.{HealthProofStart, is_same_file}
use air_vpn_wg_healthcheck.Prelude.{
  Bool, Option-cases, arith, false, inl, inr, not, refl, some, true, ℕ, ◌&&◌, ◌<◌, ◌==◌, ◌||◌, ◌≡◌,
  ◌≤◌,
}
use air_vpn_wg_healthcheck.Result.{ok}
use air_vpn_wg_healthcheck.Text.{All-mem_text, Text, codes, mem_text, text_eq}
use air_vpn_wg_healthcheck.Journal.{
  SetupJournal, exceeds_uint, is_api_operation, is_static_operation, max_canonical_uint,
  operation_phases, operations, parse_journal, render_journal, validate_semantics,
}
use air_vpn_wg_healthcheck.Journal.RoundTrip.{journal_text, read-render, validate_words}
use air_vpn_wg_healthcheck.Journal.Accepted.{parse_journal-valid}
use air_vpn_wg_healthcheck.Application.{
  before_device, before_inode, journal_health_proof, rolled_back, verifying_journal,
}

abbrev AllowsRollBack : Text → Type 0
AllowsRollBack op = mem_text (codes "rolled-back") (operation_phases op) ≡ true

operations-AllowsRollBack : (op : Text) → mem_text op operations ≡ true → AllowsRollBack op
unfolding mem_text text_eq
operations-AllowsRollBack op =
    All-mem_text AllowsRollBack op operations (refl, (refl, (refl, (refl, (refl, tt)))))

-- The test on the operation and the two flags of the credential.
abbrev contradictory : SetupJournal → Bool
contradictory j =
    (is_static_operation j.operation && j.key_changed)
    || (is_api_operation j.operation && not j.had_key && not j.key_changed)

valid-contradictory :
    (version : Text) (j : SetupJournal)
    → validate_semantics version j ≡ ok tt
    → contradictory j ≡ false
unfolding validate_semantics
valid-contradictory version j h = ground arith

rolled_back-valid :
    (version : Text) (j : SetupJournal)
    → validate_semantics version j ≡ ok tt
    → validate_semantics (codes "3") (rolled_back j) ≡ ok tt
unfolding validate_semantics mem_text text_eq
rolled_back-valid version j h =
    let (known, _, _) = validate_words version j h in
    let allowed = operations-AllowsRollBack j.operation known in
    let fine = valid-contradictory version j h in ground arith

-- The record of a roll-back can be written for every journal that the reader accepts, in any of its
-- three versions, and it is read back as the same operation and flags in the phase "rolled-back".
pub rolled_back-renders :
    (payload : Text) {j : SetupJournal}
    → parse_journal payload ≡ ok j
    → (render_journal (rolled_back j) ≡ ok (journal_text (rolled_back j)))
      × (parse_journal (journal_text (rolled_back j)) ≡ ok (rolled_back j))
rolled_back-renders payload {j} h =
    let (version, valid) = parse_journal-valid payload h in
    let rendered = written version valid in (rendered, read-render (rolled_back j) rendered)
  where
    written :
        (version : Text)
        → validate_semantics version j ≡ ok tt
        → render_journal (rolled_back j) ≡ ok (journal_text (rolled_back j))
    written version valid = unfold render_journal in rw (rolled_back-valid version j valid) refl

abbrev AllowsVerifying : Text → Type 0
AllowsVerifying op = mem_text (codes "verifying") (operation_phases op) ≡ true

operations-AllowsVerifying : (op : Text) → mem_text op operations ≡ true → AllowsVerifying op
unfolding mem_text text_eq
operations-AllowsVerifying op =
    All-mem_text AllowsVerifying op operations (refl, (refl, (refl, (refl, (refl, tt)))))

-- What a clock and a file system give: a positive time, and a status file, if there was one, with a
-- positive device and inode, all of at most 20 digits.
pub record IsProof (proof : HealthProofStart) : Type 0 where
  pub started_positive : 0 < proof.started
  pub started_bounded : proof.started ≤ max_canonical_uint
  pub device_bounded : before_device proof ≤ max_canonical_uint
  pub inode_bounded : before_inode proof ≤ max_canonical_uint
  pub present_positive : (b : ℕ × ℕ × ℕ × ℕ) → proof.before ≡ some b → (0 < b.0) × (0 < b.1)

both_or_none :
    (proof : HealthProofStart)
    → ((b : ℕ × ℕ × ℕ × ℕ) → proof.before ≡ some b → (0 < b.0) × (0 < b.1))
    → (before_device proof == 0) ≡ (before_inode proof == 0)
both_or_none proof h = elim (Option-cases proof.before) [
  | inl e ↦ rw e refl
  | inr (b, e) ↦ let (device, inode) = h b e in rw e (ground arith)
]

verifying-valid :
    (version : Text) (j : SetupJournal) (proof : HealthProofStart)
    → IsProof proof
    → validate_semantics version j ≡ ok tt
    → validate_semantics (codes "3") (verifying_journal j proof) ≡ ok tt
unfolding validate_semantics mem_text text_eq
verifying-valid version j proof p h =
    let (known, _, _) = validate_words version j h in
    let allowed = operations-AllowsVerifying j.operation known in
    let fine = valid-contradictory version j h in
    let positive = p.started_positive in
    let both = both_or_none proof p.present_positive in ground arith

-- Whether a status file is the one from before the proof, as the journal remembers it.
is_same_file-journal :
    (j : SetupJournal) (proof : HealthProofStart) (after : ℕ × ℕ × ℕ × ℕ)
    → IsProof proof
    → is_same_file (journal_health_proof (verifying_journal j proof)).before after
      ≡ is_same_file proof.before after
unfolding journal_health_proof is_same_file
is_same_file-journal j proof after p = elim (Option-cases proof.before) [
  | inl e ↦ rw e refl
  | inr ((dev, ino, m, s), e) ↦
      let (device, inode) = p.present_positive (dev, ino, m, s) e in rw e (ground arith)
]

-- A health proof survives an interruption. For every journal that the reader accepts and every proof
-- whose start is positive, with at most 20 digits in its numbers and a positive device and inode of the
-- status file if there was one, the record of the phase "verifying" can be written and is read back; the
-- proof that recovery takes from it has the same start, and holds the same status files for old.
pub verifying_journal-renders :
    (payload : Text) {j : SetupJournal} (proof : HealthProofStart)
    → parse_journal payload ≡ ok j
    → IsProof proof
    → (parse_journal (journal_text (verifying_journal j proof)) ≡ ok (verifying_journal j proof))
      × (render_journal (verifying_journal j proof) ≡ ok (journal_text (verifying_journal j proof)))
      × ((journal_health_proof (verifying_journal j proof)).started ≡ proof.started)
      × ((after : ℕ × ℕ × ℕ × ℕ)
          → is_same_file (journal_health_proof (verifying_journal j proof)).before after
            ≡ is_same_file proof.before after)
unfolding journal_health_proof
verifying_journal-renders payload {j} proof h p =
    let (version, valid) = parse_journal-valid payload h in
    let rendered = written version valid in
    (
      read-render (verifying_journal j proof) rendered,
      rendered,
      refl,
      λ after. is_same_file-journal j proof after p,
    )
  where
    bounded : exceeds_uint (verifying_journal j proof) ≡ false
    bounded =
        let a = p.started_bounded in
        let b = p.device_bounded in let c = p.inode_bounded in ground arith

    written :
        (version : Text)
        → validate_semantics version j ≡ ok tt
        → render_journal (verifying_journal j proof) ≡ ok (journal_text (verifying_journal j proof))
    written version valid =
        unfold render_journal in rw (verifying-valid version j proof p valid, bounded) refl
