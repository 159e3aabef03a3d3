-- ===== src/Application/Reread.antt =====
-- A journal that was persisted, read again by `read_journal` (libexec/wg_healthcheck_setup/apply_journal.py).
use air_vpn_wg_healthcheck.Result.{ok, ok-injective}
use air_vpn_wg_healthcheck.Text.{Text}
use air_vpn_wg_healthcheck.Prelude.{Option, ap, inr, none, refl, some, subst, sym, true, ◌∙◌, ◌≡◌}
use air_vpn_wg_healthcheck.Effect.{World, ◌>>◌}
use air_vpn_wg_healthcheck.Effect.Hoare.{
  Ensures, Triple, Triple-bind, Triple-consequence, Triple-from, Triple-given, Triple-raise,
}
use air_vpn_wg_healthcheck.Disk.{Disk, at, bytes_at, journal}
use air_vpn_wg_healthcheck.Store.SecureRead.{IsRead, Triple-secure_read}
use air_vpn_wg_healthcheck.Store.AtomicWrite.{IsWellFormed}
use air_vpn_wg_healthcheck.System.{Target}
use air_vpn_wg_healthcheck.Journal.{SetupJournal, max_journal_bytes, parse_journal}
use air_vpn_wg_healthcheck.Credential.{journal_of_payload, read_journal}
use air_vpn_wg_healthcheck.Application.{persist_journal}
use air_vpn_wg_healthcheck.Application.Persisting.{
  Holds, Persisted, Triple-persist_journal, Untorn, lift-Triple,
}

payload_same : {a b : Text} → some a ≡ some b → a ≡ b
payload_same e = cc

module _ (before : Disk) (j : SetupJournal) (holds : Holds before j) where
  abbrev Reread : SetupJournal → Disk → Type 0
  Reread read d = (read ≡ j) × (d ≡ before)

  same_journal :
      (payload : Text) (read : SetupJournal)
      → bytes_at before (at journal) ≡ some payload
      → parse_journal payload ≡ ok read
      → read ≡ j
  same_journal payload read found parsed =
      let same : some payload ≡ some holds.payload = sym found ∙ holds.found in
      let meaning : ok read ≡ ok j =
        sym parsed ∙ ap parse_journal (payload_same same) ∙ holds.meaning in
      ok-injective meaning

  Triple-journal_of_payload :
      (payload : Option Text)
      → Triple
          (IsRead before (at journal) payload)
          (journal_of_payload payload)
          Reread
          (λ d. d ≡ before)
  unfolding journal_of_payload
  Triple-journal_of_payload none = Triple-raise _ (λ d e. e)
  Triple-journal_of_payload (some payload) = Triple-given λ found.
      Triple-consequence (lift-Triple (λ d. d ≡ before) (parse_journal payload)) (λ d e. e)
        (λ read d s. (same_journal payload read found s.0, s.1)) (λ d e. e)

  pub Triple-read_journal :
      (paths : Target) → Triple (λ d. d ≡ before) (read_journal paths) Reread (λ d. d ≡ before)
  unfolding read_journal
  Triple-read_journal paths =
      Triple-bind (IsRead before (at journal))
        (Triple-secure_read before (at journal) paths.trusted_uid max_journal_bytes true)
        Triple-journal_of_payload

-- What `persist_journal` wrote, `read_journal` reads: run behind it, it returns no other journal, under
-- whatever failures and kills, and the file then still is a record of it. If one of the two raises or is
-- killed, the file holds what it held before, or a record of the journal. Every other path except the
-- journal's staging path holds what it held. The disk at the start has every name point to an inode that
-- exists.
pub read_journal-persist_journal :
    (paths : Target) (j : SetupJournal) (w : World)
    → IsWellFormed w.disk
    → Ensures
        (λ read d. (read ≡ j) × Persisted w.disk j d)
        (Untorn w.disk j)
        ((persist_journal paths j >> read_journal paths) w)
read_journal-persist_journal paths j w formed =
    (Triple-bind (λ _. Persisted w.disk j) (Triple-persist_journal w.disk j paths formed)
        λ _. Triple-from λ persisted s.
          Triple-consequence (Triple-read_journal persisted j s.1 paths) (λ d e. e)
            (λ read d r. (r.0, subst (Persisted w.disk j) (sym r.1) s))
            (λ d e. subst (Untorn w.disk j) (sym e) (s.0, inr s.1))).run
      w refl
