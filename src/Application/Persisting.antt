-- ===== src/Application/Persisting.antt =====
-- The journal on the disk, from one `_persist_journal` (libexec/wg_healthcheck_setup/application.py) to
-- the next.
use air_vpn_wg_healthcheck.Text.{Text}
use air_vpn_wg_healthcheck.Prelude.{ap, inl, inr, length, refl, some, ◌≡◌, ◌≤◌, ◌⊎◌}
use air_vpn_wg_healthcheck.Result.{Result, err, ok}
use air_vpn_wg_healthcheck.Effect.{World}
use air_vpn_wg_healthcheck.Effect.Hoare.{
  Ensures, Triple, Triple-bind, Triple-consequence, Triple-given, Triple-pure, Triple-raise,
}
use air_vpn_wg_healthcheck.Disk.{Disk, at, bytes_at, journal}
use air_vpn_wg_healthcheck.Store.AtomicWrite.{
  IsOldOrNew, IsWellFormed, OthersSame, Triple-IsReplaced,
}
use air_vpn_wg_healthcheck.System.{Target, lift}
use air_vpn_wg_healthcheck.Journal.{SetupJournal, max_journal_bytes, parse_journal, render_journal}
use air_vpn_wg_healthcheck.Journal.RoundTrip.{read-render}
use air_vpn_wg_healthcheck.Journal.Size.{length-render_journal}
use air_vpn_wg_healthcheck.Application.{persist_journal}

-- The bytes of the journal file are a record that the reader takes for this journal.
pub record Holds (d : Disk) (j : SetupJournal) : Type 0 where
  pub payload : Text
  pub found : bytes_at d (at journal) ≡ some payload
  pub fits : length payload ≤ max_journal_bytes
  pub meaning : parse_journal payload ≡ ok j

-- No other file changed.
abbrev pub OnlyJournal : Disk → Disk → Type 0
OnlyJournal before = OthersSame before journal

pub lift-Triple :
    {A : Type 0} (P : Disk → Type 0) (r : Result A) → Triple P (lift r) (λ a d. (r ≡ ok a) × P d) P
lift-Triple P (ok a) = Triple-pure a (λ d p. (refl, p))
lift-Triple P (err message) = Triple-raise _ (λ d p. p)

module _ (before : Disk) (j : SetupJournal) where
  abbrev pub Persisted : Disk → Type 0
  Persisted d = OnlyJournal before d × Holds d j

  -- The old bytes, or a record of the new journal.
  abbrev pub Untorn : Disk → Type 0
  Untorn d =
      OnlyJournal before d × ((bytes_at d (at journal) ≡ bytes_at before (at journal)) ⊎ Holds d j)

  Holds-new :
      (d : Disk) (payload : Text)
      → render_journal j ≡ ok payload
      → bytes_at d (at journal) ≡ some payload
      → Holds d j
  Holds-new d payload rendered found = record {
    payload = payload;
    found = found;
    fits = length-render_journal j rendered;
    meaning = read-render j rendered;
  }

  Untorn-new :
      (d : Disk) (payload : Text)
      → render_journal j ≡ ok payload
      → IsOldOrNew before journal payload d
      → Untorn d
  Untorn-new d payload rendered x = (
    x.others_same,
    elim x.old_or_new [ inl old ↦ inl old | inr new ↦ inr (Holds-new d payload rendered new) ],
  )

  pub Triple-persist_journal :
      (paths : Target)
      → IsWellFormed before
      → Triple (λ d. d ≡ before) (persist_journal paths j) (λ _. Persisted) Untorn
  unfolding persist_journal
  Triple-persist_journal paths formed =
      Triple-bind (λ payload d. (render_journal j ≡ ok payload) × (d ≡ before))
        (Triple-consequence (lift-Triple (λ d. d ≡ before) (render_journal j)) (λ d e. e)
          (λ _ d s. s)
          (λ d e. (
            λ p n m. ap (λ (x : Disk). bytes_at x p) e,
            inl (ap (λ (x : Disk). bytes_at x (at journal)) e),
          )))
        (λ payload. Triple-given λ rendered.
          Triple-consequence (Triple-IsReplaced before journal payload paths.trusted_uid formed)
            (λ d e. e) (λ _ d x. (x.others_same, Holds-new d payload rendered x.new_text))
            (λ d. Untorn-new d payload rendered))

-- However `persist_journal` ends, the journal file is never torn: if it returns, the file holds a record
-- that the reader takes for the journal that was persisted, within the reader's size limit; if it raises
-- or is killed, the file holds what it held, or such a record. Every other path except the journal's
-- staging path holds what it held. The disk at the start has every name point to an inode that exists.
pub persist_journal-Holds :
    (paths : Target) (j : SetupJournal) (w : World)
    → IsWellFormed w.disk
    → Ensures (λ _. Persisted w.disk j) (Untorn w.disk j) (persist_journal paths j w)
persist_journal-Holds paths j w formed = (Triple-persist_journal w.disk j paths formed).run w refl
