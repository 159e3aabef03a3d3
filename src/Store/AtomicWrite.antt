-- ===== src/Store/AtomicWrite.antt =====
-- `atomic_write` (libexec/wg_healthcheck_setup/store.py) as its callers see it: by the bytes that are
-- found under each path.
use air_vpn_wg_healthcheck.Prelude.{
  Option-cases, [], ap, arith, false, inl, inr, length, none, not, refl, some, sym, ℕ, ◌<◌, ◌∙◌,
  ◌≡◌, ◌≢◌, ◌⊎◌,
}
use air_vpn_wg_healthcheck.Effect.{World, system_call}
use air_vpn_wg_healthcheck.Effect.Hoare.{
  Ensures, Triple, Triple-bind, Triple-call, Triple-consequence, Triple-finally, Triple-raise_if,
}
use air_vpn_wg_healthcheck.Effect.Reads.{Triple-reads}
use air_vpn_wg_healthcheck.Text.{Text}
use air_vpn_wg_healthcheck.Disk.{
  Disk, Entry, FilePath, FilePath-discrete, at, bytes_at, parent, staging,
}
use air_vpn_wg_healthcheck.Disk.Update.{at_staging}
use air_vpn_wg_healthcheck.Store.Create.{atomic_write, fill_staging, is_staged}
use air_vpn_wg_healthcheck.Os.{Stat, fstat_call, stat_of}
use air_vpn_wg_healthcheck.Store.Atomic.{
  Installed, IsPrivate, Kept, Kept-start, Staged, Triple-Staged, Triple-own, Triple-write_all,
}
use air_vpn_wg_healthcheck.Store.Replacing.{Ready, Safe, Triple-replace_target, replaced, still}
use air_vpn_wg_healthcheck.Store.Reading.{Reads-open_directory, Reads-silent}

-- Every name is the name of an inode that exists.
pub record IsWellFormed (d : Disk) : Type 0 where
  pub named_below : (p : FilePath) (i : ℕ) → d.names p ≡ some i → i < d.next_inode

-- Every path but the target and its staging path holds what it held.
abbrev pub OthersSame : Disk → Entry → Disk → Type 0
OthersSame before target d =
    (p : FilePath) → p ≢ staging target → p ≢ at target → bytes_at d p ≡ bytes_at before p

-- The target holds the payload, in a file private to the trusted user, and no staging is left.
pub record IsReplaced (before : Disk) (target : Entry) (uid : ℕ) (payload : Text) (d : Disk)
    : Type 0 where
  pub others_same : OthersSame before target d
  pub new_text : bytes_at d (at target) ≡ some payload
  pub new_private : (i : ℕ) × (d.names (at target) ≡ some i) × IsPrivate uid (d.inodes i)
  pub unstaged : d.names (staging target) ≡ none
  pub formed : IsWellFormed d

-- The target holds what it held, or the payload.
pub record IsOldOrNew (before : Disk) (target : Entry) (payload : Text) (d : Disk) : Type 0 where
  pub others_same : OthersSame before target d
  pub old_or_new :
      (bytes_at d (at target) ≡ bytes_at before (at target))
      ⊎ (bytes_at d (at target) ≡ some payload)

module _ (before : Disk) (target : Entry) (uid : ℕ) (payload : Text)
    (formed : IsWellFormed before) where
  content_same :
      (d : Disk) (p : FilePath)
      → d.names p ≡ before.names p
      → ((i : ℕ) → i < before.next_inode → (d.inodes i).content ≡ (before.inodes i).content)
      → bytes_at d p ≡ bytes_at before p
  content_same d p e same = elim (Option-cases (before.names p)) [
    | inl n ↦ rw (e, n) refl
    | inr (i, n) ↦ rw (e, n) (ap some (same i (formed.named_below p i n)))
  ]

  Installed-IsWellFormed : (d : Disk) → Installed before target uid payload d → IsWellFormed d
  Installed-IsWellFormed d x = record { named_below = below }
    where
      other_below :
          (p : FilePath) (i : ℕ)
          → Dec (p ≡ staging target)
          → Dec (p ≡ at target)
          → d.names p ≡ some i
          → i < d.next_inode
      other_below p i (yes e) m h = cc
      other_below p i (no n) (yes e) h = let same : before.next_inode ≡ i = cc in omega arith
      other_below p i (no n) (no m) h =
          let below : i < before.next_inode =
            formed.named_below p i (sym (x.names_same p n m) ∙ h) in
          omega arith

      below : (p : FilePath) (i : ℕ) → d.names p ≡ some i → i < d.next_inode
      below p i =
          other_below p i (FilePath-discrete p (staging target)) (FilePath-discrete p (at target))

  pub Installed→IsReplaced :
      (d : Disk) → Installed before target uid payload d → IsReplaced before target uid payload d
  Installed→IsReplaced d x = record {
    others_same = λ p n m. content_same d p (x.names_same p n m) x.contents_same;
    new_text = rw (x.named) (ap some x.text);
    new_private = (before.next_inode, x.named, x.is_private);
    unstaged = x.unstaged;
    formed = Installed-IsWellFormed d x;
  }

  pub Safe→IsOldOrNew :
      (d : Disk) → Safe before target uid payload d → IsOldOrNew before target payload d
  Safe→IsOldOrNew d (still k) = record {
    others_same = λ p n m. content_same d p (k.names_same p n) k.contents_same;
    old_or_new = inl (
        content_same d (at target) (k.names_same (at target) (at_staging target target))
          k.contents_same);
  }
  Safe→IsOldOrNew d (replaced x) = record {
    others_same = λ p n m. content_same d p (x.names_same p n m) x.contents_same;
    old_or_new = inr (Installed→IsReplaced d x).new_text;
  }

module _ (before : Disk) (target : Entry) where
  Triple-fstat :
      (written : Text)
      → Triple
          (Staged before target written)
          (system_call (fstat_call before.next_inode))
          (λ m d. (m ≡ stat_of d before.next_inode) × Staged before target written d)
          (Kept before target)
  unfolding fstat_call
  Triple-fstat written = Triple-call _ (λ d s. s.kept) (λ _ d s. s.1.kept) (λ limit d s. (refl, s))

  staged-IsPrivate :
      (d : Disk) (uid size : ℕ) (m : Stat)
      → not (is_staged m uid size) ≡ false
      → m ≡ stat_of d before.next_inode
      → IsPrivate uid (d.inodes before.next_inode)
  staged-IsPrivate d uid size m h e = record {
    mode_private = ap (λ (x : Stat). x.mode) (sym e) ∙ ground arith;
    owned = ap (λ (x : Stat). x.uid) (sym e) ∙ ground arith;
  }

  -- `atomic_write` fills the staging file with the payload, and lets only a private one through.
  Triple-fill_staging :
      (payload : Text) (uid : ℕ)
      → Triple
          (Staged before target [])
          (fill_staging before.next_inode payload uid)
          (λ _. Ready before target uid payload)
          (Kept before target)
  unfolding fill_staging
  Triple-fill_staging payload uid =
      Triple-bind (λ _. Staged before target []) (Triple-own before target [] uid)
        λ _.
          Triple-bind (λ _. Staged before target payload)
            (Triple-write_all before target (length payload) [] payload)
            λ _.
              Triple-bind (λ _. Staged before target payload)
                (Triple-Staged before target payload Reads-silent)
                λ _.
                  Triple-bind
                    (λ m d. (m ≡ stat_of d before.next_inode) × Staged before target payload d)
                    (Triple-fstat payload)
                    λ m.
                      Triple-bind
                        (λ _ d.
                          (not (is_staged m uid (length payload)) ≡ false)
                          × ((m ≡ stat_of d before.next_inode) × Staged before target payload d))
                        (Triple-raise_if
                          {P = λ d.
                            (m ≡ stat_of d before.next_inode) × Staged before target payload d}
                          (not (is_staged m uid (length payload))) _ (λ d s. s.1.kept))
                        λ _.
                          Triple-consequence
                            (Triple-reads {P = Ready before target uid payload} Reads-silent)
                            (λ d s. (s.1.1, staged-IsPrivate d uid (length payload) m s.0 s.1.0))
                            (λ _ d r. r) (λ d r. r.0.kept)

  Triple-atomic_write :
      (payload : Text) (uid : ℕ)
      → Triple
          (λ d. d ≡ before)
          (atomic_write target payload uid)
          (λ _. Installed before target uid payload)
          (Safe before target uid payload)
  unfolding atomic_write
  Triple-atomic_write payload uid =
      Triple-bind (λ _ d. d ≡ before)
        (Triple-consequence
          (Triple-reads {P = λ d. d ≡ before} (Reads-open_directory (parent target) uid)) (λ d e. e)
          (λ _ d e. e) (λ d e. still (Kept-start before target d e)))
        λ _.
          Triple-finally
            (Triple-replace_target before target uid payload _ _ (Triple-fill_staging payload uid))
            (λ _.
              Triple-consequence
                (Triple-reads {P = Installed before target uid payload} Reads-silent) (λ d i. i)
                (λ _ d i. i) (λ d i. replaced i))
            (Triple-reads Reads-silent) (λ d s. s)

pub Triple-IsReplaced :
    (before : Disk) (target : Entry) (payload : Text) (uid : ℕ)
    → IsWellFormed before
    → Triple
        (λ d. d ≡ before)
        (atomic_write target payload uid)
        (λ _. IsReplaced before target uid payload)
        (IsOldOrNew before target payload)
Triple-IsReplaced before target payload uid formed =
    Triple-consequence (Triple-atomic_write before target payload uid) (λ d e. e)
      (λ _. Installed→IsReplaced before target uid payload formed)
      (Safe→IsOldOrNew before target uid payload formed)

-- On a disk where every name is the name of an inode that exists, whatever fails, interrupts or kills
-- the process during `atomic_write` of a target, and wherever: if it
-- returns, the target holds the payload, in a file of mode 0600 that belongs to the trusted user, and the
-- staging path is no name; if it raises or is killed, the target holds what it held before or the whole
-- payload. In both cases every other path except the staging path holds what it held.
pub atomic_write-IsReplaced :
    (target : Entry) (payload : Text) (uid : ℕ) (w : World)
    → IsWellFormed w.disk
    → Ensures
        (λ _. IsReplaced w.disk target uid payload)
        (IsOldOrNew w.disk target payload)
        (atomic_write target payload uid w)
atomic_write-IsReplaced target payload uid w formed =
    (Triple-IsReplaced w.disk target payload uid formed).run w refl
