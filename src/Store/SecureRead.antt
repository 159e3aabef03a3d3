-- ===== src/Store/SecureRead.antt =====
-- What `secure_read` (libexec/wg_healthcheck_setup/store.py) returns.
use air_vpn_wg_healthcheck.Text.{Text, count}
use air_vpn_wg_healthcheck.Prelude.{
  Bool, Option, [], ap, arith, false, length, ltb, none, not, refl, some, subst, suc, sym, take,
  zero, ℕ, ◌+◌, ◌==◌, ◌||◌, ◌∙◌, ◌∷◌, ◌≡◌, ◌≤◌,
}
use air_vpn_wg_healthcheck.Effect.{Reply, done, failed, io, system_call}
use air_vpn_wg_healthcheck.Effect.Hoare.{
  After, Triple, Triple-bind, Triple-call, Triple-consequence, Triple-finally, Triple-given,
  Triple-pure, Triple-raise_if, Triple-wrap,
}
use air_vpn_wg_healthcheck.Effect.Reads.{Triple-reads}
use air_vpn_wg_healthcheck.Disk.{Disk, FilePath, Kind, bytes_at, directory, other, regular, symlink}
use air_vpn_wg_healthcheck.Os.{Stat, fstat_call, open_call, pread_call, stat_of}
use air_vpn_wg_healthcheck.Store.{read_descriptor, read_present, secure_read}
use air_vpn_wg_healthcheck.Store.Reading.{Reads-fstat, Reads-secure_metadata, Reads-silent}

take-suc_enough : (n : ℕ) (s : Text) → length (take (suc n) s) ≤ n → take (suc n) s ≡ s
take-suc_enough n [] h = refl
take-suc_enough zero (c ∷ s) h = absurd (omega arith)
take-suc_enough (suc n) (c ∷ s) h = ap (λ (x : Text). c ∷ x) (take-suc_enough n s (omega arith))

take_enough : (n : ℕ) (s : Text) → length (take (n + 1) s) ≤ n → take (n + 1) s ≡ s
take_enough n s =
    subst (λ (k : ℕ). length (take k s) ≤ n → take k s ≡ s) (add_one n) (take-suc_enough n s)
  where
    add_one : (n : ℕ) → suc n ≡ n + 1
    add_one n = omega arith

module _ (d0 : Disk) where
  abbrev Same : Disk → Type 0
  Same d = d ≡ d0

  -- An action that reads, and the fact that its result establishes on this disk.
  abbrev Opened : FilePath → Reply ℕ × Disk → Type 0
  Opened path = After (λ fd d. (d0.names path ≡ some fd) × Same d) Same

  Triple-open :
      (path : FilePath)
      → Triple Same (system_call (open_call path)) (λ fd d. (d0.names path ≡ some fd) × Same d) Same
  unfolding open_call
  Triple-open path =
      Triple-call _ (λ d e. e) (λ _ d s. s.1)
        (λ limit d e.
          subst (λ (x : Disk). Opened path (open_call path limit x)) (sym e)
            (opened limit (d0.names path) refl))
    where
      by_kind :
          (fd : ℕ) (kind : Kind)
          → After
              (λ fd' d. (some fd ≡ some fd') × Same d)
              Same
              (elim kind [ symlink ↦ (failed io, d0) | _ ↦ (done fd, d0) ])
      by_kind fd symlink = refl
      by_kind fd regular = (refl, refl)
      by_kind fd directory = (refl, refl)
      by_kind fd other = (refl, refl)

      opened :
          (limit : Option ℕ) (found : Option ℕ)
          → d0.names path ≡ found
          → Opened path (open_call path limit d0)
      opened limit none e = rw e refl
      opened limit (some fd) e = rw e (by_kind fd (d0.inodes fd).kind)

  pub Triple-fstat :
      (fd : ℕ)
      → Triple Same (system_call (fstat_call fd)) (λ m d. (m ≡ stat_of d0 fd) × Same d) Same
  unfolding fstat_call
  Triple-fstat fd =
      Triple-call _ (λ d e. e) (λ _ d s. s.1) (λ limit d e. (ap (λ (x : Disk). stat_of x fd) e, e))

  pub Triple-pread :
      (fd count : ℕ)
      → Triple Same
          (system_call (pread_call fd count))
          (λ payload d. (payload ≡ take count (d0.inodes fd).content) × Same d)
          Same
  unfolding pread_call
  Triple-pread fd count =
      Triple-call _ (λ d e. e) (λ _ d s. s.1)
        (λ limit d e. (ap (λ (x : Disk). take count (x.inodes fd).content) e, e))

  whole :
      (fd maximum : ℕ) (payload : Text) (opened : Stat)
      → payload ≡ take (maximum + 1) (d0.inodes fd).content
      → (not (length payload == opened.size) || ltb maximum (length payload)) ≡ false
      → payload ≡ (d0.inodes fd).content
  whole fd maximum payload opened e h =
      e
      ∙ take_enough maximum (d0.inodes fd).content
          (subst (λ (s : Text). length s ≤ maximum) e (ground arith))

  Triple-read_descriptor :
      (fd : ℕ) (stat : Stat) (maximum : ℕ)
      → Triple Same
          (read_descriptor fd stat maximum)
          (λ payload d. (payload ≡ (d0.inodes fd).content) × Same d)
          Same
  unfolding read_descriptor
  Triple-read_descriptor fd stat maximum =
      Triple-bind (λ _. Same) (Triple-reads (Reads-fstat fd))
        λ opened.
          Triple-bind (λ _. Same)
            (Triple-consequence (Triple-raise_if _ _ (λ d e. e)) (λ d e. e) (λ _ d s. s.1)
              (λ d e. e))
            λ _.
              Triple-bind
                (λ payload d. (payload ≡ take (maximum + 1) (d0.inodes fd).content) × Same d)
                (Triple-pread fd (maximum + 1))
                λ payload. Triple-given λ got.
                  Triple-bind (λ _. Same) (Triple-reads (Reads-fstat fd))
                    λ after.
                      Triple-bind (λ _. Same)
                        (Triple-consequence (Triple-raise_if _ _ (λ d e. e)) (λ d e. e)
                          (λ _ d s. s.1) (λ d e. e))
                        λ _.
                          Triple-bind
                            (λ _ d.
                              ((not (length payload == opened.size) || ltb maximum (length payload))
                                ≡ false)
                              × Same d)
                            (Triple-raise_if {P = Same}
                              (not (length payload == opened.size) || ltb maximum (length payload))
                              _ (λ d e. e))
                            λ _. Triple-given λ fits.
                              Triple-pure payload
                                (λ d e. (whole fd maximum payload opened got fits, e))

  -- The bytes of the path, if it is a name.
  abbrev pub IsRead : FilePath → Option Text → Disk → Type 0
  IsRead path none d = Same d
  IsRead path (some payload) d = (bytes_at d0 path ≡ some payload) × Same d

  Triple-read_present :
      (path : FilePath) (maximum : ℕ) (found : Option Stat)
      → Triple Same (read_present path maximum found) (IsRead path) Same
  unfolding read_present
  Triple-read_present path maximum none = Triple-pure none (λ d e. e)
  Triple-read_present path maximum (some stat) =
      Triple-bind (λ _. Same)
        (Triple-consequence (Triple-raise_if _ _ (λ d e. e)) (λ d e. e) (λ _ d s. s.1) (λ d e. e))
        λ _.
          Triple-bind (λ fd d. (d0.names path ≡ some fd) × Same d)
            (Triple-wrap _ (Triple-open path))
            λ fd. Triple-given λ named.
              Triple-bind (λ payload d. (payload ≡ (d0.inodes fd).content) × Same d)
                (Triple-finally (Triple-read_descriptor fd stat maximum)
                  (λ payload.
                    Triple-consequence
                      (Triple-reads {P = λ d. (payload ≡ (d0.inodes fd).content) × Same d}
                        Reads-silent)
                      (λ d s. s) (λ _ d s. s) (λ d s. s.1))
                  (Triple-reads Reads-silent) (λ d e. e))
                λ payload. Triple-pure (some payload) (λ d s. (rw (named, s.0) refl, s.1))

  pub Triple-secure_read :
      (path : FilePath) (uid maximum : ℕ) (required : Bool)
      → Triple Same (secure_read path uid maximum required) (IsRead path) Same
  unfolding secure_read
  Triple-secure_read path uid maximum required =
      Triple-bind (λ _. Same) (Triple-reads (Reads-secure_metadata path uid required))
        (Triple-read_present path maximum)
