-- ===== src/PrivateInput/Opened.antt =====
-- The file that `open_credential_file` (libexec/wg_healthcheck_setup/private_io.py) lets through.
use air_vpn_wg_healthcheck.Effect.Reads.{Triple-reads}
use air_vpn_wg_healthcheck.Prelude.{
  ==_iff, Bool, [], ap, arith, length, not, not-false, refl, subst, suc, sym, take, true, zero, ℕ,
  ◌==◌, ◌∙◌, ◌∷◌, ◌≡◌, ◌≤◌,
}
use air_vpn_wg_healthcheck.Text.{Text}
use air_vpn_wg_healthcheck.Effect.Returning.{Returns-anything}
use air_vpn_wg_healthcheck.Effect.{
  Exception, World, end_of_input, interrupt, os_error, raise_if, setup_error,
}
use air_vpn_wg_healthcheck.Effect.Hoare.{
  Ensures, Triple, Triple-bind, Triple-consequence, Triple-from, Triple-given, Triple-pure,
  Triple-raise, Triple-raise_if, Triple-try,
}
use air_vpn_wg_healthcheck.Disk.{Disk, Inode, is_regular}
use air_vpn_wg_healthcheck.Os.{Stat, stat_of}
use air_vpn_wg_healthcheck.Store.SecureRead.{Triple-fstat, Triple-pread}
use air_vpn_wg_healthcheck.Store.Reading.{Reads-fstat, Reads-silent}
use air_vpn_wg_healthcheck.Credential.{close_and_raise, is_credential, validate_credential_bytes}
use air_vpn_wg_healthcheck.PrivateInput.{
  Outside, check_credential_file, open_credential_file, read_credential_file,
}

-- A regular file of root with mode 0600 that holds one credential.
pub record IsCredentialFile (f : Inode) : Type 0 where
  pub regular_file : is_regular f.kind ≡ true
  pub owned_by_root : f.uid ≡ 0
  pub mode_private : f.mode ≡ 0o600
  pub holds_credential : is_credential f.content ≡ true

take_short : (n : ℕ) (s : Text) → length s ≤ n → take n s ≡ s
take_short zero [] h = refl
take_short (suc n) [] h = refl
take_short zero (c ∷ s) h = absurd (omega arith)
take_short (suc n) (c ∷ s) h = ap (λ (t : Text). c ∷ t) (take_short n s (omega arith))

-- What the tests of the metadata say.
abbrev Passes : Stat → Type 0
Passes m =
    ((m.size == 65) ≡ true)
    × ((m.mode == 0o600) ≡ true)
    × ((m.uid == 0) ≡ true)
    × (is_regular m.kind ≡ true)

module _ (outside : Outside) (d0 : Disk) where
  abbrev Unchanged : Disk → Type 0
  Unchanged d = d ≡ d0

  Triple-guard :
      (good : Bool) (e : Exception)
      → Triple Unchanged (raise_if (not good) e) (λ _ d. (good ≡ true) × Unchanged d) Unchanged
  Triple-guard good e =
      Triple-consequence (Triple-raise_if {P = Unchanged} (not good) e (λ d s. s)) (λ d s. s)
        (λ _ d s. (not-false good s.0, s.1)) (λ d s. s)

  Triple-check_credential_file :
      (m : Stat)
      → Triple Unchanged (check_credential_file m) (λ _ d. Passes m × Unchanged d) Unchanged
  unfolding check_credential_file
  Triple-check_credential_file m =
      Triple-bind (λ _ d. _ × Unchanged d) (Triple-guard _ _)
        λ _. Triple-given λ kind.
          Triple-bind (λ _ d. _ × Unchanged d) (Triple-guard _ _)
            λ _. Triple-given λ uid.
              Triple-bind (λ _ d. _ × Unchanged d) (Triple-guard _ _)
                λ _. Triple-given λ mode.
                  Triple-consequence (Triple-guard (m.size == 65) _) (λ d s. s)
                    (λ _ d s. ((s.0, mode, uid, kind), s.1)) (λ d s. s)

  passed :
      (fd : ℕ) (m : Stat) (value : Text)
      → m ≡ stat_of d0 fd
      → Passes m
      → value ≡ take 66 (d0.inodes fd).content
      → is_credential value ≡ true
      → IsCredentialFile (d0.inodes fd)
  passed fd m value e (size, mode, uid, kind) read good = record {
    regular_file = sym (ap (λ (x : Stat). is_regular x.kind) e) ∙ kind;
    owned_by_root = sym (ap (λ (x : Stat). x.uid) e) ∙ (==_iff m.uid 0).0 uid;
    mode_private = sym (ap (λ (x : Stat). x.mode) e) ∙ (==_iff m.mode 0o600).0 mode;
    holds_credential =
        subst (λ (t : Text). is_credential t ≡ true)
          (read ∙ take_short 66 (d0.inodes fd).content short) good;
  }
    where
      sized : length (d0.inodes fd).content ≡ 65
      sized = sym (ap (λ (x : Stat). x.size) e) ∙ (==_iff m.size 65).0 size

      short : length (d0.inodes fd).content ≤ 66
      short = omega (arith, sized)

  Triple-read_credential_file :
      (fd : ℕ)
      → Triple Unchanged
          (read_credential_file outside fd)
          (λ r d. (r ≡ fd) × IsCredentialFile (d.inodes r))
          (λ _. Unit {0})
  unfolding read_credential_file validate_credential_bytes
  Triple-read_credential_file fd =
      Triple-consequence
        (Triple-bind (λ m d. (m ≡ stat_of d0 fd) × Unchanged d) (Triple-fstat d0 fd)
          λ m. Triple-given λ named.
            Triple-bind (λ _ d. Passes m × Unchanged d) (Triple-check_credential_file m)
              λ _. Triple-given λ passes.
                Triple-bind (λ value d. (value ≡ take 66 (d0.inodes fd).content) × Unchanged d)
                  (Triple-pread d0 fd 66)
                  λ value. Triple-given λ read.
                    Triple-bind (λ _. Unchanged) (Triple-reads (Reads-fstat fd))
                      λ final.
                        Triple-bind (λ _ d. _ × Unchanged d) (Triple-guard _ _)
                          λ _. Triple-given λ same.
                            Triple-bind (λ _ d. _ × Unchanged d)
                              (Triple-guard (is_credential value) _)
                              λ _. Triple-given λ good.
                                Triple-bind (λ _. Unchanged) (Triple-reads Reads-silent)
                                  λ _. Triple-pure {E = Unchanged} fd (λ d e. (
                                    refl,
                                    subst (λ (x : Disk). IsCredentialFile (x.inodes fd)) (sym e)
                                        (passed fd m value named passes read good),
                                  )))
        (λ d e. e) (λ _ d s. s) (λ _ _. tt)

-- Nothing is returned behind an exception.
pub Triple-close_and_raise :
    {A : Type 0} {Q : A → Disk → Type 0} (e : Exception)
    → Triple (λ _. Unit {0}) (close_and_raise {A = A} e) Q (λ _. Unit {0})
unfolding close_and_raise
Triple-close_and_raise interrupt = Triple-raise _ (λ _ _. tt)
Triple-close_and_raise end_of_input =
    Triple-bind (λ _ _. Unit {0}) (Returns-anything _) λ _. Triple-raise _ (λ _ _. tt)
Triple-close_and_raise (setup_error m) =
    Triple-bind (λ _ _. Unit {0}) (Returns-anything _) λ _. Triple-raise _ (λ _ _. tt)
Triple-close_and_raise (os_error x) =
    Triple-bind (λ _ _. Unit {0}) (Returns-anything _) λ _. Triple-raise _ (λ _ _. tt)

Triple-open_credential_file :
    (outside : Outside) (path : Text)
    → Triple
        (λ _. Unit {0})
        (open_credential_file outside path)
        (λ fd d. IsCredentialFile (d.inodes fd))
        (λ _. Unit {0})
unfolding open_credential_file
Triple-open_credential_file outside path =
    Triple-bind (λ _ _. Unit {0}) (Returns-anything _)
      λ _.
        Triple-bind (λ _ _. Unit {0}) (Returns-anything _)
          λ fd.
            Triple-try
              (Triple-from λ d0 _.
                Triple-consequence (Triple-read_credential_file outside d0 fd) (λ d e. e)
                  (λ r d s. s.1) (λ _ _. tt))
              (λ _ _. tt) Triple-close_and_raise

-- Whatever the calls for directories and paths do, a descriptor that `open_credential_file` returns is, on the
-- disk at its return, a regular file of root with mode 0600 whose whole content is one credential: 64
-- lowercase hexadecimal digits and a newline.
pub open_credential_file-IsCredentialFile :
    (outside : Outside) (path : Text) (w : World)
    → Ensures
        (λ fd d. IsCredentialFile (d.inodes fd))
        (λ _. Unit {0})
        (open_credential_file outside path w)
open_credential_file-IsCredentialFile outside path w =
    (Triple-open_credential_file outside path).run w tt
