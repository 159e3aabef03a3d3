-- ===== src/PrivateInput/Typed.antt =====
-- The file behind `read_hidden_credential` (libexec/wg_healthcheck_setup/private_io.py).
use air_vpn_wg_healthcheck.Store.Create.{some_bytes, write_all}
use air_vpn_wg_healthcheck.Effect.Reads.{Triple-reads}
use air_vpn_wg_healthcheck.Prelude.{
  ==_refl, [], ap, append-nil, append_assoc, arith, drop, false, length, not, not-false, refl,
  subst, suc, sym, take, take-append-drop, true, zero, ℕ, ◌++◌, ◌==◌, ◌||◌, ◌∙◌, ◌∷◌, ◌≡◌,
}
use air_vpn_wg_healthcheck.Text.{Text}
use air_vpn_wg_healthcheck.Effect.{World, system_call}
use air_vpn_wg_healthcheck.Effect.Hoare.{
  Ensures, Triple, Triple-bind, Triple-call, Triple-consequence, Triple-given, Triple-pure,
  Triple-raise, Triple-raise_if, Triple-try,
}
use air_vpn_wg_healthcheck.Effect.Returning.{Returns-anything}
use air_vpn_wg_healthcheck.Disk.{Disk, is_regular}
use air_vpn_wg_healthcheck.Disk.Update.{update_inode_field}
use air_vpn_wg_healthcheck.Os.{
  Stat, fchmod_call, fstat_call, silent_call, stat_of, temporary_call, write_call,
}
use air_vpn_wg_healthcheck.Store.Atomic.{take-up_to}
use air_vpn_wg_healthcheck.Store.Reading.{Reads-silent}
use air_vpn_wg_healthcheck.Credential.{
  fill_temporary, is_credential, private_temporary, validate_credential_bytes,
}
use air_vpn_wg_healthcheck.PrivateInput.{Outside, credential_from_bytes, read_hidden_credential}
use air_vpn_wg_healthcheck.PrivateInput.Opened.{IsCredentialFile, Triple-close_and_raise}

abbrev Anything : Disk → Type 0
Anything _ = Unit {0}

-- What the file behind the descriptor holds.
abbrev HoldsText : ℕ → Text → Disk → Type 0
HoldsText fd text d = (d.inodes fd).content ≡ text

Triple-temporary : Triple Anything (system_call temporary_call) (λ fd. HoldsText fd []) Anything
unfolding temporary_call
Triple-temporary =
    Triple-call _ (λ _ _. tt) (λ _ _ _. tt) (λ limit d _. rw (==_refl d.next_inode) refl)

Triple-fchmod :
    (fd mode : ℕ) (text : Text)
    → Triple
        (HoldsText fd text)
        (system_call (fchmod_call fd mode))
        (λ _. HoldsText fd text)
        Anything
unfolding fchmod_call
Triple-fchmod fd mode text =
    Triple-call _ (λ _ _. tt) (λ _ _ _. tt)
      (λ limit d e. update_inode_field (λ x. x.content) d.inodes fd _ fd refl ∙ e)

Triple-next_write :
    (fd : ℕ) (written bytes : Text)
    → Triple
        (HoldsText fd written)
        (system_call (write_call fd bytes))
        (λ sent. HoldsText fd (written ++ take sent bytes))
        Anything
unfolding write_call
Triple-next_write fd written bytes =
    Triple-call _ (λ _ _. tt) (λ _ _ _. tt)
      (λ limit d e. rw (==_refl fd, e) (ap (λ r. written ++ r) (sym (take-up_to limit bytes))))

Triple-write_all :
    (fd fuel : ℕ) (written rest : Text)
    → Triple
        (HoldsText fd written)
        (write_all fuel fd rest)
        (λ _. HoldsText fd (written ++ rest))
        Anything
unfolding write_all
Triple-write_all fd fuel written [] = rw (append-nil written) (Triple-pure tt (λ d s. s))
Triple-write_all fd zero written (c ∷ rest) = Triple-raise _ (λ _ _. tt)
Triple-write_all fd (suc fuel) written (c ∷ rest) =
    Triple-bind (λ sent. HoldsText fd (written ++ take sent (c ∷ rest)))
      (Triple-next_write fd written (c ∷ rest))
      (more
        (λ sent. Triple-write_all fd fuel (written ++ take sent (c ∷ rest)) (drop sent (c ∷ rest))))
  where
    Next : ℕ → Text → Type 0
    Next sent text =
        Triple (HoldsText fd (written ++ take sent (c ∷ rest)))
          (write_all fuel fd (drop sent (c ∷ rest))) (λ _. HoldsText fd text) Anything

    more :
        ((sent : ℕ) → Next sent ((written ++ take sent (c ∷ rest)) ++ drop sent (c ∷ rest)))
        → (sent : ℕ)
        → Triple
            (HoldsText fd (written ++ take sent (c ∷ rest)))
            (some_bytes (λ n. write_all fuel fd (drop n (c ∷ rest))) sent)
            (λ _. HoldsText fd (written ++ c ∷ rest))
            Anything
    more next zero = Triple-raise _ (λ _ _. tt)
    more next (suc n) =
        subst (Next (suc n))
          (append_assoc written (take (suc n) (c ∷ rest)) (drop (suc n) (c ∷ rest))
            ∙ ap (λ r. written ++ r) (take-append-drop (suc n) (c ∷ rest)))
          (next (suc n))

Triple-metadata :
    (fd : ℕ) (text : Text)
    → Triple
        (HoldsText fd text)
        (system_call (fstat_call fd))
        (λ m d. (m ≡ stat_of d fd) × HoldsText fd text d)
        Anything
unfolding fstat_call
Triple-metadata fd text = Triple-call _ (λ _ _. tt) (λ _ _ _. tt) (λ limit d e. (refl, e))

private_file :
    (fd : ℕ) (value : Text) (m : Stat) (d : Disk)
    → is_credential value ≡ true
    → (not (is_regular m.kind) || not (m.mode == 0o600) || not (m.uid == 0)) ≡ false
    → m ≡ stat_of d fd
    → HoldsText fd value d
    → IsCredentialFile (d.inodes fd)
private_file fd value m d good tested e holds = record {
  regular_file = sym (ap (λ (x : Stat). is_regular x.kind) e) ∙ ground arith;
  owned_by_root = sym (ap (λ (x : Stat). x.uid) e) ∙ ground arith;
  mode_private = sym (ap (λ (x : Stat). x.mode) e) ∙ ground arith;
  holds_credential = subst (λ (t : Text). is_credential t ≡ true) (sym holds) good;
}

Triple-silent :
    (fd : ℕ) (text : Text)
    → Triple (HoldsText fd text) (system_call silent_call) (λ _. HoldsText fd text) Anything
Triple-silent fd text =
    Triple-consequence (Triple-reads Reads-silent) (λ d e. e) (λ _ d e. e) (λ _ _. tt)

Triple-fill_temporary :
    (fd : ℕ) (value : Text)
    → is_credential value ≡ true
    → Triple
        (HoldsText fd [])
        (fill_temporary fd value)
        (λ fd d. IsCredentialFile (d.inodes fd))
        Anything
unfolding fill_temporary
Triple-fill_temporary fd value good =
    Triple-bind (λ _. HoldsText fd []) (Triple-fchmod fd 0o600 [])
      λ _.
        Triple-bind (λ _. HoldsText fd value) (Triple-write_all fd (length value) [] value)
          λ _.
            Triple-bind (λ _. HoldsText fd value) (Triple-silent fd value)
              λ _.
                Triple-bind (λ _. HoldsText fd value) (Triple-silent fd value)
                  λ _.
                    Triple-bind (λ m d. (m ≡ stat_of d fd) × HoldsText fd value d)
                      (Triple-metadata fd value)
                      λ m.
                        Triple-bind
                          (λ _ d.
                            ((not (is_regular m.kind) || not (m.mode == 0o600) || not (m.uid == 0))
                              ≡ false)
                            × ((m ≡ stat_of d fd) × HoldsText fd value d))
                          (Triple-raise_if {P = λ d. (m ≡ stat_of d fd) × HoldsText fd value d} _ _
                            (λ _ _. tt))
                          λ _.
                            Triple-pure fd (λ d s. private_file fd value m d good s.0 s.1.0 s.1.1)

Triple-private_temporary :
    (value : Text)
    → is_credential value ≡ true
    → Triple Anything (private_temporary value) (λ fd d. IsCredentialFile (d.inodes fd)) Anything
unfolding private_temporary
Triple-private_temporary value good =
    Triple-bind (λ fd. HoldsText fd []) Triple-temporary
      λ fd. Triple-try (Triple-fill_temporary fd value good) (λ _ _. tt) Triple-close_and_raise

Triple-credential_from_bytes :
    (outside : Outside) (value : Text)
    → Triple Anything
        (credential_from_bytes outside value)
        (λ fd d. IsCredentialFile (d.inodes fd))
        Anything
unfolding credential_from_bytes validate_credential_bytes
Triple-credential_from_bytes outside value =
    Triple-bind (λ _ d. (not (is_credential value) ≡ false) × Anything d)
      (Triple-raise_if _ _ (λ _ _. tt))
      λ _. Triple-given λ good. Triple-private_temporary value (not-false _ good)

Triple-read_hidden_credential :
    (outside : Outside)
    → Triple Anything
        (read_hidden_credential outside)
        (λ fd d. IsCredentialFile (d.inodes fd))
        Anything
unfolding read_hidden_credential
Triple-read_hidden_credential outside =
    Triple-bind (λ _. Anything) (Returns-anything _)
      λ _.
        Triple-bind (λ _. Anything) (Returns-anything _)
          λ tty_fd.
            Triple-bind (λ _. Anything) (Returns-anything _)
              λ secret.
                Triple-bind (λ _. Anything) (Returns-anything _)
                  λ _. Triple-credential_from_bytes outside _

-- Whatever is typed and whatever the terminal does, a descriptor that `read_hidden_credential` returns is, on
-- the disk at its return, a regular file of root with mode 0600 whose whole content is one credential; a
-- write that is cut short is not taken for the whole.
pub read_hidden_credential-IsCredentialFile :
    (outside : Outside) (w : World)
    → Ensures
        (λ fd d. IsCredentialFile (d.inodes fd))
        (λ _. Unit {0})
        (read_hidden_credential outside w)
read_hidden_credential-IsCredentialFile outside w = (Triple-read_hidden_credential outside).run w tt
