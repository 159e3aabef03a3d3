-- ===== src/Cli/Refused.antt =====
-- What `main` (libexec/wg_healthcheck_setup/cli.py) does with a command line that is no request.
use air_vpn_wg_healthcheck.Application.Persisting.{lift-Triple}
use air_vpn_wg_healthcheck.System.{lift}
use air_vpn_wg_healthcheck.Result.{ok}
use air_vpn_wg_healthcheck.Disk.{Disk}
use air_vpn_wg_healthcheck.Store.Reading.{Reads-geteuid}
use air_vpn_wg_healthcheck.Os.{geteuid_call}
use air_vpn_wg_healthcheck.Cli.Exits.{IsSilent}
use air_vpn_wg_healthcheck.Cli.Execute.{
  CredentialSource, Surroundings, execute_request, exit_code, main, run_setup,
}
use air_vpn_wg_healthcheck.Cli.Resolved.{IsAccepted, resolve_request-IsAccepted}
use air_vpn_wg_healthcheck.Cli.Resolve.{resolve_request}
use air_vpn_wg_healthcheck.Cli.Prompts.{complete_interactive_request}
use air_vpn_wg_healthcheck.Cli.{Arguments, deny_secret_inputs}
use air_vpn_wg_healthcheck.Model.{Mode, SetupRequest}
use air_vpn_wg_healthcheck.Effect.Reads.{Triple-reads}
use air_vpn_wg_healthcheck.Effect.Hoare.{
  Ensures, Triple, Triple-bind, Triple-consequence, Triple-given, Triple-pure, Triple-raise,
  Triple-raise_if, Triple-try,
}
use air_vpn_wg_healthcheck.Effect.{
  Exception, M, Message, World, end_of_input, interrupt, os_error, pure, raise_if, returned, setup,
  setup_error, system_call, ◌>>=◌, ◌>>◌,
}
use air_vpn_wg_healthcheck.Text.{Text}
use air_vpn_wg_healthcheck.Prelude.{
  Bool, List, Option, ap, false, if◌then◌else◌, inl, inr, not, refl, subst, sym, true, ℕ, ◌==◌, ◌∙◌,
  ◌≡◌, ◌⊎◌,
}

Triple-IsSilent :
    {A : Type 0} {P : Disk → Type 0} (m : M A) (a : A)
    → IsSilent m a
    → Triple P m (λ b d. (b ≡ a) × P d) P
Triple-IsSilent m a silent = record { run = λ w p. rw (silent w) (refl, p) }

-- Without questions the arguments stay as they are.
complete-IsSilent :
    (ask write : Text → M (Unit {0})) (strip lower : Text → Text) (args : Arguments)
    (lines : List Text)
    → args.non_interactive ≡ true
    → IsSilent (complete_interactive_request ask write strip lower args lines) (args, lines)
unfolding complete_interactive_request
complete-IsSilent ask write strip lower args lines n w = at_once args.non_interactive n _
  where
    at_once :
        (b : Bool)
        → b ≡ true
        → (asked : M (Arguments × List Text))
        → (if b then pure (args, lines) else asked) w ≡ (returned (args, lines), w)
    at_once true e asked = refl
    at_once false e asked = cc

abbrev IsRefusal : ℕ → Type 0
IsRefusal code = (code ≡ 64) ⊎ (code ≡ 130)

module _ (around : Surroundings) (source : CredentialSource) (disable_core_dumps : M (Unit {0}))
    (parse : List Text → M Arguments) (print_error : Message → M (Unit {0})) (start : Disk) where
  abbrev Same : Disk → Type 0
  Same d = d ≡ start

  Triple-run_setup :
      (api_key_set : Bool) (argv lines : List Text) (args : Arguments)
      → IsSilent disable_core_dumps tt
      → IsSilent (parse argv) args
      → args.non_interactive ≡ true
      → ((mode : Option Mode) → ¬ IsAccepted around.upper around.words args mode)
      → Triple Same
          (run_setup around source disable_core_dumps parse print_error api_key_set argv lines)
          (λ _ _. ⊥)
          Same
  unfolding run_setup
  Triple-run_setup api_key_set argv lines args silent parsed n refused =
      Triple-bind (λ b d. (b ≡ tt) × Same d) (Triple-IsSilent disable_core_dumps tt silent)
        λ _. Triple-given λ _.
          Triple-bind (λ _ d. (deny_secret_inputs api_key_set argv ≡ ok tt) × Same d)
            (lift-Triple Same (deny_secret_inputs api_key_set argv))
            λ _. Triple-given λ _.
              Triple-bind (λ _ d. (deny_secret_inputs api_key_set argv ≡ ok tt) × Same d)
                (lift-Triple Same (deny_secret_inputs api_key_set argv))
                λ _. Triple-given λ _.
                  Triple-bind (λ b d. (b ≡ args) × Same d)
                    (Triple-IsSilent (parse argv) args parsed)
                    λ read. Triple-given λ same.
                      subst (λ (x : Arguments). Triple Same (behind x) (λ _ _. ⊥) Same) (sym same)
                        behind-refused
    where
      behind : Arguments → M ℕ
      behind x = do
        euid ← system_call geteuid_call
        raise_if (not (euid == 0)) (setup "setup must run as root")
        (completed, rest) ←
            complete_interactive_request around.ask around.write around.strip around.lower x lines
        request ← lift (resolve_request around.upper around.words completed)
        execute_request around source request rest
        pure 0

      unresolved :
          (request : SetupRequest) → resolve_request around.upper around.words args ≡ ok request → ⊥
      unresolved request e =
          let (mode, _, accepted) =
            (resolve_request-IsAccepted around.upper around.words args request).0 e in
          refused mode accepted

      behind-refused : Triple Same (behind args) (λ _ _. ⊥) Same
      behind-refused =
          Triple-bind (λ _. Same) (Triple-reads Reads-geteuid)
            λ euid.
              Triple-bind (λ _ d. (not (euid == 0) ≡ false) × Same d)
                (Triple-raise_if _ _ (λ _ e. e))
                λ _. Triple-given λ _.
                  Triple-bind (λ r d. (r ≡ (args, lines)) × Same d)
                    (Triple-IsSilent _ (args, lines)
                      (complete-IsSilent around.ask around.write around.strip around.lower args
                        lines n))
                    λ r. Triple-given λ same.
                      Triple-bind
                        (λ request d.
                          (resolve_request around.upper around.words r.0 ≡ ok request) × Same d)
                        (lift-Triple Same (resolve_request around.upper around.words r.0))
                        λ request. Triple-given λ e. absurd (
                          unresolved request (
                            ap
                              (λ (q : Arguments × List Text).
                                resolve_request around.upper around.words q.0)
                              (sym same)
                            ∙ e))

  Triple-exit_code :
      (e : Exception)
      → ((message : Message) → IsSilent (print_error message) tt)
      → Triple Same
          (exit_code around source disable_core_dumps parse print_error e)
          (λ code d. IsRefusal code × Same d)
          Same
  unfolding exit_code
  Triple-exit_code (setup_error message) printed = tell 64 (inl refl) message
    where
      tell :
          (code : ℕ)
          → IsRefusal code
          → (message : Message)
          → Triple Same (print_error message >> pure code) (λ code d. IsRefusal code × Same d) Same
      tell code c message =
          Triple-bind (λ b d. (b ≡ tt) × Same d) (Triple-IsSilent _ tt (printed message))
            λ _. Triple-pure code (λ d s. (c, s.1))
  Triple-exit_code end_of_input printed =
      Triple-bind (λ b d. (b ≡ tt) × Same d) (Triple-IsSilent _ tt (printed _))
        λ _. Triple-pure 130 (λ d s. (inr refl, s.1))
  Triple-exit_code interrupt printed =
      Triple-bind (λ b d. (b ≡ tt) × Same d) (Triple-IsSilent _ tt (printed _))
        λ _. Triple-pure 130 (λ d s. (inr refl, s.1))
  Triple-exit_code (os_error x) printed = Triple-raise _ (λ _ e. e)

-- A non-interactive command line whose options are no accepted combination never goes through: for every
-- source of credentials, every helper process and every world, with whatever failures, interrupts and
-- kills, `main` returns 64 or 130 and no other status, and the disk is as it was however it ends. Switching
-- off core dumps, the parser and printing the message are taken to return without an effect.
pub main-IsRefusal :
    (around : Surroundings) (source : CredentialSource) (disable_core_dumps : M (Unit {0}))
    (parse : List Text → M Arguments) (print_error : Message → M (Unit {0})) (api_key_set : Bool)
    (argv lines : List Text) (args : Arguments) (w : World)
    → IsSilent disable_core_dumps tt
    → ((message : Message) → IsSilent (print_error message) tt)
    → IsSilent (parse argv) args
    → args.non_interactive ≡ true
    → ((mode : Option Mode) → ¬ IsAccepted around.upper around.words args mode)
    → Ensures
        (λ code d. ((code ≡ 64) ⊎ (code ≡ 130)) × (d ≡ w.disk))
        (λ d. d ≡ w.disk)
        (main around source disable_core_dumps parse print_error api_key_set argv lines w)
unfolding main
main-IsRefusal around source disable_core_dumps parse print_error api_key_set argv lines args w
      silent printed parsed n refused =
    (Triple-try
        (Triple-consequence
          (Triple-run_setup around source disable_core_dumps parse print_error w.disk api_key_set
            argv lines args silent parsed n refused)
          (λ d e. e) (λ _ d e. absurd e) (λ d e. e))
        (λ d e. e)
        (λ e.
          Triple-exit_code around source disable_core_dumps parse print_error w.disk e printed)).run
      w refl
