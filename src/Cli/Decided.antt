-- ===== src/Cli/Decided.antt =====
-- What `_complete_interactive_request` and `resolve_request` (libexec/wg_healthcheck_setup/cli.py) decide
-- together.
use air_vpn_wg_healthcheck.Text.{Text, codes, text_eq}
use air_vpn_wg_healthcheck.Credential.{is_some}
use air_vpn_wg_healthcheck.Cli.Prompts.{
  choose_action, choose_interactive_mode, choose_timer, complete_action, complete_decisions,
  complete_device, complete_interactive_request, complete_mode, complete_timer, input_line,
  is_api_text,
}
use air_vpn_wg_healthcheck.Model.{Action, Timer, disabled}
use air_vpn_wg_healthcheck.Prelude.{
  Bool, Bool-cases, List, Option, Option-cases, ap, arith, false, if◌then◌else◌, inl, inr, none,
  not, refl, some, subst, sym, true, ◌&&◌, ◌∙◌, ◌≡◌,
}
use air_vpn_wg_healthcheck.Effect.{M, World, pure}
use air_vpn_wg_healthcheck.Effect.Returning.{Returns, Returns-bind, Returns-pure, Returns-then}
use air_vpn_wg_healthcheck.Effect.Hoare.{Ensures, Triple-consequence}
use air_vpn_wg_healthcheck.Cli.{Arguments}

-- The arguments behind the questions: every decision is made, a decision that was given is kept, and
-- nothing else changed.
pub record IsDecided (args after : Arguments) : Type 0 where
  pub mode : Text
  pub action : Action
  pub timer : Timer
  pub device : Option Text
  pub decided :
      after
      ≡ record args { mode = some mode; action = some action; timer = some timer; device = device }
  pub mode_kept : (given : Text) → args.mode ≡ some given → mode ≡ given
  pub action_kept : (given : Action) → args.action ≡ some given → action ≡ given
  pub timer_kept : (given : Timer) → args.timer ≡ some given → timer ≡ given
  pub device_kept : (given : Text) → args.device ≡ some given → device ≡ some given
  pub reset_disables : args.timer ≡ none → args.reset_api_state ≡ true → timer ≡ disabled
  pub device_asked : text_eq mode (codes "api") ≡ true → is_some device ≡ true

module _ (ask write : Text → M (Unit {0})) (strip lower : Text → Text) (args : Arguments) where
  abbrev HasMode : Arguments × List Text → Type 0
  HasMode r =
      (mode : Text) × (r.0 ≡ record args { mode = some mode })
      × ((given : Text) → args.mode ≡ some given → mode ≡ given)

  Returns-complete_mode :
      (lines : List Text) → Returns HasMode (complete_mode ask write strip lower args lines)
  unfolding complete_mode
  Returns-complete_mode lines = elim (Option-cases args.mode) [
    | inl e ↦ rw e (
        Returns-then (choose_interactive_mode ask write strip lower lines)
          (λ (mode, rest). Returns-pure _ (mode, refl, λ given h. cc)))
    | inr (mode, e) ↦ rw e (Returns-pure _ (mode, refl, λ given h. cc))
  ]

  abbrev HasAction : Arguments × List Text → Type 0
  HasAction r =
      (action : Action) × (r.0 ≡ record args { action = some action })
      × ((given : Action) → args.action ≡ some given → action ≡ given)

  Returns-complete_action :
      (lines : List Text) → Returns HasAction (complete_action ask write strip lower args lines)
  unfolding complete_action
  Returns-complete_action lines = elim (Option-cases args.action) [
    | inl e ↦ rw e (
        Returns-then (choose_action ask write strip lower lines)
          (λ (action, rest). Returns-pure _ (action, refl, λ given h. cc)))
    | inr (action, e) ↦ rw e (Returns-pure _ (action, refl, λ given h. cc))
  ]

  abbrev HasTimer : Arguments × List Text → Type 0
  HasTimer r =
      (timer : Timer) × (r.0 ≡ record args { timer = some timer })
      × ((given : Timer) → args.timer ≡ some given → timer ≡ given)
      × (args.timer ≡ none → args.reset_api_state ≡ true → timer ≡ disabled)

  Returns-complete_timer :
      (lines : List Text) → Returns HasTimer (complete_timer ask write strip lower args lines)
  unfolding complete_timer
  Returns-complete_timer lines = elim (Option-cases args.timer) [
    | inl e ↦ elim (Bool-cases args.reset_api_state) [
      | inl r ↦ rw (e, r) (Returns-pure _ (disabled, refl, (λ given h. cc), λ _ _. refl))
      | inr r ↦
          rw (e, r)
            (Returns-then (choose_timer ask write strip lower lines)
              (λ (timer, rest). Returns-pure _ (timer, refl, (λ given h. cc), λ _ t. cc)))
    ]
    | inr (timer, e) ↦ rw e (Returns-pure _ (timer, refl, (λ given h. cc), λ n _. cc))
  ]

  abbrev HasDevice : Arguments × List Text → Type 0
  HasDevice r =
      (device : Option Text) × (r.0 ≡ record args { device = device })
      × ((given : Text) → args.device ≡ some given → device ≡ some given)
      × (is_api_text args.mode ≡ true → is_some device ≡ true)

  Returns-complete_device :
      (lines : List Text) → Returns HasDevice (complete_device ask write strip lower args lines)
  unfolding complete_device
  Returns-complete_device lines =
      elim (Bool-cases (is_api_text args.mode && not (is_some args.device))) [
        | inl e ↦ rw e (
            Returns-then
              (input_line ask write strip lower (codes "AirVPN device name [default]: ") lines)
              (λ (proposed, rest).
                Returns-pure _ (some _, refl, (λ given h. ground arith), λ _. refl)))
        | inr e ↦
            rw e
              (Returns-pure (args, lines) (args.device, refl, (λ given h. h), λ api. ground arith))
      ]

module _ (ask write : Text → M (Unit {0})) (strip lower : Text → Text) where
  steps-IsDecided :
      (args : Arguments) (r1 r2 r3 r4 : Arguments × List Text)
      → HasMode ask write strip lower args r1
      → HasAction ask write strip lower r1.0 r2
      → HasTimer ask write strip lower r2.0 r3
      → HasDevice ask write strip lower r3.0 r4
      → IsDecided args r4.0
  steps-IsDecided args r1 r2 r3 r4 (mode, e1, mode_kept) (action, e2, action_kept)
        (timer, e3, timer_kept, reset) (device, e4, device_kept, asked) =
      let two : r2.0 ≡ record args { mode = some mode; action = some action } =
        e2 ∙ ap (λ (x : Arguments). record x { action = some action }) e1 in
      let three : r3.0
          ≡ record args { mode = some mode; action = some action; timer = some timer } =
        e3 ∙ ap (λ (x : Arguments). record x { timer = some timer }) two in
      record {
        mode = mode;
        action = action;
        timer = timer;
        device = device;
        decided = e4 ∙ ap (λ (x : Arguments). record x { device = device }) three;
        mode_kept = mode_kept;
        action_kept = λ given h. action_kept given (ap (λ (x : Arguments). x.action) e1 ∙ h);
        timer_kept = λ given h. timer_kept given (ap (λ (x : Arguments). x.timer) two ∙ h);
        device_kept = λ given h. device_kept given (ap (λ (x : Arguments). x.device) three ∙ h);
        reset_disables = λ n h.
            reset (ap (λ (x : Arguments). x.timer) two ∙ n)
              (ap (λ (x : Arguments). x.reset_api_state) two ∙ h);
        device_asked = λ h. asked (ap (λ (x : Arguments). is_api_text x.mode) three ∙ h);
      }

  Returns-complete_decisions :
      (args : Arguments) (lines : List Text)
      → Returns (λ r. IsDecided args r.0) (complete_decisions ask write strip lower args lines)
  unfolding complete_decisions
  Returns-complete_decisions args lines =
      Returns-bind (HasMode ask write strip lower args)
        (Returns-complete_mode ask write strip lower args lines)
        λ r1 h1.
          Returns-bind (HasAction ask write strip lower r1.0)
            (Returns-complete_action ask write strip lower r1.0 r1.1)
            λ r2 h2.
              Returns-bind (HasTimer ask write strip lower r2.0)
                (Returns-complete_timer ask write strip lower r2.0 r2.1)
                λ r3 h3.
                  Triple-consequence (Returns-complete_device ask write strip lower r3.0 r3.1)
                    (λ _ _. tt) (λ r4 _ h4. steps-IsDecided args r1 r2 r3 r4 h1 h2 h3 h4)
                    (λ _ _. tt)

  pub Returns-complete_interactive_request :
      (args : Arguments) (lines : List Text)
      → args.non_interactive ≡ false
      → Returns
          (λ r. IsDecided args r.0)
          (complete_interactive_request ask write strip lower args lines)
  unfolding complete_interactive_request
  Returns-complete_interactive_request args lines n =
      subst
        (λ (b : Bool).
          Returns (λ r. IsDecided args r.0)
            (if b then pure (args, lines) else complete_decisions ask write strip lower args lines))
        (sym n) (Returns-complete_decisions args lines)

-- Whatever the terminal does, if `complete_interactive_request` returns for a run with questions, the mode,
-- the action and the timer outcome are decided, in API mode a device is; a decision that the arguments gave
-- is kept, a reset of the API state without a timer outcome leaves the timer disabled, and nothing else in
-- the arguments changed.
pub complete_interactive_request-IsDecided :
    (ask write : Text → M (Unit {0})) (strip lower : Text → Text) (args : Arguments)
    (lines : List Text) (w : World)
    → args.non_interactive ≡ false
    → Ensures
        (λ r _. IsDecided args r.0)
        (λ _. Unit {0})
        (complete_interactive_request ask write strip lower args lines w)
complete_interactive_request-IsDecided ask write strip lower args lines w n =
    (Returns-complete_interactive_request ask write strip lower args lines n).run w tt
