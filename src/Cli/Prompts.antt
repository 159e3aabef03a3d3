-- ===== src/Cli/Prompts.antt =====
-- The questions of an interactive run (libexec/wg_healthcheck_setup/cli.py): `choose_interactive_mode`,
-- `_choose_action`, `_choose_timer` and `_complete_interactive_request`. `ask` is what `input` does with its
-- prompt until a line is there, `write` is `output.write`; the lines that will be typed are a list that
-- each question takes from, and its end is EOFError.
use air_vpn_wg_healthcheck.Credential.{is_some}
use air_vpn_wg_healthcheck.Prelude.{
  Bool, List, Option, [], false, if◌then◌else◌, none, not, some, ◌&&◌, ◌∷◌,
}
use air_vpn_wg_healthcheck.Text.{Text, codes, mem_text, text_eq}
use air_vpn_wg_healthcheck.Model.{Action, Timer, apply_action, disabled, dry_run, enable}
use air_vpn_wg_healthcheck.Effect.{M, end_of_input, pure, raise, ◌>>=◌, ◌>>◌}
use air_vpn_wg_healthcheck.Cli.{Arguments}

abbrev pub mode_answer : Text → Option Text
mode_answer answer =
    if mem_text answer (codes "1" ∷ codes "static" ∷ [])
    then some (codes "static")
    else if mem_text answer (codes "2" ∷ codes "api" ∷ [])
    then some (codes "api")
    else none

abbrev pub action_answer : Text → Option Action
action_answer answer =
    if mem_text answer (codes "1" ∷ codes "dry-run" ∷ codes "dry" ∷ [])
    then some dry_run
    else if mem_text answer (codes "2" ∷ codes "apply" ∷ [])
    then some apply_action
    else none

abbrev pub timer_answer : Text → Option Timer
timer_answer answer =
    if mem_text answer (codes "1" ∷ codes "disabled" ∷ codes "leave" ∷ [])
    then some disabled
    else if mem_text answer (codes "2" ∷ codes "enable" ∷ [])
    then some enable
    else none

-- proposed or "default"
unfoldable pub or_default : Text → Text
or_default [] = codes "default"
or_default proposed = proposed

abbrev pub is_api_text : Option Text → Bool
is_api_text none = false
is_api_text (some mode) = text_eq mode (codes "api")

module _ (ask write : Text → M (Unit {0})) (strip lower : Text → Text) where
  -- `while True` around a question: the lines are read until one of them is an answer.
  unfoldable pub choose :
      {A : Type 0} → Text → Text → (Text → Option A) → List Text → M (A × List Text)
  choose question again meaning [] = ask question >> raise end_of_input
  choose question again meaning (line ∷ lines) =
      let rest = choose question again meaning lines in
      ask question >> elim (meaning (lower (strip line))) [
        | some a ↦ pure (a, lines)
        | none ↦ write again >> rest
      ]

  -- `choose_interactive_mode`
  unfoldable pub choose_interactive_mode : List Text → M (Text × List Text)
  choose_interactive_mode lines = do
    write (
        codes
          "Choose a profile mode:\n  1. Existing/static WireGuard profile\n  2. AirVPN API-managed profile\n")
    choose (codes "Mode [1/2]: ") (codes "Select 1 for static or 2 for API-managed mode.\n")
        mode_answer lines

  -- `_choose_action`
  unfoldable pub choose_action : List Text → M (Action × List Text)
  choose_action lines = do
    write (codes "Choose an action:\n  1. Dry run only\n  2. Apply after validation\n")
    choose (codes "Action [1/2]: ") (codes "Select 1 for dry run or 2 to apply.\n") action_answer
        lines

  -- `_choose_timer`
  unfoldable pub choose_timer : List Text → M (Timer × List Text)
  choose_timer lines = do
    write (
        codes
          "Choose the timer outcome:\n  1. Leave the timer disabled\n  2. Enable only after a successful health check\n")
    choose (codes "Timer [1/2]: ")
        (codes "Select 1 to leave disabled or 2 to enable after verification.\n") timer_answer lines

  -- input_fn(question)
  unfoldable pub input_line : Text → List Text → M (Text × List Text)
  input_line question [] = ask question >> raise end_of_input
  input_line question (line ∷ lines) = ask question >> pure (line, lines)

  -- The four steps of `_complete_interactive_request`.
  unfoldable pub complete_mode : Arguments → List Text → M (Arguments × List Text)
  complete_mode args lines = if is_some args.mode then pure (args, lines) else do
    (mode, rest) ← choose_interactive_mode lines
    pure (record args { mode = some mode }, rest)

  unfoldable pub complete_action : Arguments → List Text → M (Arguments × List Text)
  complete_action args lines = if is_some args.action then pure (args, lines) else do
    (action, rest) ← choose_action lines
    pure (record args { action = some action }, rest)

  unfoldable pub complete_timer : Arguments → List Text → M (Arguments × List Text)
  complete_timer args lines =
      if is_some args.timer
      then pure (args, lines)
      else if args.reset_api_state
      then pure (record args { timer = some disabled }, lines)
      else do (timer, rest) ← choose_timer lines; pure (record args { timer = some timer }, rest)

  unfoldable pub complete_device : Arguments → List Text → M (Arguments × List Text)
  complete_device args lines =
      if is_api_text args.mode && not (is_some args.device)
      then (do
        (proposed, rest) ← input_line (codes "AirVPN device name [default]: ") lines
        pure (record args { device = some (or_default (strip proposed)) }, rest))
      else pure (args, lines)

  unfoldable pub complete_decisions : Arguments → List Text → M (Arguments × List Text)
  complete_decisions args lines = do
    (with_mode, lines1) ← complete_mode args lines
    (with_action, lines2) ← complete_action with_mode lines1
    (with_timer, lines3) ← complete_timer with_action lines2
    complete_device with_timer lines3

  -- `_complete_interactive_request`
  unfoldable pub complete_interactive_request : Arguments → List Text → M (Arguments × List Text)
  complete_interactive_request args lines =
      let decisions = complete_decisions args lines in
      if args.non_interactive then pure (args, lines) else decisions
