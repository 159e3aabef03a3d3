-- ===== src/Cli/Typed.antt =====
-- What an interactive run (libexec/wg_healthcheck_setup/cli.py) makes of the typed lines.
use air_vpn_wg_healthcheck.Cli.{Arguments}
use air_vpn_wg_healthcheck.Cli.Answered.{
  Answers, IsQuiet, Says, Says-none, Says-some, choose_lem, then-quiet, two_answers,
}
use air_vpn_wg_healthcheck.Cli.Prompts.{
  choose, choose_action, choose_interactive_mode, choose_timer, complete_action, complete_decisions,
  complete_device, complete_interactive_request, complete_mode, complete_timer, input_line,
  or_default,
}
use air_vpn_wg_healthcheck.Model.{Action, Timer, apply_action, disabled, dry_run, enable}
use air_vpn_wg_healthcheck.Effect.{M, World, returned, ◌>>=◌}
use air_vpn_wg_healthcheck.Text.{Text, codes, mem_text, text_eq}
use air_vpn_wg_healthcheck.Prelude.{
  All, Bool, List, Option, [], ap, false, if◌then◌else◌, none, refl, some, true, ◌&&◌, ◌∙◌, ◌∷◌,
  ◌≡◌, ◌≢◌,
}

-- The words of the three questions.
abbrev pub SaysMode : Text → Text → Type 0
SaysMode =
    Says (codes "1" ∷ codes "static" ∷ []) (codes "static") (codes "2" ∷ codes "api" ∷ [])
      (codes "api")

abbrev pub SaysAction : Text → Action → Type 0
SaysAction =
    Says (codes "1" ∷ codes "dry-run" ∷ codes "dry" ∷ []) dry_run (codes "2" ∷ codes "apply" ∷ [])
      apply_action

abbrev pub SaysTimer : Text → Timer → Type 0
SaysTimer =
    Says (codes "1" ∷ codes "disabled" ∷ codes "leave" ∷ []) disabled
      (codes "2" ∷ codes "enable" ∷ []) enable

-- The device of the run: no question in static mode, or where the device was given; otherwise the next
-- line, or "default" for an empty one.
pub data TakesDevice (strip : Text → Text) (mode : Text) (given : Option Text) (lines : List Text)
    (device : Option Text) (rest : List Text) : Type 0 where
  in_static :
      mode ≡ codes "static"
      → device ≡ given
      → rest ≡ lines
      → TakesDevice strip mode given lines device rest
  was_given :
      (name : Text)
      → given ≡ some name
      → device ≡ given
      → rest ≡ lines
      → TakesDevice strip mode given lines device rest
  typed :
      (line : Text)
      → mode ≡ codes "api"
      → given ≡ none
      → lines ≡ line ∷ rest
      → strip line ≢ []
      → device ≡ some (strip line)
      → TakesDevice strip mode given lines device rest
  left_out :
      (line : Text)
      → mode ≡ codes "api"
      → given ≡ none
      → lines ≡ line ∷ rest
      → strip line ≡ []
      → device ≡ some (codes "default")
      → TakesDevice strip mode given lines device rest

no_words :
    {A : Type 0} (clean : Text → Text) (says : Text → A → Type 0) (meaning : Text → Option A)
    → ((word : Text) → ((answer : A) → ¬ says word answer) → meaning word ≡ none)
    → (lines : List Text) → All (λ l. (other : A) → ¬ says (clean l) other) lines
    → All (λ l. meaning (clean l) ≡ none) lines
no_words clean says meaning k [] h = tt
no_words clean says meaning k (l ∷ lines) (n, h) =
    (k (clean l) n, no_words clean says meaning k lines h)

module _ (ask write : Text → M (Unit {0})) (strip lower : Text → Text) (ask_quiet : IsQuiet ask)
    (write_quiet : IsQuiet write) where
  abbrev clean : Text → Text
  clean line = lower (strip line)

  choose-Answers :
      {A : Type 0} (question again : Text) (ws : List Text) (a : A) (vs : List Text) (b : A)
      (apart : All (λ v. mem_text v ws ≡ false) vs) (lines rest : List Text) (answer : A)
      (w : World)
      → Answers clean (Says ws a vs b) lines answer rest
      → choose ask write strip lower question again (two_answers ws a vs b) lines w
        ≡ (returned (answer, rest), w)
  choose-Answers question again ws a vs b apart lines rest answer w h =
      ap (λ ls. choose ask write strip lower question again (two_answers ws a vs b) ls w) h.cut
      ∙ choose_lem ask write strip lower ask_quiet write_quiet question again
          (two_answers ws a vs b) h.skipped h.line rest answer w
          (no_words clean (Says ws a vs b) (two_answers ws a vs b) (Says-none ws a vs b apart)
            h.skipped h.no_answers)
          (Says-some ws a vs b apart (clean h.line) answer h.is_answer)

  mode-Answers :
      (lines rest : List Text) (mode : Text) (w : World)
      → Answers clean SaysMode lines mode rest
      → choose_interactive_mode ask write strip lower lines w ≡ (returned (mode, rest), w)
  unfolding choose_interactive_mode mem_text text_eq
  mode-Answers lines rest mode w h =
      then-quiet ask write strip lower ask_quiet write_quiet write write_quiet _ _ w
      ∙ choose-Answers _ _ (codes "1" ∷ codes "static" ∷ []) (codes "static")
          (codes "2" ∷ codes "api" ∷ []) (codes "api") (refl, (refl, tt)) lines rest mode w h

  action-Answers :
      (lines rest : List Text) (action : Action) (w : World)
      → Answers clean SaysAction lines action rest
      → choose_action ask write strip lower lines w ≡ (returned (action, rest), w)
  unfolding choose_action mem_text text_eq
  action-Answers lines rest action w h =
      then-quiet ask write strip lower ask_quiet write_quiet write write_quiet _ _ w
      ∙ choose-Answers _ _ (codes "1" ∷ codes "dry-run" ∷ codes "dry" ∷ []) dry_run
          (codes "2" ∷ codes "apply" ∷ []) apply_action (refl, (refl, tt)) lines rest action w h

  timer-Answers :
      (lines rest : List Text) (timer : Timer) (w : World)
      → Answers clean SaysTimer lines timer rest
      → choose_timer ask write strip lower lines w ≡ (returned (timer, rest), w)
  unfolding choose_timer mem_text text_eq
  timer-Answers lines rest timer w h =
      then-quiet ask write strip lower ask_quiet write_quiet write write_quiet _ _ w
      ∙ choose-Answers _ _ (codes "1" ∷ codes "disabled" ∷ codes "leave" ∷ []) disabled
          (codes "2" ∷ codes "enable" ∷ []) enable (refl, (refl, tt)) lines rest timer w h

  returned-then :
      {A B : Type 0} (m : M A) {a : A} {w : World} (f : A → M B)
      → m w ≡ (returned a, w)
      → (m >>= f) w ≡ f a w
  unfolding ◌>>=◌
  returned-then m f e = rw e refl

  mode-typed :
      (args : Arguments) (lines rest : List Text) (mode : Text) (w : World)
      → args.mode ≡ none
      → Answers clean SaysMode lines mode rest
      → complete_mode ask write strip lower args lines w
        ≡ (returned (record args { mode = some mode }, rest), w)
  unfolding complete_mode
  mode-typed args lines rest mode w e h =
      rw e (returned-then _ _ (mode-Answers lines rest mode w h))

  action-typed :
      (args : Arguments) (lines rest : List Text) (action : Action) (w : World)
      → args.action ≡ none
      → Answers clean SaysAction lines action rest
      → complete_action ask write strip lower args lines w
        ≡ (returned (record args { action = some action }, rest), w)
  unfolding complete_action
  action-typed args lines rest action w e h =
      rw e (returned-then _ _ (action-Answers lines rest action w h))

  timer-typed :
      (args : Arguments) (lines rest : List Text) (timer : Timer) (w : World)
      → args.timer ≡ none
      → args.reset_api_state ≡ false
      → Answers clean SaysTimer lines timer rest
      → complete_timer ask write strip lower args lines w
        ≡ (returned (record args { timer = some timer }, rest), w)
  unfolding complete_timer
  timer-typed args lines rest timer w e r h =
      rw (e, r) (returned-then _ _ (timer-Answers lines rest timer w h))

  or_default-some : (s : Text) → s ≢ [] → or_default s ≡ s
  unfolding or_default
  or_default-some [] n = absurd (n refl)
  or_default-some (c ∷ s) n = refl

  input_line-quiet :
      (question line : Text) (rest : List Text) (w : World)
      → input_line ask write strip lower question (line ∷ rest) w ≡ (returned (line, rest), w)
  unfolding input_line
  input_line-quiet question line rest w =
      then-quiet ask write strip lower ask_quiet write_quiet ask ask_quiet question _ w

  when_given :
      {A : Type 0} (b : Bool) (x y : M A) (w : World) → (if b && false then x else y) w ≡ y w
  when_given true x y w = refl
  when_given false x y w = refl

  device-typed :
      (args : Arguments) (mode : Text) (lines rest : List Text) (device : Option Text) (w : World)
      → args.mode ≡ some mode
      → TakesDevice strip mode args.device lines device rest
      → complete_device ask write strip lower args lines w
        ≡ (returned (record args { device = device }, rest), w)
  unfolding complete_device text_eq
  device-typed args mode lines rest device w m (in_static s d r) = rw (m, s, d, r) refl
  device-typed args mode lines rest device w m (was_given name g d r) =
      rw (m, d, r, g) (when_given (text_eq mode (codes "api")) _ _ w)
  device-typed args mode lines rest device w m (typed line a g l n d) =
      rw (m, a, g, l, d)
        (returned-then _ _ (input_line-quiet _ line rest w)
          ∙ rw (or_default-some (strip line) n) refl)
  device-typed args mode lines rest device w m (left_out line a g l n d) =
      rw (m, a, g, l, d)
        (returned-then _ _ (input_line-quiet _ line rest w) ∙ rw n (unfold or_default in refl))

  decisions-typed :
      (args : Arguments) (lines lines1 lines2 lines3 rest : List Text) (mode : Text)
      (action : Action) (timer : Timer) (device : Option Text) (w : World)
      → args.mode ≡ none
      → args.action ≡ none
      → args.timer ≡ none
      → args.reset_api_state ≡ false
      → Answers clean SaysMode lines mode lines1
      → Answers clean SaysAction lines1 action lines2
      → Answers clean SaysTimer lines2 timer lines3
      → TakesDevice strip mode args.device lines3 device rest
      → complete_decisions ask write strip lower args lines w ≡ (
        returned (
          record args {
            mode = some mode;
            action = some action;
            timer = some timer;
            device = device;
          },
          rest,
        ),
        w,
      )
  unfolding complete_decisions
  decisions-typed args lines lines1 lines2 lines3 rest mode action timer device w m a t r hm ha ht
        hd =
      returned-then _ _ (mode-typed args lines lines1 mode w m hm)
      ∙ returned-then _ _
          (action-typed (record args { mode = some mode }) lines1 lines2 action w a ha)
      ∙ returned-then _ _ (
          timer-typed (record args { mode = some mode; action = some action }) lines2 lines3 timer w
            t r ht)
      ∙ device-typed (record args { mode = some mode; action = some action; timer = some timer })
          mode lines3 rest device w refl hd

otherwise :
    {A : Type 0} (b : Bool) (x y : M A) (w : World) → b ≡ false → (if b then x else y) w ≡ y w
otherwise true x y w e = cc
otherwise false x y w e = refl

-- An interactive run that was given no mode, action or timer and no reset, on a terminal that only asks and
-- writes, is decided by the typed lines. The first line that says "1" or "static", or "2" or "api", is
-- the mode static or api; the first behind it that says "1", "dry-run" or "dry", or "2" or "apply", is the
-- action dry run or apply; the first behind that one that says "1", "disabled" or "leave", or "2" or
-- "enable", leaves the timer disabled or enables it. Lines that say none of the words are skipped; a line
-- is read stripped and in lower case. In API mode without a device the next line, stripped, is the device,
-- or "default" if it is empty. The run returns the arguments with these decisions and the lines behind.
pub complete_interactive_request-Answers :
    (ask write : Text → M (Unit {0})) (strip lower : Text → Text) (ask_quiet : IsQuiet ask)
    (write_quiet : IsQuiet write) (args : Arguments) (lines lines1 lines2 lines3 rest : List Text)
    (mode : Text) (action : Action) (timer : Timer) (device : Option Text) (w : World)
    → args.non_interactive ≡ false
    → args.mode ≡ none
    → args.action ≡ none
    → args.timer ≡ none
    → args.reset_api_state ≡ false
    → Answers (λ line. lower (strip line)) SaysMode lines mode lines1
    → Answers (λ line. lower (strip line)) SaysAction lines1 action lines2
    → Answers (λ line. lower (strip line)) SaysTimer lines2 timer lines3
    → TakesDevice strip mode args.device lines3 device rest
    → complete_interactive_request ask write strip lower args lines w ≡ (
      returned (
        record args { mode = some mode; action = some action; timer = some timer; device = device },
        rest,
      ),
      w,
    )
unfolding complete_interactive_request
complete_interactive_request-Answers ask write strip lower ask_quiet write_quiet args lines lines1
      lines2 lines3 rest mode action timer device w n m a t r hm ha ht hd =
    otherwise args.non_interactive _ _ w n
    ∙ (decisions-typed ask write strip lower ask_quiet write_quiet args lines lines1 lines2 lines3
        rest mode action timer device w m a t r hm ha ht hd)
