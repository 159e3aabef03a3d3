-- ===== src/Cli/Answered.antt =====
-- A question of an interactive run (libexec/wg_healthcheck_setup/cli.py) and the lines that answer it.
use air_vpn_wg_healthcheck.Prelude.{
  All, Bool-cases, List, Option, Option-cases, [], ap, arith, false, if◌then◌else◌, inl, inr, none,
  refl, some, true, ||_true, ◌++◌, ◌∙◌, ◌∷◌, ◌≡◌, ◌⊎◌,
}
use air_vpn_wg_healthcheck.Text.{Text, mem_text, text_eq_refl, text_eq→eq}
use air_vpn_wg_healthcheck.Effect.{M, World, returned, ◌>>=◌, ◌>>◌}
use air_vpn_wg_healthcheck.Cli.Prompts.{choose}

-- A terminal that does what it is asked, and nothing else.
abbrev pub IsQuiet : (Text → M (Unit {0})) → Type 0
IsQuiet act = (message : Text) (w : World) → act message w ≡ (returned tt, w)

module _ (ask write : Text → M (Unit {0})) (strip lower : Text → Text) (ask_quiet : IsQuiet ask)
    (write_quiet : IsQuiet write) where
  pub then-quiet :
      {A : Type 0} (act : Text → M (Unit {0}))
      → IsQuiet act
      → (message : Text) (m : M A) (w : World) → (act message >> m) w ≡ m w
  unfolding ◌>>=◌
  then-quiet act quiet message m w = rw (quiet message w) refl

  module _ {A : Type 0} (question again : Text) (meaning : Text → Option A) where
    choose_again :
        (line : Text) (lines : List Text) (w : World)
        → meaning (lower (strip line)) ≡ none
        → choose ask write strip lower question again meaning (line ∷ lines) w
          ≡ choose ask write strip lower question again meaning lines w
    unfolding choose
    choose_again line lines w n =
        then-quiet ask ask_quiet question _ w ∙ rw n (then-quiet write write_quiet again _ w)

    pub choose_lem :
        (skipped : List Text) (line : Text) (rest : List Text) (answer : A) (w : World)
        → All (λ l. meaning (lower (strip l)) ≡ none) skipped
        → meaning (lower (strip line)) ≡ some answer
        → choose ask write strip lower question again meaning (skipped ++ line ∷ rest) w
          ≡ (returned (answer, rest), w)
    unfolding choose
    choose_lem [] line rest answer w h m = then-quiet ask ask_quiet question _ w ∙ rw m refl
    choose_lem (l ∷ skipped) line rest answer w (n, h) m =
        choose_again l (skipped ++ line ∷ rest) w n ∙ choose_lem skipped line rest answer w h m

-- One of the words.
abbrev pub OneOf : Text → List Text → Type 0
OneOf word [] = ⊥
OneOf word (w ∷ ws) = (word ≡ w) ⊎ OneOf word ws

-- The words of a question with two answers.
abbrev pub Says : {A : Type 0} → List Text → A → List Text → A → Text → A → Type 0
Says ws a vs b word answer = (OneOf word ws × (answer ≡ a)) ⊎ (OneOf word vs × (answer ≡ b))

OneOf-mem_text : (word : Text) (ws : List Text) → OneOf word ws → mem_text word ws ≡ true
unfolding mem_text
OneOf-mem_text word [] h = absurd h
OneOf-mem_text word (w ∷ ws) (inl e) = rw (e, text_eq_refl w) refl
OneOf-mem_text word (w ∷ ws) (inr h) = ground (arith, OneOf-mem_text word ws h)

mem_text-OneOf : (word : Text) (ws : List Text) → mem_text word ws ≡ true → OneOf word ws
unfolding mem_text
mem_text-OneOf word [] h = absurd (ground arith)
mem_text-OneOf word (w ∷ ws) h = elim (||_true _ _ h) [
  | inl e ↦ inl (text_eq→eq word w e)
  | inr e ↦ inr (mem_text-OneOf word ws e)
]

-- The words of a question, as the program tests them.
abbrev pub two_answers : {A : Type 0} → List Text → A → List Text → A → Text → Option A
two_answers ws a vs b word =
    if mem_text word ws then some a else if mem_text word vs then some b else none

module _ {A : Type 0} (ws : List Text) (a : A) (vs : List Text) (b : A)
    (apart : All (λ v. mem_text v ws ≡ false) vs) where
  outside :
      (word : Text) (us : List Text)
      → All (λ v. mem_text v ws ≡ false) us
      → OneOf word us
      → mem_text word ws ≡ false
  outside word [] h o = absurd o
  outside word (u ∷ us) (e, h) (inl same) = ap (λ t. mem_text t ws) same ∙ e
  outside word (u ∷ us) (e, h) (inr o) = outside word us h o

  pub Says-some :
      (word : Text) (answer : A)
      → Says ws a vs b word answer
      → two_answers ws a vs b word ≡ some answer
  Says-some word answer (inl (o, e)) = rw (OneOf-mem_text word ws o, e) refl
  Says-some word answer (inr (o, e)) =
      rw (outside word vs apart o, OneOf-mem_text word vs o, e) refl

  some-Says :
      (word : Text) (answer : A)
      → two_answers ws a vs b word ≡ some answer
      → Says ws a vs b word answer
  some-Says word answer h = elim (Bool-cases (mem_text word ws)) [
    | inl e ↦ inl (mem_text-OneOf word ws e, ground arith)
    | inr e ↦ elim (Bool-cases (mem_text word vs)) [
      | inl f ↦ inr (mem_text-OneOf word vs f, ground arith)
      | inr f ↦ absurd (ground arith)
    ]
  ]

  pub Says-none :
      (word : Text)
      → ((answer : A) → ¬ Says ws a vs b word answer)
      → two_answers ws a vs b word ≡ none
  Says-none word h = elim (Option-cases (two_answers ws a vs b word)) [
    | inl e ↦ e
    | inr (answer, e) ↦ absurd (h answer (some-Says word answer e))
  ]

-- The first line that is an answer, the lines before it, and the lines behind it.
pub record Answers {A : Type 0} (clean : Text → Text) (says : Text → A → Type 0) (lines : List Text)
    (answer : A) (rest : List Text) : Type 0 where
  pub skipped : List Text
  pub line : Text
  pub cut : lines ≡ skipped ++ line ∷ rest
  pub no_answers : All (λ l. (other : A) → ¬ says (clean l) other) skipped
  pub is_answer : says (clean line) answer
