-- ===== src/Config/Updated.antt =====
-- The updates in the result of `render_config` (libexec/wg_healthcheck_setup/apply_config.py): lemmas on
-- its two loops.
use air_vpn_wg_healthcheck.Prelude.{
  Bool-cases, List, Option-cases, [], ap, arith, false, inl, inr, refl, some, subst, sym, true,
  ◌++◌, ◌∙◌, ◌∷◌, ◌≡◌, ◌⊎◌,
}
use air_vpn_wg_healthcheck.Result.{>>=-eq_ok, Result-cases, ok}
use air_vpn_wg_healthcheck.Text.{Text, mem_text, text_eq, text_eq→eq}
use air_vpn_wg_healthcheck.Config.{
  Updates, assignment, config_line, missing_lines, rewrite_line, rewrite_lines, update_for,
}

-- One of the lines assigns the value to the key.
abbrev pub Writes : Text → Text → List Text → Type 0
Writes key value [] = ⊥
Writes key value (line ∷ lines) = (config_line key value ≡ ok line) ⊎ Writes key value lines

pub Writes-append :
    (key value : Text) (xs ys : List Text)
    → Writes key value xs ⊎ Writes key value ys
    → Writes key value (xs ++ ys)
Writes-append key value [] ys (inr w) = w
Writes-append key value [] ys (inl w) = absurd w
Writes-append key value (x ∷ xs) ys (inl (inl e)) = inl e
Writes-append key value (x ∷ xs) ys (inl (inr w)) = inr (Writes-append key value xs ys (inl w))
Writes-append key value (x ∷ xs) ys (inr w) = inr (Writes-append key value xs ys (inr w))

same_line :
    {key k value v text written : Text}
    → key ≡ k
    → some v ≡ some value
    → config_line k v ≡ ok text
    → text ≡ written
    → config_line key value ≡ ok written
same_line a b c d = cc

-- A key that was not seen before the line and is behind it was written by it.
rewrite_line-Writes :
    (updates : Updates) (seen : List Text) (line key value : Text) {written : Text}
    {seen' : List Text}
    → update_for key updates ≡ some value
    → rewrite_line updates seen line (assignment line) ≡ ok (written, seen')
    → mem_text key seen' ≡ true
    → (mem_text key seen ≡ true) ⊎ (config_line key value ≡ ok written)
unfolding rewrite_line mem_text
rewrite_line-Writes updates seen line key value {written} {seen'} u h m =
    elim (Option-cases (assignment line)) [
      | inl e ↦ inl (ground arith)
      | inr ((k, raw), e) ↦ elim (Option-cases (update_for k updates)) [
        | inl n ↦ inl (ground arith)
        | inr (v, n) ↦ elim (Result-cases (config_line k v)) [
          | inl (message, c) ↦ absurd (ground arith)
          | inr (text, c) ↦ elim (Bool-cases (text_eq key k)) [
            | inl same ↦
                let keys = text_eq→eq key k same in
                inr (
                  same_line keys (sym n ∙ ap (λ x. update_for x updates) (sym keys) ∙ u) c
                    (ground arith))
            | inr differ ↦ inl (ground arith)
          ]
        ]
      ]
    ]

pub rewrite_lines-Writes :
    (updates : Updates) (seen lines : List Text) (key value : Text) {written seen' : List Text}
    → update_for key updates ≡ some value
    → rewrite_lines updates seen lines ≡ ok (written, seen')
    → mem_text key seen' ≡ true
    → (mem_text key seen ≡ true) ⊎ Writes key value written
unfolding rewrite_lines
rewrite_lines-Writes updates seen [] key value u h m = inl (ground arith)
rewrite_lines-Writes updates seen (line ∷ lines) key value {written} {seen'} u h m =
    let ((w, s), first, h1) = >>=-eq_ok (rewrite_line updates seen line (assignment line)) _ h in
    let ((ws, s'), more, last) = >>=-eq_ok (rewrite_lines updates s lines) _ h1 in
    elim (rewrite_lines-Writes updates s lines key value u more (ground arith)) [
      | inr later ↦ inr (subst (Writes key value) {x = w ∷ ws} (ground arith) (inr later))
      | inl known ↦ elim (rewrite_line-Writes updates seen line key value u first known) [
        | inl before ↦ inl before
        | inr now ↦ inr (subst (Writes key value) {x = w ∷ ws} (ground arith) (inl now))
      ]
    ]

pub missing_lines-Writes :
    (seen : List Text) (updates : Updates) (key value : Text) {lines : List Text}
    → update_for key updates ≡ some value
    → missing_lines seen updates ≡ ok lines
    → mem_text key seen ≡ false
    → Writes key value lines
unfolding missing_lines update_for
missing_lines-Writes seen [] key value u h n = cc
missing_lines-Writes seen ((k, v) ∷ updates) key value {lines} u h n =
    let (rest, more, last) = >>=-eq_ok (missing_lines seen updates) _ h in
    elim (Bool-cases (text_eq key k)) [
      | inl same ↦
          let keys = text_eq→eq key k same in
          let fresh = subst (λ x. mem_text x seen ≡ false) keys n in
          elim (Result-cases (config_line k v)) [
            | inl (message, c) ↦ absurd (ground arith)
            | inr (text, c) ↦
                subst (Writes key value) {x = text ∷ rest} (ground arith)
                  (inl (same_line keys (ground arith) c refl))
          ]
      | inr differ ↦
          let later = missing_lines-Writes seen updates key value (ground arith) more n in
          elim (Bool-cases (mem_text k seen)) [
            | inl e ↦ subst (Writes key value) {x = rest} (ground arith) later
            | inr e ↦ elim (Result-cases (config_line k v)) [
              | inl (message, c) ↦ absurd (ground arith)
              | inr (text, c) ↦
                  subst (Writes key value) {x = text ∷ rest} (ground arith) (inr later)
            ]
          ]
    ]
