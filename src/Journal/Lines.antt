-- ===== src/Journal/Lines.antt =====
-- The lines that `read_journal` (libexec/wg_healthcheck_setup/apply_journal.py) reads, backwards.
use air_vpn_wg_healthcheck.Prelude.{
  ==_iff, Bool-cases, List, Option-cases, [], ap, ap₂, arith, inl, inr, length, refl, subst, suc,
  sym, ℕ, ◌++◌, ◌==◌, ◌∙◌, ◌∷◌, ◌≡◌,
}
use air_vpn_wg_healthcheck.Result.{>>=-eq_ok, ok, ok-injective}
use air_vpn_wg_healthcheck.Text.{Text, text_eq→eq}
use air_vpn_wg_healthcheck.Text.Split.{cons_first, split, split_once, split_once_sound, unlines}
use air_vpn_wg_healthcheck.Journal.{field_line, field_lines, read_field, read_fields}

pub read_field-line :
    (key line : Text) {v : Text} → read_field key line ≡ ok v → line ≡ field_line key v
unfolding read_field
read_field-line key line {v} h = elim (Option-cases (split_once b'=' line)) [
  | inl e ↦ absurd (ground arith)
  | inr ((k, w), e) ↦
      let (cut, _) = split_once_sound b'=' line k w e in
      let same = text_eq→eq k key (ground arith) in let values : w ≡ v = ground arith in cc
]

pub read_fields-lines :
    (keys lines : List Text) {values : List Text}
    → read_fields keys lines ≡ ok values
    → lines ≡ field_lines keys values
unfolding read_fields
read_fields-lines [] [] h = refl
read_fields-lines [] (line ∷ lines) h = cc
read_fields-lines (key ∷ keys) [] h = cc
read_fields-lines (key ∷ keys) (line ∷ lines) {values} h =
    let (v, first, h1) = >>=-eq_ok (read_field key line) _ h in
    let (vs, more, last) = >>=-eq_ok (read_fields keys lines) _ h1 in
    subst (λ xs. line ∷ lines ≡ field_lines (key ∷ keys) xs) (ok-injective last)
      (ap₂ (λ x xs. x ∷ xs) (read_field-line key line first) (read_fields-lines keys lines more))

pub length-read_fields :
    (keys lines : List Text) {values : List Text}
    → read_fields keys lines ≡ ok values
    → length values ≡ length keys
unfolding read_fields
length-read_fields [] [] h = ap length (sym (ok-injective h))
length-read_fields [] (line ∷ lines) h = cc
length-read_fields (key ∷ keys) [] h = cc
length-read_fields (key ∷ keys) (line ∷ lines) h =
    let (v, first, h1) = >>=-eq_ok (read_field key line) _ h in
    let (vs, more, last) = >>=-eq_ok (read_fields keys lines) _ h1 in
    ap length (sym (ok-injective last)) ∙ ap suc (length-read_fields keys lines more)

cons_first-unlines :
    (c d : ℕ) (s : Text) (ws : List Text)
    → unlines c ws ≡ s ++ c ∷ []
    → unlines c (cons_first d ws) ≡ d ∷ (s ++ c ∷ [])
unfolding unlines
cons_first-unlines c d [] [] h = cc
cons_first-unlines c d (e ∷ s) [] h = cc
cons_first-unlines c d s (w ∷ ws) h = ap (λ r. d ∷ r) h

pub unlines-split : (c : ℕ) (s : Text) → unlines c (split c s) ≡ s ++ c ∷ []
unfolding unlines split
unlines-split c [] = refl
unlines-split c (d ∷ s) = elim (Bool-cases (d == c)) [
  | inl e ↦ rw e (ap₂ (λ x xs. x ∷ xs) (sym ((==_iff d c).0 e)) (unlines-split c s))
  | inr e ↦ rw e (cons_first-unlines c d s (split c s) (unlines-split c s))
]
