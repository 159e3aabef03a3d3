-- ===== src/Model/SelectionEligible.antt =====
-- The selections that `normalize_country_selection` (libexec/wg_healthcheck_setup/model.py) returns.
use air_vpn_wg_healthcheck.Text.Decimal.{int_text}
use air_vpn_wg_healthcheck.Result.{>>=-eq_ok, Result-cases, ok, ok-injective}
use air_vpn_wg_healthcheck.Prelude.{
  All, All-append, Bool-cases, List, Option-cases, [], all, arith, false, get_elem?, inl, inr,
  length, length-append, map, not-false, refl, some, subst, suc, true, zero, ℕ, ◌++◌, ◌-◌, ◌<◌,
  ◌||◌, ◌∷◌, ◌≡◌, ◌≤◌,
}
use air_vpn_wg_healthcheck.Text.{Text, codes, mem_text, text_eq, text_eq_refl}
use air_vpn_wg_healthcheck.Model.{Country, CountrySelection}
use air_vpn_wg_healthcheck.Model.Selection.{
  code_at, country_codes, is_menu_number, normalize_country_selection, select_tokens, token_code,
}

-- No text occurs twice.
abbrev pub IsDistinct : List Text → Type 0
IsDistinct [] = Unit
IsDistinct (x ∷ xs) = (mem_text x xs ≡ false) × IsDistinct xs

-- Distinct codes of the countries, at most 32 of them.
pub record IsEligible (countries : List Country) (codes : List Text) : Type 0 where
  pub distinct : IsDistinct codes
  pub bounded : length codes ≤ 32
  pub eligible : All (λ code. mem_text code (country_codes countries) ≡ true) codes

mem_text-append :
    (x : Text) (ys zs : List Text) → mem_text x (ys ++ zs) ≡ (mem_text x ys || mem_text x zs)
unfolding mem_text
mem_text-append x [] zs = refl
mem_text-append x (y ∷ ys) zs = ground (arith, mem_text-append x ys zs)

text_eq_sym : (s t : Text) → text_eq s t ≡ text_eq t s
unfolding text_eq
text_eq_sym [] [] = refl
text_eq_sym [] (d ∷ t) = refl
text_eq_sym (c ∷ s) [] = refl
text_eq_sym (c ∷ s) (d ∷ t) = ground (arith, text_eq_sym s t)

snoc-IsDistinct :
    (xs : List Text) (y : Text) → IsDistinct xs → mem_text y xs ≡ false → IsDistinct (xs ++ y ∷ [])
unfolding mem_text
snoc-IsDistinct [] y h n = (refl, tt)
snoc-IsDistinct (x ∷ xs) y (fresh, h) n = (
  rw (mem_text-append x xs (y ∷ [])) (rw (fresh, text_eq_sym x y) (ground arith)),
  snoc-IsDistinct xs y h (ground arith),
)

get_elem?-mem :
    (countries : List Country) (i : ℕ) {country : Country}
    → get_elem? countries i ≡ some country
    → mem_text country.code (country_codes countries) ≡ true
unfolding mem_text
get_elem?-mem [] i h = cc
get_elem?-mem (c ∷ cs) zero {country} h =
    subst (λ (x : Country). (text_eq x.code c.code || mem_text x.code (country_codes cs)) ≡ true)
      {x = c} {y = country} (ground arith) (rw (text_eq_refl c.code) refl)
get_elem?-mem (c ∷ cs) (suc i) {country} h = ground (arith, get_elem?-mem cs i h)

code_at-eligible :
    (countries : List Country) (i : ℕ) {code : Text}
    → code_at (get_elem? countries i) ≡ ok code
    → mem_text code (country_codes countries) ≡ true
code_at-eligible countries i h = elim (Option-cases (get_elem? countries i)) [
  | inl e ↦ ground arith
  | inr (c, e) ↦
      subst (λ x. mem_text x (country_codes countries) ≡ true) (ground arith)
        (get_elem?-mem countries i e)
]

-- A selection made from the inventory: all countries, with no code of its own, or some of them.
pub data IsSelection (countries : List Country) (selection : CountrySelection) : Type 0 where
  everything :
      selection.all_countries ≡ true → selection.codes ≡ [] → IsSelection countries selection
  some_of_them :
      selection.all_countries ≡ false
      → 0 < length selection.codes
      → IsEligible countries selection.codes
      → IsSelection countries selection

module _ (upper : Text → Text) where
  token_code-eligible :
      (countries : List Country) (token : Text) {code : Text}
      → token_code upper countries token ≡ ok code
      → mem_text code (country_codes countries) ≡ true
  unfolding token_code
  token_code-eligible countries token {code} h = elim (Bool-cases (is_menu_number token)) [
    | inl numeric ↦ code_at-eligible countries (int_text token - 1) (ground arith)
    | inr word ↦ not-false (mem_text code (country_codes countries)) (ground arith)
  ]

  select_tokens-IsEligible :
      (countries : List Country) (selected tokens : List Text) {result : List Text}
      → IsEligible countries selected
      → select_tokens upper countries selected tokens ≡ ok result
      → IsEligible countries result
  unfolding select_tokens
  select_tokens-IsEligible countries selected [] e h =
      subst (IsEligible countries) (ok-injective h) e
  select_tokens-IsEligible countries selected (token ∷ tokens) e h =
      let (code, named, h1) = >>=-eq_ok (token_code upper countries token) _ h in
      elim (Bool-cases (mem_text code selected)) [
        | inl seen ↦ select_tokens-IsEligible countries selected tokens e (ground arith)
        | inr fresh ↦
            select_tokens-IsEligible countries (selected ++ code ∷ []) tokens
              (record {
                distinct = snoc-IsDistinct selected code e.distinct fresh;
                bounded = ground (arith, length-append selected (code ∷ []));
                eligible =
                    All-append _ selected (code ∷ []) e.eligible
                      (token_code-eligible countries token named, tt);
              })
              (ground arith)
      ]

  chosen :
      (tokens : List Text) (countries : List Country) (selected : List Text)
      {selection : CountrySelection}
      → select_tokens upper countries [] tokens ≡ ok selected
      → 0 < length selected
      → record { codes = selected; all_countries = false } ≡ selection
      → IsSelection countries selection
  chosen tokens countries selected e lower same = subst (IsSelection countries) same (
      some_of_them refl lower (
        select_tokens-IsEligible countries [] tokens
          (record { distinct = tt; bounded = omega arith; eligible = tt }) e))

  -- The selection that `normalize_country_selection` returns, whatever the tokens, is all countries
  -- with an empty list of codes, or 1 to 32 distinct codes, each the code of an offered country.
  pub normalize_country_selection-IsSelection :
      (tokens : List Text) (countries : List Country) {selection : CountrySelection}
      → normalize_country_selection upper tokens countries ≡ ok selection
      → IsSelection countries selection
  unfolding normalize_country_selection
  normalize_country_selection-IsSelection tokens countries h =
      elim (Bool-cases (mem_text (codes "ALL") (map upper tokens))) [
        | inl all ↦ everything (ground arith) (ground arith)
        | inr named ↦ elim (Result-cases (select_tokens upper countries [] tokens)) [
          | inl (message, e) ↦ absurd (ground arith)
          | inr (selected, e) ↦ chosen tokens countries selected e (ground arith) (ground arith)
        ]
      ]
