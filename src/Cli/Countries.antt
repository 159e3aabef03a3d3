-- ===== src/Cli/Countries.antt =====
-- The countries that a run without questions names: `_validate_noninteractive_country_text`
-- (libexec/wg_healthcheck_setup/cli.py).
use air_vpn_wg_healthcheck.Prelude.{
  All, Bool-cases, List, [], any, ap, arith, false, inl, inr, not, not-false, refl, true, ◌∷◌, ◌≡◌,
  ◌≢◌, ◌⊎◌,
}
use air_vpn_wg_healthcheck.Text.{All-mem_text, Text, codes, mem_text, text_eq, text_eq→eq}
use air_vpn_wg_healthcheck.Model.{is_country_code}
use air_vpn_wg_healthcheck.Result.{ok, raise_if_ok}
use air_vpn_wg_healthcheck.Cli.Resolve.{is_all_alone, validate_tokens}

-- The token ALL alone, or two-letter codes.
abbrev pub AreCountries : List Text → Type 0
AreCountries tokens =
    (tokens ≡ codes "ALL" ∷ [])
    ⊎ ((tokens ≢ []) × All (λ token. is_country_code token ≡ true) tokens)

all_alone : (tokens : List Text) → is_all_alone tokens ≡ true → tokens ≡ codes "ALL" ∷ []
unfolding is_all_alone
all_alone [] h = cc
all_alone (token ∷ []) h = ap (λ (t : Text). t ∷ []) (text_eq→eq token (codes "ALL") h)
all_alone (a ∷ b ∷ tokens) h = cc

none_bad :
    (tokens : List Text)
    → any (λ token. not (is_country_code token)) tokens ≡ false
    → All (λ token. is_country_code token ≡ true) tokens
none_bad [] h = tt
none_bad (token ∷ tokens) h = (ground arith, none_bad tokens (ground arith))

no_bad :
    (tokens : List Text)
    → All (λ token. is_country_code token ≡ true) tokens
    → any (λ token. not (is_country_code token)) tokens ≡ false
no_bad [] h = refl
no_bad (token ∷ tokens) (e, h) = rw (e, no_bad tokens h) refl

mem_text-none :
    (tokens : List Text)
    → All (λ token. is_country_code token ≡ true) tokens
    → mem_text (codes "ALL") tokens ≡ false
unfolding is_country_code
mem_text-none tokens h = elim (Bool-cases (mem_text (codes "ALL") tokens)) [
  | inl e ↦
      let bad : false ≡ true =
        All-mem_text (λ t. is_country_code t ≡ true) (codes "ALL") tokens h e in
      cc
  | inr n ↦ n
]

pub tokens_sound : (tokens : List Text) → validate_tokens tokens ≡ ok tt → AreCountries tokens
unfolding validate_tokens
tokens_sound [] h = cc
tokens_sound (token ∷ tokens) h = elim (Bool-cases (mem_text (codes "ALL") (token ∷ tokens))) [
  | inl e ↦ inl (all_alone (token ∷ tokens) (not-false _ (raise_if_ok _ (rw e at h))))
  | inr n ↦ inr ((λ e. cc), none_bad (token ∷ tokens) (raise_if_ok _ (rw n at h)))
]

pub tokens_complete : (tokens : List Text) → AreCountries tokens → validate_tokens tokens ≡ ok tt
unfolding validate_tokens mem_text text_eq is_all_alone
tokens_complete tokens (inl e) = rw e refl
tokens_complete [] (inr (n, h)) = absurd (n refl)
tokens_complete (token ∷ tokens) (inr (n, h)) =
    rw (mem_text-none (token ∷ tokens) h, no_bad (token ∷ tokens) h) refl
