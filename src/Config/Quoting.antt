-- ===== src/Config/Quoting.antt =====
-- Quoting one value of the health configuration and reading it
-- (libexec/wg_healthcheck_setup/apply_config.py).
use air_vpn_wg_healthcheck.Prelude.{
  Bool-cases, [], any, arith, false, inl, inr, refl, ◌++◌, ◌==◌, ◌||◌, ◌∷◌, ◌≡◌,
}
use air_vpn_wg_healthcheck.Result.{ok}
use air_vpn_wg_healthcheck.Text.{Text, but_last-append, ends_with-append, text_eq}
use air_vpn_wg_healthcheck.Config.{is_ambiguous, parse_config_value, quote_config_value, unquote}

unquote_plain : (value : Text) → any is_ambiguous value ≡ false → unquote value ≡ value
unfolding unquote
unquote_plain [] h = refl
unquote_plain (c ∷ s) h = ground arith

unquote_quoted : (value : Text) → unquote (b'"' ∷ (value ++ b'"' ∷ [])) ≡ value
unfolding unquote
unquote_quoted value = rw (ends_with-append b'"' value) (but_last-append b'"' value)

-- What `quote_config_value` writes for a value, `parse_config_value` reads as that value.
pub parse-quote_config_value :
    (value : Text) {written : Text}
    → quote_config_value value ≡ ok written
    → parse_config_value written ≡ ok value
unfolding quote_config_value parse_config_value
parse-quote_config_value value h =
    elim (Bool-cases (text_eq value [] || any (λ c. c == b' ' || c == b'\t') value)) [
      | inl quoted ↦ ground (arith, unquote_quoted value)
      | inr plain ↦ ground (arith, unquote_plain value)
    ]
