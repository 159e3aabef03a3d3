-- ===== src/Model/Selection.antt =====
-- `normalize_country_selection` of libexec/wg_healthcheck_setup/model.py. `words` stands for
-- `str.split` with no argument and `upper` for `str.upper`, on the characters beyond ASCII the
-- Unicode tables of the Python runtime.
use air_vpn_wg_healthcheck.Prelude.{
  Bool, List, Option, String, [], all, false, get_elem?, if◌then◌else◌, leb, length, ltb, map, none,
  not, some, true, ◌&&◌, ◌++◌, ◌-◌, ◌==◌, ◌||◌, ◌∷◌,
}
use air_vpn_wg_healthcheck.Result.{Result, err, ok, raise_if, ◌>>=◌, ◌>>◌}
use air_vpn_wg_healthcheck.Text.{Text, codes, is_digit, mem_text, within}
use air_vpn_wg_healthcheck.Text.Decimal.{int_text}
use air_vpn_wg_healthcheck.Model.{Country, CountrySelection, is_country_code}

abbrev pub outside_menu : String
outside_menu = "country selection number is outside the displayed menu"

-- the pattern [1-9][0-9]*
unfoldable pub is_menu_number : Text → Bool
is_menu_number [] = false
is_menu_number (c ∷ s) = within b'1' b'9' c && all is_digit s

abbrev pub country_codes : List Country → List Text
country_codes [] = []
country_codes (c ∷ cs) = c.code ∷ country_codes cs

abbrev pub code_at : Option Country → Result Text
code_at none = err outside_menu
code_at (some country) = ok country.code

module _ (upper : Text → Text) where
  -- The code that one token names: by its place in the menu, or by itself.
  unfoldable pub token_code : List Country → Text → Result Text
  token_code countries token =
      if is_menu_number token
      then if ltb 3 (length token)
        then err outside_menu
        else if ltb (length countries) (int_text token)
        then err outside_menu
        else code_at (get_elem? countries (int_text token - 1))
      else if not (is_country_code (upper token))
          || not (mem_text (upper token) (country_codes countries))
      then err "country selection is not an eligible displayed code"
      else ok (upper token)

  -- The loop over the tokens; `selected` and `seen` hold the same codes.
  unfoldable pub select_tokens : List Country → List Text → List Text → Result (List Text)
  select_tokens countries selected [] = ok selected
  select_tokens countries selected (token ∷ tokens) = do
    code ← token_code countries token
    next ←
        (if mem_text code selected
          then ok selected
          else if leb 32 (length selected)
          then err "select at most 32 countries"
          else ok (selected ++ code ∷ []))
    select_tokens countries next tokens

  -- `normalize_country_selection`, from the tokens of `value.split()`
  unfoldable pub normalize_country_selection : List Text → List Country → Result CountrySelection
  normalize_country_selection tokens countries =
      let upper_tokens = map upper tokens in
      if length tokens == 0
      then err "explicitly select one or more countries, or ALL"
      else if mem_text (codes "ALL") upper_tokens
      then if length tokens == 1
        then ok (record { codes = []; all_countries = true })
        else err "ALL cannot be combined with country numbers or codes"
      else do
        selected ← select_tokens countries [] tokens
        raise_if (length selected == 0) "explicitly select one or more countries, or ALL"
        ok (record { codes = selected; all_countries = false })
