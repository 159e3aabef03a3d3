-- ===== src/Model/InventorySorted.antt =====
-- What `parse_country_inventory` (libexec/wg_healthcheck_setup/model.py) guarantees of the countries
-- that it returns.
use air_vpn_wg_healthcheck.Text.Decimal.{int_text, value}
use air_vpn_wg_healthcheck.Result.{>>=-eq_ok, Result-cases, ok, ok-injective}
use air_vpn_wg_healthcheck.Prelude.{
  All, Bool, List, [], any, arith, false, inl, inr, length, not, subst, true, ℕ, ◌*◌, ◌+◌, ◌-◌, ◌<◌,
  ◌∷◌, ◌≡◌, ◌≤◌,
}
use air_vpn_wg_healthcheck.Text.{Text, text_eq}
use air_vpn_wg_healthcheck.Text.Split.{split}
use air_vpn_wg_healthcheck.Model.{Country, is_count, is_country_code}
use air_vpn_wg_healthcheck.Model.Inventory.{
  is_line_break, parse_countries, parse_country, parse_country_inventory, split_lines, text_lt,
}

-- The codes are ascending, the first of them behind `previous`.
abbrev pub IsAscending : Text → List Country → Type 0
IsAscending previous [] = Unit
IsAscending previous (country ∷ countries) =
    (text_lt previous country.code ≡ true) × IsAscending country.code countries

module _ (is_printable : ℕ → Bool) where
  -- A country code, a printable name of 1 to 128 characters, and 1 to 1000 healthy servers.
  pub record IsCountry (country : Country) : Type 0 where
    pub code_valid : is_country_code country.code ≡ true
    pub name_present : 0 < length country.name
    pub name_bounded : length country.name ≤ 128
    pub name_printable : any (λ c. not (is_printable c)) country.name ≡ false
    pub servers_positive : 0 < country.healthy_servers
    pub servers_bounded : country.healthy_servers ≤ 1000

  value_grows : (acc : ℕ) (s : Text) → acc ≤ value acc s
  unfolding value
  value_grows acc [] = omega arith
  value_grows acc (c ∷ s) = omega (arith, value_grows (acc * 10 + (c - b'0')) s)

  count_positive : (s : Text) → is_count s ≡ true → 0 < int_text s
  unfolding is_count int_text value
  count_positive [] h = cc
  count_positive (c ∷ s) h = ground (arith, value_grows (c - b'0') s)

  present : (s : Text) → text_eq s [] ≡ false → 0 < length s
  unfolding text_eq
  present [] e = cc
  present (c ∷ s) e = omega arith

  country-IsCountry :
      (previous : Text) (fields : List Text) {country : Country}
      → parse_country is_printable previous fields ≡ ok country
      → (text_lt previous country.code ≡ true) × IsCountry country
  unfolding parse_country
  country-IsCountry previous (code ∷ name ∷ count_text ∷ []) h =
      subst (λ c. (text_lt previous c.code ≡ true) × IsCountry c)
        {x = record { code = code; name = name; healthy_servers = int_text count_text }}
        (ground arith)
        (
          ground arith,
          record {
            code_valid = ground arith;
            name_present = present name (ground arith);
            name_bounded = ground arith;
            name_printable = ground arith;
            servers_positive = count_positive count_text (ground arith);
            servers_bounded = ground arith;
          },
        )
  country-IsCountry previous [] h = cc
  country-IsCountry previous (_ ∷ []) h = cc
  country-IsCountry previous (_ ∷ _ ∷ []) h = cc
  country-IsCountry previous (_ ∷ _ ∷ _ ∷ _ ∷ _) h = cc

  countries_lem :
      (previous : Text) (lines : List Text) {countries : List Country}
      → parse_countries is_printable previous lines ≡ ok countries
      → IsAscending previous countries × All IsCountry countries
  unfolding parse_countries
  countries_lem previous [] h =
      subst (λ cs. IsAscending previous cs × All IsCountry cs) (ok-injective h) (tt, tt)
  countries_lem previous (line ∷ lines) h =
      let (country, first, h1) =
        >>=-eq_ok (parse_country is_printable previous (split b'\t' line)) _ h in
      let (rest, more, last) = >>=-eq_ok (parse_countries is_printable country.code lines) _ h1 in
      let (before, good) = country-IsCountry previous (split b'\t' line) first in
      let (ascending, all_good) = countries_lem country.code lines more in
      subst (λ cs. IsAscending previous cs × All IsCountry cs) (ok-injective last)
        ((before, ascending), (good, all_good))

  inventory_parts :
      (payload : Text) {countries : List Country}
      → parse_country_inventory is_printable payload ≡ ok countries
      → (parse_countries is_printable [] (split_lines is_line_break false payload) ≡ ok countries)
        × (0 < length countries)
        × (length countries ≤ 676)
  unfolding parse_country_inventory
  inventory_parts payload h =
      elim (Result-cases
        (parse_countries is_printable [] (split_lines is_line_break false payload))) [
          | inl (message, e) ↦ ground arith
          | inr (countries', e) ↦ (ground arith, ground arith, ground arith)
        ]

  -- The countries that `parse_country_inventory` returns are 1 to 676, in strictly ascending order of
  -- their codes, and each has a two-letter code, a printable name of 1 to 128 characters and 1 to 1000
  -- healthy servers.
  pub parse_country_inventory_lem :
      (payload : Text) {countries : List Country}
      → parse_country_inventory is_printable payload ≡ ok countries
      → IsAscending [] countries
        × All IsCountry countries
        × (0 < length countries)
        × (length countries ≤ 676)
  unfolding parse_country_inventory
  parse_country_inventory_lem payload h =
      let (parsed, lower, upper) = inventory_parts payload h in
      let (ascending, good) = countries_lem [] (split_lines is_line_break false payload) parsed in
      (ascending, good, lower, upper)
