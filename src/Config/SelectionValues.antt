-- ===== src/Config/SelectionValues.antt =====
-- The country selection on its way from the inventory to the configuration: `country_values`
-- (libexec/wg_healthcheck_setup/apply_config.py) behind `parse_country_inventory` and
-- `normalize_country_selection` (model.py).
use air_vpn_wg_healthcheck.Prelude.{
  &&_intro, All, All-map, Bool, List, [], all, arith, if◌then◌else◌, leb, length, refl, some, true,
  ℕ, ◌<◌, ◌∷◌, ◌≡◌, ◌≤◌,
}
use air_vpn_wg_healthcheck.Result.{ok}
use air_vpn_wg_healthcheck.Text.{All-mem_text, Text, codes}
use air_vpn_wg_healthcheck.Text.Split.{Lacks, join, split-join}
use air_vpn_wg_healthcheck.Model.{
  Country, CountrySelection, SetupRequest, configured_country_value, is_country_code,
}
use air_vpn_wg_healthcheck.Model.Inventory.{parse_country_inventory}
use air_vpn_wg_healthcheck.Model.Selection.{country_codes, normalize_country_selection}
use air_vpn_wg_healthcheck.Model.InventorySorted.{IsCountry, parse_country_inventory_lem}
use air_vpn_wg_healthcheck.Model.SelectionEligible.{
  IsEligible, IsSelection, everything, normalize_country_selection-IsSelection, some_of_them,
}
use air_vpn_wg_healthcheck.Config.{country_values, is_country_list, selection_values}

country_code-Lacks : (s : Text) → is_country_code s ≡ true → Lacks b' ' s
unfolding is_country_code
country_code-Lacks (a ∷ b ∷ []) h = (ground arith, (ground arith, tt))
country_code-Lacks [] h = cc
country_code-Lacks (_ ∷ []) h = cc
country_code-Lacks (_ ∷ _ ∷ _ ∷ _) h = cc

all-All :
    (codes : List Text)
    → All (λ c. is_country_code c ≡ true) codes
    → all is_country_code codes ≡ true
all-All [] h = refl
all-All (c ∷ cs) (e, h) = &&_intro (is_country_code c) (all is_country_code cs) e (all-All cs h)

is_country_list-join :
    (c : Text) (cs : List Text)
    → All (λ c. is_country_code c ≡ true) (c ∷ cs)
    → length (c ∷ cs) ≤ 32
    → is_country_list (join (b' ' ∷ []) (c ∷ cs)) ≡ true
unfolding is_country_list
is_country_list-join c cs h small =
    rw (split-join b' ' c cs (All-map country_code-Lacks (c ∷ cs) h)) (
      &&_intro (all is_country_code (c ∷ cs)) (leb (length (c ∷ cs)) 32) (all-All (c ∷ cs) h)
        (ground arith))

chosen_values :
    (countries : List Country) (chosen : List Text)
    → All (λ code. is_country_code code ≡ true) (country_codes countries)
    → 0 < length chosen
    → IsEligible countries chosen
    → is_country_list (join (b' ' ∷ []) chosen) ≡ true
chosen_values countries [] valid lower e = absurd (omega arith)
chosen_values countries (c ∷ cs) valid lower e =
    is_country_list-join c cs
      (All-map
        (λ x m.
          All-mem_text (λ code. is_country_code code ≡ true) x (country_codes countries) valid m)
        (c ∷ cs) e.eligible)
      e.bounded

-- What the setup writes as the menu of countries and as the chosen ones.
abbrev pub written_values : CountrySelection → Text × Text
written_values selection =
    if selection.all_countries
    then (codes "ALL", [])
    else (configured_country_value selection, configured_country_value selection)

selection_values_lem :
    (countries : List Country) (selection : CountrySelection)
    → All (λ code. is_country_code code ≡ true) (country_codes countries)
    → IsSelection countries selection
    → selection_values selection ≡ ok (written_values selection)
unfolding selection_values configured_country_value
selection_values_lem countries selection valid (everything every none_named) = rw every refl
selection_values_lem countries selection valid (some_of_them named lower e) =
    rw named (rw (chosen_values countries selection.codes valid lower e) refl)

inventory_codes :
    (is_printable : ℕ → Bool) (countries : List Country)
    → All (IsCountry is_printable) countries
    → All (λ code. is_country_code code ≡ true) (country_codes countries)
inventory_codes is_printable [] h = tt
inventory_codes is_printable (c ∷ cs) (valid, h) =
    (valid.code_valid, inventory_codes is_printable cs h)

-- A request that carries a selection which `normalize_country_selection` made from the countries of
-- an accepted inventory is written by `country_values` without an error: as ALL and an empty list for
-- all countries, and else as the chosen codes, in both places.
pub country_values-normalize :
    (is_printable : ℕ → Bool) (upper : Text → Text) (payload : Text) (tokens : List Text)
    (request : SetupRequest) {countries : List Country} {selection : CountrySelection}
    → parse_country_inventory is_printable payload ≡ ok countries
    → normalize_country_selection upper tokens countries ≡ ok selection
    → request.country_selection ≡ some selection
    → country_values request ≡ ok (written_values selection)
unfolding country_values
country_values-normalize is_printable upper payload tokens request {countries} {selection} offered
      chosen carried =
    let (_, valid, _, _) = parse_country_inventory_lem is_printable payload offered in
    rw carried (
      selection_values_lem countries selection (inventory_codes is_printable countries valid)
        (normalize_country_selection-IsSelection upper tokens countries chosen))
