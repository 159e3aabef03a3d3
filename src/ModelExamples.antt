-- ===== src/ModelExamples.antt =====
-- The theorems on the setup data and the configuration, on concrete inputs.
use air_vpn_wg_healthcheck.Model.ManifestAccepted.{parse_runtime_manifest-IsManifest}
use air_vpn_wg_healthcheck.Config.Rewriting.{IsRewritten, render_config-IsRewritten}
use air_vpn_wg_healthcheck.Text.Ipv4.{octet_of, parse_ipv4, parse_octet, str_ipv4}
use air_vpn_wg_healthcheck.Text.Decimal.{int_text, is_canonical, str_int, value}
use air_vpn_wg_healthcheck.Text.Split.{join, rsplit_once, split, split_once, unlines}
use air_vpn_wg_healthcheck.Prelude.{
  All, Bool, List, [], false, if◌then◌else◌, map, none, refl, some, true, ℕ, ◌-◌, ◌<◌, ◌↔◌, ◌∷◌,
  ◌≡◌, ◌≤◌,
}
use air_vpn_wg_healthcheck.Result.{ok}
use air_vpn_wg_healthcheck.Text.{Text, but_last, codes, count, ends_with, mem_text, text_eq, within}
use air_vpn_wg_healthcheck.Model.{
  Country, CountrySelection, RuntimeManifest, SetupRequest, api_mode, apply_action,
  configured_country_value, enable, is_count, is_country_code, is_server,
}
use air_vpn_wg_healthcheck.Model.Inventory.{
  parse_countries, parse_country, parse_country_inventory, split_lines, text_lt, utf8_length,
}
use air_vpn_wg_healthcheck.Model.Selection.{
  is_menu_number, normalize_country_selection, select_tokens, token_code,
}
use air_vpn_wg_healthcheck.Model.Manifest.{
  manifest_of, parse_endpoint, parse_manifest_fields, parse_runtime_manifest,
}
use air_vpn_wg_healthcheck.Model.Diagnostic.{parse_runtime_failure_diagnostic}
use air_vpn_wg_healthcheck.Model.ManifestCanonical.{IsManifest}
use air_vpn_wg_healthcheck.Model.DiagnosticCanonical.{IsDiagnostic, parse-IsDiagnostic_iff}
use air_vpn_wg_healthcheck.Model.InventorySorted.{
  IsAscending, IsCountry, parse_country_inventory_lem,
}
use air_vpn_wg_healthcheck.Model.SelectionEligible.{
  IsSelection, normalize_country_selection-IsSelection,
}
use air_vpn_wg_healthcheck.Config.{
  Updates, assignment, config_line, country_values, is_key, missing_lines, parse_config_value,
  quote_config_value, render_config, rewrite_line, rewrite_lines, update_for,
}
use air_vpn_wg_healthcheck.Config.Quoting.{parse-quote_config_value}
use air_vpn_wg_healthcheck.Config.SelectionValues.{country_values-normalize}

-- The printable characters and the upper case of ASCII.
abbrev printable : ℕ → Bool
printable = within 0x20 0x7e

abbrev upper_char : ℕ → ℕ
upper_char c = if within b'a' b'z' c then c - 32 else c

abbrev ascii_upper : Text → Text
ascii_upper = map upper_char

abbrev inventory : Text
inventory = codes "CH\tSwitzerland\t12\nNL\tNetherlands\t30\n"

abbrev offered : List Country
offered =
    record { code = codes "CH"; name = codes "Switzerland"; healthy_servers = 12 }
    ∷ record { code = codes "NL"; name = codes "Netherlands"; healthy_servers = 30 }
    ∷ []

inventory_parsed : parse_country_inventory printable inventory ≡ ok offered
unfolding parse_country_inventory parse_countries parse_country split_lines split is_country_code
    is_count text_lt text_eq ends_with utf8_length int_text value
inventory_parsed = refl

parse_country_inventory_lem_example :
    IsAscending [] offered × All (IsCountry printable) offered × (0 < 2) × (2 ≤ 676)
parse_country_inventory_lem_example =
    parse_country_inventory_lem printable inventory inventory_parsed

abbrev tokens : List Text
tokens = codes "2" ∷ codes "ch" ∷ codes "NL" ∷ []

abbrev selection : CountrySelection
selection = record { codes = codes "NL" ∷ codes "CH" ∷ []; all_countries = false }

tokens_selected : normalize_country_selection ascii_upper tokens offered ≡ ok selection
unfolding normalize_country_selection select_tokens token_code is_menu_number int_text value
    is_country_code mem_text text_eq
tokens_selected = refl

normalize_country_selection-IsSelection_example : IsSelection offered selection
normalize_country_selection-IsSelection_example =
    normalize_country_selection-IsSelection ascii_upper tokens offered tokens_selected

abbrev request : SetupRequest
request = record {
  iface = codes "wg0";
  mode = some api_mode;
  action = some apply_action;
  timer = some enable;
  device = none;
  countries_text = none;
  credential_file = none;
  non_interactive = false;
  restore_pre_managed = false;
  replace_credential = false;
  remove_credential = false;
  reset_api_state = false;
  country_selection = some selection;
}

country_values-normalize_example : country_values request ≡ ok (codes "NL CH", codes "NL CH")
unfolding configured_country_value join
country_values-normalize_example =
    country_values-normalize printable ascii_upper inventory tokens request inventory_parsed
      tokens_selected refl

abbrev manifest_line : Text
manifest_line = codes "generated\tAlpha\t192.0.2.10:1637\tpinned=1\n"

abbrev manifest : RuntimeManifest
manifest = record { server = codes "Alpha"; endpoint = codes "192.0.2.10:1637"; pinned = true }

manifest_parsed : parse_runtime_manifest manifest_line (codes "adopt") ≡ ok manifest
unfolding parse_runtime_manifest parse_manifest_fields manifest_of parse_endpoint parse_ipv4
    parse_octet octet_of str_ipv4 str_int split rsplit_once is_server is_canonical int_text value
    text_eq count ends_with but_last
manifest_parsed = refl

parse_runtime_manifest-IsManifest_example :
    (parse_runtime_manifest manifest_line (codes "adopt") ≡ ok manifest)
    ↔ IsManifest manifest_line (codes "adopt") manifest
parse_runtime_manifest-IsManifest_example =
    parse_runtime_manifest-IsManifest manifest_line (codes "adopt") manifest

parse-IsDiagnostic_iff_example :
    (parse_runtime_failure_diagnostic (codes "failure\ttransient\tphase=profile\n")
      ≡ some (codes "profile", none))
    ↔ IsDiagnostic (codes "failure\ttransient\tphase=profile\n") (codes "profile") none
parse-IsDiagnostic_iff_example =
    parse-IsDiagnostic_iff (codes "failure\ttransient\tphase=profile\n") (codes "profile") none

device_quoted : quote_config_value (codes "My Router") ≡ ok (codes "\"My Router\"")
unfolding quote_config_value text_eq
device_quoted = refl

parse-quote_config_value_example :
    parse_config_value (codes "\"My Router\"") ≡ ok (codes "My Router")
parse-quote_config_value_example = parse-quote_config_value (codes "My Router") device_quoted

abbrev old_config : Text
old_config = codes "# health\nAIRVPN_DEVICE=old\nINTERVAL=60\n"

abbrev updates : Updates
updates =
    (codes "AIRVPN_DEVICE", codes "My Router") ∷ (codes "AIRVPN_PROFILE_SOURCE", codes "api") ∷ []

abbrev new_config : Text
new_config = codes "# health\nAIRVPN_DEVICE=\"My Router\"\nINTERVAL=60\nAIRVPN_PROFILE_SOURCE=api\n"

config_rendered : render_config old_config updates ≡ ok new_config
unfolding render_config rewrite_lines rewrite_line missing_lines config_line quote_config_value
    assignment is_key split_once split_lines update_for mem_text text_eq ends_with unlines count
config_rendered = refl

render_config-IsRewritten_example : IsRewritten old_config updates new_config
render_config-IsRewritten_example = render_config-IsRewritten old_config updates config_rendered
