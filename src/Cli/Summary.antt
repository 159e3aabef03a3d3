-- ===== src/Cli/Summary.antt =====
-- What the command line prints: `render_summary` and `render_country_menu`
-- (libexec/wg_healthcheck_setup/cli.py).
use air_vpn_wg_healthcheck.Prelude.{
  Bool, List, Option, [], if◌then◌else◌, none, some, ℕ, ◌++◌, ◌+◌, ◌==◌, ◌∷◌,
}
use air_vpn_wg_healthcheck.Text.{Text, codes}
use air_vpn_wg_healthcheck.Text.Split.{join}
use air_vpn_wg_healthcheck.Text.Decimal.{str_int, value}
use air_vpn_wg_healthcheck.Model.{
  Action, Country, Mode, SetupRequest, Timer, api_mode, apply_action, disabled, dry_run, enable,
  static_mode,
}
use air_vpn_wg_healthcheck.Application.Request.{is_mode}

abbrev yes_no : Bool → Text
yes_no flag = if flag then codes "yes" else codes "no"

-- value or 'not selected'
unfoldable pub or_not_selected : Text → Text
or_not_selected [] = codes "not selected"
or_not_selected value = value

abbrev pub mode_text : Option Mode → Text
mode_text none = []
mode_text (some static_mode) = codes "static"
mode_text (some api_mode) = codes "api"

abbrev pub action_text : Option Action → Text
action_text none = []
action_text (some apply_action) = codes "apply"
action_text (some dry_run) = codes "dry-run"

abbrev pub timer_text : Option Timer → Text
timer_text none = []
timer_text (some enable) = codes "enable"
timer_text (some disabled) = codes "disabled"

abbrev text_or_empty : Option Text → Text
text_or_empty none = []
text_or_empty (some value) = value

unfoldable pub country_text : SetupRequest → Text
country_text request = elim request.country_selection [
  | none ↦ or_not_selected (text_or_empty request.countries_text)
  | some selection ↦
      if selection.all_countries then codes "ALL (explicit)" else join (b' ' ∷ []) selection.codes
]

unfoldable pub api_lines : SetupRequest → List Text
api_lines request =
    if is_mode api_mode request.mode
    then (codes "device: " ++ or_not_selected (text_or_empty request.device))
      ∷ (codes "countries: " ++ country_text request)
      ∷ codes "country policy: hard allowlist; order is a soft preference"
      ∷ codes "credential: private descriptor (value redacted)"
      ∷ []
    else []

unfoldable pub summary_lines : SetupRequest → List Text
summary_lines request =
    (codes "interface: " ++ request.iface)
    ∷ (codes "mode: " ++ or_not_selected (mode_text request.mode))
    ∷ (codes "action: " ++ or_not_selected (action_text request.action))
    ∷ (codes "timer: " ++ or_not_selected (timer_text request.timer))
    ∷ (api_lines request
        ++ (codes "remove credential: " ++ yes_no request.remove_credential)
          ∷ (codes "reset API state: " ++ yes_no request.reset_api_state)
          ∷ codes "pre-managed snapshot: preserved"
          ∷ [])

-- `render_summary`
unfoldable pub render_summary : SetupRequest → Text
render_summary request = join (b'\n' ∷ []) (summary_lines request) ++ b'\n' ∷ []

unfoldable pub menu_line : ℕ → Country → Text
menu_line number country =
    codes "  "
    ++ (str_int number
        ++ (codes ". "
            ++ (country.code
                ++ (codes "  "
                    ++ (country.name
                        ++ (codes " ("
                            ++ (str_int country.healthy_servers
                                ++ (codes " healthy "
                                    ++ ((if country.healthy_servers == 1
                                          then codes "server"
                                          else codes "servers")
                                        ++ codes ")\n")))))))))

unfoldable pub menu_lines : ℕ → List Country → Text
menu_lines number [] = []
menu_lines number (country ∷ countries) =
    menu_line number country ++ menu_lines (number + 1) countries

-- `render_country_menu`: what it writes
unfoldable pub render_country_menu : List Country → Text
render_country_menu countries =
    codes "Eligible countries with healthy AirVPN WireGuard servers:\n"
    ++ (menu_lines 1 countries
        ++ (codes "Select numbers/codes in preference order, or explicitly select ALL.\n"
            ++ (codes "One country is strict. Multiple countries form a hard allowlist; order is a "
                ++ codes "soft preference inside that allowlist.\n")))
