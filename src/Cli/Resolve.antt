-- ===== src/Cli/Resolve.antt =====
-- `resolve_request` (libexec/wg_healthcheck_setup/cli.py): which combinations of arguments are a request.
use air_vpn_wg_healthcheck.Prelude.{
  Bool, List, Option, [], any, false, if◌then◌else◌, map, none, not, some, true, ◌&&◌, ◌||◌, ◌∷◌,
}
use air_vpn_wg_healthcheck.Text.{Text, codes, mem_text, text_eq}
use air_vpn_wg_healthcheck.Model.{
  Mode, SetupRequest, api_mode, enables, is_country_code, is_device, is_interface, static_mode,
}
use air_vpn_wg_healthcheck.Result.{Result, err, ok, raise_if, ◌>>=◌, ◌>>◌}
use air_vpn_wg_healthcheck.Cli.{Arguments}
use air_vpn_wg_healthcheck.Credential.{is_some}
use air_vpn_wg_healthcheck.Application.Request.{is_mode}

-- upper != ["ALL"], negated
unfoldable pub is_all_alone : List Text → Bool
is_all_alone (token ∷ []) = text_eq token (codes "ALL")
is_all_alone _ = false

-- What a run without questions must say.
unfoldable pub check_decisions : Arguments → Result (Unit {0})
check_decisions args =
    if args.non_interactive
    then (do
      raise_if (not (is_some args.mode)) "non-interactive setup requires an explicit --mode"
      raise_if (not (is_some args.action)) "non-interactive setup requires --dry-run or --apply"
      raise_if (not (is_some args.timer))
          "non-interactive setup requires an explicit timer decision: --enable-timer or --leave-timer-disabled")
    else ok tt

abbrev pub valid_device : Option Text → Bool
valid_device none = true
valid_device (some device) = is_device device

unfoldable pub check_static : Arguments → Result (Unit {0})
check_static args = do
  raise_if (is_some args.device || is_some args.countries)
      "--device and --countries are only valid in API mode"
  raise_if (is_some args.credential_file || args.replace_credential)
      "--credential-file and --replace-credential are only valid in API mode"

-- The tests behind the one of the mode.
unfoldable pub check_flags : Arguments → Option Mode → Result (Unit {0})
check_flags args mode = do
  raise_if (args.replace_credential && not (is_mode api_mode mode))
      "--replace-credential requires API mode"
  raise_if (args.remove_credential && not (is_mode static_mode mode))
      "--remove-credential requires static mode"
  raise_if (args.restore_pre_managed && not (is_mode static_mode mode))
      "--restore-pre-managed requires static mode"

unfoldable pub request_of : Arguments → Option Mode → SetupRequest
request_of args mode = record {
  iface = args.iface;
  mode = mode;
  action = args.action;
  timer = args.timer;
  device = args.device;
  countries_text = args.countries;
  credential_file = args.credential_file;
  non_interactive = args.non_interactive;
  restore_pre_managed = args.restore_pre_managed;
  replace_credential = args.replace_credential;
  remove_credential = args.remove_credential;
  reset_api_state = args.reset_api_state;
  country_selection = none;
}

unfoldable pub check_reset : Arguments → Result (Unit {0})
check_reset args = do
  raise_if (args.reset_api_state && not (is_some args.action))
      "--reset-api-state requires the safety flag --dry-run or --apply"
  raise_if (args.reset_api_state && enables args.timer) "--reset-api-state cannot enable the timer"

-- the tests of `_validate_noninteractive_country_text`, on the tokens in upper case
unfoldable pub validate_tokens : List Text → Result (Unit {0})
validate_tokens [] = err "non-interactive API setup requires --countries codes or ALL"
validate_tokens (token ∷ tokens) =
    if mem_text (codes "ALL") (token ∷ tokens)
    then raise_if (not (is_all_alone (token ∷ tokens)))
        "ALL must be the only non-interactive country selection"
    else raise_if (any (λ t. not (is_country_code t)) (token ∷ tokens))
        "non-interactive --countries must contain whitespace-separated two-letter codes or the single token ALL"

module _ (upper : Text → Text) (words : Text → List Text) where
  -- `_validate_noninteractive_country_text`
  unfoldable pub validate_noninteractive_country_text : Text → Result (Unit {0})
  validate_noninteractive_country_text value = validate_tokens (map upper (words value))

  unfoldable pub check_countries : Option Text → Result (Unit {0})
  check_countries none = err "non-interactive API setup requires --countries codes or ALL"
  check_countries (some value) = validate_noninteractive_country_text value

  -- What a run without questions must say in API mode.
  unfoldable pub check_complete : Arguments → Result (Unit {0})
  check_complete args =
      if args.non_interactive
      then (do
        raise_if (not (is_some args.device)) "non-interactive API setup requires --device"
        check_countries args.countries
        raise_if (args.replace_credential && not (is_some args.credential_file))
            "non-interactive credential replacement requires --credential-file")
      else ok tt

  unfoldable pub check_api : Arguments → Result (Unit {0})
  check_api args = do
    raise_if (not (valid_device args.device)) "AirVPN device name is invalid"
    check_complete args
    raise_if args.remove_credential "--remove-credential requires static mode"
    raise_if args.restore_pre_managed "--restore-pre-managed requires static mode"

  unfoldable pub check_mode : Arguments → Option Text → Result (Option Mode)
  check_mode args none = ok none
  check_mode args (some mode) =
      if text_eq mode (codes "api")
      then check_api args >> ok (some api_mode)
      else if text_eq mode (codes "static")
      then check_static args >> ok (some static_mode)
      else err "mode must be static or api"

  -- `resolve_request`
  unfoldable pub resolve_request : Arguments → Result SetupRequest
  resolve_request args = do
    raise_if (not (is_interface args.iface)) "interface name is invalid"
    check_decisions args
    check_reset args
    mode ← check_mode args args.mode
    check_flags args mode
    ok (request_of args mode)
