-- ===== src/Model.antt =====
-- Validated setup data: libexec/wg_healthcheck_setup/model.py. The patterns and the requests here;
-- the parsers of what the helper processes print are in the modules below.
pub mod Inventory
pub mod Selection
pub mod Manifest
pub mod ManifestCanonical
pub mod ManifestText
pub mod ManifestAccepted
pub mod Diagnostic
pub mod DiagnosticCanonical
pub mod InventorySorted
pub mod SelectionEligible
use air_vpn_wg_healthcheck.Text.Split.{join}
use air_vpn_wg_healthcheck.Prelude.{
  Bool, List, Option, [], all, false, if◌then◌else◌, leb, length, some, true, ℕ, ◌&&◌, ◌==◌, ◌||◌,
  ◌∷◌,
}
use air_vpn_wg_healthcheck.Text.{Text, is_digit, within}

abbrev pub is_upper : ℕ → Bool
is_upper = within b'A' b'Z'

abbrev pub is_lower : ℕ → Bool
is_lower = within b'a' b'z'

abbrev pub is_alphanumeric : ℕ → Bool
is_alphanumeric c = is_upper c || is_lower c || is_digit c

abbrev pub is_interface_tail : ℕ → Bool
is_interface_tail c =
    is_alphanumeric c || c == b'_' || c == b'=' || c == b'+' || c == b'.' || c == b'-'

-- INTERFACE_PATTERN: [A-Za-z0-9][A-Za-z0-9_=+.-]{0,14}
unfoldable pub is_interface : Text → Bool
is_interface [] = false
is_interface (c ∷ s) = is_alphanumeric c && all is_interface_tail s && leb (length s) 14

abbrev pub is_device_tail : ℕ → Bool
is_device_tail c = is_alphanumeric c || c == b' ' || c == b'.' || c == b'_' || c == b'-'

-- DEVICE_PATTERN: [A-Za-z0-9][A-Za-z0-9 ._-]{0,63}
unfoldable pub is_device : Text → Bool
is_device [] = false
is_device (c ∷ s) = is_alphanumeric c && all is_device_tail s && leb (length s) 63

-- COUNTRY_CODE_PATTERN: [A-Z]{2}
unfoldable pub is_country_code : Text → Bool
is_country_code (a ∷ b ∷ []) = is_upper a && is_upper b
is_country_code _ = false

-- COUNT_PATTERN: [1-9][0-9]{0,3}
unfoldable pub is_count : Text → Bool
is_count [] = false
is_count (c ∷ s) = within b'1' b'9' c && all is_digit s && leb (length s) 3

-- SERVER_PATTERN: [A-Za-z0-9-]{1,64}
unfoldable pub is_server : Text → Bool
is_server s = all (λ c. is_alphanumeric c || c == b'-') s && leb 1 (length s) && leb (length s) 64

pub record Country : Type 0 where
  pub code : Text
  pub name : Text
  pub healthy_servers : ℕ

pub record CountrySelection : Type 0 where
  pub codes : List Text
  pub all_countries : Bool

pub data Mode : Type 0 where
  static_mode api_mode : Mode

pub data Action : Type 0 where
  apply_action dry_run : Action

pub data Timer : Type 0 where
  enable disabled : Timer

abbrev pub enables : Option Timer → Bool
enables (some enable) = true
enables _ = false

-- `SetupRequest`; `None` of a mode, an action, a timer outcome or a text is `none`.
pub record SetupRequest : Type 0 where
  pub iface : Text
  pub mode : Option Mode
  pub action : Option Action
  pub timer : Option Timer
  pub device : Option Text
  pub countries_text : Option Text
  pub credential_file : Option Text
  pub non_interactive : Bool
  pub restore_pre_managed : Bool
  pub replace_credential : Bool
  pub remove_credential : Bool
  pub reset_api_state : Bool
  pub country_selection : Option CountrySelection

pub record RuntimeManifest : Type 0 where
  pub server : Text
  pub endpoint : Text
  pub pinned : Bool

-- `configured_country_value`
unfoldable pub configured_country_value : CountrySelection → Text
configured_country_value selection =
    if selection.all_countries then [] else join (b' ' ∷ []) selection.codes
