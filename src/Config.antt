-- ===== src/Config.antt =====
-- The health configuration: libexec/wg_healthcheck_setup/apply_config.py. Reading one value
-- (`config_value`) and rewriting the values that the setup owns (`render_config`).
pub mod SelectionValues
pub mod Quoting
pub mod Updated
pub mod Rewriting
use air_vpn_wg_healthcheck.Prelude.{
  Bool, List, Option, [], all, any, false, if◌then◌else◌, leb, length, ltb, none, not, some, ℕ,
  ◌&&◌, ◌++◌, ◌==◌, ◌||◌, ◌∷◌,
}
use air_vpn_wg_healthcheck.Result.{Result, err, ok, raise_if, ◌>>=◌, ◌>>◌}
use air_vpn_wg_healthcheck.Text.{
  Text, but_last, codes, count, ends_with, is_digit, mem_text, text_eq,
}
use air_vpn_wg_healthcheck.Text.Split.{join, split, split_once, unlines}
use air_vpn_wg_healthcheck.Model.{CountrySelection, SetupRequest, is_country_code, is_upper}
use air_vpn_wg_healthcheck.Model.Inventory.{split_lines}

abbrev pub max_config_bytes : ℕ
max_config_bytes = 65_536

abbrev pub is_ambiguous : ℕ → Bool
is_ambiguous c = c == b'\\' || c == b'"' || c == b'\'' || c == b'`' || c == b'$'

-- `_quote_config_value`
unfoldable pub quote_config_value : Text → Result Text
quote_config_value value = do
  raise_if (any is_ambiguous value) "a proposed health configuration value is ambiguous"
  raise_if (any (λ c. leb 128 c) value) "a proposed health configuration value is invalid"
  ok (
      if text_eq value [] || any (λ c. c == b' ' || c == b'\t') value
      then b'"' ∷ (value ++ b'"' ∷ [])
      else value)

-- raw[1:-1] where the value stands between two equal quotes
unfoldable pub unquote : Text → Text
unquote [] = []
unquote (q ∷ rest) =
    if (q == b'"' || q == b'\'') && ends_with q rest then but_last rest else q ∷ rest

-- `_parse_config_value`
unfoldable pub parse_config_value : Text → Result Text
parse_config_value raw =
    if any (λ c. leb 128 c) (unquote raw)
    then err "the installed health configuration is invalid"
    else ok (unquote raw)

-- The key pattern [A-Z][A-Z0-9_]*.
unfoldable pub is_key : Text → Bool
is_key [] = false
is_key (c ∷ s) = is_upper c && all (λ d. is_upper d || is_digit d || d == b'_') s

-- `_ASSIGNMENT.fullmatch`: the key and the raw value of a line
unfoldable pub assignment : Text → Option (Text × Text)
assignment line = elim (split_once b'=' line) [
  | none ↦ none
  | some (key, raw) ↦ if is_key key && count b'\n' raw == 0 then some (key, raw) else none
]

-- `bytes.splitlines`
abbrev pub byte_lines : Text → List Text
byte_lines = split_lines (λ c. c == b'\n' || c == b'\r') false

-- A line assigns the wanted key.
unfoldable pub wanted_value : Text → Text → Option Text
wanted_value wanted line = elim (assignment line) [
  | none ↦ none
  | some (key, raw) ↦ if text_eq key wanted then some raw else none
]

-- One round of the loop of `config_value`.
unfoldable pub config_step : Option Text → Option Text → Result (Option Text)
config_step found none = ok found
config_step (some _) (some raw) = err "the installed health configuration has duplicate keys"
config_step none (some raw) = parse_config_value raw >>= λ value. ok (some value)

unfoldable pub config_loop : Text → Option Text → List Text → Result (Option Text)
config_loop wanted found [] = ok found
config_loop wanted found (line ∷ lines) = do
  next ← config_step found (wanted_value wanted line)
  config_loop wanted next lines

-- `config_value`
unfoldable pub config_value : Text → Text → Result (Option Text)
config_value payload wanted = config_loop wanted none (byte_lines payload)

abbrev pub Updates : Type 0
Updates = List (Text × Text)

-- updates.get(key)
unfoldable pub update_for : Text → Updates → Option Text
update_for key [] = none
update_for key ((k, v) ∷ updates) = if text_eq key k then some v else update_for key updates

-- key.encode("ascii") + b"=" + _quote_config_value(value)
unfoldable pub config_line : Text → Text → Result Text
config_line key value = quote_config_value value >>= λ quoted. ok (key ++ b'=' ∷ quoted)

-- One round of the first loop of `render_config`: the line to write, and the keys seen so far.
unfoldable pub rewrite_line :
    Updates → List Text → Text → Option (Text × Text) → Result (Text × List Text)
rewrite_line updates seen line none = ok (line, seen)
rewrite_line updates seen line (some (key, raw)) = elim (update_for key updates) [
  | none ↦ ok (line, seen)
  | some value ↦
      if mem_text key seen
      then err "the installed health configuration has duplicate setup keys"
      else (do written ← config_line key value; ok (written, key ∷ seen))
]

unfoldable pub rewrite_lines : Updates → List Text → List Text → Result (List Text × List Text)
rewrite_lines updates seen [] = ok ([], seen)
rewrite_lines updates seen (line ∷ lines) = do
  (written, seen') ← rewrite_line updates seen line (assignment line)
  (rest, seen'') ← rewrite_lines updates seen' lines
  ok (written ∷ rest, seen'')

-- The second loop: the keys that no line assigned.
unfoldable pub missing_lines : List Text → Updates → Result (List Text)
missing_lines seen [] = ok []
missing_lines seen ((key, value) ∷ updates) = do
  rest ← missing_lines seen updates
  if mem_text key seen then ok rest else (config_line key value >>= λ line. ok (line ∷ rest))

-- `render_config`
unfoldable pub render_config : Text → Updates → Result Text
render_config payload updates = do
  raise_if
      (not (ends_with b'\n' payload)
        || any (λ c. c == 0) payload
        || ltb max_config_bytes (length payload))
      "the installed health configuration is not canonical text"
  (rendered, seen) ← rewrite_lines updates [] (byte_lines payload)
  appended ← missing_lines seen updates
  let result = unlines b'\n' (rendered ++ appended)
  raise_if (ltb max_config_bytes (length result))
      "the updated health configuration exceeds its size limit"
  ok result

-- the pattern [A-Z]{2}(?: [A-Z]{2}){0,31}
unfoldable pub is_country_list : Text → Bool
is_country_list configured =
    let words = split b' ' configured in all is_country_code words && leb (length words) 32

unfoldable pub selection_values : CountrySelection → Result (Text × Text)
selection_values selection =
    let configured = join (b' ' ∷ []) selection.codes in
    if selection.all_countries
    then ok (codes "ALL", [])
    else if is_country_list configured
    then ok (configured, configured)
    else err "API setup countries are not canonical"

-- `country_values`
unfoldable pub country_values : SetupRequest → Result (Text × Text)
country_values request = elim request.country_selection [
  | none ↦ err "API setup requires an explicit validated country selection"
  | some selection ↦ selection_values selection
]
