-- ===== src/Model/Inventory.antt =====
-- `parse_country_inventory` of libexec/wg_healthcheck_setup/model.py.
use air_vpn_wg_healthcheck.Prelude.{
  Bool, List, String, [], any, false, if◌then◌else◌, length, ltb, not, true, ℕ, ◌&&◌, ◌*◌, ◌+◌,
  ◌==◌, ◌||◌, ◌∷◌,
}
use air_vpn_wg_healthcheck.Result.{Result, err, ok, raise_if, ◌>>=◌, ◌>>◌}
use air_vpn_wg_healthcheck.Text.{Text, ends_with, text_eq, within}
use air_vpn_wg_healthcheck.Text.Split.{cons_first, split}
use air_vpn_wg_healthcheck.Text.Decimal.{int_text}
use air_vpn_wg_healthcheck.Model.{Country, is_count, is_country_code}

abbrev pub max_country_output_bytes : ℕ
max_country_output_bytes = 64 * 1024

-- s < t, by code points
unfoldable pub text_lt : Text → Text → Bool
text_lt s [] = false
text_lt [] (d ∷ t) = true
text_lt (c ∷ s) (d ∷ t) = ltb c d || (c == d && text_lt s t)

-- The bytes of one code point in UTF-8.
abbrev pub utf8_size : ℕ → ℕ
utf8_size c = if ltb c 0x80 then 1 else if ltb c 0x800 then 2 else if ltb c 0x10000 then 3 else 4

unfoldable pub utf8_length : Text → ℕ
utf8_length [] = 0
utf8_length (c ∷ s) = utf8_size c + utf8_length s

abbrev pub is_surrogate : ℕ → Bool
is_surrogate = within 0xd800 0xdfff

-- The line boundaries of `str.splitlines`.
abbrev pub is_line_break : ℕ → Bool
is_line_break c =
    within 0x0a 0x0d c || within 0x1c 0x1e c || c == 0x85 || c == 0x2028 || c == 0x2029

-- `str.splitlines` of the characters behind one that was a carriage return, or was not.
unfoldable pub split_lines : (ℕ → Bool) → Bool → Text → List Text
split_lines is_break after_cr [] = []
split_lines is_break after_cr (c ∷ s) =
    let rest = split_lines is_break (c == b'\r') s in
    if after_cr && c == b'\n' then rest else if is_break c then [] ∷ rest else cons_first c rest

abbrev pub unsorted : String
unsorted = "country discovery returned unsorted or duplicate codes"

module _ (is_printable : ℕ → Bool) where
  -- One record of the output, behind the code of the record before it.
  unfoldable pub parse_country : Text → List Text → Result Country
  parse_country previous_code (code ∷ name ∷ count_text ∷ []) = do
    raise_if (not (is_country_code code) || not (text_lt previous_code code)) unsorted
    raise_if (text_eq name [] || ltb 128 (length name) || any (λ c. not (is_printable c)) name)
        "country discovery returned an invalid country name"
    raise_if (not (is_count count_text))
        "country discovery returned an invalid healthy-server count"
    raise_if (ltb 1000 (int_text count_text))
        "country discovery returned an invalid healthy-server count"
    ok (record { code = code; name = name; healthy_servers = int_text count_text })
  parse_country previous_code _ = err "country discovery returned an invalid record"

  -- The loop over the lines.
  unfoldable pub parse_countries : Text → List Text → Result (List Country)
  parse_countries previous_code [] = ok []
  parse_countries previous_code (line ∷ lines) = do
    country ← parse_country previous_code (split b'\t' line)
    rest ← parse_countries country.code lines
    ok (country ∷ rest)

  -- `parse_country_inventory`
  unfoldable pub parse_country_inventory : Text → Result (List Country)
  parse_country_inventory payload = do
    raise_if (any is_surrogate payload) "country discovery returned invalid text"
    raise_if
        (text_eq payload []
          || ltb max_country_output_bytes (utf8_length payload)
          || not (ends_with b'\n' payload))
        "country discovery returned an invalid bounded response"
    countries ← parse_countries [] (split_lines is_line_break false payload)
    raise_if (length countries == 0 || ltb 676 (length countries))
        "country discovery returned no bounded eligible choices"
    ok countries
