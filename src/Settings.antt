-- ===== src/Settings.antt =====
-- The checks of `settings_from_values`: libexec/wg_healthcheck_setup/private_io.py.
use air_vpn_wg_healthcheck.Prelude.{
  Bool, List, [], any, false, length, ltb, not, ◌&&◌, ◌++◌, ◌||◌, ◌∷◌,
}
use air_vpn_wg_healthcheck.Result.{Result, ok, raise_if, ◌>>◌}
use air_vpn_wg_healthcheck.Text.{Text, codes, mem_text, text_eq}
use air_vpn_wg_healthcheck.Text.Split.{split}
use air_vpn_wg_healthcheck.Model.{is_country_code, is_device}

-- `settings_from_values`: the checks of the proposed record
unfoldable pub has_duplicate : List Text → Bool
has_duplicate [] = false
has_duplicate (x ∷ xs) = mem_text x xs || has_duplicate xs

unfoldable pub settings_record : Text → Text → Result Text
settings_record device countries =
    let tokens = split b' ' countries in
    let record_text =
      codes "version=1\ndevice="
      ++ (device ++ (codes "\ncountries=" ++ (countries ++ b'\n' ∷ []))) in
    do
      raise_if (not (is_device device)) "proposed AirVPN device is invalid"
      raise_if
          (not (text_eq countries (codes "ALL"))
            && (mem_text [] tokens
                || ltb 32 (length tokens)
                || has_duplicate tokens
                || any (λ token. not (is_country_code token)) tokens))
          "proposed country settings are not canonical"
      raise_if (ltb 256 (length record_text)) "proposed settings record exceeds 256 bytes"
      ok record_text
