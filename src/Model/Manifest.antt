-- ===== src/Model/Manifest.antt =====
-- `parse_runtime_manifest` of libexec/wg_healthcheck_setup/model.py.
use air_vpn_wg_healthcheck.Prelude.{
  Bool, List, String, [], any, if◌then◌else◌, leb, length, ltb, none, not, some, ℕ, ◌++◌, ◌==◌,
  ◌||◌, ◌∷◌,
}
use air_vpn_wg_healthcheck.Result.{Result, err, ok, raise_if, ◌>>=◌, ◌>>◌}
use air_vpn_wg_healthcheck.Text.{Text, but_last, codes, count, ends_with, text_eq}
use air_vpn_wg_healthcheck.Text.Split.{rsplit_once, split}
use air_vpn_wg_healthcheck.Text.Ipv4.{Ipv4, parse_ipv4, str_ipv4}
use air_vpn_wg_healthcheck.Text.Decimal.{int_text, is_canonical, str_int}
use air_vpn_wg_healthcheck.Model.{RuntimeManifest, is_server}

abbrev pub max_manifest_bytes : ℕ
max_manifest_bytes = 256

abbrev pub invalid_manifest : String
invalid_manifest = "runtime returned an invalid redacted manifest"

abbrev pub is_wireguard_port : ℕ → Bool
is_wireguard_port port = port == 1637 || port == 47107 || port == 51820

abbrev pub expected_pin : Text → Text
expected_pin operation = if text_eq operation (codes "adopt") then codes "1" else codes "0"

-- f"generated\t{server}\t{address}:{port}\tpinned={pin}\n"
abbrev pub manifest_text : Text → Text → Text → Text → Text
manifest_text server address port pin =
    codes "generated\t"
    ++ (server
        ++ (b'\t' ∷ (address ++ (b':' ∷ (port ++ (codes "\tpinned=" ++ (pin ++ b'\n' ∷ [])))))))

-- The address and the port of the third field. `int(port_text, 10)` refuses what is no number; a
-- number that is not written canonically is refused by the next test.
unfoldable pub parse_endpoint : Text → Result (Ipv4 × ℕ)
parse_endpoint endpoint = elim (rsplit_once b':' endpoint) [
  | none ↦ err invalid_manifest
  | some (address_text, port_text) ↦ elim (parse_ipv4 address_text) [
    | none ↦ err invalid_manifest
    | some address ↦
        if not (text_eq (str_ipv4 address) address_text)
          || not (is_canonical port_text)
          || not (is_wireguard_port (int_text port_text))
        then err invalid_manifest
        else ok (address, int_text port_text)
  ]
]

-- The manifest of a valid server and endpoint, behind the tests on the pin and the whole payload.
unfoldable pub manifest_of : Text → Text → Text → Text → Ipv4 × ℕ → Result RuntimeManifest
manifest_of payload operation server pin (address, port) = do
  raise_if (not (text_eq pin (codes "pinned=" ++ expected_pin operation))) invalid_manifest
  raise_if
      (not (
        text_eq (manifest_text server (str_ipv4 address) (str_int port) (expected_pin operation))
          payload))
      invalid_manifest
  ok (record {
    server = server;
    endpoint = str_ipv4 address ++ b':' ∷ str_int port;
    pinned = text_eq (expected_pin operation) (codes "1");
  })

unfoldable pub parse_manifest_fields : Text → Text → List Text → Result RuntimeManifest
parse_manifest_fields payload operation (tag ∷ server ∷ endpoint ∷ pin ∷ []) = do
  raise_if (not (text_eq tag (codes "generated")) || not (is_server server)) invalid_manifest
  parsed ← parse_endpoint endpoint
  manifest_of payload operation server pin parsed
parse_manifest_fields payload operation _ = err invalid_manifest

-- `parse_runtime_manifest`
unfoldable pub parse_runtime_manifest : Text → Text → Result RuntimeManifest
parse_runtime_manifest payload operation = do
  raise_if (any (λ c. leb 128 c) payload) invalid_manifest
  raise_if
      (text_eq payload []
        || ltb max_manifest_bytes (length payload)
        || not (ends_with b'\n' payload))
      invalid_manifest
  raise_if (not (count b'\n' payload == 1)) invalid_manifest
  parse_manifest_fields payload operation (split b'\t' (but_last payload))
