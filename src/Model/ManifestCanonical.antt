-- ===== src/Model/ManifestCanonical.antt =====
-- The canonical text of a manifest (libexec/wg_healthcheck_setup/model.py), and that
-- `parse_runtime_manifest` accepts no other.
use air_vpn_wg_healthcheck.Text.Split.{rsplit_once, split}
use air_vpn_wg_healthcheck.Prelude.{
  Bool-cases, List, Option-cases, [], arith, inl, inr, not-false, refl, subst, sym, true, ||_false,
  ℕ, ◌++◌, ◌∷◌, ◌≡◌, ◌⊎◌,
}
use air_vpn_wg_healthcheck.Result.{>>=-eq_ok, ok, raise_if_ok}
use air_vpn_wg_healthcheck.Text.{Text, but_last, codes, text_eq, text_eq→eq}
use air_vpn_wg_healthcheck.Text.Ipv4.{Ipv4, parse_ipv4, str_ipv4}
use air_vpn_wg_healthcheck.Text.Decimal.{str_int}
use air_vpn_wg_healthcheck.Model.{RuntimeManifest, is_server}
use air_vpn_wg_healthcheck.Model.Manifest.{
  expected_pin, invalid_manifest, is_wireguard_port, manifest_of, manifest_text, parse_endpoint,
  parse_manifest_fields, parse_runtime_manifest,
}

-- The accepted text, from the server, the address and the port that it names.
pub record IsManifest (payload operation : Text) (m : RuntimeManifest) : Type 0 where
  pub address : Ipv4
  pub port : ℕ
  pub server_valid : is_server m.server ≡ true
  pub port_valid : (port ≡ 1637) ⊎ ((port ≡ 47107) ⊎ (port ≡ 51820))
  pub endpoint_text : m.endpoint ≡ str_ipv4 address ++ b':' ∷ str_int port
  pub pin : m.pinned ≡ text_eq operation (codes "adopt")
  pub text :
      payload ≡ manifest_text m.server (str_ipv4 address) (str_int port) (expected_pin operation)

endpoint_port :
    (endpoint : Text) {address : Ipv4} {port : ℕ}
    → parse_endpoint endpoint ≡ ok (address, port)
    → is_wireguard_port port ≡ true
unfolding parse_endpoint
endpoint_port endpoint h = elim (Option-cases (rsplit_once b':' endpoint)) [
  | inl e ↦ ground arith
  | inr ((a, p), e) ↦ elim (Option-cases (parse_ipv4 a)) [
    | inl e' ↦ ground arith
    | inr (x, e') ↦ ground arith
  ]
]

pub expected_pin_one :
    (operation : Text)
    → text_eq (expected_pin operation) (codes "1") ≡ text_eq operation (codes "adopt")
expected_pin_one operation = elim (Bool-cases (text_eq operation (codes "adopt"))) [
  | inl e ↦ rw e (unfold text_eq in refl)
  | inr e ↦ rw e (unfold text_eq in refl)
]

manifest_of-IsManifest :
    (payload operation server pin : Text) (address : Ipv4) (port : ℕ) {m : RuntimeManifest}
    → is_server server ≡ true
    → is_wireguard_port port ≡ true
    → manifest_of payload operation server pin (address, port) ≡ ok m
    → IsManifest payload operation m
unfolding manifest_of
manifest_of-IsManifest payload operation server pin address port server_ok port_ok h =
    subst (IsManifest payload operation) (ground arith) (record {
      address = address;
      port = port;
      server_valid = server_ok;
      port_valid = ground arith;
      endpoint_text = refl;
      pin = expected_pin_one operation;
      text = sym (text_eq→eq _ payload (ground arith));
    })

fields-IsManifest :
    (payload operation : Text) (fields : List Text) {m : RuntimeManifest}
    → parse_manifest_fields payload operation fields ≡ ok m
    → IsManifest payload operation m
unfolding parse_manifest_fields
fields-IsManifest payload operation (tag ∷ server ∷ endpoint ∷ pin ∷ []) h =
    let (_, first, rest) = >>=-eq_ok _ _ h in
    let (_, server_ok) = ||_false _ _ (raise_if_ok invalid_manifest first) in
    let ((address, port), parsed, last) = >>=-eq_ok (parse_endpoint endpoint) _ rest in
    manifest_of-IsManifest payload operation server pin address port (not-false _ server_ok)
      (endpoint_port endpoint parsed) last
fields-IsManifest payload operation [] h = cc
fields-IsManifest payload operation (_ ∷ []) h = cc
fields-IsManifest payload operation (_ ∷ _ ∷ []) h = cc
fields-IsManifest payload operation (_ ∷ _ ∷ _ ∷ []) h = cc
fields-IsManifest payload operation (_ ∷ _ ∷ _ ∷ _ ∷ _ ∷ _) h = cc

pub parsed-IsManifest :
    (payload operation : Text) {m : RuntimeManifest}
    → parse_runtime_manifest payload operation ≡ ok m
    → IsManifest payload operation m
unfolding parse_runtime_manifest
parsed-IsManifest payload operation h =
    fields-IsManifest payload operation (split b'\t' (but_last payload)) (ground arith)
