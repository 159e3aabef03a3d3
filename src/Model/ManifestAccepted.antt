-- ===== src/Model/ManifestAccepted.antt =====
-- `parse_runtime_manifest` (libexec/wg_healthcheck_setup/model.py) accepts the canonical text of each manifest.
use air_vpn_wg_healthcheck.Model.ManifestText.{
  IsField, body, endpoint-IsField, field-is_line, is_line, length-expected_pin, length-server,
  length-str_ipv4, line-ascii, line-count, manifest_text-body, pin-IsField, server-IsField,
  split-body, tabbed-is_line,
}
use air_vpn_wg_healthcheck.Model.ManifestCanonical.{IsManifest, expected_pin_one, parsed-IsManifest}
use air_vpn_wg_healthcheck.Result.{ok}
use air_vpn_wg_healthcheck.Model.Manifest.{
  expected_pin, is_wireguard_port, manifest_of, manifest_text, max_manifest_bytes, parse_endpoint,
  parse_manifest_fields, parse_runtime_manifest,
}
use air_vpn_wg_healthcheck.Model.{RuntimeManifest, is_server}
use air_vpn_wg_healthcheck.Text.Address.{parse_ipv4-str_ipv4, str_int-Lacks}
use air_vpn_wg_healthcheck.Text.Ipv4.{Ipv4, parse_ipv4, str_ipv4}
use air_vpn_wg_healthcheck.Text.Decimal.{
  int_text, int_text-str_int, is_canonical, length_below, str_int, str_int-is_canonical,
}
use air_vpn_wg_healthcheck.Text.Split.{rsplit_once, rsplit_once_lem, split}
use air_vpn_wg_healthcheck.Text.{
  Text, but_last, but_last-append, codes, count, ends_with, ends_with-append, text_eq, text_eq_refl,
}
use air_vpn_wg_healthcheck.Prelude.{
  List, [], all, any, ap, arith, false, inl, inr, leb, length, length-append, refl, some, subst,
  sym, true, ℕ, ◌++◌, ◌↔◌, ◌∙◌, ◌∷◌, ◌≡◌, ◌≤◌, ◌⊎◌,
}

abbrev IsPort : ℕ → Type 0
IsPort port = (port ≡ 1637) ⊎ ((port ≡ 47107) ⊎ (port ≡ 51820))

port_accepted : (port : ℕ) → IsPort port → is_wireguard_port port ≡ true
port_accepted port (inl e) = rw e refl
port_accepted port (inr (inl e)) = rw e refl
port_accepted port (inr (inr e)) = rw e refl

length-port : (port : ℕ) → IsPort port → length (str_int port) ≤ 5
length-port port (inl e) = length_below 4 port (omega arith)
length-port port (inr (inl e)) = length_below 4 port (omega arith)
length-port port (inr (inr e)) = length_below 4 port (omega arith)

read_endpoint :
    (endpoint a p : Text) (address : Ipv4)
    → rsplit_once b':' endpoint ≡ some (a, p)
    → parse_ipv4 a ≡ some address
    → text_eq (str_ipv4 address) a ≡ true
    → is_canonical p ≡ true
    → is_wireguard_port (int_text p) ≡ true
    → parse_endpoint endpoint ≡ ok (address, int_text p)
unfolding parse_endpoint
read_endpoint endpoint a p address cut parsed same canonical port = ground arith

parse_endpoint_lem :
    (address : Ipv4) (port : ℕ)
    → IsPort port
    → parse_endpoint (str_ipv4 address ++ b':' ∷ str_int port) ≡ ok (address, port)
parse_endpoint_lem address port h =
    read_endpoint (str_ipv4 address ++ b':' ∷ str_int port) (str_ipv4 address) (str_int port)
      address
      (rsplit_once_lem b':' (str_ipv4 address) (str_int port) (str_int-Lacks b':' refl port))
      (parse_ipv4-str_ipv4 address) (text_eq_refl (str_ipv4 address)) (str_int-is_canonical port)
      (ap is_wireguard_port (int_text-str_int port) ∙ port_accepted port h)
    ∙ ap (λ n. ok (address, n)) (int_text-str_int port)

accept :
    (payload operation : Text) (fields : List Text) {m : RuntimeManifest}
    → any (λ c. leb 128 c) payload ≡ false
    → text_eq payload [] ≡ false
    → length payload ≤ max_manifest_bytes
    → ends_with b'\n' payload ≡ true
    → count b'\n' payload ≡ 1
    → split b'\t' (but_last payload) ≡ fields
    → parse_manifest_fields payload operation fields ≡ ok m
    → parse_runtime_manifest payload operation ≡ ok m
unfolding parse_runtime_manifest
accept payload operation fields ascii nonempty short ended one cut parsed = ground arith

module _ (server : Text) (address : Ipv4) (port : ℕ) (operation : Text)
    (server_ok : is_server server ≡ true) (port_ok : IsPort port) where
  abbrev endpoint : Text
  endpoint = str_ipv4 address ++ b':' ∷ str_int port

  abbrev canonical : Text
  canonical = manifest_text server (str_ipv4 address) (str_int port) (expected_pin operation)

  abbrev line : Text
  line = body server (str_ipv4 address) (str_int port) (expected_pin operation)

  canonical-line : canonical ≡ line ++ b'\n' ∷ []
  canonical-line =
      manifest_text-body server (str_ipv4 address) (str_int port) (expected_pin operation)

  abbrev pin_field : Text
  pin_field = codes "pinned=" ++ expected_pin operation

  line-is_line : all is_line line ≡ true
  line-is_line =
      tabbed-is_line (codes "generated") (server ++ b'\t' ∷ (endpoint ++ b'\t' ∷ pin_field))
        (unfold IsField in refl)
        (tabbed-is_line server (endpoint ++ b'\t' ∷ pin_field) (server-IsField server server_ok) (
          tabbed-is_line endpoint pin_field (endpoint-IsField address port)
            (field-is_line pin_field (pin-IsField operation))))

  length-line : length line ≤ 255
  length-line = omega (
    arith,
    length-append (codes "generated") (b'\t' ∷ (server ++ b'\t' ∷ (endpoint ++ b'\t' ∷ pin_field))),
    length-append server (b'\t' ∷ (endpoint ++ b'\t' ∷ pin_field)),
    length-append endpoint (b'\t' ∷ pin_field),
    length-append (str_ipv4 address) (b':' ∷ str_int port),
    length-append (codes "pinned=") (expected_pin operation),
    length-server server server_ok,
    length-str_ipv4 address,
    length-port port port_ok,
    length-expected_pin operation,
  )

  length-canonical : length canonical ≤ max_manifest_bytes
  length-canonical =
      subst (λ s. length s ≤ max_manifest_bytes) (sym canonical-line)
        (omega (arith, length-append line (b'\n' ∷ []), length-line))

  canonical_fields :
      split b'\t' (but_last canonical) ≡ codes "generated" ∷ server ∷ endpoint ∷ pin_field ∷ []
  canonical_fields =
      ap (λ s. split b'\t' (but_last s)) canonical-line
      ∙ ap (split b'\t') (but_last-append b'\n' line)
      ∙ split-body server endpoint pin_field (server-IsField server server_ok)
          (endpoint-IsField address port) (pin-IsField operation)

  -- The manifest of these fields.
  abbrev manifest : RuntimeManifest
  manifest = record {
    server = server;
    endpoint = endpoint;
    pinned = text_eq (expected_pin operation) (codes "1");
  }

  manifest_of_lem : manifest_of canonical operation server pin_field (address, port) ≡ ok manifest
  unfolding manifest_of
  manifest_of_lem = rw (text_eq_refl pin_field, text_eq_refl canonical) refl

  parse_fields_lem :
      parse_manifest_fields canonical operation
        (codes "generated" ∷ server ∷ endpoint ∷ pin_field ∷ [])
      ≡ ok manifest
  unfolding parse_manifest_fields
  parse_fields_lem =
      rw (text_eq_refl (codes "generated"), server_ok, parse_endpoint_lem address port port_ok)
        manifest_of_lem

  canonical-accepted : parse_runtime_manifest canonical operation ≡ ok manifest
  canonical-accepted =
      accept canonical operation (codes "generated" ∷ server ∷ endpoint ∷ pin_field ∷ [])
        (ap (any (λ c. leb 128 c)) canonical-line ∙ line-ascii line line-is_line)
        (unfold text_eq in refl) length-canonical
        (ap (ends_with b'\n') canonical-line ∙ ends_with-append b'\n' line)
        (ap (count b'\n') canonical-line ∙ line-count line line-is_line) canonical_fields
        parse_fields_lem

IsManifest-accepted :
    (payload operation : Text) (m : RuntimeManifest)
    → IsManifest payload operation m
    → parse_runtime_manifest payload operation ≡ ok m
IsManifest-accepted payload operation m h =
    ap (λ s. parse_runtime_manifest s operation) h.text
    ∙ canonical-accepted m.server h.address h.port operation h.server_valid h.port_valid
    ∙ ap ok same
  where
    same : manifest m.server h.address h.port operation h.server_valid h.port_valid ≡ m
    same = cc (h.endpoint_text, h.pin, expected_pin_one operation)

-- `parse_runtime_manifest` returns a manifest for a payload exactly when the payload is, byte for byte, the
-- canonical text of that manifest: the line of a valid server name, an IPv4 address of four octets in its
-- dotted decimal form, one of the three WireGuard ports and the pin that the operation expects (1 for
-- "adopt", else 0). The manifest holds the same server, `address:port`, and is pinned exactly for "adopt".
pub parse_runtime_manifest-IsManifest :
    (payload operation : Text) (m : RuntimeManifest)
    → (parse_runtime_manifest payload operation ≡ ok m) ↔ IsManifest payload operation m
parse_runtime_manifest-IsManifest payload operation m =
    (parsed-IsManifest payload operation, IsManifest-accepted payload operation m)
