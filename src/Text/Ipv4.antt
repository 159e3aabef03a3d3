-- ===== src/Text/Ipv4.antt =====
-- IPv4 addresses of Python's `ipaddress`: four decimal octets with no leading zero.
use air_vpn_wg_healthcheck.Prelude.{
  Bool, List, Option, [], false, if◌then◌else◌, leb, length, none, refl, some, true, ℕ, ◌&&◌, ◌++◌,
  ◌∷◌, ◌≡◌,
}
use air_vpn_wg_healthcheck.Text.{Text}
use air_vpn_wg_healthcheck.Text.Split.{split}
use air_vpn_wg_healthcheck.Text.Decimal.{int_text, is_canonical, str_int}

-- a number of eight bits
pub record Octet : Type 0 where
  pub number : ℕ
  pub bounded : leb number 255 ≡ true

-- `IPv4Address`
pub record Ipv4 : Type 0 where
  pub a : Octet
  pub b : Octet
  pub c : Octet
  pub d : Octet

abbrev pub octet_when : (n : ℕ) (small : Bool) → leb n 255 ≡ small → Option Octet
octet_when n true h = some (record { number = n; bounded = h })
octet_when n false h = none

-- the test `octet_int > 255` of `_parse_octet`
unfoldable pub octet_of : ℕ → Option Octet
octet_of n = octet_when n (leb n 255) refl

-- `_parse_octet`: ASCII digits, at most three, no leading zero, at most 255
unfoldable pub parse_octet : Text → Option Octet
parse_octet s = if is_canonical s && leb (length s) 3 then octet_of (int_text s) else none

abbrev with_octets : Option Octet → Option Octet → Option Octet → Option Octet → Option Ipv4
with_octets (some a) (some b) (some c) (some d) = some (record { a = a; b = b; c = c; d = d })
with_octets _ _ _ _ = none

abbrev parse_parts : List Text → Option Ipv4
parse_parts (p ∷ q ∷ r ∷ s ∷ []) =
    with_octets (parse_octet p) (parse_octet q) (parse_octet r) (parse_octet s)
parse_parts _ = none

-- ipaddress.ip_address(text), where it is an IPv4Address
unfoldable pub parse_ipv4 : Text → Option Ipv4
parse_ipv4 text = parse_parts (split b'.' text)

abbrev str_octet : Octet → Text
str_octet x = str_int x.number

-- str(address)
unfoldable pub str_ipv4 : Ipv4 → Text
str_ipv4 x =
    str_octet x.a ++ (b'.' ∷ (str_octet x.b ++ (b'.' ∷ (str_octet x.c ++ (b'.' ∷ str_octet x.d)))))
