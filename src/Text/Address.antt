-- ===== src/Text/Address.antt =====
-- An IPv4 address is read as it was written (Python's `ipaddress`).
use air_vpn_wg_healthcheck.Text.Ipv4.{
  Ipv4, Octet, octet_of, octet_when, parse_ipv4, parse_octet, str_ipv4,
}
use air_vpn_wg_healthcheck.Text.Decimal.{
  canonical_digits, int_text-str_int, length_below, str_int, str_int-is_canonical,
}
use air_vpn_wg_healthcheck.Text.Split.{Lacks, split_last, split_word}
use air_vpn_wg_healthcheck.Text.{Text, is_digit}
use air_vpn_wg_healthcheck.Prelude.{
  &&_parts, ==_iff, Bool, Bool-cases, [], all, ap, arith, false, inl, inr, leb, leb→le, length,
  refl, some, sym, true, ℕ, ◌==◌, ◌∙◌, ◌∷◌, ◌≡◌, ◌≤◌,
}

-- A text of other characters lacks `c`.
pub all-Lacks : (p : ℕ → Bool) (c : ℕ) → p c ≡ false → (s : Text) → all p s ≡ true → Lacks c s
all-Lacks p c n [] h = tt
all-Lacks p c n (d ∷ s) h =
    let (pd, rest) = &&_parts (p d) (all p s) h in (elsewhere d pd, all-Lacks p c n s rest)
  where
    elsewhere : (d : ℕ) → p d ≡ true → (d == c) ≡ false
    elsewhere d pd = elim (Bool-cases (d == c)) [
      | inl e ↦ absurd (apart (sym pd ∙ ap p ((==_iff d c).0 e) ∙ n))
      | inr e ↦ e
    ]
      where
        apart : true ≡ false → ⊥
        apart e = cc

pub str_int-Lacks : (c : ℕ) → is_digit c ≡ false → (n : ℕ) → Lacks c (str_int n)
str_int-Lacks c h n =
    all-Lacks is_digit c h (str_int n) (canonical_digits (str_int n) (str_int-is_canonical n))

Bool-IsSet : IsSet Bool
Bool-IsSet = hlevel

octet_when-true :
    (n : ℕ) (b : Bool) (e : leb n 255 ≡ b) (h : leb n 255 ≡ true)
    → octet_when n b e ≡ some (record { number = n; bounded = h })
octet_when-true n true e h =
    ap (λ k. some (record { number = n; bounded = k })) (Bool-IsSet _ _ e h)
octet_when-true n false e h = absurd (apart (sym h ∙ e))
  where
    apart : true ≡ false → ⊥
    apart k = cc

octet_of_lem : (x : Octet) → octet_of x.number ≡ some x
unfolding octet_of
octet_of_lem x = octet_when-true x.number (leb x.number 255) refl x.bounded

pub length-octet : (x : Octet) → length (str_int x.number) ≤ 3
length-octet x = length_below 2 x.number (omega (arith, leb→le x.number 255 x.bounded))

parse_octet-str_int : (x : Octet) → parse_octet (str_int x.number) ≡ some x
unfolding parse_octet
parse_octet-str_int x =
    let short : leb (length (str_int x.number)) 3 ≡ true = ground (arith, length-octet x) in
    rw (str_int-is_canonical x.number, short, int_text-str_int x.number) (octet_of_lem x)

-- str(address) is read as the address.
pub parse_ipv4-str_ipv4 : (x : Ipv4) → parse_ipv4 (str_ipv4 x) ≡ some x
unfolding parse_ipv4 str_ipv4
parse_ipv4-str_ipv4 x = rw (
  split_word b'.' (str_int x.a.number) _ (str_int-Lacks b'.' refl x.a.number),
  split_word b'.' (str_int x.b.number) _ (str_int-Lacks b'.' refl x.b.number),
  split_word b'.' (str_int x.c.number) _ (str_int-Lacks b'.' refl x.c.number),
  split_last b'.' (str_int x.d.number) (str_int-Lacks b'.' refl x.d.number),
  parse_octet-str_int x.a,
  parse_octet-str_int x.b,
  parse_octet-str_int x.c,
  parse_octet-str_int x.d,
)
