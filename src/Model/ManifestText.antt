-- ===== src/Model/ManifestText.antt =====
-- The characters and the lengths of the canonical text of a manifest (libexec/wg_healthcheck_setup/model.py).
use air_vpn_wg_healthcheck.Model.Manifest.{expected_pin, manifest_text}
use air_vpn_wg_healthcheck.Model.{is_alphanumeric, is_server}
use air_vpn_wg_healthcheck.Text.Address.{all-Lacks, length-octet}
use air_vpn_wg_healthcheck.Text.Ipv4.{Ipv4, str_ipv4}
use air_vpn_wg_healthcheck.Text.Decimal.{canonical_digits, str_int, str_int-is_canonical}
use air_vpn_wg_healthcheck.Text.Split.{
  Lacks, count-Lacks, count-append, split, split_last, split_word,
}
use air_vpn_wg_healthcheck.Text.{Text, codes, count, is_digit, text_eq}
use air_vpn_wg_healthcheck.Prelude.{
  &&_intro, &&_parts, Bool, Bool-cases, [], all, all-append, any, ap, append_assoc, arith, false,
  inl, inr, leb, leb→le, length, length-append, ltb, not, refl, sym, true, ℕ, ◌&&◌, ◌++◌, ◌+◌, ◌==◌,
  ◌||◌, ◌∙◌, ◌∷◌, ◌≡◌, ◌≤◌,
}

-- The characters of a manifest between its tabs.
abbrev pub is_field : ℕ → Bool
is_field c = ltb c 128 && not (c == b'\t') && not (c == b'\n')

unfoldable pub IsField : Text → Type 0
IsField s = all is_field s ≡ true

IsField-append : (s t : Text) → IsField s → IsField t → IsField (s ++ t)
unfolding IsField
IsField-append s t hs ht = all-append is_field s t ∙ &&_intro _ _ hs ht

all-IsField :
    (p : ℕ → Bool) (s : Text)
    → ((c : ℕ) → p c ≡ true → is_field c ≡ true)
    → all p s ≡ true
    → IsField s
unfolding IsField
all-IsField p [] k h = refl
all-IsField p (c ∷ s) k h =
    let (pc, rest) = &&_parts (p c) (all p s) h in &&_intro _ _ (k c pc) (all-IsField p s k rest)

str_int-IsField : (n : ℕ) → IsField (str_int n)
str_int-IsField n =
    all-IsField is_digit (str_int n) (λ c h. ground arith)
      (canonical_digits (str_int n) (str_int-is_canonical n))

dotted-IsField : (s t : Text) → IsField s → IsField t → IsField (s ++ b'.' ∷ t)
dotted-IsField s t hs ht =
    IsField-append s (b'.' ∷ t) hs (IsField-append (b'.' ∷ []) t (unfold IsField in refl) ht)

str_ipv4-IsField : (x : Ipv4) → IsField (str_ipv4 x)
unfolding str_ipv4
str_ipv4-IsField x = dotted-IsField (str_int x.a.number) _ (str_int-IsField x.a.number) (
    dotted-IsField (str_int x.b.number) _ (str_int-IsField x.b.number) (
      dotted-IsField (str_int x.c.number) _ (str_int-IsField x.c.number)
        (str_int-IsField x.d.number)))

pub server-IsField : (s : Text) → is_server s ≡ true → IsField s
unfolding is_server
server-IsField s h =
    let (a, _) = &&_parts _ _ h in
    let (b, _) = &&_parts _ _ a in
    all-IsField (λ c. is_alphanumeric c || c == b'-') s (λ c k. ground arith) b

pub length-server : (s : Text) → is_server s ≡ true → length s ≤ 64
unfolding is_server
length-server s h = let (_, short) = &&_parts _ _ h in leb→le (length s) 64 short

pub length-str_ipv4 : (x : Ipv4) → length (str_ipv4 x) ≤ 15
unfolding str_ipv4
length-str_ipv4 x = omega (
  arith,
  length-append (str_int x.a.number)
      (b'.' ∷ (str_int x.b.number ++ (b'.' ∷ (str_int x.c.number ++ (b'.' ∷ str_int x.d.number))))),
  length-append (str_int x.b.number) (b'.' ∷ (str_int x.c.number ++ (b'.' ∷ str_int x.d.number))),
  length-append (str_int x.c.number) (b'.' ∷ str_int x.d.number),
  length-octet x.a,
  length-octet x.b,
  length-octet x.c,
  length-octet x.d,
)

-- A manifest, without its newline.
abbrev pub body : Text → Text → Text → Text → Text
body server address port pin =
    codes "generated"
    ++ b'\t' ∷ (server ++ b'\t' ∷ ((address ++ b':' ∷ port) ++ b'\t' ∷ (codes "pinned=" ++ pin)))

pub manifest_text-body :
    (server address port pin : Text)
    → manifest_text server address port pin ≡ body server address port pin ++ b'\n' ∷ []
manifest_text-body server address port pin = sym (simp append_assoc)

pub pin-IsField : (operation : Text) → IsField (codes "pinned=" ++ expected_pin operation)
unfolding IsField
pin-IsField operation = elim (Bool-cases (text_eq operation (codes "adopt"))) [
  | inl e ↦ rw e refl
  | inr e ↦ rw e refl
]

pub length-expected_pin : (operation : Text) → length (expected_pin operation) ≡ 1
length-expected_pin operation = elim (Bool-cases (text_eq operation (codes "adopt"))) [
  | inl e ↦ rw e refl
  | inr e ↦ rw e refl
]

pub endpoint-IsField :
    (address : Ipv4) (port : ℕ) → IsField (str_ipv4 address ++ b':' ∷ str_int port)
endpoint-IsField address port =
    IsField-append (str_ipv4 address) (b':' ∷ str_int port) (str_ipv4-IsField address)
      (IsField-append (b':' ∷ []) (str_int port) (unfold IsField in refl) (str_int-IsField port))

IsField-Lacks : (s : Text) → IsField s → Lacks b'\t' s
unfolding IsField
IsField-Lacks = all-Lacks is_field b'\t' refl

-- The line of a manifest: ASCII, with no newline before its end.
abbrev pub is_line : ℕ → Bool
is_line c = ltb c 128 && not (c == b'\n')

pub field-is_line : (s : Text) → IsField s → all is_line s ≡ true
unfolding IsField
field-is_line [] h = refl
field-is_line (c ∷ s) h =
    let (hc, hs) = &&_parts (is_field c) (all is_field s) h in ground (arith, field-is_line s hs)

pub tabbed-is_line :
    (s t : Text) → IsField s → all is_line t ≡ true → all is_line (s ++ b'\t' ∷ t) ≡ true
tabbed-is_line s t hs ht = all-append is_line s (b'\t' ∷ t) ∙ &&_intro _ _ (field-is_line s hs) ht

pub line-ascii : (s : Text) → all is_line s ≡ true → any (λ c. leb 128 c) (s ++ b'\n' ∷ []) ≡ false
line-ascii [] h = refl
line-ascii (c ∷ s) h =
    let (hc, hs) = &&_parts (is_line c) (all is_line s) h in ground (arith, line-ascii s hs)

pub line-count : (s : Text) → all is_line s ≡ true → count b'\n' (s ++ b'\n' ∷ []) ≡ 1
line-count s h =
    count-append b'\n' s (b'\n' ∷ [])
    ∙ ap (λ n. n + count b'\n' (b'\n' ∷ []))
        (count-Lacks b'\n' s (all-Lacks is_line b'\n' refl s h))
    ∙ (unfold count in refl)

pub split-body :
    (server address pin : Text)
    → IsField server
    → IsField address
    → IsField pin
    → split b'\t' (codes "generated" ++ b'\t' ∷ (server ++ b'\t' ∷ (address ++ b'\t' ∷ pin)))
      ≡ codes "generated" ∷ server ∷ address ∷ pin ∷ []
split-body server address pin hs ha hp =
    split_word b'\t' (codes "generated") _
      (IsField-Lacks (codes "generated") (unfold IsField in refl))
    ∙ ap (λ r. codes "generated" ∷ r) (split_word b'\t' server _ (IsField-Lacks server hs))
    ∙ ap (λ r. codes "generated" ∷ server ∷ r)
        (split_word b'\t' address _ (IsField-Lacks address ha))
    ∙ ap (λ r. codes "generated" ∷ server ∷ address ∷ r)
        (split_last b'\t' pin (IsField-Lacks pin hp))
