-- ===== src/Text/Decimal.antt =====
-- `str(n)` and `int(text)` for natural numbers, and that they are inverse on canonical texts.
use native.Mathlib.Nat.{zero-add, pow-suc}
use air_vpn_wg_healthcheck.Prelude.{
  &&_parts, ==_iff, Bool, Bool-cases, [], all, all-append, ap, append-nil, append_assoc, ap₂, arith,
  false, inl, inr, length, length-append, ltb, ltb→lt, lt→ltb, refl, suc, sym, true, zero, ||_true,
  ℕ, ◌%◌, ◌&&◌, ◌*◌, ◌++◌, ◌+◌, ◌-◌, ◌/◌, ◌<◌, ◌==◌, ◌^◌, ◌||◌, ◌∙◌, ◌∷◌, ◌≡◌, ◌≤◌,
}
use air_vpn_wg_healthcheck.Text.{Text, codes, is_digit, text_eq, text_eq→eq, within}

-- The digits of `n`, most significant first; more than `n` rounds are never needed.
digits : ℕ → ℕ → Text
digits zero n = []
digits (suc f) n = elim (ltb n 10) [
  | true ↦ (b'0' + n) ∷ []
  | false ↦ digits f (n / 10) ++ (b'0' + n % 10) ∷ []
]

-- str(n)
unfoldable pub str_int : ℕ → Text
unfolding digits
str_int n = digits (suc n) n

-- int(text), for a text of digits
unfoldable pub value : ℕ → Text → ℕ
value acc [] = acc
value acc (c ∷ s) = value (acc * 10 + (c - b'0')) s

unfoldable pub int_text : Text → ℕ
unfolding value
int_text = value 0

digits_fuel : (f g n : ℕ) → n < f → n < g → digits f n ≡ digits g n
unfolding digits
digits_fuel zero g n h k = absurd (omega arith)
digits_fuel (suc f) zero n h k = absurd (omega arith)
digits_fuel (suc f) (suc g) n h k = elim (Bool-cases (ltb n 10)) [
  | inl small ↦ rw (small, digits)
  | inr large ↦
      rw (large, digits)
        (ap (λ r. r ++ (b'0' + n % 10) ∷ [])
          (digits_fuel f g (n / 10) (ground arith) (ground arith)))
]

pub str_int_small : (n : ℕ) → n < 10 → str_int n ≡ (b'0' + n) ∷ []
unfolding str_int digits
str_int_small n h = rw (lt→ltb n 10 h, digits)

pub str_int_step : (n : ℕ) → ltb n 10 ≡ false → str_int n ≡ str_int (n / 10) ++ (b'0' + n % 10) ∷ []
unfolding str_int digits
str_int_step n h =
    rw (h, digits)
      (ap (λ r. r ++ (b'0' + n % 10) ∷ [])
        (digits_fuel n (suc (n / 10)) (n / 10) (ground arith) (omega arith)))

pub value-append :
    (acc : ℕ) (s : Text) (c : ℕ) → value acc (s ++ c ∷ []) ≡ value acc s * 10 + (c - b'0')
unfolding value
value-append acc [] c = refl
value-append acc (d ∷ s) c = value-append (acc * 10 + (d - b'0')) s c

last_digit :
    (c acc : ℕ)
    → 0 < acc
    → is_digit c ≡ true
    → str_int (acc * 10 + (c - b'0')) ≡ str_int acc ++ c ∷ []
last_digit c acc h k =
    str_int_step (acc * 10 + (c - b'0')) (ground arith)
    ∙ ap₂ (λ q r. str_int q ++ r ∷ []) (omega (arith, range)) (omega (arith, range))
  where
    range : (b'0' ≤ c) × (c ≤ b'9')
    range = ground arith

-- More digits behind a positive number.
pub str_int-value :
    (s : Text) (acc : ℕ)
    → 0 < acc
    → all is_digit s ≡ true
    → str_int (value acc s) ≡ str_int acc ++ s
unfolding value
str_int-value [] acc h k = sym (append-nil _)
str_int-value (c ∷ s) acc h k =
    let (is_d, rest) = &&_parts (is_digit c) (all is_digit s) k in
    str_int-value s (acc * 10 + (c - b'0')) (omega arith) rest
    ∙ ap (λ r. r ++ s) (last_digit c acc h is_d)
    ∙ append_assoc (str_int acc) (c ∷ []) s

value-digits : (f n : ℕ) → n < f → value 0 (digits f n) ≡ n
unfolding digits value
value-digits zero n h = absurd (omega arith)
value-digits (suc f) n h = elim (Bool-cases (ltb n 10)) [
  | inl small ↦ rw (small, digits, value) (omega arith)
  | inr large ↦
      rw (large, digits)
        (value-append 0 (digits f (n / 10)) (b'0' + n % 10)
          ∙ omega (arith, value-digits f (n / 10) (ground arith)))
]

-- int(str(n)) == n
pub int_text-str_int : (n : ℕ) → int_text (str_int n) ≡ n
unfolding int_text str_int digits
int_text-str_int n = value-digits (suc n) n (omega arith)

-- The canonical decimal texts, as matched by the pattern 0|[1-9][0-9]*.
unfoldable pub is_canonical : Text → Bool
is_canonical [] = false
is_canonical (c ∷ s) = (c == b'0' && text_eq s []) || (within b'1' b'9' c && all is_digit s)

-- str(int(text)) == text, for a canonical text
pub str_int-int_text : (s : Text) → is_canonical s ≡ true → str_int (int_text s) ≡ s
unfolding int_text is_canonical value
str_int-int_text [] h = cc
str_int-int_text (c ∷ s) h = elim (||_true _ _ h) [
  | inl is_zero ↦
      let (ec, es) = &&_parts (c == b'0') (text_eq s []) is_zero in
      rw (text_eq→eq s [] es) (rw ((==_iff c b'0').0 ec) (str_int_small 0 (omega arith)))
  | inr positive ↦
      let (ec, es) = &&_parts (within b'1' b'9' c) (all is_digit s) positive in
      ap (λ k. str_int (value k s)) (zero-add (c - b'0'))
      ∙ str_int-value s (c - b'0') (ground arith) es
      ∙ ap (λ r. r ++ s) (str_int_small (c - b'0') (ground arith) ∙ ap (λ d. d ∷ []) (ground arith))
]

canonical_snoc :
    (s : Text) (d : ℕ)
    → is_canonical s ≡ true
    → text_eq s (codes "0") ≡ false
    → is_digit d ≡ true
    → is_canonical (s ++ d ∷ []) ≡ true
unfolding is_canonical text_eq
canonical_snoc [] d h k e = cc
canonical_snoc (c ∷ s) d h k e = rw (all-append is_digit s (d ∷ [])) (ground arith)

str_int_positive : (n : ℕ) → 0 < n → text_eq (str_int n) (codes "0") ≡ false
unfolding int_text value
str_int_positive n h = elim (Bool-cases (text_eq (str_int n) (codes "0"))) [
  | inr e ↦ e
  | inl e ↦ absurd (omega (arith, int_text-str_int n, ap int_text (text_eq→eq _ _ e)))
]

canonical_below : (k n : ℕ) → n < k → is_canonical (str_int n) ≡ true
unfolding is_canonical
canonical_below zero n h = absurd (omega arith)
canonical_below (suc k) n h = elim (Bool-cases (ltb n 10)) [
  | inl small ↦ rw (str_int_small n (ltb→lt n 10 small)) (unfold text_eq in ground arith)
  | inr large ↦ rw (str_int_step n large) (
      canonical_snoc (str_int (n / 10)) (b'0' + n % 10) (canonical_below k (n / 10) (ground arith))
        (str_int_positive (n / 10) (ground arith)) (ground arith))
]

-- str(n) is canonical
pub str_int-is_canonical : (n : ℕ) → is_canonical (str_int n) ≡ true
str_int-is_canonical n = canonical_below (suc n) n (omega arith)

-- A canonical text holds digits only.
pub canonical_digits : (s : Text) → is_canonical s ≡ true → all is_digit s ≡ true
unfolding is_canonical
canonical_digits [] h = cc
canonical_digits (c ∷ s) h = elim (||_true _ _ h) [
  | inl is_zero ↦
      let (ec, es) = &&_parts (c == b'0') (text_eq s []) is_zero in
      rw (text_eq→eq s [] es) (ground arith)
  | inr positive ↦ ground arith
]

-- A number below 10 ^ k has at most k digits.
pub length_below : (k n : ℕ) → n < 10 ^ suc k → length (str_int n) ≤ suc k
length_below zero n h = rw (str_int_small n (omega arith)) (omega arith)
length_below (suc k) n h = elim (Bool-cases (ltb n 10)) [
  | inl small ↦ rw (str_int_small n (ltb→lt n 10 small)) (omega arith)
  | inr large ↦ rw (str_int_step n large) (
      omega (
        arith,
        length-append (str_int (n / 10)) ((b'0' + n % 10) ∷ []),
        length_below k (n / 10) (omega (arith, pow-suc 10 (suc k))),
      ))
]
