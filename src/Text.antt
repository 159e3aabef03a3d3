-- ===== src/Text.antt =====
-- Python's `str` and `bytes` as lists of code points or bytes, with the methods that the program
-- calls on them.
pub mod Split
pub mod Decimal
pub mod Ipv4
pub mod Address
use Prim.Native.Char.{code}
use air_vpn_wg_healthcheck.Prelude.{
  &&_parts, ==_iff, ==_refl, All, Bool, Bool-cases, List, String, [], ap, arith, false,
  if◌then◌else◌, inl, inr, leb, refl, sym, true, ℕ, ◌&&◌, ◌++◌, ◌+◌, ◌==◌, ◌||◌, ◌↔◌, ◌∷◌, ◌≡◌,
}

abbrev pub Text : Type 0
Text = List ℕ

-- The code points of a literal: its bytes, if it is ASCII.
abbrev pub codes : String → Text
codes String.[] = []
codes (String.◌∷◌ c s) = code c ∷ codes s

-- s == t
unfoldable pub text_eq : Text → Text → Bool
text_eq [] [] = true
text_eq (c ∷ s) (d ∷ t) = c == d && text_eq s t
text_eq _ _ = false

pub text_eq_refl : (s : Text) → text_eq s s ≡ true
unfolding text_eq
text_eq_refl [] = refl
text_eq_refl (c ∷ s) = ground (arith, text_eq_refl s)

pub text_eq→eq : (s t : Text) → text_eq s t ≡ true → s ≡ t
unfolding text_eq
text_eq→eq [] [] h = refl
text_eq→eq [] (d ∷ t) h = cc
text_eq→eq (c ∷ s) [] h = cc
text_eq→eq (c ∷ s) (d ∷ t) h =
    let (same, rest) = &&_parts (c == d) (text_eq s t) h in
    cc ((==_iff c d).0 same, text_eq→eq s t rest)

pub text_eq_iff : (s t : Text) → (text_eq s t ≡ true) ↔ (s ≡ t)
text_eq_iff s t = (text_eq→eq s t, λ e. rw e (text_eq_refl t))

-- x in {a, b, …}
unfoldable pub mem_text : Text → List Text → Bool
mem_text x [] = false
mem_text x (y ∷ ys) = text_eq x y || mem_text x ys

-- What holds of every listed text holds of each one that is found in the list.
pub All-mem_text {ℓ} :
    (P : Text → Type ℓ) (x : Text) (ys : List Text) → All P ys → mem_text x ys ≡ true → P x
unfolding mem_text
All-mem_text P x [] known h = cc
All-mem_text P x (y ∷ ys) (py, known) h = elim (Bool-cases (text_eq x y)) [
  | inl e ↦ rw (text_eq→eq x y e) py
  | inr n ↦ All-mem_text P x ys known (rw n at h)
]

-- s.startswith(prefix)
unfoldable pub starts_with : Text → Text → Bool
starts_with prefix [] = text_eq prefix []
starts_with [] (d ∷ s) = true
starts_with (c ∷ p) (d ∷ s) = c == d && starts_with p s

-- s.endswith(c), for a one-character suffix
unfoldable pub ends_with : ℕ → Text → Bool
ends_with c [] = false
ends_with c (d ∷ []) = d == c
ends_with c (d ∷ e ∷ s) = ends_with c (e ∷ s)

-- s[:-1]
unfoldable pub but_last : Text → Text
but_last [] = []
but_last (d ∷ []) = []
but_last (d ∷ e ∷ s) = d ∷ but_last (e ∷ s)

-- s.count(c), for a one-character argument
unfoldable pub count : ℕ → Text → ℕ
count c [] = 0
count c (d ∷ s) = (if d == c then 1 else 0) + count c s

-- the regular-expression class [a-b]
abbrev pub within : ℕ → ℕ → ℕ → Bool
within lo hi c = leb lo c && leb c hi

abbrev pub is_digit : ℕ → Bool
is_digit = within b'0' b'9'

pub ends_with-append : (c : ℕ) (s : Text) → ends_with c (s ++ c ∷ []) ≡ true
unfolding ends_with
ends_with-append c [] = ==_refl c
ends_with-append c (d ∷ []) = ==_refl c
ends_with-append c (d ∷ e ∷ s) = ends_with-append c (e ∷ s)

pub but_last-append : (c : ℕ) (s : Text) → but_last (s ++ c ∷ []) ≡ s
unfolding but_last
but_last-append c [] = refl
but_last-append c (d ∷ []) = refl
but_last-append c (d ∷ e ∷ s) = ap (λ r. d ∷ r) (but_last-append c (e ∷ s))

-- A text that ends with `c` is the rest followed by `c`.
pub but_last_lem : (c : ℕ) (s : Text) → ends_with c s ≡ true → but_last s ++ c ∷ [] ≡ s
unfolding ends_with but_last
but_last_lem c [] h = cc
but_last_lem c (d ∷ []) h = ap (λ x. x ∷ []) (sym ((==_iff d c).0 h))
but_last_lem c (d ∷ e ∷ s) h = ap (λ r. d ∷ r) (but_last_lem c (e ∷ s) h)
