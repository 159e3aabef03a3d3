-- ===== src/Text/Split.antt =====
-- `str.split` and `str.join` on one separator character, and that they are inverse.
use air_vpn_wg_healthcheck.Prelude.{
  ==_iff, ==_refl, All, Bool-cases, List, Option, Option-cases, [], ap, append_assoc, arith, false,
  if◌then◌else◌, inl, inr, none, refl, some, sym, true, ℕ, ◌++◌, ◌+◌, ◌==◌, ◌∙◌, ◌∷◌, ◌≡◌,
}
use air_vpn_wg_healthcheck.Text.{Text, but_last, but_last-append, count}

-- The separator does not occur.
abbrev pub Lacks : ℕ → Text → Type 0
Lacks c = All (λ d. (d == c) ≡ false)

abbrev pub cons_first : ℕ → List Text → List Text
cons_first d [] = (d ∷ []) ∷ []
cons_first d (w ∷ ws) = (d ∷ w) ∷ ws

-- s.split(c)
unfoldable pub split : ℕ → Text → List Text
split c [] = [] ∷ []
split c (d ∷ s) = let rest = split c s in if d == c then [] ∷ rest else cons_first d rest

-- The lines, each with the separator behind it.
unfoldable pub unlines : ℕ → List Text → Text
unlines c [] = []
unlines c (w ∷ ws) = w ++ c ∷ unlines c ws

-- s.split(c, 1), for a text that holds `c`; `none` if it holds none.
unfoldable pub split_once : ℕ → Text → Option (Text × Text)
split_once c [] = none
split_once c (d ∷ s) =
    let rest = split_once c s in
    if d == c then some ([], s) else elim rest [ none ↦ none | some (a, b) ↦ some (d ∷ a, b) ]

-- s.rsplit(c, 1), for a text that holds `c`.
unfoldable pub rsplit_once : ℕ → Text → Option (Text × Text)
rsplit_once c [] = none
rsplit_once c (d ∷ s) =
    let rest = rsplit_once c s in
    elim rest [ some (a, b) ↦ some (d ∷ a, b) | none ↦ if d == c then some ([], s) else none ]

-- c.join(ws)
unfoldable pub join : Text → List Text → Text
join c [] = []
join c (w ∷ []) = w
join c (w ∷ v ∷ ws) = w ++ (c ++ join c (v ∷ ws))

pub split_word : (c : ℕ) (w s : Text) → Lacks c w → split c (w ++ c ∷ s) ≡ w ∷ split c s
unfolding split
split_word c [] s h = rw (==_refl c)
split_word c (d ∷ w) s (e, h) = rw (e, split_word c w s h)

pub split_last : (c : ℕ) (w : Text) → Lacks c w → split c w ≡ w ∷ []
unfolding split
split_last c [] h = refl
split_last c (d ∷ w) (e, h) = rw (e, split_last c w h)

-- The lines of a text that was written line by line.
pub split-unlines :
    (c : ℕ) (ws : List Text) → All (Lacks c) ws → split c (unlines c ws) ≡ ws ++ [] ∷ []
unfolding unlines
split-unlines c [] h = unfold split in refl
split-unlines c (w ∷ ws) (hw, h) =
    rw (split_word c w (unlines c ws) hw) (ap (λ r. w ∷ r) (split-unlines c ws h))

pub count-Lacks : (c : ℕ) (s : Text) → Lacks c s → count c s ≡ 0
unfolding count
count-Lacks c [] h = refl
count-Lacks c (d ∷ s) (e, h) = rw e (omega (arith, count-Lacks c s h))

pub count-append : (c : ℕ) (s t : Text) → count c (s ++ t) ≡ count c s + count c t
unfolding count
count-append c [] t = omega arith
count-append c (d ∷ s) t = omega (arith, count-append c s t)

pub split_once_lem : (c : ℕ) (w s : Text) → Lacks c w → split_once c (w ++ c ∷ s) ≡ some (w, s)
unfolding split_once
split_once_lem c [] s h = rw (==_refl c)
split_once_lem c (d ∷ w) s (e, h) = rw (e, split_once_lem c w s h)

pub rsplit_once-none : (c : ℕ) (s : Text) → Lacks c s → rsplit_once c s ≡ none
unfolding rsplit_once
rsplit_once-none c [] h = refl
rsplit_once-none c (d ∷ s) (e, h) = rw (rsplit_once-none c s h, e)

pub rsplit_once_lem : (c : ℕ) (w s : Text) → Lacks c s → rsplit_once c (w ++ c ∷ s) ≡ some (w, s)
unfolding rsplit_once
rsplit_once_lem c [] s h = rw (rsplit_once-none c s h, ==_refl c)
rsplit_once_lem c (d ∷ w) s h = rw (rsplit_once_lem c w s h)

-- What `split_once` finds is the text cut at the separator, the first part without it.
pub split_once_sound :
    (c : ℕ) (s a b : Text) → split_once c s ≡ some (a, b) → (s ≡ a ++ c ∷ b) × Lacks c a
unfolding split_once
split_once_sound c [] a b h = cc
split_once_sound c (d ∷ s) a b h = elim (Bool-cases (d == c)) [
  | inl e ↦ at_once (ground arith) (ground arith) e
  | inr n ↦ elim (Option-cases (split_once c s)) [
    | inl e ↦ ground arith
    | inr ((a', b'), e) ↦ later n a' b' (ground arith) (ground arith) (split_once_sound c s a' b' e)
  ]
]
  where
    at_once : [] ≡ a → s ≡ b → (d == c) ≡ true → (d ∷ s ≡ a ++ c ∷ b) × Lacks c a
    at_once ea eb e = rw (← ea) (rw (← eb) (ap (λ x. x ∷ s) ((==_iff d c).0 e), tt))

    later :
        (d == c) ≡ false
        → (a' b' : Text) → d ∷ a' ≡ a
        → b' ≡ b
        → (s ≡ a' ++ c ∷ b') × Lacks c a'
        → (d ∷ s ≡ a ++ c ∷ b) × Lacks c a
    later n a' b' ea eb (es, h) = rw (← ea) (rw (← eb) (ap (λ r. d ∷ r) es, (n, h)))

pub unlines-join :
    (c : ℕ) (w : Text) (ws : List Text) → unlines c (w ∷ ws) ≡ join (c ∷ []) (w ∷ ws) ++ c ∷ []
unfolding unlines join
unlines-join c w [] = refl
unlines-join c w (v ∷ ws) =
    ap (λ r. w ++ c ∷ r) (unlines-join c v ws)
    ∙ sym (append_assoc w (c ∷ join (c ∷ []) (v ∷ ws)) (c ∷ []))

pub split-join :
    (c : ℕ) (w : Text) (ws : List Text)
    → All (Lacks c) (w ∷ ws)
    → split c (join (c ∷ []) (w ∷ ws)) ≡ w ∷ ws
unfolding join
split-join c w [] (hw, _) = split_last c w hw
split-join c w (v ∷ ws) (hw, h) =
    split_word c w (join (c ∷ []) (v ∷ ws)) hw ∙ ap (λ r. w ∷ r) (split-join c v ws h)

-- The lines of a text that ends with the separator.
pub split-but_last-unlines :
    (c : ℕ) (w : Text) (ws : List Text)
    → All (Lacks c) (w ∷ ws)
    → split c (but_last (unlines c (w ∷ ws))) ≡ w ∷ ws
split-but_last-unlines c w ws h =
    ap (λ s. split c (but_last s)) (unlines-join c w ws)
    ∙ ap (split c) (but_last-append c (join (c ∷ []) (w ∷ ws)))
    ∙ split-join c w ws h

pub count_cons : (c : ℕ) (s : Text) → count c (c ∷ s) ≡ count c s + 1
unfolding count
count_cons c s = rw (==_refl c) (omega arith)
