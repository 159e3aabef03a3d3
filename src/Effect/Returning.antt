-- ===== src/Effect/Returning.antt =====
-- Postconditions that speak of the result alone.
use air_vpn_wg_healthcheck.Effect.{M, Outcome, World, halted, pure, raised, returned, ◌>>=◌}
use air_vpn_wg_healthcheck.Effect.Hoare.{Ensures, Triple, Triple-bind, Triple-pure}
use air_vpn_wg_healthcheck.Disk.{Disk}

-- The action returns only values with the property.
abbrev pub Returns : {A : Type 0} → (A → Type 0) → M A → Type 0
Returns Q m = Triple (λ _. Unit {0}) m (λ a _. Q a) (λ _. Unit {0})

pub Returns-anything : {A : Type 0} (m : M A) → Returns (λ _. Unit {0}) m
Returns-anything {A} m = record { run = λ w _. by_outcome (m w) }
  where
    by_outcome :
        (r : Outcome A × World)
        → Ensures (λ (_ : A) (_ : Disk). Unit {0}) (λ (_ : Disk). Unit {0}) r
    by_outcome (returned a, w) = tt
    by_outcome (raised e, w) = tt
    by_outcome (halted, w) = tt

pub Returns-pure : {A : Type 0} {Q : A → Type 0} (a : A) → Q a → Returns Q (pure a)
Returns-pure a q = Triple-pure a (λ _ _. q)

pub Returns-then :
    {A B : Type 0} {Q : B → Type 0} (m : M A) {f : A → M B}
    → ((a : A) → Returns Q (f a))
    → Returns Q (m >>= f)
Returns-then m h = Triple-bind (λ _ _. Unit {0}) (Returns-anything m) h

pub Returns-bind :
    {A B : Type 0} (R : A → Type 0) {Q : B → Type 0} {m : M A} {f : A → M B}
    → Returns R m
    → ((a : A) → R a → Returns Q (f a))
    → Returns Q (m >>= f)
Returns-bind R t h = Triple-bind (λ a _. R a) t (λ a. record { run = λ w r. (h a r).run w tt })
