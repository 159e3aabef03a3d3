-- ===== src/Result.antt =====
-- Exceptions of the setup package as values: `SetupError` (libexec/wg_healthcheck_setup/model.py)
-- carries its message, and a function that may raise it returns a `Result`.
use air_vpn_wg_healthcheck.Prelude.{Bool, String, false, inl, inr, refl, true, ◌≡◌, ◌⊎◌}

pub data Result {ℓ} (A : Type ℓ) : Type ℓ where
  err : String → Result A
  ok : A → Result A

module _ {ℓ κ} {A : Type ℓ} {B : Type κ} where
  infixl 10 ◌>>=◌
  -- The rest of a function, behind a part that may have raised.
  abbrev pub ◌>>=◌ : Result A → (A → Result B) → Result B
  err message >>= rest = err message
  ok value >>= rest = rest value

  pub >>=-eq_ok :
      (part : Result A) (rest : A → Result B) {b : B}
      → (part >>= rest) ≡ ok b
      → (a : A) × (part ≡ ok a) × (rest a ≡ ok b)
  >>=-eq_ok (err message) rest h = cc
  >>=-eq_ok (ok value) rest h = (value, refl, h)

infixl 10 ◌>>◌
abbrev pub ◌>>◌ {ℓ} : {B : Type ℓ} → Result (Unit {0}) → Result B → Result B
check >> rest = check >>= λ _. rest

-- `if bad: raise SetupError(message)`
abbrev pub raise_if : Bool → String → Result (Unit {0})
raise_if true message = err message
raise_if false message = ok tt

pub raise_if_ok :
    {b : Bool} (message : String) {u : Unit {0}} → raise_if b message ≡ ok u → b ≡ false
raise_if_ok {b = true} message h = cc
raise_if_ok {b = false} message h = refl

pub Result-cases {ℓ} :
    {A : Type ℓ} (r : Result A) → ((message : String) × (r ≡ err message)) ⊎ ((a : A) × (r ≡ ok a))
Result-cases (ok a) = inr (a, refl)
Result-cases (err message) = inl (message, refl)

pub ok-injective {ℓ} : {A : Type ℓ} {a b : A} → ok a ≡ ok b → a ≡ b
ok-injective h = cc

-- What follows a guard that let it through.
pub raise_if_then {ℓ} :
    {B : Type ℓ} (bad : Bool) (message : String) (m : Result B) {x : B}
    → (raise_if bad message >> m) ≡ ok x
    → (bad ≡ false) × (m ≡ ok x)
raise_if_then true message m h = cc
raise_if_then false message m h = (refl, h)
