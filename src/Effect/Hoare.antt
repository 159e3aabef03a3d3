-- ===== src/Effect/Hoare.antt =====
-- Postconditions of actions, one rule for each way to build an action.
use air_vpn_wg_healthcheck.Prelude.{
  Bool, List, Option, String, [], false, if◌then◌else◌, none, refl, some, subst, true, ℕ, ◌∷◌, ◌≡◌,
}
use air_vpn_wg_healthcheck.Effect.{
  Call, Event, Exception, M, Outcome, Reply, World, cleanup_after, continue, done, end_of_input,
  fail, failed, go, halted, handle, interrupt, interrupted, interrupted_late, kill, meet,
  meet_first, of_reply, os_error, os_error_as, pure, raise, raise_if, raised, returned, setup_error,
  short, system_call, try_except, try_finally, wrap_os_error, ◌>>=◌,
}
use air_vpn_wg_healthcheck.Disk.{Disk}

-- `Q` holds of the result and the disk if the action returned; `E` of the disk if it raised, or
-- if the process was killed.
abbrev pub Ensures :
    {A : Type 0} → (A → Disk → Type 0) → (Disk → Type 0) → Outcome A × World → Type 0
Ensures Q E (returned a, w) = Q a w.disk
Ensures Q E (raised e, w) = E w.disk
Ensures Q E (halted, w) = E w.disk

-- From every world whose disk satisfies `P`.
pub record Triple {A : Type 0} (P : Disk → Type 0) (m : M A) (Q : A → Disk → Type 0)
    (E : Disk → Type 0) : Type 0 where
  pub run : (w : World) → P w.disk → Ensures Q E (m w)

module _ {A : Type 0} {P E : Disk → Type 0} {Q : A → Disk → Type 0} where
  pub Triple-pure : (a : A) → ((d : Disk) → P d → Q a d) → Triple P (pure a) Q E
  Triple-pure a h = record { run = λ w p. h w.disk p }

  pub Triple-raise : (e : Exception) → ((d : Disk) → P d → E d) → Triple P (raise e) Q E
  Triple-raise e h = record { run = λ w p. h w.disk p }

module _ {A B : Type 0} {E : Disk → Type 0} {Q : B → Disk → Type 0} where
  continue-Ensures :
      (R : A → Disk → Type 0) (f : A → M B) (r : Outcome A) (w : World)
      → Ensures R E (r, w)
      → ((a : A) → Triple (R a) (f a) Q E)
      → Ensures Q E (continue r f w)
  continue-Ensures R f (returned a) w h k = (k a).run w h
  continue-Ensures R f (raised e) w h k = h
  continue-Ensures R f halted w h k = h

  pub Triple-bind :
      {P : Disk → Type 0} (R : A → Disk → Type 0) {m : M A} {f : A → M B}
      → Triple P m R E
      → ((a : A) → Triple (R a) (f a) Q E)
      → Triple P (m >>= f) Q E
  unfolding ◌>>=◌
  Triple-bind R {m} {f} h k = record {
    run = λ w p. let (r, w') = m w in continue-Ensures R f r w' (h.run w p) k;
  }

module _ {A : Type 0} {E F : Disk → Type 0} {Q : A → Disk → Type 0} where
  handle-Ensures :
      (h : Exception → M A) (r : Outcome A) (w : World)
      → Ensures Q F (r, w)
      → ((d : Disk) → F d → E d)
      → ((e : Exception) → Triple F (h e) Q E)
      → Ensures Q E (handle r h w)
  handle-Ensures h (returned a) w q fe k = q
  handle-Ensures h (raised e) w q fe k = (k e).run w q
  handle-Ensures h halted w q fe k = fe w.disk q

  pub Triple-try :
      {P : Disk → Type 0} {m : M A} {h : Exception → M A}
      → Triple P m Q F
      → ((d : Disk) → F d → E d)
      → ((e : Exception) → Triple F (h e) Q E)
      → Triple P (try_except m h) Q E
  unfolding try_except
  Triple-try {m} {h} t fe k = record {
    run = λ w p. let (r, w') = m w in handle-Ensures h r w' (t.run w p) fe k;
  }

-- Of a call: what holds when it succeeds, and when it fails.
abbrev pub After : {A : Type 0} → (A → Disk → Type 0) → (Disk → Type 0) → Reply A × Disk → Type 0
After Q E (done a, d) = Q a d
After Q E (failed e, d) = E d

module _ {A : Type 0} (E : Disk → Type 0) (Q : A → Disk → Type 0) where
  of_reply-Ensures :
      (r : Reply A × Disk) (es : List Event) → After Q E r → Ensures Q E (of_reply r es)
  of_reply-Ensures (done a, d) es h = h
  of_reply-Ensures (failed e, d) es h = h

  after-disk : (r : Reply A × Disk) → ((a : A) (d : Disk) → Q a d → E d) → After Q E r → E r.1
  after-disk (done a, d) q h = q a d h
  after-disk (failed e, d) q h = h

module _ {A : Type 0} {P E : Disk → Type 0} {Q : A → Disk → Type 0} where
  -- One rule for a system call, whatever it meets.
  pub Triple-call :
      (call : Call A)
      → ((d : Disk) → P d → E d)
      → ((a : A) (d : Disk) → Q a d → E d)
      → ((limit : Option ℕ) (d : Disk) → P d → After Q E (call limit d))
      → Triple P (system_call call) Q E
  unfolding system_call
  Triple-call call pe qe h = record { run = λ w p. by_events w.events w.disk p }
    where
      by_event : (e : Event) (es : List Event) (d : Disk) → P d → Ensures Q E (meet e call d es)
      by_event go es d p = of_reply-Ensures E Q (call none d) es (h none d p)
      by_event (fail e) es d p = pe d p
      by_event interrupted es d p = pe d p
      by_event interrupted_late es d p = after-disk E Q (call none d) qe (h none d p)
      by_event kill es d p = pe d p
      by_event (short n) es d p = of_reply-Ensures E Q (call (some n) d) es (h (some n) d p)

      by_events : (es : List Event) (d : Disk) → P d → Ensures Q E (meet_first es call d)
      by_events [] d p = by_event go [] d p
      by_events (e ∷ es) d p = by_event e es d p

  pub Triple-consequence :
      {P' F : Disk → Type 0} {R : A → Disk → Type 0} {m : M A}
      → Triple P' m R F
      → ((d : Disk) → P d → P' d)
      → ((a : A) (d : Disk) → R a d → Q a d)
      → ((d : Disk) → F d → E d)
      → Triple P m Q E
  Triple-consequence {F = F} {R = R} {m = m} t pp rq fe = record {
    run = λ w p. weaken (m w) (t.run w (pp w.disk p));
  }
    where
      weaken : (r : Outcome A × World) → Ensures R F r → Ensures Q E r
      weaken (returned a, w) h = rq a w.disk h
      weaken (raised e, w) h = fe w.disk h
      weaken (halted, w) h = fe w.disk h

  pub Triple-finally :
      {F : Disk → Type 0} {R : A → Disk → Type 0} {m : M A} {c : M (Unit {0})}
      → Triple P m R F
      → ((a : A) → Triple (R a) c (λ _. Q a) E)
      → Triple F c (λ _. E) E
      → ((d : Disk) → F d → E d)
      → Triple P (try_finally m c) Q E
  unfolding try_finally ◌>>=◌
  Triple-finally {F} {R} {m} {c} t ok_side err_side fe = record {
    run = λ w p. let (r, w') = m w in cleanup r w' (t.run w p);
  }
    where
      after_ok :
          (a : A) (r : Outcome (Unit {0}) × World)
          → Ensures (λ _. Q a) E r
          → Ensures Q E (continue r.0 (λ _. pure a) r.1)
      after_ok a (returned _, w) h = h
      after_ok a (raised e, w) h = h
      after_ok a (halted, w) h = h

      after_err :
          (e : Exception) (r : Outcome (Unit {0}) × World)
          → Ensures (λ _. E) E r
          → Ensures Q E (continue r.0 (λ _. raise e) r.1)
      after_err e (returned _, w) h = h
      after_err e (raised _, w) h = h
      after_err e (halted, w) h = h

      cleanup : (r : Outcome A) (w : World) → Ensures R F (r, w) → Ensures Q E (cleanup_after r c w)
      cleanup (returned a) w h = after_ok a (c w) ((ok_side a).run w h)
      cleanup (raised e) w h = after_err e (c w) (err_side.run w h)
      cleanup halted w h = fe w.disk h

module _ {A : Type 0} {P E : Disk → Type 0} {Q : A → Disk → Type 0} where
  pub Triple-if :
      (b : Bool) {m n : M A} → Triple P m Q E → Triple P n Q E → Triple P (if b then m else n) Q E
  Triple-if true t f = t
  Triple-if false t f = f

module _ {A : Type 0} {E : Disk → Type 0} {Q : A → Disk → Type 0} where
  -- A fact that the state does not depend on.
  pub Triple-given :
      {F : Type 0} {P : Disk → Type 0} {m : M A}
      → (F → Triple P m Q E)
      → Triple (λ d. F × P d) m Q E
  Triple-given t = record { run = λ w p. (t p.0).run w p.1 }

  -- A fact about the disk at the start.
  pub Triple-from :
      {P : Disk → Type 0} {m : M A}
      → ((start : Disk) → P start → Triple (λ d. d ≡ start) m Q E)
      → Triple P m Q E
  Triple-from t = record { run = λ w p. (t w.disk p).run w refl }

  os_error_as-Triple : (message : String) (e : Exception) → Triple E (os_error_as message e) Q E
  os_error_as-Triple message (os_error x) = Triple-raise _ (λ d h. h)
  os_error_as-Triple message (setup_error x) = Triple-raise _ (λ d h. h)
  os_error_as-Triple message interrupt = Triple-raise _ (λ d h. h)
  os_error_as-Triple message end_of_input = Triple-raise _ (λ d h. h)

  pub Triple-wrap :
      {P : Disk → Type 0} {m : M A} (message : String)
      → Triple P m Q E
      → Triple P (wrap_os_error message m) Q E
  Triple-wrap message t = Triple-try t (λ d h. h) (os_error_as-Triple message)

-- What stands behind a guard is not bad.
pub Triple-raise_if :
    {P E : Disk → Type 0} (bad : Bool) (e : Exception)
    → ((d : Disk) → P d → E d)
    → Triple P (raise_if bad e) (λ _ d. (bad ≡ false) × P d) E
Triple-raise_if true e pe = Triple-raise e pe
Triple-raise_if false e pe = Triple-pure tt (λ d p. (refl, p))

-- What is known of every run, with the disk at its start named.
pub Triple-each :
    {A : Type 0} {m : M A} (R : Disk → A → Disk → Type 0) (F : Disk → Disk → Type 0)
    → ((w : World) → Ensures (R w.disk) (F w.disk) (m w))
    → (start : Disk) → Triple (λ d. d ≡ start) m (R start) (F start)
Triple-each {m} R F h start = record {
  run = λ w e. subst (λ (s : Disk). Ensures (R s) (F s) (m w)) e (h w);
}
