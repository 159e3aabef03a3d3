-- ===== src/Effect/Reads.antt =====
-- Actions that leave the disk as it was, whatever they meet: one rule for each way to build one.
use air_vpn_wg_healthcheck.Effect.{
  Call, Event, Exception, M, Outcome, Reply, World, cleanup_after, continue, done, end_of_input,
  fail, failed, go, halted, handle, interrupt, interrupted, interrupted_late, kill, meet,
  meet_first, of_reply, os_error, os_error_as, pure, raise, raise_if, raised, returned, setup_error,
  short, system_call, try_except, try_finally, when, ◌>>=◌,
}
use air_vpn_wg_healthcheck.Effect.Hoare.{Ensures, Triple}
use air_vpn_wg_healthcheck.Prelude.{
  Bool, List, Option, String, [], false, if◌then◌else◌, none, refl, some, true, ℕ, ◌∙◌, ◌∷◌, ◌≡◌,
}
use air_vpn_wg_healthcheck.Disk.{Disk}

pub record Reads {A : Type 0} (m : M A) : Type 0 where
  pub same : (w : World) → (m w).1.disk ≡ w.disk

module _ {A : Type 0} where
  pub Reads-pure : (a : A) → Reads (pure a)
  Reads-pure a = record { same = λ w. refl }

  pub Reads-raise : (e : Exception) → Reads (raise {A = A} e)
  Reads-raise e = record { same = λ w. refl }

  pub Reads-if : (b : Bool) (m n : M A) → Reads m → Reads n → Reads (if b then m else n)
  Reads-if true m n h k = h
  Reads-if false m n h k = k

  meet-same :
      (call : Call A)
      → ((limit : Option ℕ) (d : Disk) → (call limit d).1 ≡ d)
      → (e : Event) (d : Disk) (es : List Event) → (meet e call d es).1.disk ≡ d
  unfolding meet
  meet-same call h go d es = of_reply-same (call none d) es (h none d)
    where
      of_reply-same : (r : Reply A × Disk) (es : List Event) → r.1 ≡ d → (of_reply r es).1.disk ≡ d
      of_reply-same (done a, d') es e = e
      of_reply-same (failed a, d') es e = e
  meet-same call h (fail e) d es = refl
  meet-same call h interrupted d es = refl
  meet-same call h interrupted_late d es = h none d
  meet-same call h kill d es = refl
  meet-same call h (short n) d es = of_reply-same (call (some n) d) es (h (some n) d)
    where
      of_reply-same : (r : Reply A × Disk) (es : List Event) → r.1 ≡ d → (of_reply r es).1.disk ≡ d
      of_reply-same (done a, d') es e = e
      of_reply-same (failed a, d') es e = e

  pub Reads-call :
      (call : Call A)
      → ((limit : Option ℕ) (d : Disk) → (call limit d).1 ≡ d)
      → Reads (system_call call)
  unfolding system_call
  Reads-call call h = record { same = λ w. by_events w.events w.disk }
    where
      by_events : (es : List Event) (d : Disk) → (meet_first es call d).1.disk ≡ d
      by_events [] d = meet-same call h go d []
      by_events (e ∷ es) d = meet-same call h e d es

  handle-same :
      (h : Exception → M A) (r : Outcome A) (w : World)
      → ((e : Exception) → Reads (h e))
      → (handle r h w).1.disk ≡ w.disk
  handle-same h (returned a) w k = refl
  handle-same h (raised e) w k = (k e).same w
  handle-same h halted w k = refl

  pub Reads-try :
      (m : M A) (h : Exception → M A)
      → Reads m
      → ((e : Exception) → Reads (h e))
      → Reads (try_except m h)
  unfolding try_except
  Reads-try m h t k = record { same = λ w. let (r, w') = m w in handle-same h r w' k ∙ t.same w }

module _ {A B : Type 0} where
  continue-same :
      (f : A → M B) (r : Outcome A) (w : World)
      → ((a : A) → Reads (f a))
      → (continue r f w).1.disk ≡ w.disk
  continue-same f (returned a) w k = (k a).same w
  continue-same f (raised e) w k = refl
  continue-same f halted w k = refl

  pub Reads-bind : (m : M A) (f : A → M B) → Reads m → ((a : A) → Reads (f a)) → Reads (m >>= f)
  unfolding ◌>>=◌
  Reads-bind m f t k = record { same = λ w. let (r, w') = m w in continue-same f r w' k ∙ t.same w }

module _ {A : Type 0} where
  cleanup-same :
      (r : Outcome A) (c : M (Unit {0})) (w : World)
      → Reads c
      → (cleanup_after r c w).1.disk ≡ w.disk
  cleanup-same (returned a) c w k = (Reads-bind c (λ _. pure a) k (λ _. Reads-pure a)).same w
  cleanup-same (raised e) c w k = (Reads-bind c (λ _. raise e) k (λ _. Reads-raise e)).same w
  cleanup-same halted c w k = refl

  pub Reads-finally : (m : M A) (c : M (Unit {0})) → Reads m → Reads c → Reads (try_finally m c)
  unfolding try_finally
  Reads-finally m c t k = record {
    same = λ w. let (r, w') = m w in cleanup-same r c w' k ∙ t.same w;
  }

pub Reads-raise_if : (b : Bool) (e : Exception) → Reads (raise_if b e)
Reads-raise_if true e = Reads-raise e
Reads-raise_if false e = Reads-pure tt

pub Reads-when : (b : Bool) (m : M (Unit {0})) → Reads m → Reads (when b m)
Reads-when true m h = h
Reads-when false m h = Reads-pure tt

pub Reads-os_error_as :
    {A : Type 0} (message : String) (e : Exception) → Reads (os_error_as {A = A} message e)
Reads-os_error_as message (os_error x) = Reads-raise _
Reads-os_error_as message (setup_error x) = Reads-raise _
Reads-os_error_as message interrupt = Reads-raise _
Reads-os_error_as message end_of_input = Reads-raise _

-- An action that reads keeps every property of the disk.
pub Triple-reads : {A : Type 0} {P : Disk → Type 0} {m : M A} → Reads m → Triple P m (λ _. P) P
Triple-reads {A = A} {P = P} {m = m} r = record { run = λ w p. at_outcome (m w) (rw (r.same w) p) }
  where
    at_outcome : (r : Outcome A × World) → P r.1.disk → Ensures (λ _. P) P r
    at_outcome (returned a, w) h = h
    at_outcome (raised e, w) h = h
    at_outcome (halted, w) h = h

pub ruleset reads_rules = (
  Reads-pure, Reads-raise, Reads-if, Reads-try, Reads-bind, Reads-finally, Reads-raise_if,
  Reads-when, Reads-os_error_as,
)
