-- ===== src/Effect/Missing.antt =====
-- Postconditions that tell the error of a missing file from the others: for a handler of
-- FileNotFoundError.
use air_vpn_wg_healthcheck.Prelude.{List, Option, [], none, some, ℕ, ◌∷◌}
use air_vpn_wg_healthcheck.Effect.{
  Call, Event, Exception, M, Outcome, Reply, World, blocked, broken, continue, done, end_of_input,
  exists, fail, failed, go, halted, handle, held, interrupt, interrupted, interrupted_late, io,
  kill, meet, meet_first, not_found, of_reply, os_error, pure, raised, returned, setup_error, short,
  system_call, try_except, ◌>>=◌,
}
use air_vpn_wg_healthcheck.Effect.Hoare.{Ensures, Triple}
use air_vpn_wg_healthcheck.Disk.{Disk}

module _ (P N : Disk → Type 0) where
  -- What holds when the exception is raised: `N` too, if it is that of a missing file.
  abbrev pub Raised : Exception → Disk → Type 0
  Raised (os_error not_found) d = P d × N d
  Raised (os_error exists) d = P d
  Raised (os_error blocked) d = P d
  Raised (os_error io) d = P d
  Raised (setup_error x) d = P d
  Raised interrupt d = P d
  Raised end_of_input d = P d

  module _ {A : Type 0} (Q : A → Disk → Type 0) where
    abbrev pub EnsuresMissing : Outcome A × World → Type 0
    EnsuresMissing (returned a, w) = Q a w.disk
    EnsuresMissing (raised e, w) = Raised e w.disk
    EnsuresMissing (halted, w) = P w.disk

    abbrev pub AfterMissing : Reply A × Disk → Type 0
    AfterMissing (done a, d) = Q a d
    AfterMissing (failed e, d) = Raised (os_error e) d

    pub record TripleMissing (m : M A) : Type 0 where
      pub run : (w : World) → P w.disk → EnsuresMissing (m w)

    pub TripleMissing-call :
        (call : Call A)
        → ((a : A) (d : Disk) → Q a d → P d)
        → ((limit : Option ℕ) (d : Disk) → P d → AfterMissing (call limit d))
        → TripleMissing (system_call call)
    unfolding system_call
    TripleMissing-call call qp h = record { run = λ w p. by_events w.events w.disk p }
      where
        of :
            (r : Reply A × Disk) (es : List Event) → AfterMissing r → EnsuresMissing (of_reply r es)
        of (done a, d) es x = x
        of (failed e, d) es x = x

        late : (r : Reply A × Disk) → AfterMissing r → P r.1
        late (done a, d) x = qp a d x
        late (failed not_found, d) x = x.0
        late (failed exists, d) x = x
        late (failed blocked, d) x = x
        late (failed io, d) x = x

        by_event :
            (e : Event) (es : List Event) (d : Disk) → P d → EnsuresMissing (meet e call d es)
        by_event go es d p = of (call none d) es (h none d p)
        by_event (fail held) es d p = p
        by_event (fail broken) es d p = p
        by_event interrupted es d p = p
        by_event interrupted_late es d p = late (call none d) (h none d p)
        by_event kill es d p = p
        by_event (short n) es d p = of (call (some n) d) es (h (some n) d p)

        by_events : (es : List Event) (d : Disk) → P d → EnsuresMissing (meet_first es call d)
        by_events [] d p = by_event go [] d p
        by_events (e ∷ es) d p = by_event e es d p

    -- With no handler for it.
    pub Triple-forget : {m : M A} → TripleMissing m → Triple P m Q P
    Triple-forget {m} t = record { run = λ w p. weaken (m w) (t.run w p) }
      where
        weaken : (r : Outcome A × World) → EnsuresMissing r → Ensures Q P r
        weaken (returned a, w) x = x
        weaken (raised (os_error not_found), w) x = x.0
        weaken (raised (os_error exists), w) x = x
        weaken (raised (os_error blocked), w) x = x
        weaken (raised (os_error io), w) x = x
        weaken (raised (setup_error y), w) x = x
        weaken (raised interrupt, w) x = x
        weaken (raised end_of_input, w) x = x
        weaken (halted, w) x = x

    -- A handler for it.
    pub Triple-try_missing :
        {m : M A} {h : Exception → M A}
        → TripleMissing m
        → ((e : Exception) → Triple (Raised e) (h e) Q P)
        → Triple P (try_except m h) Q P
    unfolding try_except
    Triple-try_missing {m} {h} t k = record {
      run = λ w p. let (r, w') = m w in handled r w' (t.run w p);
    }
      where
        handled : (r : Outcome A) (w : World) → EnsuresMissing (r, w) → Ensures Q P (handle r h w)
        handled (returned a) w x = x
        handled (raised e) w x = (k e).run w x
        handled halted w x = x

module _ (P N : Disk → Type 0) {A B : Type 0} where
  -- The result of a call, changed.
  pub TripleMissing-pure :
      (Q : A → Disk → Type 0) (R : B → Disk → Type 0) {m : M A} (f : A → B)
      → TripleMissing P N Q m
      → ((a : A) (d : Disk) → Q a d → R (f a) d)
      → TripleMissing P N R (m >>= λ a. pure (f a))
  unfolding ◌>>=◌
  TripleMissing-pure Q R {m} f t k = record {
    run = λ w p. let (r, w') = m w in mapped r w' (t.run w p);
  }
    where
      mapped :
          (r : Outcome A) (w : World)
          → EnsuresMissing P N Q (r, w)
          → EnsuresMissing P N R (continue r (λ a. pure (f a)) w)
      mapped (returned a) w x = k a w.disk x
      mapped (raised e) w x = x
      mapped halted w x = x
