-- ===== src/Alerts/Monitor/Turns.antt =====
-- One run of the checks: the contract is kept, and each scope shows the verdict of its check.
use score_arc.Prelude.{
  ℕ, ◌+◌, ◌≤◌, ◌<◌, String, Bool, true, false, Option, none, some, List, [], ◌∷◌, length,
  length-append, has, All, All-imp, leb, if◌then◌else◌, str_eq, ◌≡◌, ◌≢◌, refl, sym, ap, ◌∙◌, subst,
  arith, eq_iff, Bool-cases, inl, inr, IsDistinct,
}
use score_arc.Alerts.Run.{max_safe}
use score_arc.Alerts.Observed.{CheckResult, valid_result, is_none}
use score_arc.Alerts.State.{EventId, Event, State, lookup, max_pending, in_epoch, open_in_epoch}
use score_arc.Alerts.Monitor.{
  flat, incident_of, record_event, turned, has_turned, observe_scope, observe, Checks, observed,
}
use score_arc.Alerts.Monitor.Contract.{IsContract, lookup-put}
use score_arc.Alerts.Monitor.Observing.{
  marked, record_event-IsContract, resolve-IsRecordable, open-IsRecordable, All-lookup,
}

-- What a step of a run changes.
pub record IsStep (s t : State) (n : ℕ) : Type 0 where
  pub numbers : t.sequence ≤ n + s.sequence
  pub queue : length t.pending ≤ n + length s.pending
  pub run : t.run ≡ s.run
  pub phase : t.phase ≡ s.phase
  pub reserved : t.reserved ≡ s.reserved
  pub clock : t.updated_at ≡ s.updated_at

abbrev IsUntouched : String → State → State → Type 0
IsUntouched key s t = (k : String) → key ≢ k → incident_of t k ≡ incident_of s k

incident_of-put :
    (s : State) (key : String) (e : Event) (i : Option EventId) (k : String)
    → incident_of (record_event s key e i) k ≡ (if str_eq key k then i else incident_of s k)
incident_of-put s key e i k = ap flat (lookup-put key k i s.incidents) ∙ branch (str_eq key k)
  where
    branch :
        (b : Bool)
        → flat (if b then some i else lookup k s.incidents)
          ≡ (if b then i else flat (lookup k s.incidents))
    branch true = refl
    branch false = refl

module _ (base : String) (keys : List String) (clock : ℕ) where
  record IsSeen (s : State) (key : String) (r : CheckResult) (t : State) : Type 0 where
    contract : IsContract base keys clock (marked t)
    step : IsStep s t 1
    shown : is_none (incident_of t key) ≡ r.ok
    others : IsUntouched key s t

  module _ (s : State) (key : String) (r : CheckResult) (c : IsContract base keys clock (marked s))
      (known : has key keys ≡ true) (valid : valid_result r ≡ true)
      (numbers : s.sequence < max_safe) (room : length s.pending < max_pending) where
    recorded-IsSeen :
        (e : Event) (i : Option EventId)
        → IsContract base keys clock (marked (record_event s key e i))
        → is_none i ≡ r.ok
        → IsSeen s key r (record_event s key e i)
    recorded-IsSeen e i k n = record {
      contract = k;
      step = record {
        numbers = omega arith;
        queue = omega (arith, length-append s.pending (e ∷ []));
        run = refl;
        phase = refl;
        reserved = refl;
        clock = refl;
      };
      shown = ap is_none (incident_of-put s key e i key ∙ rw ((eq_iff key key).1 refl) refl) ∙ n;
      others = λ k ne. incident_of-put s key e i k ∙ ground (arith, eq_iff key k);
    }

    unturned-IsSeen : is_none (incident_of s key) ≡ r.ok → IsSeen s key r s
    unturned-IsSeen h = record {
      contract = c;
      step = record {
        numbers = omega arith;
        queue = omega arith;
        run = refl;
        phase = refl;
        reserved = refl;
        clock = refl;
      };
      shown = h;
      others = λ k ne. refl;
    }

    incident-in_epoch : (i : EventId) → incident_of s key ≡ some i → in_epoch s i ≡ true
    incident-in_epoch i e = by_lookup (lookup key s.incidents) refl e
      where
        by_lookup :
            (o : Option (Option EventId))
            → lookup key s.incidents ≡ o
            → flat o ≡ some i
            → in_epoch s i ≡ true
        by_lookup none l e = cc
        by_lookup (some o) l e =
            subst (λ o. open_in_epoch s o ≡ true) e
              (All-lookup (λ o. open_in_epoch s o ≡ true) key s.incidents c.incidents l)

    turned-IsSeen :
        (i : Option EventId) (ok : Bool)
        → incident_of s key ≡ i
        → r.ok ≡ ok
        → has_turned ok i ≡ true
        → IsSeen s key r (turned ok s key r i)
    turned-IsSeen none true e k h = cc
    turned-IsSeen none false e k h =
        recorded-IsSeen _ _
          (record_event-IsContract base keys clock s key _ _ c
            (open-IsRecordable keys s key r known valid c.run k e) numbers room)
          (sym k)
    turned-IsSeen (some i) true e k h =
        recorded-IsSeen _ _
          (record_event-IsContract base keys clock s key _ _ c
            (resolve-IsRecordable keys s key r known valid c.run i k e (incident-in_epoch i e))
            numbers room)
          (sym k)
    turned-IsSeen (some i) false e k h = cc

    observe_scope-IsSeen : (t : State) × (observe_scope s key r ≡ observed t) × IsSeen s key r t
    unfolding observe_scope
    observe_scope-IsSeen = elim (Bool-cases (has_turned r.ok (incident_of s key))) [
      | inl h ↦ (
        turned r.ok s key r (incident_of s key),
        rw (valid, h, not_full) refl,
        turned-IsSeen (incident_of s key) r.ok refl refl h,
      )
      | inr h ↦ (s, rw (valid, h) refl, unturned-IsSeen (unchanged (incident_of s key) r.ok h))
    ]
      where
        not_full : leb max_safe s.sequence ≡ false
        not_full = ground arith

        unchanged : (i : Option EventId) (ok : Bool) → has_turned ok i ≡ false → is_none i ≡ ok
        unchanged i ok h = ground arith

  -- A run over all scopes.
  pub record IsRun (s : State) (checks : Checks) (t : State) : Type 0 where
    pub contract : IsContract base keys clock (marked t)
    pub step : IsStep s t (length checks)
    pub shown : All (λ c. is_none (incident_of t c.0) ≡ c.1.ok) checks
    pub others : (k : String) → All (λ c. c.0 ≢ k) checks → incident_of t k ≡ incident_of s k

  pub observe-IsRun :
      (checks : Checks) (s : State)
      → IsContract base keys clock (marked s)
      → All (λ c. has c.0 keys ≡ true) checks
      → All (λ c. valid_result c.1 ≡ true) checks
      → IsDistinct (λ c. c.0) checks
      → length checks + s.sequence ≤ max_safe
      → length checks + length s.pending ≤ max_pending
      → (t : State) × (observe checks s ≡ observed t) × IsRun s checks t
  unfolding observe
  observe-IsRun [] s c known valid apart numbers room = (
    s,
    refl,
    record {
      contract = c;
      step = record {
        numbers = omega arith;
        queue = omega arith;
        run = refl;
        phase = refl;
        reserved = refl;
        clock = refl;
      };
      shown = tt;
      others = λ k h. refl;
    },
  )
  observe-IsRun (x ∷ checks) s c known valid apart numbers room =
      let (u, e, first) =
        observe_scope-IsSeen s x.0 x.1 c known.0 valid.0 (omega arith) (omega arith) in
      let (t, f, rest) =
        observe-IsRun checks u first.contract known.1 valid.1 apart.1
          (omega (arith, first.step.numbers)) (omega (arith, first.step.queue)) in
      (
        t,
        rw (e, f) refl,
        record {
          contract = rest.contract;
          step = record {
            numbers = omega (arith, first.step.numbers, rest.step.numbers);
            queue = omega (arith, first.step.queue, rest.step.queue);
            run = rest.step.run ∙ first.step.run;
            phase = rest.step.phase ∙ first.step.phase;
            reserved = rest.step.reserved ∙ first.step.reserved;
            clock = rest.step.clock ∙ first.step.clock;
          };
          shown = (
            ap is_none (rest.others x.0 (All-imp (λ c n e. n (sym e)) checks apart.0))
                ∙ first.shown,
            rest.shown,
          );
          others = λ k h. rest.others k h.1 ∙ first.others k h.0;
        },
      )
