-- ===== src/Alerts/Monitor/Preparing.antt =====
-- `prepareMonitor` keeps the contract.
use score_arc.Prelude.{
  ℕ, zero, suc, ◌≤◌, String, Bool, true, false, Option, none, some, List, [], ◌∷◌, map, length, All,
  All-imp, ltb, leb, ◌≡◌, refl, ap, subst, arith, Bool-cases, inl, inr,
}
use score_arc.Alerts.Run.{Run, valid_run}
use score_arc.Alerts.State.{
  EventId, Event, State, Config, MonitorFailure, valid_event, is_reserved, max_attempts, max_sends,
  pending_phase,
}
use score_arc.Alerts.Monitor.{
  attempted, Reservation, reserve, with_reservation, reserved_for, started,
}
use score_arc.Alerts.Monitor.Ids.{id_eq_self}
use score_arc.Alerts.Monitor.Contract.{Opened, IsTurn, IsChain, IsContract}
use score_arc.Alerts.Monitor.Observing.{IsLater, marked, valid_event-later, open_in_epoch-later}

-- The events of a reservation are those of the queue, the reserved ones attempted once more.
record IsTaken (s : State) (keys : List String) (n : ℕ) (events : List Event) (r : Reservation)
    : Type 0 where
  ids : map (λ e. e.id) r.events ≡ map (λ e. e.id) events
  size : length r.events ≡ length events
  valid : All (λ e. valid_event s keys e ≡ true) r.events
  taken : is_reserved r.ids r.events ≡ true
  few : length r.ids ≤ n
  chain : (f g : Opened) → IsChain f events g → IsChain f r.events g

module _ (s : State) (keys : List String) where
  attempted-valid :
      (e : Event)
      → valid_event s keys e ≡ true
      → leb max_attempts e.attempts ≡ false
      → valid_event s keys (attempted s.updated_at e) ≡ true
  unfolding valid_event
  attempted-valid e h a = ground arith

  IsTurn-attempted :
      (i : Option EventId) (e : Event) → IsTurn i e → IsTurn i (attempted s.updated_at e)
  IsTurn-attempted none e t = t
  IsTurn-attempted (some i) e t = t

  left-IsTaken :
      (n : ℕ) (events : List Event) (exhausted : Bool)
      → All (λ e. valid_event s keys e ≡ true) events
      → IsTaken s keys n events (record { events = events; ids = []; exhausted = exhausted })
  left-IsTaken n events exhausted h = record {
    ids = refl;
    size = refl;
    valid = h;
    taken = refl;
    few = omega arith;
    chain = λ f g c. c;
  }

  reserve-IsTaken :
      (n : ℕ) (events : List Event)
      → All (λ e. valid_event s keys e ≡ true) events
      → IsTaken s keys n events (reserve n s.updated_at events)
  unfolding reserve
  reserve-IsTaken zero events h = left-IsTaken zero events false h
  reserve-IsTaken (suc n) [] h = left-IsTaken (suc n) [] false h
  reserve-IsTaken (suc n) (e ∷ events) h =
      let rest = reserve-IsTaken n events h.1 in
      elim (Bool-cases (leb max_attempts e.attempts)) [
        | inl a ↦ rw a (left-IsTaken (suc n) (e ∷ events) true h)
        | inr a ↦ elim (Bool-cases (ltb s.updated_at e.next_attempt_at)) [
          | inl b ↦ rw (a, b) (left-IsTaken (suc n) (e ∷ events) false h)
          | inr b ↦
              rw (a, b)
                (record {
                  ids = ap (λ ids. e.id ∷ ids) rest.ids;
                  size = ap suc rest.size;
                  valid = (attempted-valid e h.0 a, rest.valid);
                  taken = rw (id_eq_self e.id, rest.taken) (ground arith);
                  few = omega (arith, rest.few);
                  chain = λ f g c. (IsTurn-attempted (f e.scope) e c.0, rest.chain _ g c.1);
                })
        ]
      ]

module _ (base : String) (keys : List String) where
  pub reserved_for-IsContract :
      (delivery : Bool) (now : ℕ) (s : State)
      → s.updated_at ≡ now
      → IsContract base keys now s
      → s.reserved ≡ []
      → s.phase ≡ pending_phase
      → IsContract base keys now (reserved_for delivery now s)
  unfolding reserved_for valid_event
  reserved_for-IsContract false now s u c n p = c
  reserved_for-IsContract true now s u c n p =
      subst (λ m. IsContract base keys now (with_reservation s (reserve max_sends m s.pending))) u
        (taken-IsContract (reserve-IsTaken s keys max_sends s.pending c.events))
    where
      taken-IsContract :
          {r : Reservation}
          → IsTaken s keys max_sends s.pending r
          → IsContract base keys now (with_reservation s r)
      taken-IsContract t = record {
        origin = c.origin;
        uuid = c.uuid;
        run = c.run;
        bounded = c.bounded;
        updated = c.updated;
        filed = c.filed;
        incidents = c.incidents;
        room = omega (arith, t.size, c.room);
        events = t.valid;
        gone = c.gone;
        counted = omega (arith, c.counted, t.size);
        lost = c.lost;
        kept = c.kept;
        receipts = c.receipts;
        receipts_run = c.receipts_run;
        pending_run = rw t.ids c.pending_run;
        acknowledged = c.acknowledged;
        before = c.before;
        chain = t.chain _ _ c.chain;
        marked = c.marked;
        taken = t.taken;
        sends = t.few;
        closed = rw p refl;
      }

  pub started-IsContract :
      (o : Config) (run : Run) (clock : ℕ) (s : State)
      → IsContract base keys clock s
      → clock ≤ o.now
      → valid_run run ≡ true
      → IsContract base keys o.now (marked (started o run s))
  started-IsContract o run clock s c after valid =
      let t = started o run s in
      let later : IsLater s (marked t) = (refl, omega arith, omega (arith, c.updated, after)) in
      record {
        origin = c.origin;
        uuid = c.uuid;
        run = valid;
        bounded = c.bounded;
        updated = omega arith;
        filed = c.filed;
        incidents =
            All-imp (λ i. open_in_epoch-later s (marked t) i.1 later) s.incidents c.incidents;
        room = c.room;
        events = All-imp (λ e. valid_event-later s (marked t) keys e later) s.pending c.events;
        gone = c.gone;
        counted = c.counted;
        lost = c.lost;
        kept = c.kept;
        receipts = c.receipts;
        receipts_run = c.receipts_run;
        pending_run = c.pending_run;
        acknowledged = All-imp (λ r h. omega (arith, h, after)) s.delivered c.acknowledged;
        before = c.before;
        chain = c.chain;
        marked = refl;
        taken = refl;
        sends = omega arith;
        closed = refl;
      }

  pub failure-IsContract :
      (now : ℕ) (s : State) (f : Option MonitorFailure)
      → IsContract base keys now s
      → IsContract base keys now (record s { monitor_failure = f })
  unfolding valid_event
  failure-IsContract now s f c = record {
    origin = c.origin;
    uuid = c.uuid;
    run = c.run;
    bounded = c.bounded;
    updated = c.updated;
    filed = c.filed;
    incidents = c.incidents;
    room = c.room;
    events = c.events;
    gone = c.gone;
    counted = c.counted;
    lost = c.lost;
    kept = c.kept;
    receipts = c.receipts;
    receipts_run = c.receipts_run;
    pending_run = c.pending_run;
    acknowledged = c.acknowledged;
    before = c.before;
    chain = c.chain;
    marked = c.marked;
    taken = c.taken;
    sends = c.sends;
    closed = c.closed;
  }
