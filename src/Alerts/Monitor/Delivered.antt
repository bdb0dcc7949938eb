-- ===== src/Alerts/Monitor/Delivered.antt =====
-- A run of `deliverMonitor` on a state that keeps the contract, and histories of runs.
use score_arc.Prelude.{
  ℕ, zero, suc, ◌≤◌, ◌<◌, min, String, Bool, true, false, List, [], ◌∷◌, length, All, All-imp, leb,
  ltb, if◌then◌else◌, ◌≡◌, refl, arith, le→leb,
}
use score_arc.Alerts.Run.{Run, equal_run}
use score_arc.Alerts.State.{
  Event, State, Config, valid_config, keys_of, valid_state, max_state, is_final, max_attempts,
  valid_event,
}
use score_arc.Alerts.Delivery.{delivered_state, finished, deliver_monitor}
use score_arc.Alerts.Monitor.{observed, held, saved, failed, refused_state, save, reserve}
use score_arc.Alerts.Monitor.Contract.{IsContract}
use score_arc.Alerts.Monitor.Passes.{IsContract-valid}
use score_arc.Alerts.Monitor.Delivering.{IsSent, free, deliver-IsSent}

finished-IsContract :
    (base : String) (keys : List String) (now : ℕ) (s : State)
    → IsContract base keys now (free s)
    → IsContract base keys now (finished s)
unfolding valid_event
finished-IsContract base keys now s c = record {
  origin = c.origin;
  uuid = c.uuid;
  run = c.run;
  bounded = c.bounded;
  updated = c.updated;
  filed = c.filed;
  incidents = c.incidents;
  room = c.room;
  events = c.events;
  gone = c.gone;
  counted = c.counted;
  lost = c.lost;
  kept = c.kept;
  receipts = c.receipts;
  receipts_run = c.receipts_run;
  pending_run = c.pending_run;
  acknowledged = c.acknowledged;
  before = c.before;
  chain = c.chain;
  marked = c.marked;
  taken = refl;
  sends = omega arith;
  closed = refl;
}

-- The contract of a state without its reservation, at a later clock.
freed-IsContract :
    (base : String) (keys : List String) (clock now : ℕ) (s : State)
    → clock ≤ now
    → IsContract base keys clock s
    → IsContract base keys now (free s)
unfolding valid_event
freed-IsContract base keys clock now s after c = record {
  origin = c.origin;
  uuid = c.uuid;
  run = c.run;
  bounded = c.bounded;
  updated = omega (arith, c.updated, after);
  filed = c.filed;
  incidents = c.incidents;
  room = c.room;
  events = c.events;
  gone = c.gone;
  counted = c.counted;
  lost = c.lost;
  kept = c.kept;
  receipts = c.receipts;
  receipts_run = c.receipts_run;
  pending_run = c.pending_run;
  acknowledged = All-imp (λ r h. omega (arith, h, after)) s.delivered c.acknowledged;
  before = c.before;
  chain = c.chain;
  marked = c.marked;
  taken = refl;
  sends = omega arith;
  closed = ground arith;
}

module _ (base : String) (keys : List String) (clock now : ℕ) (s : State)
    (c : IsContract base keys clock s) (after : clock ≤ now) (acknowledges : Event → Bool) where
  pub delivered_state-IsSent :
      (t : State) × (delivered_state acknowledges now s ≡ observed t)
      × IsContract base keys now t
      × IsSent acknowledges (length s.reserved) s t
  unfolding delivered_state
  delivered_state-IsSent =
      let (t, d, k, sent) =
        deliver-IsSent base keys now acknowledges s.reserved s s.pending refl
          (freed-IsContract base keys clock now s after c) c.taken in
      (
        finished t,
        rw d refl,
        finished-IsContract base keys now t k,
        record {
          sent = sent.sent;
          split = sent.split;
          acked = sent.acked;
          bound = sent.bound;
          stop = sent.stop;
        },
      )

-- A delivery on a state that keeps the contract saves a state that keeps it, unless its text is too
-- long. It takes from the head of the queue the events that were acknowledged, up to the first that
-- is not, and no other; and where all are acknowledged, each event that was reserved.
pub deliver_monitor-IsSent :
    (o : Config) (run : Run) (acknowledges : Event → Bool) (clock : ℕ) (s : State)
    → IsContract o.base (keys_of o) clock s
    → clock ≤ o.now
    → valid_config o run ≡ true
    → o.size_of s ≤ max_state
    → equal_run s.run run ≡ true
    → is_final s.phase ≡ false
    → (t : State) × IsContract o.base (keys_of o) o.now t
      × IsSent acknowledges (length s.reserved) s t
      × (deliver_monitor o acknowledges run (held s)
          ≡ (if leb (o.size_of t) max_state then saved t else failed refused_state))
unfolding deliver_monitor save valid_state
deliver_monitor-IsSent o run acknowledges clock s c after valid size same phase =
    let (t, d, k, sent) =
      delivered_state-IsSent o.base (keys_of o) clock o.now s c after acknowledges in
    (
      t,
      k,
      sent,
      rw
          (
            valid,
            IsContract-valid o clock s c after,
            le→leb _ _ size,
            same,
            phase,
            d,
            IsContract-valid o o.now t k (omega arith),
          )
          refl,
    )

-- An event that is due and not exhausted.
abbrev pub IsDue : ℕ → Event → Type 0
IsDue now e = (e.attempts < max_attempts) × (e.next_attempt_at ≤ now)

pub reserve-due :
    (n now : ℕ) (events : List Event)
    → All (IsDue now) events
    → (length (reserve n now events).ids ≡ min n (length events))
      × (length (reserve n now events).events ≡ length events)
unfolding reserve
reserve-due zero now events h = (omega arith, refl)
reserve-due (suc n) now [] h = (omega arith, refl)
reserve-due (suc n) now (e ∷ events) h =
    let (ids, size) = reserve-due n now events h.1 in
    let fresh : leb max_attempts e.attempts ≡ false = ground arith in
    let due : ltb now e.next_attempt_at ≡ false = ground arith in
    rw (fresh, due) (omega (arith, ids), omega (arith, size))
