-- ===== src/Alerts/Monitor/Delivering.antt =====
-- `deliverMonitor` keeps the contract and takes events from the head of the queue alone.
use mathlib.Core.List.{map-append}
use score_arc.Prelude.{
  ℕ, zero, suc, ◌+◌, ◌-◌, ◌≤◌, String, Bool, true, false, some, List, [], ◌∷◌, ◌++◌, map, length,
  length-map, length-append, drop, All, All-append, ◌≡◌, ◌⊎◌, refl, ap, ◌∙◌, subst, arith, eq_iff,
  Bool-cases, inl, inr,
}
use score_arc.Alerts.State.{
  EventId, Event, Receipt, State, id_eq, continues, is_reserved, delivery_failed, max_receipts,
  valid_event,
}
use score_arc.Alerts.Delivery.{acknowledged, deliver}
use score_arc.Alerts.Monitor.{observed}
use score_arc.Alerts.Monitor.Ids.{continues-append, continues-cons}
use score_arc.Alerts.Monitor.Contract.{IsContract, IsChain, incidents_of, reopened}
use score_arc.Alerts.Monitor.Preparing.{failure-IsContract}

module _ {ℓ} {A : Type ℓ} where
  length-drop : (n : ℕ) (xs : List A) → length (drop n xs) ≡ length xs - n
  length-drop zero xs = omega arith
  length-drop (suc n) [] = omega arith
  length-drop (suc n) (x ∷ xs) = omega (arith, length-drop n xs)

  map-drop {κ} :
      {B : Type κ} (f : A → B) (n : ℕ) (xs : List A) → map f (drop n xs) ≡ drop n (map f xs)
  map-drop f zero xs = refl
  map-drop f (suc n) [] = refl
  map-drop f (suc n) (x ∷ xs) = map-drop f n xs

  All-drop {κ} : (P : A → Type κ) (n : ℕ) (xs : List A) → All P xs → All P (drop n xs)
  All-drop P zero xs h = h
  All-drop P (suc n) [] h = tt
  All-drop P (suc n) (x ∷ xs) h = All-drop P n xs h.1

continues-drop :
    (epoch : String) (k n : ℕ) (ids : List EventId)
    → continues epoch k ids ≡ true
    → n ≤ length ids
    → continues epoch (k + n) (drop n ids) ≡ true
continues-drop epoch k zero ids h b = subst (λ m. continues epoch m ids ≡ true) (omega arith) h
continues-drop epoch k (suc n) [] h b = absurd (omega arith)
continues-drop epoch k (suc n) (x ∷ ids) h b =
    let (same, next, rest) = continues-cons epoch k x ids h in
    subst (λ m. continues epoch m (drop n ids) ≡ true) (omega arith)
      (continues-drop epoch (suc k) n ids rest (omega arith))

id_ext :
    (id : EventId) (epoch : String) (n : ℕ)
    → id.epoch ≡ epoch
    → id.number ≡ n
    → id ≡ record { epoch = epoch; number = n }
id_ext id epoch n e f = cc

-- The state with no reservation.
abbrev pub free : State → State
free s = record s { reserved = [] }

module _ (base : String) (keys : List String) (now : ℕ) where
  acknowledged-IsContract :
      (s : State) (e : Event) (events : List Event)
      → s.pending ≡ e ∷ events
      → IsContract base keys now (free s)
      → IsContract base keys now (free (acknowledged now s e events))
  unfolding valid_event
  acknowledged-IsContract s e events h c =
      let ids = map (λ (r : Receipt). r.id) s.delivered in
      let more = s.delivered ++ record { id = e.id; acknowledged_at = now } ∷ [] in
      let n = length more - max_receipts in
      let size : length more ≡ suc (length s.delivered) =
        omega
          (arith, length-append s.delivered (record { id = e.id; acknowledged_at = now } ∷ [])) in
      let (same, next, rest) = continues-cons s.epoch c.gone e.id (map (λ e. e.id) events) (
        subst (λ es. continues s.epoch c.gone (map (λ (e : Event). e.id) es) ≡ true) h
          c.pending_run) in
      let id : e.id ≡ record { epoch = s.epoch; number = suc (c.lost + length ids) } =
        id_ext e.id s.epoch (suc (c.lost + length ids)) same
          (omega (arith, next, c.kept, length-map (λ (r : Receipt). r.id) s.delivered)) in
      let run : continues s.epoch c.lost (map (λ r. r.id) more) ≡ true =
        rw (map-append, id) (continues-append s.epoch c.lost ids c.receipts_run) in
      record {
        origin = c.origin;
        uuid = c.uuid;
        run = c.run;
        bounded = c.bounded;
        updated = c.updated;
        filed = c.filed;
        incidents = c.incidents;
        room = omega (arith, c.room, ap (λ (es : List Event). length es) h);
        events = (subst (λ es. All (λ e. valid_event s keys e ≡ true) es) h c.events).1;
        gone = suc c.gone;
        counted = omega (arith, c.counted, ap (λ (es : List Event). length es) h);
        lost = c.lost + n;
        kept = omega (arith, c.kept, c.receipts, size, length-drop n more);
        receipts = omega (arith, c.kept, c.receipts, size, length-drop n more);
        receipts_run = rw (map-drop (λ (r : Receipt). r.id) n more) (
            continues-drop s.epoch c.lost n (map (λ r. r.id) more) run
              (omega (arith, length-map (λ (r : Receipt). r.id) more)));
        pending_run = rest;
        acknowledged =
            All-drop _ n more (All-append _ s.delivered _ c.acknowledged (omega arith, tt));
        before = reopened c.before e;
        chain = (subst (λ es. IsChain c.before es (incidents_of s.incidents)) h c.chain).1;
        marked = c.marked;
        taken = refl;
        sends = omega arith;
        closed = c.closed;
      }

-- What a delivery takes from the queue: acknowledged events from its head, one for each id, or up to
-- the first that is not acknowledged.
pub record IsSent (acknowledges : Event → Bool) (n : ℕ) (s t : State) : Type 0 where
  pub sent : List Event
  pub split : s.pending ≡ sent ++ t.pending
  pub acked : All (λ e. acknowledges e ≡ true) sent
  pub bound : length sent ≤ n
  pub stop :
      (length sent ≡ n)
      ⊎ ((e : Event) × (rest : List Event) × (t.pending ≡ e ∷ rest) × (acknowledges e ≡ false))

module _ (base : String) (keys : List String) (now : ℕ) (acknowledges : Event → Bool) where
  pub deliver-IsSent :
      (ids : List EventId) (s : State) (events : List Event)
      → s.pending ≡ events
      → IsContract base keys now (free s)
      → is_reserved ids events ≡ true
      → (t : State) × (deliver acknowledges now ids s ≡ observed t)
        × IsContract base keys now (free t)
        × IsSent acknowledges (length ids) s t
  unfolding deliver
  deliver-IsSent [] s events h c r = (
    s,
    refl,
    c,
    record { sent = []; split = refl; acked = tt; bound = omega arith; stop = inl refl },
  )
  deliver-IsSent (id ∷ ids) s [] h c r = cc
  deliver-IsSent (id ∷ ids) s (e ∷ events) h c r =
      let same : id_eq e.id id ≡ true =
        ground (arith, eq_iff e.id.epoch id.epoch, eq_iff id.epoch e.id.epoch) in
      let u = acknowledged now s e events in
      elim (Bool-cases (acknowledges e)) [
        | inl a ↦
            let (t, d, k, sent) =
              deliver-IsSent ids u events refl
                (acknowledged-IsContract base keys now s e events h c) (ground arith) in
            (
              t,
              rw (h, same, a) d,
              k,
              record {
                sent = e ∷ sent.sent;
                split = h ∙ ap (λ es. e ∷ es) sent.split;
                acked = (a, sent.acked);
                bound = omega (arith, sent.bound);
                stop = elim sent.stop [ inl full ↦ inl (ap suc full) | inr b ↦ inr b ];
              },
            )
        | inr a ↦ (
          record s { monitor_failure = some delivery_failed },
          rw (h, same, a) refl,
          failure-IsContract base keys now (free s) (some delivery_failed) c,
          record {
            sent = [];
            split = refl;
            acked = tt;
            bound = omega arith;
            stop = inr (e, events, h, a);
          },
        )
      ]
