-- ===== src/Alerts/Monitor/Observing.antt =====
-- The checks of the scopes keep the contract.
use mathlib.Core.List.{map-append}
use score_arc.Prelude.{
  ℕ, suc, ◌+◌, ◌≤◌, ◌<◌, String, Bool, true, false, Option, none, some, List, [], ◌∷◌, ◌++◌, map,
  length, length-map, length-append, any, has, All, All-imp, All-append, if◌then◌else◌, str_eq, ◌≡◌,
  refl, sym, ap, ◌∙◌, subst, arith, eq_iff, Bool-cases, inl, inr, some_inj,
}
use score_arc.Alerts.Run.{max_safe, valid_run}
use score_arc.Alerts.Observed.{
  CheckResult, is_count, valid_observation, healthy_observation, valid_result, same,
}
use score_arc.Alerts.State.{
  EventId, Event, State, open_incident, resolved, valid_event, in_epoch, open_in_epoch, is_open,
  continues, is_reserved, lookup, put, max_pending,
}
use score_arc.Alerts.Monitor.{flat, incident_of, next_id, new_event, record_event}
use score_arc.Alerts.Monitor.Ids.{continues-append}
use score_arc.Alerts.Monitor.Contract.{
  Opened, opened_after, reopened, IsTurn, IsChain, incidents_of, IsContract, lookup-put,
}

-- The state with its mark brought up to date, as it is once all scopes are observed.
abbrev pub marked : State → State
marked s = record s { data_incident = any is_open s.incidents }

put-keys {ℓ} :
    {A : Type ℓ} (k : String) (a : A) (m : List (String × A))
    → has k (map (λ i. i.0) m) ≡ true
    → map (λ i. i.0) (put k a m) ≡ map (λ i. i.0) m
put-keys k a [] h = cc
put-keys k a (x ∷ m) h = elim (Bool-cases (str_eq x.0 k)) [
  | inl t ↦ rw t refl
  | inr t ↦ rw t (ap (λ ks. x.0 ∷ ks) (put-keys k a m (rw t at h)))
]

All-put {ℓ κ} :
    {A : Type ℓ} (P : A → Type κ) (k : String) (a : A) (m : List (String × A))
    → P a
    → All (λ i. P i.1) m
    → All (λ i. P i.1) (put k a m)
All-put P k a [] p h = (p, tt)
All-put P k a (x ∷ m) p h = elim (Bool-cases (str_eq x.0 k)) [
  | inl t ↦ rw t (p, h.1)
  | inr t ↦ rw t (h.0, All-put P k a m p h.1)
]

pub All-lookup {ℓ κ} :
    {A : Type ℓ} (P : A → Type κ) (k : String) (m : List (String × A)) {a : A}
    → All (λ i. P i.1) m
    → lookup k m ≡ some a
    → P a
All-lookup P k [] h e = cc
All-lookup P k (x ∷ m) {a} h e = elim (Bool-cases (str_eq x.0 k)) [
  | inl t ↦ subst P (some_inj (sym (rw t refl) ∙ e)) h.0
  | inr t ↦ All-lookup P k m h.1 (rw t at e)
]

is_reserved-append :
    (ids : List EventId) (events more : List Event)
    → is_reserved ids events ≡ true
    → is_reserved ids (events ++ more) ≡ true
is_reserved-append [] events more h = refl
is_reserved-append (id ∷ ids) [] more h = cc
is_reserved-append (id ∷ ids) (e ∷ events) more h =
    ground (arith, is_reserved-append ids events more)

IsChain-append :
    (f g h : Opened) (events : List Event) (e : Event)
    → IsChain f events g
    → IsTurn (g e.scope) e
    → ((k : String) → reopened g e k ≡ h k)
    → IsChain f (events ++ e ∷ []) h
IsChain-append f g h [] e c t same = (
  subst (λ i. IsTurn i e) (sym (c e.scope)) t,
  λ k. ap (λ i. if str_eq e.scope k then opened_after e else i) (c k) ∙ same k,
)
IsChain-append f g h (x ∷ events) e c t same =
    (c.0, IsChain-append (reopened f x) g h events e c.1 t same)

-- A later state of the history.
abbrev pub IsLater : State → State → Type 0
IsLater s t = (t.epoch ≡ s.epoch) × (s.sequence ≤ t.sequence) × (s.updated_at ≤ t.updated_at)

pub valid_event-later :
    (s t : State) (keys : List String) (e : Event)
    → IsLater s t
    → valid_event s keys e ≡ true
    → valid_event t keys e ≡ true
unfolding valid_event
valid_event-later s t keys e l h = ground (
  arith,
  eq_iff e.id.epoch s.epoch,
  eq_iff e.incident_id.epoch s.epoch,
  eq_iff e.id.epoch t.epoch,
  eq_iff e.incident_id.epoch t.epoch,
)

pub open_in_epoch-later :
    (s t : State) (i : Option EventId)
    → IsLater s t
    → open_in_epoch s i ≡ true
    → open_in_epoch t i ≡ true
open_in_epoch-later s t none l h = refl
open_in_epoch-later s t (some i) l h =
    ground (arith, eq_iff i.epoch s.epoch, eq_iff i.epoch t.epoch)

-- What a turn records.
pub record IsRecordable (s : State) (keys : List String) (key : String) (e : Event)
    (incident : Option EventId) : Type 0 where
  pub next : e.id ≡ next_id s
  pub scope : e.scope ≡ key
  pub known : has key keys ≡ true
  pub valid : valid_event (record_event s key e incident) keys e ≡ true
  pub turn : IsTurn (incident_of s key) e
  pub after : opened_after e ≡ incident
  pub opened : open_in_epoch (record_event s key e incident) incident ≡ true

module _ (base : String) (keys : List String) (clock : ℕ) where
  pub record_event-IsContract :
      (s : State) (key : String) (e : Event) (incident : Option EventId)
      → IsContract base keys clock (marked s)
      → IsRecordable s keys key e incident
      → s.sequence < max_safe
      → length s.pending < max_pending
      → IsContract base keys clock (marked (record_event s key e incident))
  unfolding valid_event
  record_event-IsContract s key e incident c r b l =
      let t = record_event s key e incident in
      let later : IsLater s t = (refl, omega arith, omega arith) in
      record {
        origin = c.origin;
        uuid = c.uuid;
        run = c.run;
        bounded = omega (arith, b);
        updated = c.updated;
        filed = put-keys key incident s.incidents (rw c.filed r.known) ∙ c.filed;
        incidents =
            All-put (λ i. open_in_epoch t i ≡ true) key incident s.incidents r.opened
              (All-imp (λ i. open_in_epoch-later s t i.1 later) s.incidents c.incidents);
        room = omega (arith, length-append s.pending (e ∷ []), l);
        events =
            All-append _ s.pending (e ∷ [])
              (All-imp (λ x. valid_event-later s t keys x later) s.pending c.events) (r.valid, tt);
        gone = c.gone;
        counted = omega (arith, c.counted, length-append s.pending (e ∷ []));
        lost = c.lost;
        kept = c.kept;
        receipts = c.receipts;
        receipts_run = c.receipts_run;
        pending_run = pending_run c r.next;
        acknowledged = c.acknowledged;
        before = c.before;
        chain =
            IsChain-append c.before (incidents_of s.incidents) _ s.pending e c.chain
              (subst (λ k. IsTurn (incident_of s k) e) (sym r.scope) r.turn) (λ k. written k);
        marked = refl;
        taken = is_reserved-append s.reserved s.pending (e ∷ []) c.taken;
        sends = c.sends;
        closed = c.closed;
      }
    where
      pending_run :
          (c : IsContract base keys clock (marked s))
          → e.id ≡ next_id s
          → continues s.epoch c.gone (map (λ e. e.id) (s.pending ++ e ∷ [])) ≡ true
      pending_run c next =
          let ids = map (λ (e : Event). e.id) s.pending in
          let same : e.id ≡ record { epoch = s.epoch; number = suc (c.gone + length ids) } =
            next
            ∙ ap (λ n. record { epoch = s.epoch; number = suc n })
                (omega (arith, c.counted, length-map (λ (e : Event). e.id) s.pending)) in
          rw (map-append, same) (continues-append s.epoch c.gone ids c.pending_run)

      written :
          (k : String)
          → reopened (incidents_of s.incidents) e k ≡ incidents_of (put key incident s.incidents) k
      written k =
          rw (r.scope, r.after)
            (branch (str_eq key k) ∙ ap flat (sym (lookup-put key k incident s.incidents)))
        where
          branch :
              (b : Bool)
              → (if b then incident else flat (lookup k s.incidents))
                ≡ flat (if b then some incident else lookup k s.incidents)
          branch true = refl
          branch false = refl

result_facts :
    (r : CheckResult)
    → valid_result r ≡ true
    → (is_count r.count ≡ true)
      × (valid_observation r.observation r.count ≡ true)
      × (r.ok ≡ healthy_observation r.observation)
unfolding valid_result
result_facts r h = ground arith

module _ (keys : List String) (s : State) (key : String) (r : CheckResult)
    (known : has key keys ≡ true) (valid : valid_result r ≡ true)
    (running : valid_run s.run ≡ true) where
  run_positive : 1 ≤ s.run.id
  unfolding valid_run
  run_positive = ground arith

  -- A healthy scope resolves the incident that it has open.
  pub resolve-IsRecordable :
      (i : EventId)
      → r.ok ≡ true
      → incident_of s key ≡ some i
      → in_epoch s i ≡ true
      → IsRecordable s keys key (new_event s key r resolved i) none
  unfolding valid_event
  resolve-IsRecordable i ok e in_it =
      let f = result_facts r valid in
      let first = run_positive in
      record {
        next = refl;
        scope = refl;
        known = known;
        valid = ground (arith, f, first, eq_iff s.epoch s.epoch);
        turn = rw e (refl, refl, ground arith);
        after = refl;
        opened = refl;
      }

  pub open-IsRecordable :
      r.ok ≡ false
      → incident_of s key ≡ none
      → IsRecordable s keys key (new_event s key r open_incident (next_id s)) (some (next_id s))
  unfolding valid_event
  open-IsRecordable ok e =
      let f = result_facts r valid in
      let first = run_positive in
      record {
        next = refl;
        scope = refl;
        known = known;
        valid = ground (arith, f, first, eq_iff s.epoch s.epoch);
        turn = rw e (refl, refl);
        after = refl;
        opened = ground (arith, eq_iff s.epoch s.epoch);
      }
