-- ===== src/Alerts/Monitor.antt =====
-- The incident monitor: `prepareMonitor` of scripts/match-freshness-monitor.mjs. The epoch of a new
-- history is an argument.
pub mod Ids
pub mod Contract
pub mod Passes
pub mod Observing
pub mod Turns
pub mod Preparing
pub mod Prepared
pub mod Delivering
pub mod Delivered
pub mod Histories
use Prim.Native.String
use score_arc.Prelude.{
  is_nil, ℕ, zero, suc, ◌+◌, ◌-◌, ◌*◌, ◌^◌, min, String, Bool, true, false, not, ◌&&◌, ◌||◌, Option,
  none, some, List, [], ◌∷◌, ◌++◌, map, length, take, drop, all, any, has, ltb, leb, ◌==◌,
  if◌then◌else◌, str_eq,
}
use score_arc.Prelude.Sort.{Collation, sort}
use score_arc.Alerts.Run.{Run, max_safe, is_positive, is_uuid, valid_run, equal_run}
use score_arc.Alerts.Observed.{
  Observation, CheckResult, is_count, valid_observation, healthy_observation, valid_result, same,
  is_none, is_distinct,
}
use score_arc.Alerts.State.{
  Config, Event, EventId, EventStatus, Incidents, MonitorFailure, Phase, Receipt, State,
  all_distinct, ascends, continues, contract_checks, delivery_exhausted, delivery_failed,
  delivery_pending, final_phase, follows, has_id, holds, id_eq, in_epoch, in_order, in_sequence,
  is_final, is_open, is_reserved, is_resolved, is_same_incident, join_comma, keys_of, lookup,
  max_attempts, max_delay, max_pending, max_receipts, max_sends, max_state, open_in_epoch,
  open_incident, pending_phase, put, queue_full, resolved, valid_config, valid_contract,
  valid_event, valid_state,
}

pub data Problem : Type 0 where
  already_exists corrupt wrong_provenance wrong_order : Problem
  invalid_config invalid_result sequence_exhausted refused_state out_of_order : Problem

pub data Outcome : Type 0 where
  failed : Problem → Outcome
  saved : State → Outcome

pub data Result : Type 0 where
  stopped : Problem → Result
  observed : State → Result

-- A new history.
abbrev pub initial : Config → String → Run → State
initial o epoch run = record {
  origin = o.base;
  epoch = epoch;
  run = run;
  sequence = 0;
  updated_at = o.now;
  phase = pending_phase;
  incidents = map (λ k. (k, none)) (keys_of o);
  pending = [];
  delivered = [];
  reserved = [];
  data_incident = false;
  monitor_failure = none;
}

abbrev pub started : Config → Run → State → State
started o run s = record s {
  run = run;
  updated_at = o.now;
  phase = pending_phase;
  reserved = [];
  monitor_failure = none;
}

abbrev pub flat {ℓ} : {A : Type ℓ} → Option (Option A) → Option A
flat none = none
flat (some a) = a

-- `state.incidents[key]`.
abbrev pub incident_of : State → String → Option EventId
incident_of s key = flat (lookup key s.incidents)

abbrev pub next_id : State → EventId
next_id s = record { epoch = s.epoch; number = suc s.sequence }

abbrev pub new_event : State → String → CheckResult → EventStatus → EventId → Event
new_event s key r status incident = record {
  id = next_id s;
  incident_id = incident;
  scope = key;
  status = status;
  occurred_at = s.updated_at;
  run = s.run.id;
  count = r.count;
  observation = r.observation;
  attempts = 0;
  next_attempt_at = s.updated_at;
}

abbrev pub record_event : State → String → Event → Option EventId → State
record_event s key e incident = record s {
  sequence = suc s.sequence;
  pending = s.pending ++ e ∷ [];
  incidents = put key incident s.incidents;
}

-- `!result.ok !== Boolean(incident)`: the health of a scope turned.
abbrev pub turned : Bool → State → String → CheckResult → Option EventId → State
turned true s key r (some incident) = record_event s key (new_event s key r resolved incident) none
turned false s key r none =
    record_event s key (new_event s key r open_incident (next_id s)) (some (next_id s))
turned _ s key r _ = s

abbrev pub has_turned : Bool → Option EventId → Bool
has_turned ok incident = same ok (not (is_none incident))

unfoldable pub observe_scope : State → String → CheckResult → Result
observe_scope s key r =
    if not (valid_result r)
    then stopped invalid_result
    else if not (has_turned r.ok (incident_of s key))
    then observed s
    else if leb max_safe s.sequence
    then stopped sequence_exhausted
    else observed (turned r.ok s key r (incident_of s key))

-- What the check answers for each scope, in the order of the scopes.
abbrev pub Checks : Type 0
Checks = List (String × CheckResult)

abbrev pub then_observe : (State → Result) → Result → Result
then_observe next (stopped p) = stopped p
then_observe next (observed s) = next s

unfoldable pub observe : Checks → State → Result
unfolding observe_scope
observe [] s = observed s
observe (c ∷ checks) s = then_observe (observe checks) (observe_scope s c.0 c.1)

-- Capacity for one transition per scope, before anything is observed.
abbrev pub is_full : Config → State → Bool
is_full o s = ltb (max_pending - length (keys_of o)) (length s.pending)

unfoldable pub observe_all : Config → Checks → State → Result
observe_all o checks s =
    if is_full o s
    then observed (record s { monitor_failure = some queue_full })
    else observe checks s

abbrev pub or_failure : Option MonitorFailure → MonitorFailure → Option MonitorFailure
or_failure none f = some f
or_failure (some f) g = some f

abbrev pub noted : State → State
noted s = record s {
  data_incident = any is_open s.incidents;
  monitor_failure =
      if is_nil s.pending then s.monitor_failure else or_failure s.monitor_failure delivery_pending;
}

-- The delay doubles from five minutes up to six hours.
abbrev pub attempted : ℕ → Event → Event
attempted now e = record e {
  attempts = suc e.attempts;
  next_attempt_at = now + min max_delay (300000 * 2 ^ e.attempts);
}

pub record Reservation : Type 0 where
  pub events : List Event
  pub ids : List EventId
  pub exhausted : Bool

abbrev pub reserve_next : ℕ → Event → Reservation → Reservation
reserve_next now e r = record {
  events = attempted now e ∷ r.events;
  ids = e.id ∷ r.ids;
  exhausted = r.exhausted;
}

-- The loop over the first events, up to an event that is exhausted or not due.
unfoldable pub reserve : ℕ → ℕ → List Event → Reservation
reserve zero now events = record { events = events; ids = []; exhausted = false }
reserve (suc n) now [] = record { events = []; ids = []; exhausted = false }
reserve (suc n) now (e ∷ events) =
    let rest = reserve_next now e (reserve n now events) in
    if leb max_attempts e.attempts
    then record { events = e ∷ events; ids = []; exhausted = true }
    else if ltb now e.next_attempt_at
    then record { events = e ∷ events; ids = []; exhausted = false }
    else rest

abbrev pub with_reservation : State → Reservation → State
with_reservation s r = record s {
  pending = r.events;
  reserved = r.ids;
  monitor_failure = if r.exhausted then some delivery_exhausted else s.monitor_failure;
}

unfoldable pub reserved_for : Bool → ℕ → State → State
unfolding reserve
reserved_for false now s = s
reserved_for true now s = with_reservation s (reserve max_sends now s.pending)

-- The state that `prepareMonitor` saves, but for its last check.
unfoldable pub prepared : Config → Bool → Checks → Run → State → Result
unfolding observe_all reserved_for
prepared o delivery checks run s =
    then_observe (λ t. observed (reserved_for delivery o.now (noted t)))
      (observe_all o checks (started o run s))

unfoldable pub save : Config → Result → Outcome
save o (stopped p) = failed p
save o (observed s) = if valid_state o s then saved s else failed refused_state

-- What the state's file holds.
pub data Stored : Type 0 where
  absent unreadable : Stored
  held : State → Stored

abbrev pub restored : Config → Run → Run → State → Result
restored o run restored_run s =
    if not (valid_state o s)
    then stopped corrupt
    else if not (equal_run s.run restored_run)
    then stopped wrong_provenance
    else if leb run.number s.run.number || leb run.id s.run.id
    then stopped wrong_order
    else observed s

-- With `initialize`, the epoch of the new history; else the run that the state is restored from.
pub data Start : Type 0 where
  initialize : String → Start
  restore : Run → Start

abbrev pub loaded : Config → Run → Start → Stored → Result
loaded o run (initialize epoch) absent = observed (initial o epoch run)
loaded o run (initialize epoch) _ = stopped already_exists
loaded o run (restore r) (held s) = restored o run r s
loaded o run (restore r) _ = stopped corrupt

unfoldable pub prepare_monitor : Config → Bool → Checks → Run → Start → Stored → Outcome
unfolding prepared
prepare_monitor o delivery checks run start stored =
    if valid_config o run
    then save o (then_observe (prepared o delivery checks run) (loaded o run start stored))
    else failed invalid_config
