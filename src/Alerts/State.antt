-- ===== src/Alerts/State.antt =====
-- The state of the incident monitor and its validation: `validateState` of
-- scripts/match-freshness-monitor.mjs. An id is its epoch and its number; an instant is a number of
-- milliseconds; the size of the state's text and the order of texts are arguments.
use Prim.Native.String
use score_arc.Prelude.{
  is_nil, ℕ, suc, ◌+◌, ◌-◌, min, String, Bool, true, false, not, ◌&&◌, ◌||◌, Option, none, some,
  List, [], ◌∷◌, ◌++◌, map, length, all, any, has, ltb, leb, ◌==◌, if◌then◌else◌, str_eq,
}
use score_arc.Prelude.Sort.{Collation, sort}
use score_arc.Alerts.Run.{Run, max_safe, is_uuid, valid_run}
use score_arc.Alerts.Observed.{
  Observation, is_count, valid_observation, healthy_observation, same, is_none, is_distinct,
}

pub record EventId : Type 0 where
  pub epoch : String
  pub number : ℕ

pub data EventStatus : Type 0 where
  open_incident resolved : EventStatus

pub record Event : Type 0 where
  pub id : EventId
  pub incident_id : EventId
  pub scope : String
  pub status : EventStatus
  pub occurred_at : ℕ
  -- The run of `runUrl`.
  pub run : ℕ
  pub count : Option ℕ
  pub observation : Observation
  pub attempts : ℕ
  pub next_attempt_at : ℕ

pub record Receipt : Type 0 where
  pub id : EventId
  pub acknowledged_at : ℕ

pub data Phase : Type 0 where
  pending_phase final_phase : Phase

pub data MonitorFailure : Type 0 where
  queue_full delivery_exhausted delivery_pending delivery_failed : MonitorFailure

abbrev pub Incidents : Type 0
Incidents = List (String × Option EventId)

pub record State : Type 0 where
  pub origin : String
  pub epoch : String
  pub run : Run
  pub sequence : ℕ
  pub updated_at : ℕ
  pub phase : Phase
  pub incidents : Incidents
  pub pending : List Event
  pub delivered : List Receipt
  pub reserved : List EventId
  pub data_incident : Bool
  pub monitor_failure : Option MonitorFailure

abbrev pub max_pending : ℕ
max_pending = 128

abbrev pub max_sends : ℕ
max_sends = 10

abbrev pub max_attempts : ℕ
max_attempts = 20

abbrev pub max_receipts : ℕ
max_receipts = 32

-- Six hours.
abbrev pub max_delay : ℕ
max_delay = 21600000

abbrev pub id_eq : EventId → EventId → Bool
id_eq a b = str_eq a.epoch b.epoch && (a.number == b.number)

abbrev pub is_resolved : EventStatus → Bool
is_resolved open_incident = false
is_resolved resolved = true

-- `eventPattern`, the epoch of the state and its sequence.
abbrev pub in_epoch : State → EventId → Bool
in_epoch s id = leb 1 id.number && str_eq id.epoch s.epoch && leb id.number s.sequence

unfoldable pub valid_event : State → List String → Event → Bool
valid_event s keys e =
    in_epoch s e.id
    && in_epoch s e.incident_id
    && leb e.incident_id.number e.id.number
    && has e.scope keys
    && (is_resolved e.status || id_eq e.incident_id e.id)
    && leb e.occurred_at s.updated_at
    && leb 1 e.run
    && is_count e.count
    && valid_observation e.observation e.count
    && same (is_resolved e.status) (healthy_observation e.observation)
    && leb e.attempts max_attempts
    && leb e.next_attempt_at (s.updated_at + max_delay)

-- The checks of one list: `pending` and `delivered` ascend by number.
abbrev pub ascends : List ℕ → Bool
ascends [] = true
ascends (n ∷ []) = true
ascends (n ∷ m ∷ ns) = ltb n m && ascends (m ∷ ns)

abbrev pub has_id : EventId → List EventId → Bool
has_id id [] = false
has_id id (x ∷ xs) = id_eq x id || has_id id xs

-- As many members in the set as in the list.
abbrev pub all_distinct : List EventId → Bool
all_distinct [] = true
all_distinct (id ∷ ids) = not (has_id id ids) && all_distinct ids

-- `${state.epoch}:${k + index + 1}`.
abbrev pub continues : String → ℕ → List EventId → Bool
continues epoch k [] = true
continues epoch k (id ∷ ids) =
    id_eq id (record { epoch = epoch; number = suc k }) && continues epoch (suc k) ids

-- Each reserved id is that of the event at its place, which was attempted.
abbrev pub is_reserved : List EventId → List Event → Bool
is_reserved [] events = true
is_reserved (id ∷ ids) [] = false
is_reserved (id ∷ ids) (e ∷ events) = id_eq id e.id && ltb 0 e.attempts && is_reserved ids events

abbrev pub lookup {ℓ} : {A : Type ℓ} → String → List (String × A) → Option A
lookup k [] = none
lookup k (entry ∷ entries) = if str_eq entry.0 k then some entry.1 else lookup k entries

-- A write to an object or a map.
abbrev pub put {ℓ} : {A : Type ℓ} → String → A → List (String × A) → List (String × A)
put k a [] = (k, a) ∷ []
put k a (entry ∷ entries) =
    if str_eq entry.0 k then (entry.0, a) ∷ entries else entry ∷ put k a entries

-- The order of one event after the previous one of its scope.
abbrev pub follows : Option Event → Event → Bool
follows none e = true
follows (some p) e =
    not (same (is_resolved p.status) (is_resolved e.status))
    && (not (is_resolved e.status) || id_eq e.incident_id p.incident_id)

abbrev pub in_order : Option Event → Event → Bool
in_order p e = (not (is_resolved e.status) || ltb e.incident_id.number e.id.number) && follows p e

abbrev pub is_same_incident : Option (Option EventId) → Event → Bool
is_same_incident none e = false
is_same_incident (some none) e = is_resolved e.status
is_same_incident (some (some id)) e = not (is_resolved e.status) && id_eq id e.incident_id

-- The walk over the events with the last one of each scope.
unfoldable pub in_sequence : List (String × Event) → List Event → Incidents → Bool
in_sequence last [] incidents = all (λ l. is_same_incident (lookup l.0 incidents) l.1) last
in_sequence last (e ∷ events) incidents =
    in_order (lookup e.scope last) e && in_sequence (put e.scope e last) events incidents

-- `join()` of sorted keys.
abbrev pub join_comma : List String → String
join_comma [] = ""
join_comma (k ∷ []) = k
join_comma (k ∷ l ∷ ks) = String.◌++◌ k (String.◌++◌ "," (join_comma (l ∷ ks)))

abbrev pub is_open : String × Option EventId → Bool
is_open entry = not (is_none entry.1)

abbrev pub open_in_epoch : State → Option EventId → Bool
open_in_epoch s none = true
open_in_epoch s (some id) = in_epoch s id

abbrev pub is_final : Phase → Bool
is_final pending_phase = false
is_final final_phase = true

-- The base, the keys of the scopes, and the clock.
pub record Config : Type 0 where
  pub order : Collation
  pub size_of : State → ℕ
  pub base : String
  pub scopes : List String
  pub now : ℕ

unfoldable pub keys_of : Config → List String
keys_of o = sort o.order.compare_text o.scopes

-- The checks of `config`.
unfoldable pub valid_config : Config → Run → Bool
valid_config o run =
    valid_run run && leb 1 (length o.scopes) && leb (length o.scopes) 32 && is_distinct o.scopes

abbrev pub holds : List Bool → Bool
holds checks = all (λ b. b) checks

-- The checks of a state but for the size of its text, in the order of the code.
abbrev pub contract_checks : Config → State → List Bool
contract_checks o s =
    str_eq s.origin o.base
    ∷ is_uuid s.epoch
    ∷ leb s.sequence max_safe
    ∷ leb s.updated_at o.now
    ∷ str_eq (join_comma (sort o.order.compare_text (map (λ i. i.0) s.incidents)))
        (join_comma (keys_of o))
    ∷ all (λ i. open_in_epoch s i.1) s.incidents
    ∷ leb (length s.pending) max_pending
    ∷ all (valid_event s (keys_of o)) s.pending
    ∷ ascends (map (λ e. e.id.number) s.pending)
    ∷ leb (length s.delivered) max_receipts
    ∷ all (λ r. in_epoch s r.id && leb r.acknowledged_at o.now) s.delivered
    ∷ leb (length s.reserved) max_sends
    ∷ is_reserved s.reserved s.pending
    ∷ all_distinct (map (λ e. e.id) s.pending ++ map (λ r. r.id) s.delivered)
    ∷ same s.data_incident (any is_open s.incidents)
    ∷ leb (length s.pending) s.sequence
    ∷ (length s.delivered == min max_receipts (s.sequence - length s.pending))
    ∷ continues s.epoch (s.sequence - length s.pending - length s.delivered)
        (map (λ r. r.id) s.delivered)
    ∷ continues s.epoch (s.sequence - length s.pending) (map (λ e. e.id) s.pending)
    ∷ valid_run s.run
    ∷ in_sequence [] s.pending s.incidents
    ∷ (not (is_final s.phase) || is_nil s.reserved)
    ∷ ascends (map (λ r. r.id.number) s.delivered)
    ∷ []

unfoldable pub valid_contract : Config → State → Bool
valid_contract o s = holds (contract_checks o s)

abbrev pub max_state : ℕ
max_state = 262144

unfoldable pub valid_state : Config → State → Bool
valid_state o s = valid_contract o s && leb (o.size_of s) max_state
