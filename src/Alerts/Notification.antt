-- ===== src/Alerts/Notification.antt =====
-- What the monitor sends to the receiver: `notification` and the request of `deliverMonitor` in
-- scripts/match-freshness-monitor.mjs. The decimal text of a number and the text of an instant are
-- arguments.
use Prim.Native.Char.{code}
use score_arc.Prelude.{ℕ, String, true, Option, none, some, ◌==◌, if◌then◌else◌}
use score_arc.Sources.Freshness.{FreshnessStatus, PollStatus}
use score_arc.Alerts.Observed.{
  ErrorCategory, http, content_type, response_size, body, json, body_contract, counts_contract,
  headers_contract, request, timeout,
}
use score_arc.Alerts.State.{EventId, EventStatus, open_incident, resolved, Event}
use score_arc.Alerts.Payload.{AlertEvent}
use score_arc.Alerts.Receiver.{Env, Request, parsed}

pub record Texts : Type 0 where
  pub decimal : ℕ → String
  pub iso : ℕ → String

abbrev pub append : String → String → String
append String.[] t = t
append (String.◌∷◌ c s) t = String.◌∷◌ c (append s t)

-- `split('/')`: the first part, and the second.
abbrev pub first_part : String → String
first_part String.[] = String.[]
first_part (String.◌∷◌ c s) =
    let rest = first_part s in if code c == 47 then String.[] else String.◌∷◌ c rest

abbrev pub second_part : String → String
second_part String.[] = String.[]
second_part (String.◌∷◌ c s) =
    let rest = second_part s in if code c == 47 then first_part s else rest

abbrev pub status_text : EventStatus → String
status_text open_incident = "OPEN"
status_text resolved = "RESOLVED"

abbrev pub freshness_text : FreshnessStatus → String
freshness_text FreshnessStatus.fresh = "fresh"
freshness_text FreshnessStatus.empty = "empty"
freshness_text FreshnessStatus.dormant = "dormant"
freshness_text FreshnessStatus.stale = "stale"
freshness_text FreshnessStatus.unavailable = "unavailable"

abbrev pub poll_text : PollStatus → String
poll_text PollStatus.ok = "ok"
poll_text PollStatus.partial = "partial"
poll_text PollStatus.failed = "failed"
poll_text PollStatus.unknown = "unknown"

abbrev pub error_text : Texts → ErrorCategory → String
error_text w (http n) = append "http-" (w.decimal n)
error_text w content_type = "content-type"
error_text w response_size = "response-size"
error_text w body = "body"
error_text w json = "json"
error_text w body_contract = "body-contract"
error_text w counts_contract = "counts-contract"
error_text w headers_contract = "headers-contract"
error_text w request = "request"
error_text w timeout = "timeout"

abbrev pub map_option {ℓ κ} : {A : Type ℓ} {B : Type κ} → (A → B) → Option A → Option B
map_option f none = none
map_option f (some a) = some (f a)

abbrev pub id_text : Texts → EventId → String
id_text w id = append id.epoch (append ":" (w.decimal id.number))

unfoldable pub notification : Texts → Event → AlertEvent
notification w e = record {
  competition = first_part e.scope;
  count = e.count;
  error = map_option (error_text w) e.observation.error;
  event_id = id_text w e.id;
  freshness = map_option freshness_text e.observation.freshness;
  incident_id = id_text w e.incident_id;
  occurred_at = w.iso e.occurred_at;
  overdue = e.observation.overdue;
  poll = map_option poll_text e.observation.poll;
  run_url = append "https://github.com/mcasillas17/ScoreArc/actions/runs/" (w.decimal e.run);
  season = second_part e.scope;
  stale = e.observation.stale;
  status = status_text e.status;
}

-- The POST of an event, to a receiver's URL with its token.
abbrev pub post_of : Texts → Env → Event → Request
post_of w env e = record {
  token = some env.receiver_token;
  is_post = true;
  is_json = true;
  body = parsed (notification w e);
  idempotency_key = some (id_text w e.id);
}
