-- ===== src/Alerts/Receiver.antt =====
-- The alert receiver: infra/alert-receiver/worker.ts. The token's comparison by digests is equality;
-- the payload is the event itself, whose fields it lists in a fixed order; which steps of a request
-- fail, and the clock at its insertion and its end, are arguments.
pub mod Kept
pub mod Marked
pub mod Settled
pub mod Repeated
mod Tests
use score_arc.Prelude.{
  is_some, ℕ, suc, ◌+◌, ◌-◌, String, Bool, true, false, not, ◌&&◌, ◌||◌, Option, none, some, List,
  [], ◌∷◌, ◌++◌, length, filter, all, ltb, leb, ◌==◌, if◌then◌else◌, str_eq, has,
}
use score_arc.Alerts.Pattern.{is_event_id, is_slug, is_instant, is_run_url, is_http_error}
use score_arc.Alerts.Payload.{
  AlertEvent, count_or_null, error_or_null, is_event, one_of_or_null, payload_checks, same_count,
  same_payload, same_text,
}

-- A row of `alert_event`.
pub record AlertRow : Type 0 where
  pub event_id : String
  pub payload : AlertEvent
  pub accepted_at : ℕ
  pub emailed_at : Option ℕ

-- The table, and the messages that `EMAIL.send` accepted, the last first.
pub record Mailroom : Type 0 where
  pub table : List AlertRow
  pub sent : List AlertEvent

pub record Env : Type 0 where
  pub receiver_token : String
  -- `RECEIVER_TOKEN.length`.
  pub token_length : ℕ
  pub alert_recipient : String

pub data RequestBody : Type 0 where
  too_large not_json not_event : RequestBody
  parsed : AlertEvent → RequestBody

pub record Request : Type 0 where
  -- What follows `/events/` in the path.
  pub token : Option String
  pub is_post : Bool
  pub is_json : Bool
  pub body : RequestBody
  pub idempotency_key : Option String

-- Which calls of the database and of the mail service fail.
pub record Faults : Type 0 where
  pub select : Bool
  pub insert : Bool
  pub select_again : Bool
  pub send : Bool
  pub update : Bool

pub data Response : Type 0 where
  status : ℕ → Response
  acknowledged : String → Response

pub record Handled : Type 0 where
  pub response : Response
  pub mailroom : Mailroom

abbrev pub max_events_per_day : ℕ
max_events_per_day = 300

abbrev pub day : ℕ
day = 86400000

abbrev pub select_row : String → List AlertRow → Option AlertRow
select_row id [] = none
select_row id (r ∷ rows) = if str_eq r.event_id id then some r else select_row id rows

-- `COUNT(*) … WHERE accepted_at > ?`.
abbrev pub accepted_since : ℕ → List AlertRow → ℕ
accepted_since since rows = length (filter (λ r. ltb since r.accepted_at) rows)

-- `INSERT OR IGNORE … SELECT … WHERE (…) < ?`.
unfoldable pub insert_row : ℕ → AlertEvent → List AlertRow → List AlertRow
insert_row now e rows =
    if ltb (accepted_since (now - day) rows) max_events_per_day
    then if is_some (select_row e.event_id rows)
      then rows
      else record { event_id = e.event_id; payload = e; accepted_at = now; emailed_at = none }
        ∷ rows
    else rows

-- `UPDATE … SET emailed_at = ? WHERE event_id = ?`.
abbrev pub mark_row : ℕ → String → AlertRow → AlertRow
mark_row now id r = if str_eq r.event_id id then record r { emailed_at = some now } else r

abbrev pub mark_emailed : ℕ → String → List AlertRow → List AlertRow
mark_emailed now id [] = []
mark_emailed now id (r ∷ rows) = mark_row now id r ∷ mark_emailed now id rows

abbrev pub answer : ℕ → Mailroom → Handled
answer code m = record { response = status code; mailroom = m }

abbrev pub acknowledge : AlertEvent → Mailroom → Handled
acknowledge e m = record { response = acknowledged e.event_id; mailroom = m }

abbrev pub with_sent : AlertEvent → Mailroom → Mailroom
with_sent e m = record m { sent = e ∷ m.sent }

-- The mail and its record.
unfoldable pub email : Faults → ℕ → AlertEvent → Mailroom → Handled
email f now e m =
    if f.send
    then answer 503 m
    else if f.update
    then answer 503 (with_sent e m)
    else acknowledge e (record { table = mark_emailed now e.event_id m.table; sent = e ∷ m.sent })

abbrev pub is_mailed : AlertRow → Bool
is_mailed r = is_some r.emailed_at

unfoldable pub with_stored : Faults → ℕ → AlertEvent → AlertRow → Mailroom → Handled
unfolding email
with_stored f now e r m =
    if not (same_payload r.payload e)
    then answer 409 m
    else if is_mailed r
    then acknowledge e m
    else email f now e m

abbrev pub or_capped : Faults → ℕ → AlertEvent → Option AlertRow → Mailroom → Handled
or_capped f now e none m = answer 503 m
or_capped f now e (some r) m = with_stored f now e r m

abbrev pub inserted : ℕ → AlertEvent → Mailroom → Mailroom
inserted now e m = record m { table = insert_row now e m.table }

abbrev pub after_insert : Faults → ℕ → AlertEvent → Mailroom → Handled
after_insert f later e m =
    if f.select_again then answer 503 m else or_capped f later e (select_row e.event_id m.table) m

abbrev pub with_selected : Faults → ℕ → ℕ → AlertEvent → Option AlertRow → Mailroom → Handled
with_selected f now later e (some r) m = with_stored f later e r m
with_selected f now later e none m =
    if f.insert then answer 503 m else after_insert f later e (inserted now e m)

unfoldable pub store : Faults → ℕ → ℕ → AlertEvent → Mailroom → Handled
unfolding with_stored insert_row
store f now later e m =
    if f.select then answer 503 m else with_selected f now later e (select_row e.event_id m.table) m

abbrev pub is_key : Option String → String → Bool
is_key none id = false
is_key (some key) id = str_eq key id

abbrev pub with_body : Faults → ℕ → ℕ → Option String → RequestBody → Mailroom → Handled
with_body f now later key too_large m = answer 413 m
with_body f now later key not_json m = answer 400 m
with_body f now later key not_event m = answer 400 m
with_body f now later key (parsed e) m =
    if is_event e && is_key key e.event_id then store f now later e m else answer 400 m

abbrev pub is_configured : Env → Bool
is_configured env = leb 32 env.token_length && not (str_eq env.alert_recipient "")

abbrev pub is_token : Env → Option String → Bool
is_token env none = false
is_token env (some t) = str_eq t env.receiver_token

unfoldable pub handle : Env → Faults → ℕ → ℕ → Request → Mailroom → Handled
unfolding store
handle env f now later r m =
    if not (is_configured env)
    then answer 500 m
    else if not (is_token env r.token)
    then answer 404 m
    else if not r.is_post
    then answer 405 m
    else if not r.is_json
    then answer 415 m
    else with_body f now later r.idempotency_key r.body m
