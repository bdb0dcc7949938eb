-- ===== src/Alerts/Receiver/Tests.antt =====
-- Tests of the alert receiver, and its theorems at sample requests.
use score_arc.Prelude.{String, true, false, none, some, List, [], ◌∷◌, ◌≡◌, refl}
use score_arc.Alerts.Pattern.{is_event_id, is_slug, is_instant, is_run_url, is_http_error}
use score_arc.Alerts.Payload.{AlertEvent, is_event, same_payload}
use score_arc.Alerts.Receiver.{
  Mailroom, Env, Request, Faults, acknowledged, status, parsed, too_large, handle, insert_row,
  email, with_stored, store,
}
use score_arc.Alerts.Receiver.Kept.{IsKept}
use score_arc.Alerts.Receiver.Settled.{Call, served, served-IsKept}
use score_arc.Alerts.Receiver.Repeated.{handle-again}

abbrev id : String
id = "00000000-0000-4000-8000-000000000000:1"

abbrev alert : AlertEvent
alert = record {
  competition = "mls";
  count = some 12;
  error = none;
  event_id = id;
  freshness = some "stale";
  incident_id = id;
  occurred_at = "2026-07-01T12:00:00.5Z";
  overdue = some 1;
  poll = some "partial";
  run_url = "https://github.com/mcasillas17/ScoreArc/actions/runs/7";
  season = "2026";
  stale = some 3;
  status = "OPEN";
}

abbrev env : Env
env = record {
  receiver_token = "a-token-of-at-least-32-characters";
  token_length = 33;
  alert_recipient = "owner@example.com";
}

abbrev request : Request
request = record {
  token = some "a-token-of-at-least-32-characters";
  is_post = true;
  is_json = true;
  body = parsed alert;
  idempotency_key = some id;
}

abbrev sound : Faults
sound = record {
  select = false;
  insert = false;
  select_again = false;
  send = false;
  update = false;
}

abbrev unsent : Faults
unsent = record sound { send = true }

abbrev unmarked : Faults
unmarked = record sound { update = true }

abbrev empty_room : Mailroom
empty_room = record { table = []; sent = [] }

abbrev mailed_room : Mailroom
mailed_room = record {
  table = record { event_id = id; payload = alert; accepted_at = 100; emailed_at = some 150 } ∷ [];
  sent = alert ∷ [];
}

serving : Unit {0}
unfolding is_event_id is_slug is_instant is_run_url is_http_error is_event same_payload insert_row
    email with_stored store handle
serving = tt

alert_valid : is_event alert ≡ true
unfolding serving
alert_valid = refl

zero_run_refused :
    is_event (record alert { event_id = "00000000-0000-4000-8000-000000000000:0" }) ≡ false
unfolding serving
zero_run_refused = refl

instants : is_instant "2026-07-01T12:00:00Z" ≡ true
unfolding serving
instants = refl

long_fraction : is_instant "2026-07-01T12:00:00.1234Z" ≡ false
unfolding serving
long_fraction = refl

slugs : is_slug "-mls" ≡ false
unfolding serving
slugs = refl

http_errors : is_http_error "http-5030" ≡ false
unfolding serving
http_errors = refl

delivered :
    handle env sound 100 150 request empty_room
    ≡ record { response = acknowledged id; mailroom = mailed_room }
unfolding serving
delivered = refl

unsent_kept : handle env unsent 100 150 request empty_room ≡ record {
  response = status 503;
  mailroom = record {
    table = record { event_id = id; payload = alert; accepted_at = 100; emailed_at = none } ∷ [];
    sent = [];
  };
}
unfolding serving
unsent_kept = refl

changed_refused :
    handle env sound 200 250
      (record request { body = parsed (record alert { count = none }) })
      mailed_room
    ≡ record { response = status 409; mailroom = mailed_room }
unfolding serving
changed_refused = refl

large_refused :
    handle env sound 100 150 (record request { body = too_large }) empty_room
    ≡ record { response = status 413; mailroom = empty_room }
unfolding serving
large_refused = refl

abbrev calls : List Call
calls =
    record { faults = sound; now = 300; later = 310; request = request }
    ∷ record { faults = unmarked; now = 200; later = 210; request = request }
    ∷ record { faults = unsent; now = 100; later = 150; request = request }
    ∷ []

served-IsKept_example : IsKept (served env calls)
served-IsKept_example = served-IsKept env calls

handle-again_example :
    handle env unsent 200 250 request mailed_room
    ≡ record { response = acknowledged id; mailroom = mailed_room }
unfolding serving
handle-again_example =
    handle-again env sound 100 150 request empty_room (served-IsKept env []) id refl unsent 200 250
      refl
