-- ===== src/Alerts/Tests.antt =====
-- Tests of the monitor, and its theorems at sample histories.
use score_arc.Prelude.{
  false, ◌==◌, ◌++◌, IsListed, true, none, List, [], ◌∷◌, length, ◌≡◌, refl, arith, leb,
  if◌then◌else◌, All,
}
use score_arc.Prelude.Sort.{sort}
use score_arc.Model.Samples.{by_first_letter}
use score_arc.Alerts.Run.{is_sha, is_uuid, valid_run}
use score_arc.Alerts.Observed.{
  response, missing, check_scope, valid_result, valid_observation, healthy_observation,
}
use score_arc.Alerts.Observed.Accepted.{check_scope-valid}
use score_arc.Alerts.State.{
  Event, State, final_phase, keys_of, valid_config, valid_state, valid_contract, valid_event,
  in_sequence, max_state,
}
use score_arc.Alerts.Delivery.{deliver_monitor, deliver, delivered_state}
use score_arc.Alerts.Monitor.{
  observed, saved, failed, restore, held, prepare_monitor, prepared, observe_all, observe,
  observe_scope, reserve, reserved_for, save, refused_state, is_full,
}
use score_arc.Alerts.Monitor.Contract.{IsContract}
use score_arc.Alerts.Monitor.Prepared.{Shows, prepare_monitor-IsPrepared}
use score_arc.Alerts.Monitor.Delivering.{IsSent}
use score_arc.Alerts.Monitor.Delivered.{deliver_monitor-IsSent}
use score_arc.Alerts.Monitor.Histories.{round-drains}
use score_arc.Alerts.Pattern.{is_event_id, is_slug, is_instant, is_run_url, is_http_error}
use score_arc.Alerts.Payload.{is_event, same_payload}
use score_arc.Alerts.Receiver.{Env, insert_row, email, with_stored, store, handle}
use score_arc.Alerts.Receiver.Settled.{Call, served}
use score_arc.Alerts.Notification.{Texts, notification, post_of}
use score_arc.Alerts.Mailed.{IsReported, delivery-mailed}
use score_arc.Alerts.Samples.{clock, first_state, id_of, opening, run_of, scopes, unhealthy}

running : Unit {0}
unfolding is_sha is_uuid valid_run valid_observation healthy_observation valid_result sort keys_of
    valid_config observe_scope observe_all observe reserve prepared save valid_state valid_contract
    valid_event in_sequence prepare_monitor deliver delivered_state deliver_monitor reserved_for
running = tt

-- Delivered, and back to health: the queue empties and the incident closes.
acknowledged_run :
    deliver_monitor (clock 200) (λ e. true) (run_of 7) (held first_state)
    ≡ saved (record first_state {
      phase = final_phase;
      pending = [];
      delivered = record { id = id_of 1; acknowledged_at = 200 } ∷ [];
      reserved = [];
      monitor_failure = none;
    })
unfolding running
acknowledged_run = refl

config_valid_8 : valid_config (clock 200) (run_of 8) ≡ true
unfolding running
config_valid_8 = refl

config_valid_7 : valid_config (clock 200) (run_of 7) ≡ true
unfolding running
config_valid_7 = refl

unhealthy_valid : All (λ c. valid_result c.1 ≡ true) unhealthy
unfolding running
unhealthy_valid = (refl, tt)

first_state-IsContract : IsContract "https://reader" (keys_of (clock 0)) 100 first_state
unfolding running
first_state-IsContract = record {
  origin = refl;
  uuid = refl;
  run = refl;
  bounded = omega arith;
  updated = omega arith;
  filed = refl;
  incidents = (refl, tt);
  room = omega arith;
  events = (refl, tt);
  gone = 0;
  counted = refl;
  lost = 0;
  kept = refl;
  receipts = refl;
  receipts_run = refl;
  pending_run = refl;
  acknowledged = tt;
  before = λ k. none;
  chain = ((refl, refl), λ k. ground arith);
  marked = refl;
  taken = refl;
  sends = omega arith;
  closed = refl;
}

check_scope-valid_example :
    valid_result (check_scope (λ s. true) (response 503 (λ name. none) missing)) ≡ true
check_scope-valid_example =
    check_scope-valid (λ s. true) (response 503 (λ name. none) missing) (omega arith)

prepare_monitor-IsPrepared_example :
    (t : State) × IsContract "https://reader" (keys_of (clock 200)) 200 t
    × Shows (is_full (clock 200) first_state) unhealthy first_state t
    × (prepare_monitor (clock 200) true unhealthy (run_of 8) (restore (run_of 7)) (held first_state)
        ≡ (if leb 100 max_state then saved t else failed refused_state))
unfolding keys_of
prepare_monitor-IsPrepared_example =
    prepare_monitor-IsPrepared (clock 200) (run_of 8) config_valid_8 unhealthy refl unhealthy_valid
      true 100 first_state first_state-IsContract (omega arith) (omega arith) (omega arith)
      (omega arith) (omega arith)

deliver_monitor-IsSent_example :
    (t : State) × IsContract "https://reader" (keys_of (clock 200)) 200 t
    × IsSent (λ e. true) 1 first_state t
    × (deliver_monitor (clock 200) (λ e. true) (run_of 7) (held first_state)
        ≡ (if leb 100 max_state then saved t else failed refused_state))
unfolding running
deliver_monitor-IsSent_example =
    deliver_monitor-IsSent (clock 200) (run_of 7) (λ e. true) 100 first_state first_state-IsContract
      (omega arith) config_valid_7 (omega arith) refl refl

-- The same state before its reservation.
abbrev due_state : State
due_state = record first_state {
  reserved = [];
  pending = record opening { attempts = 0; next_attempt_at = 100 } ∷ [];
}

due_state-IsContract : IsContract "https://reader" (keys_of (clock 0)) 100 due_state
unfolding running
due_state-IsContract = record {
  origin = refl;
  uuid = refl;
  run = refl;
  bounded = omega arith;
  updated = omega arith;
  filed = refl;
  incidents = (refl, tt);
  room = omega arith;
  events = (refl, tt);
  gone = 0;
  counted = refl;
  lost = 0;
  kept = refl;
  receipts = refl;
  receipts_run = refl;
  pending_run = refl;
  acknowledged = tt;
  before = λ k. none;
  chain = ((refl, refl), λ k. ground arith);
  marked = refl;
  taken = refl;
  sends = omega arith;
  closed = refl;
}

round-drains_example :
    (t : State) × (delivered_state (λ e. true) 100 (reserved_for true 100 due_state) ≡ observed t)
    × (length t.pending ≡ 0)
round-drains_example =
    round-drains by_first_letter (λ s. 100) "https://reader" scopes 100 due_state
      due_state-IsContract refl refl refl ((omega arith, omega arith), tt)

abbrev texts : Texts
texts = record { decimal = λ n. if n == 7 then "7" else "1"; iso = λ n. "2026-07-01T12:00:00.000Z" }

abbrev env : Env
env = record {
  receiver_token = "a-token-of-at-least-32-characters";
  token_length = 33;
  alert_recipient = "owner";
}

abbrev reported : Call
reported = record {
  faults = record {
    select = false;
    insert = false;
    select_again = false;
    send = false;
    update = false;
  };
  now = 150;
  later = 160;
  request = post_of texts env opening;
}

receiving : Unit {0}
unfolding is_event_id is_slug is_instant is_run_url is_http_error is_event same_payload insert_row
    email with_stored store handle notification
receiving = tt

opening-IsReported : IsReported texts env (reported ∷ []) opening
unfolding receiving
opening-IsReported = record {
  after = [];
  call = reported;
  before = [];
  history = refl;
  posted = refl;
  answered = refl;
}

delivery-mailed_example :
    (t : State) × (sent : List Event) × (deliver_monitor
        (clock 200)
        (λ e. true)
        (run_of 7)
        (held first_state)
      ≡ (if leb 100 max_state then saved t else failed refused_state))
    × (first_state.pending ≡ sent ++ t.pending)
    × All (λ e. IsListed (served env (reported ∷ [])).sent (notification texts e)) sent
unfolding keys_of
delivery-mailed_example =
    delivery-mailed texts env (reported ∷ []) (clock 200) (run_of 7) (λ e. true) 100 first_state
      first_state-IsContract (omega arith) config_valid_7 (omega arith) refl refl
      ((λ t. opening-IsReported), tt)
