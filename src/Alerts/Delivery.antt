-- ===== src/Alerts/Delivery.antt =====
-- The delivery of the incident monitor's events: `deliverMonitor` and the exit code of
-- scripts/match-freshness-monitor.mjs.
use score_arc.Prelude.{
  is_nil, ℕ, ◌-◌, Bool, true, false, not, ◌&&◌, ◌||◌, Option, none, some, List, [], ◌∷◌, ◌++◌,
  length, drop, if◌then◌else◌,
}
use score_arc.Alerts.Run.{Run, equal_run}
use score_arc.Alerts.Observed.{is_none}
use score_arc.Alerts.State.{
  Config, Event, EventId, MonitorFailure, Receipt, State, delivery_failed, final_phase, id_eq,
  is_final, max_receipts, queue_full, valid_config, valid_state,
}
use score_arc.Alerts.Monitor.{
  out_of_order, corrupt, invalid_config, wrong_provenance, observed, stopped, held, failed, Outcome,
  Result, Stored, save, then_observe,
}

-- `slice(-32)`.
abbrev pub last_receipts : List Receipt → List Receipt
last_receipts rs = drop (length rs - max_receipts) rs

abbrev pub acknowledged : ℕ → State → Event → List Event → State
acknowledged now s e events = record s {
  pending = events;
  delivered = last_receipts (s.delivered ++ record { id = e.id; acknowledged_at = now } ∷ []);
}

-- The loop over the reserved events; `acknowledges` is what the receiver answers to each.
unfoldable pub deliver : (Event → Bool) → ℕ → List EventId → State → Result
deliver acknowledges now [] s = observed s
deliver acknowledges now (id ∷ ids) s = elim s.pending [
  | [] ↦ stopped out_of_order
  | e ∷ events ↦
      let rest = deliver acknowledges now ids (acknowledged now s e events) in
      if not (id_eq e.id id)
      then stopped out_of_order
      else if acknowledges e
      then rest
      else observed (record s { monitor_failure = some delivery_failed })
]

abbrev pub is_queue_full : Option MonitorFailure → Bool
is_queue_full (some queue_full) = true
is_queue_full _ = false

abbrev pub finished : State → State
finished s = record s {
  reserved = [];
  phase = final_phase;
  monitor_failure =
      if is_nil s.pending && not (is_queue_full s.monitor_failure) then none else s.monitor_failure;
}

-- The state that `deliverMonitor` saves, but for its last check.
unfoldable pub delivered_state : (Event → Bool) → ℕ → State → Result
unfolding deliver
delivered_state acknowledges now s =
    then_observe (λ t. observed (finished t)) (deliver acknowledges now s.reserved s)

abbrev pub deliverable : Config → Run → State → Result
deliverable o run s =
    if not (valid_state o s)
    then stopped corrupt
    else if not (equal_run s.run run) || is_final s.phase
    then stopped wrong_provenance
    else observed s

unfoldable pub deliver_monitor : Config → (Event → Bool) → Run → Stored → Outcome
unfolding delivered_state
deliver_monitor o acknowledges run (held s) =
    if valid_config o run
    then save o (then_observe (delivered_state acknowledges o.now) (deliverable o run s))
    else failed invalid_config
deliver_monitor o acknowledges run _ = failed corrupt

-- `outcome`: the exit code.
abbrev pub exit_code : State → ℕ
exit_code s =
    if not (is_none s.monitor_failure) || not (is_nil s.pending)
    then 2
    else if s.data_incident
    then 1
    else 0
