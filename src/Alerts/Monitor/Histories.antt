-- ===== src/Alerts/Monitor/Histories.antt =====
-- Histories of runs of the monitor, and the progress of its queue.
use score_arc.Prelude.{
  ℕ, ◌+◌, ◌-◌, ◌≤◌, ◌<◌, String, Bool, true, false, List, [], ◌∷◌, map, length, length-append, All,
  ◌≡◌, ◌⊎◌, ap, ◌∙◌, arith, inl, inr,
}
use score_arc.Prelude.Sort.{Collation}
use score_arc.Alerts.Run.{Run, max_safe, is_uuid, equal_run}
use score_arc.Alerts.Observed.{valid_result}
use score_arc.Alerts.State.{
  Event, State, Config, valid_config, keys_of, max_state, is_final, max_sends, pending_phase,
}
use score_arc.Alerts.Delivery.{delivered_state, deliver_monitor}
use score_arc.Alerts.Monitor.{
  Checks, observed, prepare_monitor, initialize, restore, absent, held, saved, reserved_for,
}
use score_arc.Alerts.Monitor.Contract.{IsContract}
use score_arc.Alerts.Monitor.Preparing.{reserved_for-IsContract}
use score_arc.Alerts.Monitor.Delivered.{delivered_state-IsSent, IsDue, reserve-due}

module _ (order : Collation) (size_of : State → ℕ) (base : String) (scopes : List String) where
  -- The configuration of a run at an instant.
  abbrev pub at : ℕ → Config
  at now = record { order = order; size_of = size_of; base = base; scopes = scopes; now = now }

  -- The states that the monitor has written, with the instant of the last write: of a new history,
  -- of a restored one, and of a delivery.
  pub data Written : ℕ → State → Type 0 where
    begun :
        (now : ℕ) (run : Run) (delivery : Bool) (checks : Checks) (epoch : String) {t : State}
        → valid_config (at now) run ≡ true
        → map (λ c. c.0) checks ≡ scopes
        → All (λ c. valid_result c.1 ≡ true) checks
        → is_uuid epoch ≡ true
        → prepare_monitor (at now) delivery checks run (initialize epoch) absent ≡ saved t
        → Written now t
    prepared_from :
        (now : ℕ) (run : Run) (delivery : Bool) (checks : Checks) {clock : ℕ} {s t : State}
        → Written clock s
        → clock ≤ now
        → valid_config (at now) run ≡ true
        → map (λ c. c.0) checks ≡ scopes
        → All (λ c. valid_result c.1 ≡ true) checks
        → length checks + s.sequence ≤ max_safe
        → size_of s ≤ max_state
        → s.run.number < run.number
        → s.run.id < run.id
        → prepare_monitor (at now) delivery checks run (restore s.run) (held s) ≡ saved t
        → Written now t
    delivered_from :
        (now : ℕ) (run : Run) (acknowledges : Event → Bool) {clock : ℕ} {s t : State}
        → Written clock s
        → clock ≤ now
        → valid_config (at now) run ≡ true
        → size_of s ≤ max_state
        → equal_run s.run run ≡ true
        → is_final s.phase ≡ false
        → deliver_monitor (at now) acknowledges run (held s) ≡ saved t
        → Written now t

  -- When every event in the queue is due and none is exhausted, one reservation and a delivery to a
  -- receiver that acknowledges shorten the queue by ten events, or empty it.
  pub round-drains :
      (clock : ℕ) (s : State)
      → IsContract base (keys_of (at 0)) clock s
      → s.updated_at ≡ clock
      → s.reserved ≡ []
      → s.phase ≡ pending_phase
      → All (IsDue clock) s.pending
      → (t : State) × (delivered_state (λ e. true) clock (reserved_for true clock s) ≡ observed t)
        × (length t.pending ≡ length s.pending - max_sends)
  unfolding reserved_for
  round-drains clock s c u free p due =
      let r = reserved_for true clock s in
      let k = reserved_for-IsContract base (keys_of (at 0)) true clock s u c free p in
      let (t, d, k', sent) =
        delivered_state-IsSent base (keys_of (at 0)) clock clock r k (omega arith) (λ e. true) in
      let (ids, size) = reserve-due max_sends clock s.pending due in
      let split =
        ap (λ (es : List Event). length es) sent.split ∙ length-append sent.sent t.pending in
      (t, d, by_stop sent.sent t.pending sent.stop (λ full. omega (arith, ids, size, split, full)))
    where
      by_stop :
          {n : ℕ} (sent pending : List Event) {G : Type 0}
          → ((length sent ≡ n)
              ⊎ ((e : Event) × (rest : List Event) × (pending ≡ e ∷ rest) × (true ≡ false)))
          → (length sent ≡ n → G)
          → G
      by_stop sent pending (inl full) f = f full
      by_stop sent pending (inr b) f = absurd_test b.3
        where
          absurd_test : {G : Type 0} → true ≡ false → G
          absurd_test e = cc
