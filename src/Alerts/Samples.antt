-- ===== src/Alerts/Samples.antt =====
-- Sample values for the tests of the alerts.
use score_arc.Prelude.{ℕ, String, true, none, some, List, [], ◌∷◌}
use score_arc.Model.Samples.{by_first_letter}
use score_arc.Alerts.Run.{Run}
use score_arc.Alerts.Observed.{ErrorCategory, failure}
use score_arc.Alerts.State.{
  EventId, Event, open_incident, State, Config, pending_phase, delivery_pending,
}
use score_arc.Alerts.Monitor.{Checks}
use score_arc.Alerts.Monitor.Histories.{at}

abbrev pub scopes : List String
scopes = "mls/2026" ∷ []

abbrev pub clock : ℕ → Config
clock now = at by_first_letter (λ s. 100) "https://reader" scopes now

abbrev pub run_of : ℕ → Run
run_of n = record {
  repository = "mcasillas17/ScoreArc";
  workflow = ".github/workflows/match-freshness.yml";
  ref = "refs/heads/main";
  id = n;
  number = n;
  attempt = 1;
  sha = "0123456789abcdef0123456789abcdef01234567";
}

abbrev pub epoch : String
epoch = "00000000-0000-4000-8000-000000000000"

abbrev pub unhealthy : Checks
unhealthy = ("mls/2026", failure none ErrorCategory.timeout) ∷ []

abbrev pub id_of : ℕ → EventId
id_of n = record { epoch = epoch; number = n }

abbrev pub opening : Event
opening = record {
  id = id_of 1;
  incident_id = id_of 1;
  scope = "mls/2026";
  status = open_incident;
  occurred_at = 100;
  run = 7;
  count = none;
  observation = record {
    freshness = none;
    poll = none;
    stale = none;
    overdue = none;
    error = some ErrorCategory.timeout;
  };
  attempts = 1;
  next_attempt_at = 300100;
}

-- The state after the first run, which found the scope unhealthy.
abbrev pub first_state : State
first_state = record {
  origin = "https://reader";
  epoch = epoch;
  run = run_of 7;
  sequence = 1;
  updated_at = 100;
  phase = pending_phase;
  incidents = ("mls/2026", some (id_of 1)) ∷ [];
  pending = opening ∷ [];
  delivered = [];
  reserved = id_of 1 ∷ [];
  data_incident = true;
  monitor_failure = some delivery_pending;
}
