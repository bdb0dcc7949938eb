-- ===== src/Alerts/Payload.antt =====
-- The events that the alert receiver accepts: `isEvent` of infra/alert-receiver/worker.ts, and the
-- payload by which a retry is told from another event.
use score_arc.Prelude.{
  ℕ, String, Bool, true, false, ◌&&◌, ◌||◌, Option, none, some, List, [], ◌∷◌, all, leb, ◌==◌,
  str_eq, has,
}
use score_arc.Alerts.Pattern.{is_event_id, is_slug, is_instant, is_run_url, is_http_error}

pub record AlertEvent : Type 0 where
  pub competition : String
  pub count : Option ℕ
  pub error : Option String
  pub event_id : String
  pub freshness : Option String
  pub incident_id : String
  pub occurred_at : String
  pub overdue : Option ℕ
  pub poll : Option String
  pub run_url : String
  pub season : String
  pub stale : Option ℕ
  pub status : String

abbrev pub count_or_null : Option ℕ → Bool
count_or_null none = true
count_or_null (some n) = leb n 5000

abbrev pub one_of_or_null : List String → Option String → Bool
one_of_or_null allowed none = true
one_of_or_null allowed (some s) = has s allowed

abbrev pub error_or_null : Option String → Bool
error_or_null none = true
error_or_null (some s) =
    is_http_error s
    || has s (
        "content-type" ∷ "response-size" ∷ "body" ∷ "json" ∷ "body-contract" ∷ "counts-contract"
        ∷ "headers-contract" ∷ "request" ∷ "timeout" ∷ [])

unfoldable pub is_event : AlertEvent → Bool
is_event e =
    is_event_id e.event_id
    && is_event_id e.incident_id
    && is_slug e.competition
    && is_slug e.season
    && (str_eq e.status "OPEN" || str_eq e.status "RESOLVED")
    && is_instant e.occurred_at
    && is_run_url e.run_url
    && count_or_null e.count
    && count_or_null e.stale
    && count_or_null e.overdue
    && one_of_or_null ("fresh" ∷ "empty" ∷ "dormant" ∷ "stale" ∷ "unavailable" ∷ []) e.freshness
    && one_of_or_null ("ok" ∷ "partial" ∷ "failed" ∷ "unknown" ∷ []) e.poll
    && error_or_null e.error

abbrev pub same_count : Option ℕ → Option ℕ → Bool
same_count none none = true
same_count (some a) (some b) = a == b
same_count _ _ = false

abbrev pub same_text : Option String → Option String → Bool
same_text none none = true
same_text (some a) (some b) = str_eq a b
same_text _ _ = false

-- `stored.payload === payload`: the fields in the order of `KEYS`.
abbrev pub payload_checks : AlertEvent → AlertEvent → List Bool
payload_checks a b =
    str_eq a.competition b.competition
    ∷ same_count a.count b.count
    ∷ same_text a.error b.error
    ∷ str_eq a.event_id b.event_id
    ∷ same_text a.freshness b.freshness
    ∷ str_eq a.incident_id b.incident_id
    ∷ str_eq a.occurred_at b.occurred_at
    ∷ same_count a.overdue b.overdue
    ∷ same_text a.poll b.poll
    ∷ str_eq a.run_url b.run_url
    ∷ str_eq a.season b.season
    ∷ same_count a.stale b.stale
    ∷ str_eq a.status b.status
    ∷ []

unfoldable pub same_payload : AlertEvent → AlertEvent → Bool
same_payload a b = all (λ c. c) (payload_checks a b)
