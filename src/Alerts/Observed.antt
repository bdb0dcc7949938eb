-- ===== src/Alerts/Observed.antt =====
-- The observation of one competition: `checkScope` of scripts/match-freshness-watchdog.mjs, and what
-- scripts/match-freshness-monitor.mjs accepts of it. A response is what the checks of its body found.
pub mod Accepted
use score_arc.Prelude.{
  ℕ, ◌≤◌, String, Bool, true, false, not, ◌&&◌, ◌||◌, Option, none, some, List, length, any, ltb,
  leb, ◌==◌, if◌then◌else◌, has, map,
}
use score_arc.Model.{MatchState, finished_b}
use score_arc.Sources.Freshness.{
  FreshnessStatus, PollStatus, MatchFreshness, Parsed, accepted, rejected, parse_match_freshness,
  is_current, is_empty, is_ok, is_absent,
}

-- `http-…` and the constant categories.
pub data ErrorCategory : Type 0 where
  http : ℕ → ErrorCategory
  content_type response_size body json : ErrorCategory
  body_contract counts_contract headers_contract request timeout : ErrorCategory

pub record Observation : Type 0 where
  pub freshness : Option FreshnessStatus
  pub poll : Option PollStatus
  pub stale : Option ℕ
  pub overdue : Option ℕ
  pub error : Option ErrorCategory

pub record CheckResult : Type 0 where
  pub ok : Bool
  pub count : Option ℕ
  pub observation : Observation

abbrev pub max_matches : ℕ
max_matches = 5000

-- `count` of the monitor.
abbrev pub is_count : Option ℕ → Bool
is_count none = true
is_count (some n) = leb n max_matches

-- `\d{3}`.
abbrev pub is_category : ErrorCategory → Bool
is_category (http n) = leb n 999
is_category _ = true

abbrev pub is_fresh : FreshnessStatus → Bool
is_fresh FreshnessStatus.fresh = true
is_fresh _ = false

abbrev pub is_dormant : FreshnessStatus → Bool
is_dormant FreshnessStatus.dormant = true
is_dormant _ = false

abbrev pub is_none {ℓ} : {A : Type ℓ} → Option A → Bool
is_none none = true
is_none (some a) = false

abbrev pub is_blank : Observation → Bool
is_blank o = is_none o.freshness && is_none o.poll && is_none o.stale && is_none o.overdue

abbrev pub is_measured : FreshnessStatus → PollStatus → ℕ → ℕ → ℕ → Bool
is_measured f p stale overdue matches =
    leb stale max_matches
    && leb overdue max_matches
    && leb overdue stale
    && leb stale matches
    && (not (is_current f) || (stale == 0))
    && (not (is_empty f) || ((matches == 0) && is_ok p))
    && (not (is_fresh f) || (ltb 0 matches && is_ok p))

abbrev pub measures :
    Option FreshnessStatus → Option PollStatus → Option ℕ → Option ℕ → Option ℕ → Bool
measures (some f) (some p) (some stale) (some overdue) (some matches) =
    is_measured f p stale overdue matches
measures _ _ _ _ _ = false

abbrev pub valid_error : Observation → Option ℕ → Option ErrorCategory → Bool
valid_error o matches (some e) = is_category e && is_blank o
valid_error o matches none = measures o.freshness o.poll o.stale o.overdue matches

unfoldable pub valid_observation : Observation → Option ℕ → Bool
valid_observation o matches = is_count matches && valid_error o matches o.error

abbrev pub is_healthy : Option FreshnessStatus → Option PollStatus → Bool
is_healthy (some f) (some p) = is_dormant f || ((is_fresh f || is_empty f) && is_ok p)
is_healthy (some f) none = is_dormant f
is_healthy none p = false

unfoldable pub healthy_observation : Observation → Bool
healthy_observation o = is_none o.error && is_healthy o.freshness o.poll

-- `===` on Booleans.
abbrev pub same : Bool → Bool → Bool
same true b = b
same false b = not b

-- What the monitor asks of the result of a check.
unfoldable pub valid_result : CheckResult → Bool
unfolding valid_observation healthy_observation
valid_result r =
    is_count r.count
    && valid_observation r.observation r.count
    && same r.ok (healthy_observation r.observation)

-- A row that `validMatch` accepts.
pub record Row : Type 0 where
  pub id : String
  pub state : MatchState

-- What `boundedJSON` and `validMatch` make of a body.
pub data Body : Type 0 where
  wrong_type too_large missing no_json malformed : Body
  rows : List Row → Body

pub data Fetched : Type 0 where
  aborted failed : Fetched
  response : ℕ → (String → Option String) → Body → Fetched

abbrev pub is_distinct : List String → Bool
is_distinct List.[] = true
is_distinct (List.◌∷◌ id ids) = not (has id ids) && is_distinct ids

abbrev pub is_poor : PollStatus → Bool
is_poor PollStatus.partial = true
is_poor PollStatus.failed = true
is_poor _ = false

abbrev pub failure : Option ℕ → ErrorCategory → CheckResult
failure count e = record {
  ok = false;
  count = count;
  observation = record {
    freshness = none;
    poll = none;
    stale = none;
    overdue = none;
    error = some e;
  };
}

abbrev pub success : MatchFreshness → ℕ → CheckResult
success f matches = record {
  ok =
      is_dormant f.status
      || ((is_fresh f.status || is_empty f.status) && not (is_poor f.poll_status));
  count = some matches;
  observation = record {
    freshness = some f.status;
    poll = some f.poll_status;
    stale = some f.stale_matches;
    overdue = some f.overdue_matches;
    error = none;
  };
}

-- The counts of the body against those of the headers.
abbrev pub contradicts : MatchFreshness → ℕ → Bool → Bool
contradicts f matches unresolved =
    ltb matches f.stale_matches
    || (is_empty f.status && not (matches == 0))
    || (is_fresh f.status
        && ((matches == 0) || not (is_ok f.poll_status) || is_absent f.observed_at))
    || (is_dormant f.status && unresolved)

abbrev pub check_counts : MatchFreshness → ℕ → Bool → CheckResult
check_counts f matches unresolved =
    if contradicts f matches unresolved
    then failure (some matches) ErrorCategory.counts_contract
    else success f matches

abbrev pub check_rows : MatchFreshness → List Row → CheckResult
check_rows f found =
    if ltb max_matches (length found) || not (is_distinct (map (λ r. r.id) found))
    then failure none ErrorCategory.body_contract
    else check_counts f (length found) (any (λ r. not (finished_b r.state)) found)

abbrev pub check_body : MatchFreshness → Body → CheckResult
check_body f wrong_type = failure none ErrorCategory.content_type
check_body f too_large = failure none ErrorCategory.response_size
check_body f missing = failure none ErrorCategory.body
check_body f no_json = failure none ErrorCategory.json
check_body f malformed = failure none ErrorCategory.body_contract
check_body f (rows found) = check_rows f found

abbrev pub check_headers : Parsed → Body → CheckResult
check_headers (rejected e) b = failure none ErrorCategory.headers_contract
check_headers (accepted f) b = check_body f b

unfoldable pub check_scope : (String → Bool) → Fetched → CheckResult
check_scope date_parses aborted = failure none ErrorCategory.timeout
check_scope date_parses failed = failure none ErrorCategory.request
check_scope date_parses (response status headers b) =
    if status == 200
    then check_headers (parse_match_freshness date_parses headers) b
    else failure none (ErrorCategory.http status)
