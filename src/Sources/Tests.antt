-- ===== src/Sources/Tests.antt =====
-- Tests of the sources, and the theorems at sample inputs.
use score_arc.Prelude.{
  ℕ, String, Bool, true, false, Option, none, some, str_eq, List, [], ◌∷◌, map, ◌≡◌, refl,
  if◌then◌else◌, ◌+◌, leb,
}
use score_arc.Sources.Dates.{
  CivilDate, day_number, read_digits, read_date, match_range, parse_range, season_month_bounds,
  bounds,
}
use score_arc.Sources.Query.{
  MatchParams, number_of, read_number, parse_match_query, error, long_summary,
}
use score_arc.Sources.Freshness.{
  FreshnessStatus, PollStatus, MatchFreshness, accepted, rejected, FreshnessError, read_parts,
  is_iso_instant, count, status_of, poll_of, observed_of, parse_match_freshness,
}
use score_arc.Sources.Freshness.Agreed.{IsAgreed, parse_match_freshness-IsAgreed}
use score_arc.Sources.Cache.{get, set, evict}
use score_arc.Sources.Cache.History.{Call, gets, sets, run, get-set}

abbrev calls : List (Call ℕ)
calls = sets 40 "a" 3 100 ∷ gets 30 "a" ∷ sets 20 "b" 2 5 ∷ sets 10 "a" 1 100 ∷ []

caching : Unit {0}
unfolding get set evict run
caching = tt

-- The read of "a" made "b" the older one.
cache_order : map (λ e. e.key) (run calls) ≡ "b" ∷ "a" ∷ []
unfolding caching
cache_order = refl

found_a : (get 140 "a" (run calls)).found ≡ some 3
unfolding caching
found_a = refl

lost_b : (get 26 "b" (run calls)).found ≡ none
unfolding caching
lost_b = refl

get-set_example :
    (get 140 "a" (set 40 "a" 3 100 (run calls))).found
    ≡ (if leb 140 (40 + 100) then some 3 else none)
get-set_example = get-set 40 140 "a" 3 100 (run calls)

abbrev date : ℕ → ℕ → ℕ → CivilDate
date y m d = record { year = y; month = m; day = d }

dates : Unit {0}
unfolding read_digits read_date match_range day_number parse_range season_month_bounds read_number
    number_of parse_match_query
dates = tt

-- The thirty-first of February is no date.
rolled_over : parse_range (some "20260201-20260231") 92 ≡ none
unfolding dates
rolled_over = refl

february :
    parse_range (some "20260201-20260228") 92
    ≡ some (record { start = date 2026 2 1; end = date 2026 2 28 })
unfolding dates
february = refl

cross_year_season : season_month_bounds "2025-26" ≡ some (bounds 2025 7 2026 6)
unfolding dates
cross_year_season = refl

wrong_season : season_month_bounds "2025-27" ≡ none
unfolding dates
wrong_season = refl

abbrev wide : MatchParams
wide = record {
  range = some "20260201-20260228";
  state = none;
  detail = some "summary";
  limit = some "5";
}

too_long : parse_match_query wide ≡ error long_summary
unfolding dates
too_long = refl

-- The headers of an empty answer, with the count of overdue matches open.
abbrev headers_of : String → String → Option String
headers_of late name =
    if str_eq name "X-ScoreArc-Freshness"
    then some "empty"
    else if str_eq name "X-ScoreArc-Poll-Status"
    then some "ok"
    else if str_eq name "X-ScoreArc-Observed-At"
    then some "2026-08-15T10:30:00.25Z"
    else if str_eq name "X-ScoreArc-Overdue-Matches"
    then some late
    else some "0"

abbrev parses : String → Bool
parses s = true

abbrev no_matches : MatchFreshness
no_matches = record {
  status = FreshnessStatus.empty;
  observed_at = some "2026-08-15T10:30:00.25Z";
  poll_status = PollStatus.ok;
  stale_matches = 0;
  overdue_matches = 0;
}

freshness : Unit {0}
unfolding read_digits read_parts is_iso_instant count status_of poll_of observed_of
    parse_match_freshness
freshness = tt

accepted_empty : parse_match_freshness parses (headers_of "0") ≡ accepted no_matches
unfolding freshness
accepted_empty = refl

rejected_overdue :
    parse_match_freshness parses (headers_of "1") ≡ rejected FreshnessError.contradictory_counts
unfolding freshness
rejected_overdue = refl

rejected_zeros :
    parse_match_freshness parses (headers_of "00")
    ≡ rejected (FreshnessError.invalid_header "X-ScoreArc-Overdue-Matches")
unfolding freshness
rejected_zeros = refl

impossible_day : is_iso_instant parses "2026-02-31T10:30:00+02:00" ≡ false
unfolding freshness
impossible_day = refl

parse_match_freshness-IsAgreed_example : IsAgreed parses (headers_of "0") no_matches
parse_match_freshness-IsAgreed_example =
    (parse_match_freshness-IsAgreed parses (headers_of "0") no_matches).0 accepted_empty
