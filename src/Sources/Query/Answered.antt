-- ===== src/Sources/Query/Answered.antt =====
-- What the parser of the matches query answers.
use score_arc.Prelude.{ℕ, ◌≤◌, Bool, true, ◌||◌, Option, none, some, ◌≡◌}
use score_arc.Sources.Dates.{DateRange, max_range_days}
use score_arc.Sources.Dates.Days.{IsWindows}
use score_arc.Sources.Query.{
  max_summary_days, MatchParams, Parsed, query, error, days_in_range, is_given,
}

abbrev pub WithinLimit : Option ℕ → Type 0
WithinLimit none = Unit
WithinLimit (some n) = (1 ≤ n) × (n ≤ 100)

-- An enriched query costs a request for each match.
abbrev pub WithinSummary : Bool → Option DateRange → Type 0
WithinSummary true (some r) = days_in_range r ≤ max_summary_days
WithinSummary _ _ = Unit

-- A query that is safe to send on; or an error, and then some parameter was given.
abbrev pub Answers : MatchParams → Parsed → Type 0
Answers p (query q) =
    IsWindows max_range_days q.range
    × (is_given q.range ≡ is_given p.range)
    × WithinLimit q.limit
    × WithinSummary q.summary q.range
    × (q.only_scheduled ≡ is_given p.state)
Answers p (error e) =
    (is_given p.range || is_given p.state || is_given p.detail || is_given p.limit) ≡ true
