-- ===== src/Sources/Query.antt =====
-- The query of the matches endpoint: src/server/data/matchQuery.ts.
pub mod Answered
use Prim.Native.String
use Prim.Native.Char.{code}
use score_arc.Prelude.{
  ℕ, suc, ◌+◌, ◌-◌, ◌*◌, ◌≤◌, String, Bool, true, false, not, ◌&&◌, ◌||◌, Option, none, some, ◌≡◌,
  refl, sym, arith, ltb, leb, if◌then◌else◌, str_eq, subst, Bool-cases, inl, inr, leb→le,
  ltb-false→le,
}
use score_arc.Sources.Dates.{is_digit, DateRange, day_number, parse_range, max_range_days}

abbrev pub max_summary_days : ℕ
max_summary_days = 14

-- `URLSearchParams.get` of the four parameters.
pub record MatchParams : Type 0 where
  pub range : Option String
  pub state : Option String
  pub detail : Option String
  pub limit : Option String

pub record MatchQuery : Type 0 where
  pub range : Option DateRange
  pub only_scheduled : Bool
  pub summary : Bool
  pub limit : Option ℕ

pub data QueryError : Type 0 where
  bad_range bad_state bad_detail long_summary bad_limit limit_out_of_bounds : QueryError

pub data Parsed : Type 0 where
  query : MatchQuery → Parsed
  error : QueryError → Parsed

abbrev pub days_in_range : DateRange → ℕ
days_in_range r = day_number r.end - day_number r.start + 1

-- `Number` of a text of digits only.
unfoldable pub read_number : ℕ → String → Option ℕ
read_number value String.[] = some value
read_number value (String.◌∷◌ c s) =
    let more = read_number (value * 10 + (code c - 48)) s in if is_digit c then more else none

-- `/^\d+$/`.
unfoldable pub number_of : String → Option ℕ
unfolding read_number
number_of String.[] = none
number_of (String.◌∷◌ c s) = read_number 0 (String.◌∷◌ c s)

abbrev pub is_given {ℓ} : {A : Type ℓ} → Option A → Bool
is_given none = false
is_given (some a) = true

-- Absent, or the one word that is allowed.
abbrev pub is_word : String → Option String → Bool
is_word word none = true
is_word word (some s) = str_eq s word

abbrev pub is_long : Option DateRange → Bool
is_long none = false
is_long (some r) = ltb max_summary_days (days_in_range r)

abbrev pub with_number : MatchQuery → Option ℕ → Parsed
with_number q none = error bad_limit
with_number q (some n) =
    if ltb n 1 || ltb 100 n then error limit_out_of_bounds else query (record q { limit = some n })

abbrev pub with_limit : MatchQuery → Option String → Parsed
with_limit q none = query q
with_limit q (some raw) = with_number q (number_of raw)

abbrev pub parse_rest : MatchParams → Option DateRange → Parsed
parse_rest p range =
    if is_given p.range && not (is_given range)
    then error bad_range
    else if not (is_word "scheduled" p.state)
    then error bad_state
    else if not (is_word "summary" p.detail)
    then error bad_detail
    else if is_given p.detail && is_long range
    then error long_summary
    else with_limit
        (record {
          range = range;
          only_scheduled = is_given p.state;
          summary = is_given p.detail;
          limit = none;
        })
        p.limit

unfoldable pub parse_match_query : MatchParams → Parsed
unfolding parse_range number_of day_number
parse_match_query p = parse_rest p (parse_range p.range max_range_days)
