-- ===== src/Sources/Dates.antt =====
-- Date windows: `parseRange` and `seasonMonthBounds` of src/server/data/dateRange.ts. A text is read
-- character by character, and a date that `Date` would roll over to another one is none.
pub mod Days
use Prim.Native.String
use Prim.Native.Char.{Char, code}
use score_arc.Prelude.{
  ℕ, zero, suc, ◌+◌, ◌-◌, ◌*◌, ◌/◌, ◌%◌, String, Bool, true, false, not, ◌&&◌, ◌||◌, Option, none,
  some, ltb, leb, ◌==◌, if◌then◌else◌, str_eq,
}

abbrev pub is_digit : Char → Bool
is_digit c = leb 48 (code c) && leb (code c) 57

-- What a pattern read, and the text behind it.
pub record Read : Type 0 where
  pub value : ℕ
  pub rest : String

-- `\d{n}` as a number.
unfoldable pub read_digits : ℕ → ℕ → String → Option Read
read_digits zero value s = some (record { value = value; rest = s })
read_digits (suc n) value String.[] = none
read_digits (suc n) value (String.◌∷◌ c s) =
    let more = read_digits n (value * 10 + (code c - 48)) s in if is_digit c then more else none

pub record CivilDate : Type 0 where
  pub year : ℕ
  pub month : ℕ
  pub day : ℕ

abbrev pub is_leap : ℕ → Bool
is_leap year = (year % 4 == 0) && (not (year % 100 == 0) || (year % 400 == 0))

abbrev pub days_in_month : ℕ → ℕ → ℕ
days_in_month year month =
    if month == 2
    then if is_leap year then 29 else 28
    else if (month == 4) || (month == 6) || (month == 9) || (month == 11)
    then 30
    else 31

-- The round trip of `toDate`: `Date` keeps the year, the month and the day. Years below 100 are
-- read as years of the twentieth century.
abbrev pub is_date : CivilDate → Bool
is_date d =
    leb 100 d.year
    && leb 1 d.month
    && leb d.month 12
    && leb 1 d.day
    && leb d.day (days_in_month d.year d.month)

abbrev pub leap_day : ℕ → ℕ → ℕ
leap_day year month = if leb 3 month && is_leap year then 1 else 0

-- The days of a year before a month, in a year of 365.
abbrev pub days_before : ℕ → ℕ
days_before month =
    if leb month 1
    then 0
    else if month == 2
    then 31
    else if month == 3
    then 59
    else if month == 4
    then 90
    else if month == 5
    then 120
    else if month == 6
    then 151
    else if month == 7
    then 181
    else if month == 8
    then 212
    else if month == 9
    then 243
    else if month == 10
    then 273
    else if month == 11
    then 304
    else 334

-- `getTime`, in days.
unfoldable pub day_number : CivilDate → ℕ
day_number d =
    let y = d.year - 1 in
    365 * y + y / 4 - y / 100 + y / 400 + days_before d.month + leap_day d.year d.month + d.day

pub record DateRange : Type 0 where
  pub start : CivilDate
  pub end : CivilDate

abbrev pub bind {ℓ κ} : {A : Type ℓ} {B : Type κ} → Option A → (A → Option B) → Option B
bind none f = none
bind (some a) f = f a

-- `\d{4}\d{2}\d{2}`, and what is behind it.
pub record DateRead : Type 0 where
  pub date : CivilDate
  pub rest : String

unfoldable pub read_date : String → Option DateRead
unfolding read_digits
read_date s = bind (read_digits 4 0 s) (λ y. bind (read_digits 2 0 y.rest) (λ m.
    bind (read_digits 2 0 m.rest) (λ d. some (record {
      date = record { year = y.value; month = m.value; day = d.value };
      rest = d.rest;
    }))))

abbrev pub read_dash : String → Option String
read_dash String.[] = none
read_dash (String.◌∷◌ c s) = if code c == 45 then some s else none

abbrev pub at_end : String → Bool
at_end String.[] = true
at_end _ = false

-- RANGE_RE.
unfoldable pub match_range : String → Option DateRange
unfolding read_date
match_range raw = bind (read_date raw) (λ a. bind (read_dash a.rest) (λ s.
    bind (read_date s)
      (λ b. if at_end b.rest then some (record { start = a.date; end = b.date }) else none)))

abbrev pub checked_range : ℕ → DateRange → Option DateRange
checked_range max_days r =
    if not (is_date r.start) || not (is_date r.end)
    then none
    else if ltb (day_number r.end) (day_number r.start)
    then none
    else if ltb max_days (day_number r.end - day_number r.start)
    then none
    else some r

-- The range that a text stands for; the source returns the text.
unfoldable pub parse_range : Option String → ℕ → Option DateRange
unfolding match_range day_number
parse_range none max_days = none
parse_range (some raw) max_days = bind (match_range raw) (checked_range max_days)

abbrev pub max_range_days : ℕ
max_range_days = 92

-- The shapes of a season id: its first and last month, by the year.
pub record MonthBounds : Type 0 where
  pub min_year : ℕ
  pub min_month : ℕ
  pub max_year : ℕ
  pub max_month : ℕ

abbrev pub bounds : ℕ → ℕ → ℕ → ℕ → MonthBounds
bounds y m z n = record { min_year = y; min_month = m; max_year = z; max_month = n }

-- `-26` behind the year, when it is the year that follows.
abbrev pub cross_year : ℕ → Option Read → Option MonthBounds
cross_year year none = none
cross_year year (some r) =
    if at_end r.rest && (r.value == (year + 1) % 100)
    then some (bounds year 7 (year + 1) 6)
    else none

abbrev pub season_bounds : Read → Option MonthBounds
season_bounds y =
    if at_end y.rest
    then some (bounds y.value 1 y.value 12)
    else if str_eq y.rest "-apertura"
    then some (bounds y.value 7 y.value 12)
    else if str_eq y.rest "-clausura"
    then some (bounds y.value 1 y.value 6)
    else bind (read_dash y.rest) (λ s. cross_year y.value (read_digits 2 0 s))

-- `none` is the error of an unsupported id.
unfoldable pub season_month_bounds : String → Option MonthBounds
unfolding read_digits
season_month_bounds season_id = bind (read_digits 4 0 season_id) season_bounds
