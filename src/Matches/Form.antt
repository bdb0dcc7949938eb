-- ===== src/Matches/Form.antt =====
-- The form beside a standings page: src/server/data/standingsForm.ts. A day is counted from the
-- first of January 1970 and an instant in milliseconds from it; what the store answers, `Date.parse`
-- and the order of ids are a record. A range of the configuration is one that its pattern matches.
pub mod Reading
pub mod Teams
pub mod Windows
pub mod Results
pub mod Members
pub mod Loaded
mod Tests
use score_arc.Prelude.{
  is_some, ℕ, zero, suc, ◌+◌, ◌-◌, ◌*◌, ◌/◌, min, max, ℤ, pos, leb_ℤ, ltb_ℤ, String, Bool, true,
  false, not, ◌&&◌, ◌||◌, Option, none, some, List, [], ◌∷◌, ◌++◌, map, filter, any, all, length,
  take, drop, ltb, leb, ◌==◌, if◌then◌else◌, str_eq, has,
}
use score_arc.Prelude.Sort.{Collation}
use score_arc.Model.{Match, Scope, Group, Standing, Zone, ZoneKind, ComputedTables, finished_b}
use score_arc.Model.Registry.{Section, standings, Season, Competition, CompetitionSeason}
use score_arc.Sources.Dates.{
  CivilDate, DateRange, day_number, match_range, MonthBounds, season_month_bounds,
}
use score_arc.Matches.Performance.{
  TeamResult, PerformanceMatch, unique_team_matches, eligible_team_matches,
}

pub record Store : Type 0 where
  pub standings : Option (List Group)
  -- `getFixtures` from one day to another.
  pub fixtures : ℕ → ℕ → Option (List Match)
  pub parse : String → Option ℤ
  -- `Date.parse` on what `isMatchKickoff` accepts.
  pub instant : String → Option ℤ
  pub id_order : Collation

pub data StandingsFormScope : Type 0 where
  season regular_season group_stage phase : StandingsFormScope

pub record FormResult : Type 0 where
  pub match_id : String
  pub result : TeamResult

pub data TeamForm : Type 0 where
  available : List FormResult → TeamForm
  unavailable : TeamForm

pub record StandingsForm : Type 0 where
  pub scope : Option StandingsFormScope
  pub teams : List (String × TeamForm)
  pub matches : List Match

abbrev pub day_ms : ℕ
day_ms = 86400000

abbrev pub form_size : ℕ
form_size = 5

abbrev pub later_phase_zone : ZoneKind → Bool
later_phase_zone ZoneKind.playoff = true
later_phase_zone ZoneKind.wildcard = true
later_phase_zone ZoneKind.relegation_playoff = true
later_phase_zone _ = false

abbrev pub never_played : List String
never_played =
    "STATUS_SUSPENDED" ∷ "STATUS_POSTPONED" ∷ "STATUS_SCHEDULED" ∷ "STATUS_DELAYED"
    ∷ "STATUS_IN_PROGRESS" ∷ "STATUS_FIRST_HALF" ∷ "STATUS_HALFTIME" ∷ "STATUS_SECOND_HALF"
    ∷ "STATUS_CANCELED" ∷ []

-- `utcDate`, in days.
unfoldable pub utc_date : CivilDate → ℕ
unfolding day_number
utc_date d = day_number d - 719163

abbrev pub first_of : ℕ → ℕ → ℕ
first_of year month = utc_date (record { year = year; month = month; day = 1 })

-- The first day after a season's last month.
abbrev pub next_month : MonthBounds → ℕ
next_month b =
    if b.max_month == 12 then first_of (b.max_year + 1) 1 else first_of b.max_year (b.max_month + 1)

abbrev pub season_ended : MonthBounds → ℕ → Bool
season_ended b now = leb (day_ms * next_month b) now

abbrev pub is_standings : Section → Bool
is_standings Section.standings = true
is_standings _ = false

-- `none` where the season's id has no month bounds.
abbrev pub has_ended : Option MonthBounds → ℕ → Option Bool
has_ended none now = none
has_ended (some b) now = some (season_ended b now)

unfoldable pub offers_no_form : CompetitionSeason → ℕ → Option Bool
unfolding season_month_bounds
offers_no_form rc now =
    if not (any is_standings rc.season.sections)
      || not (str_eq rc.season.id rc.competition.current_season_id)
    then some true
    else if is_some rc.season.computed_tables || rc.season.format.has_bracket
    then some false
    else has_ended (season_month_bounds rc.season.id) now

pub record TableScope : Type 0 where
  pub scope : StandingsFormScope
  pub start : ℕ
  pub end : ℕ

pub data Scoping : Type 0 where
  -- The season's id or a range of the configuration cannot be read.
  unreadable : Scoping
  no_scope : Scoping
  scoped : TableScope → Scoping

abbrev pub zones_of : Option (List Zone) → List Zone
zones_of none = []
zones_of (some zones) = zones

abbrev pub has_later_phase : Season → Bool
has_later_phase of_season =
    is_some of_season.qualification || any (λ z. later_phase_zone z.kind) (zones_of of_season.zones)

abbrev pub phase_scope : ℕ → Option DateRange → Scoping
phase_scope today none = unreadable
phase_scope today (some r) =
    scoped (record { scope = phase; start = utc_date r.start; end = min today (utc_date r.end) })

abbrev pub group_scope : ℕ → ℕ → Option DateRange → Scoping
group_scope today start none = unreadable
group_scope today start (some r) =
    scoped (record { scope = group_stage; start = start; end = min today (utc_date r.start) })

abbrev pub bracket_scope : ℕ → ℕ → Option String → Scoping
bracket_scope today start none = no_scope
bracket_scope today start (some range) =
    if str_eq range "" then no_scope else group_scope today start (match_range range)

abbrev pub league_scope : Season → ℕ → ℕ → MonthBounds → Scoping
league_scope of_season now tables b =
    if season_ended b now
    then no_scope
    else scoped (record {
      scope = if has_later_phase of_season then regular_season else StandingsFormScope.season;
      start = first_of b.min_year b.min_month;
      end = now / day_ms;
    })

abbrev pub season_scope : Season → ℕ → ℕ → MonthBounds → Option ComputedTables → Scoping
season_scope of_season now tables b (some computed) =
    phase_scope (now / day_ms) (match_range computed.dates_range)
season_scope of_season now tables b none =
    if of_season.format.has_bracket && ltb 1 tables
    then bracket_scope (now / day_ms) (first_of b.min_year b.min_month)
        of_season.bracket_dates_range
    else league_scope of_season now tables b

abbrev pub bounded_scope : Season → ℕ → ℕ → Option MonthBounds → Scoping
bounded_scope of_season now tables none = unreadable
bounded_scope of_season now tables (some b) =
    season_scope of_season now tables b of_season.computed_tables

unfoldable pub table_scope : CompetitionSeason → ℕ → ℕ → Scoping
unfolding season_month_bounds
table_scope rc now tables = bounded_scope rc.season now tables (season_month_bounds rc.season.id)
