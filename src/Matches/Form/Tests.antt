-- ===== src/Matches/Form/Tests.antt =====
-- Tests of the form beside the standings, and its theorems at a sample season.
use score_arc.Prelude.{
  ℕ, ◌+◌, ◌*◌, ℤ, pos, ◌-ℤ◌, true, false, Option, none, some, [], ◌∷◌, ◌≡◌, refl,
}
use score_arc.Prelude.Sort.{sort}
use score_arc.Model.{Match, MatchState, Group, named}
use score_arc.Model.Samples.{by_first_letter, standing, instant_of, match_of}
use score_arc.Model.Registry.{Section, CompetitionKind, TeamStyle, Season, CompetitionSeason}
use score_arc.Sources.Dates.{day_number, read_digits, read_date, match_range, season_month_bounds}
use score_arc.Matches.Performance.{
  win, draw, loss, performance_match, same_facts, scan, newest_first, unique_team_matches,
  eligible_team_matches,
}
use score_arc.Matches.Form.Reading.{members_of, is_settled, windows, read_matches, Reading}
use score_arc.Matches.Form.{
  Store, available, unavailable, utc_date, offers_no_form, table_scope, day_ms, StandingsFormScope,
}
use score_arc.Matches.Form.Teams.{
  member_form, forms_from, forms_of, load_standings_form, loaded, failed, blank_table, unread_store,
  reading_of,
}
use score_arc.Matches.Form.Windows.{IsEnded, read_matches-IsEnded}
use score_arc.Matches.Form.Results.{Shows, member_form-Shows}

abbrev season_2025 : Season
season_2025 = record {
  id = "2025";
  label = "2025";
  concluded = false;
  sections = Section.standings ∷ [];
  format = record { has_bracket = false; has_groups = false; has_third_place_race = false };
  bracket_dates_range = none;
  bracket_order = none;
  knockout_rounds = none;
  projects_liguilla = false;
  qualification = none;
  zones = none;
  rounds = none;
  overall_table = none;
  computed_tables = none;
}

abbrev rc : CompetitionSeason
rc = record {
  competition = record {
    id = "cup";
    name = "Cup";
    short_name = "Cup";
    espn_slug = "cup.1";
    kind = CompetitionKind.club;
    team_style = TeamStyle.crest;
    emblem = "emblem";
    logo = none;
    logo_invert = false;
    trophy_image = none;
    champion_title_key = none;
    bracket_accent = none;
    accent = record { base = "a"; bright = "b"; soft = "c" };
    current_season_id = "2025";
    seasons = ("2025", season_2025) ∷ [];
  };
  season = season_2025;
}

abbrev table : Group
table = record {
  id = "t";
  standings =
      standing "A" 1 2 1 (pos 1) (pos 4)
      ∷ standing "B" 2 2 0 (pos 0) (pos 1)
      ∷ standing "C" 3 0 0 (pos 0) (pos 0)
      ∷ standing "D" 4 1 0 (pos 0) (pos 0)
      ∷ [];
  zones = none;
  title = named "Cup";
}

abbrev first_match : Match
first_match = match_of "m1" "a" MatchState.finished "A" "B" 2 1

abbrev second_match : Match
second_match = match_of "m2" "b" MatchState.finished "B" "A" 0 0

abbrev shifted : Option ℤ → Option ℤ
shifted none = none
shifted (some (pos n)) = some (pos (day_ms * 20185 + n))
shifted (some x) = none

abbrev store : Store
store = record {
  standings = some (table ∷ []);
  fixtures = λ s e. some (first_match ∷ second_match ∷ []);
  parse = λ s. shifted (instant_of s);
  instant = instant_of;
  id_order = by_first_letter;
}

-- The tenth of April 2025.
abbrev now : ℕ
now = day_ms * 20188

forming : Unit {0}
unfolding ◌-ℤ◌ sort day_number read_digits read_date match_range season_month_bounds
    performance_match same_facts scan newest_first unique_team_matches eligible_team_matches
    utc_date offers_no_form table_scope members_of is_settled windows read_matches member_form
    forms_from forms_of load_standings_form
forming = tt

-- D's match was not found in the windows of the season, and C has played none.
shown :
    load_standings_form store rc now
    ≡ loaded (record {
      scope = some StandingsFormScope.season;
      teams =
          (
            "A",
            available (
                record { match_id = "m2"; result = draw }
                ∷ record { match_id = "m1"; result = win }
                ∷ []),
          )
          ∷ (
            "B",
            available (
                record { match_id = "m2"; result = draw }
                ∷ record { match_id = "m1"; result = loss }
                ∷ []),
          )
          ∷ ("D", unavailable)
          ∷ [];
      matches = second_match ∷ first_match ∷ [];
    })
unfolding forming
shown = refl

blank : load_standings_form (record store { standings = some [] }) rc now ≡ failed blank_table
unfolding forming
blank = refl

unread_windows :
    load_standings_form (record store { fixtures = λ s e. none }) rc now ≡ failed unread_store
unfolding forming
unread_windows = refl

-- The season that ended with 2025 has no form.
over : offers_no_form rc (day_ms * 20454) ≡ some true
unfolding forming
over = refl

abbrev reading : Reading
reading =
    reading_of store rc (table ∷ [])
      (record { scope = StandingsFormScope.season; start = 20089; end = 20188 })

read_matches-IsEnded_example : IsEnded reading (read_matches reading)
read_matches-IsEnded_example = read_matches-IsEnded reading

member_form-Shows_example :
    Shows reading none
      (first_match ∷ [])
      (first_match ∷ [])
      true
      (record { team_id = "A"; played = 1; group_ids = "t" ∷ []; ambiguous = false })
      (member_form reading none
        (first_match ∷ [])
        (first_match ∷ [])
        true
        (record { team_id = "A"; played = 1; group_ids = "t" ∷ []; ambiguous = false }))
member_form-Shows_example =
    member_form-Shows reading none (first_match ∷ []) (first_match ∷ []) true
      (record { team_id = "A"; played = 1; group_ids = "t" ∷ []; ambiguous = false })
