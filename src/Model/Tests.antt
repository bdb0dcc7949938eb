-- ===== src/Model/Tests.antt =====
-- Tests of the registry, and its theorem at a sample registry.
use score_arc.Prelude.{String, true, false, none, some, [], ◌∷◌, All, ◌≡◌, refl}
use score_arc.Model.Registry.{
  CompetitionKind, TeamStyle, Season, Competition, Registry, resolve_season, ongoing_competitions,
}
use score_arc.Model.Registry.Resolved.{IsFiled}

abbrev season_of : String → Season
season_of id = record {
  id = id;
  label = id;
  concluded = true;
  sections = [];
  format = record { has_bracket = true; has_groups = true; has_third_place_race = true };
  bracket_dates_range = none;
  bracket_order = none;
  knockout_rounds = none;
  projects_liguilla = false;
  qualification = none;
  zones = none;
  rounds = none;
  overall_table = none;
  computed_tables = none;
}

abbrev world_cup : Competition
world_cup = record {
  id = "fifa-wc";
  name = "FIFA World Cup";
  short_name = "World Cup";
  espn_slug = "fifa.world";
  kind = CompetitionKind.national;
  team_style = TeamStyle.flag;
  emblem = "emblem";
  logo = none;
  logo_invert = false;
  trophy_image = none;
  champion_title_key = none;
  bracket_accent = none;
  accent = record { base = "a"; bright = "b"; soft = "c" };
  current_season_id = "2026";
  seasons = ("2022", season_of "2022") ∷ ("2026", season_of "2026") ∷ [];
}

abbrev one_competition : Registry
one_competition = ("fifa-wc", world_cup) ∷ []

one_competition-IsFiled : All IsFiled one_competition
one_competition-IsFiled = (
  record {
    by_id = refl;
    seasons_by_id = (refl, (refl, tt));
    current = season_of "2026";
    has_current = refl;
  },
  tt,
)

missing_season : resolve_season one_competition "fifa-wc" (some "1930") ≡ none
unfolding resolve_season
missing_season = refl

none_ongoing : ongoing_competitions one_competition ≡ []
unfolding ongoing_competitions
none_ongoing = refl
