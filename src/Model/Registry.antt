-- ===== src/Model/Registry.antt =====
-- The registry of competitions: the interfaces and lookups of src/server/data/competitions.ts. A
-- record by id is a list of pairs; its data is an argument.
pub mod Resolved
use score_arc.Prelude.{
  ℕ, String, Bool, true, false, not, Option, none, some, List, [], ◌∷◌, map, filter, if◌then◌else◌,
  str_eq,
}
use score_arc.Model.{Zone, OverallTable, ComputedTables, KnockoutRoundSlug}

pub data CompetitionKind : Type 0 where
  national club : CompetitionKind

pub data TeamStyle : Type 0 where
  flag crest : TeamStyle

pub data Section : Type 0 where
  bracket standings scores news : Section

pub data ChampionTitleKey : Type 0 where
  world competition : ChampionTitleKey

pub data QualificationLabelKey : Type 0 where
  standings_liguilla round_knockout : QualificationLabelKey

pub record Qualification : Type 0 where
  pub cut : ℕ
  pub label_key : QualificationLabelKey

pub record Format : Type 0 where
  pub has_bracket : Bool
  pub has_groups : Bool
  pub has_third_place_race : Bool

pub record Season : Type 0 where
  pub id : String
  pub label : String
  pub concluded : Bool
  pub sections : List Section
  pub format : Format
  pub bracket_dates_range : Option String
  pub bracket_order : Option (List (String × String))
  pub knockout_rounds : Option (List KnockoutRoundSlug)
  -- `projection: 'liguilla'`.
  pub projects_liguilla : Bool
  pub qualification : Option Qualification
  pub zones : Option (List Zone)
  pub rounds : Option ℕ
  pub overall_table : Option OverallTable
  pub computed_tables : Option ComputedTables

pub record Accent : Type 0 where
  pub base : String
  pub bright : String
  pub soft : String

pub record Competition : Type 0 where
  pub id : String
  pub name : String
  pub short_name : String
  pub espn_slug : String
  pub kind : CompetitionKind
  pub team_style : TeamStyle
  pub emblem : String
  pub logo : Option String
  pub logo_invert : Bool
  pub trophy_image : Option String
  pub champion_title_key : Option ChampionTitleKey
  pub bracket_accent : Option String
  pub accent : Accent
  pub current_season_id : String
  pub seasons : List (String × Season)

pub record CompetitionSeason : Type 0 where
  pub competition : Competition
  pub season : Season

-- `Object.hasOwn(record, key) ? record[key] : undefined`.
abbrev pub own : {A : Type 0} → String → List (String × A) → Option A
own key [] = none
own key (entry ∷ entries) = if str_eq entry.0 key then some entry.1 else own key entries

abbrev pub Registry : Type 0
Registry = List (String × Competition)

abbrev pub get_competition : Registry → String → Option Competition
get_competition registry id = own id registry

abbrev pub list_competitions : Registry → List Competition
list_competitions registry = map (λ entry. entry.1) registry

abbrev pub is_concluded : Option Season → Bool
is_concluded none = false
is_concluded (some season) = season.concluded

unfoldable pub ongoing_competitions : Registry → List Competition
ongoing_competitions registry =
    filter (λ c. not (is_concluded (own c.current_season_id c.seasons)))
      (list_competitions registry)

abbrev pub season_id_or : Competition → Option String → String
season_id_or c none = c.current_season_id
season_id_or c (some id) = id

abbrev pub with_season : Competition → Option Season → Option CompetitionSeason
with_season c none = none
with_season c (some season) = some (record { competition = c; season = season })

abbrev pub in_competition : Option String → Option Competition → Option CompetitionSeason
in_competition season_id none = none
in_competition season_id (some c) = with_season c (own (season_id_or c season_id) c.seasons)

unfoldable pub resolve_season : Registry → String → Option String → Option CompetitionSeason
resolve_season registry comp_id season_id =
    in_competition season_id (get_competition registry comp_id)
