-- ===== src/Model.antt =====
-- The data model: src/server/data/types.ts and the types of src/server/data/competitions.ts.
-- An optional field and `null` are `Option`. Enrichment of a match by its summary (scorers,
-- cards, statistics, odds, the kick-by-kick shootout) is left out: no modelled operation reads it.
pub mod Samples
pub mod Registry
mod Tests
use score_arc.Prelude.{ℕ, ℤ, String, Bool, Option, List, ◌≡◌, arith}

pub data MatchState : Type 0 where
  scheduled live finished : MatchState

pub record Team : Type 0 where
  pub id : String
  pub name : String
  pub abbr : String
  pub crest_url : Option String

pub record Shootout : Type 0 where
  pub home_score : ℕ
  pub away_score : ℕ

pub record Scope : Type 0 where
  pub competition_id : String
  pub season_id : String

pub record Match : Type 0 where
  pub id : String
  pub scope : Option Scope
  pub kickoff : String
  pub state : MatchState
  pub minute : Option String
  pub status_detail : String
  pub status_name : String
  pub home : Team
  pub away : Team
  pub home_score : Option ℕ
  pub away_score : Option ℕ
  pub winner_id : Option String
  pub note : Option String
  pub shootout : Option Shootout

pub record Standing : Type 0 where
  pub team : Team
  pub rank : ℕ
  pub played : ℕ
  pub wins : ℕ
  pub draws : ℕ
  pub losses : ℕ
  pub goals_for : ℕ
  pub goals_against : ℕ
  pub goal_difference : ℤ
  pub points : ℤ
  pub advanced : Bool

pub data ZoneKind : Type 0 where
  champion ucl uel uecl playoff wildcard promotion relegation_playoff relegation : ZoneKind

pub data ZoneLabelKey : Type 0 where
  champion champions_league champions_league_qualifying europa_league conference_league :
      ZoneLabelKey
  championship_playoff european_playoff relegation relegation_playoff : ZoneLabelKey
  mls_champions_cup mls_round_one wild_card supporters_shield promotion : ZoneLabelKey

pub record Zone : Type 0 where
  pub from : ℕ
  pub to : ℕ
  pub kind : ZoneKind
  pub label_key : ZoneLabelKey

pub data OverallTableLabelKey : Type 0 where
  supporters_shield_overall : OverallTableLabelKey

-- A table has a `name` or a `labelKey`, never both.
pub data GroupTitle : Type 0 where
  named : String → GroupTitle
  labelled : OverallTableLabelKey → GroupTitle

pub record Group : Type 0 where
  pub id : String
  pub standings : List Standing
  pub zones : Option (List Zone)
  pub title : GroupTitle

pub data KnockoutRoundSlug : Type 0 where
  round_of_32 round_of_16 quarterfinals semifinals third_place_match final : KnockoutRoundSlug

pub record BracketTeam : Type 0 where
  pub id : String
  pub name : String
  pub abbr : String
  pub crest_url : Option String
  pub placeholder : Bool

pub record BracketMatch : Type 0 where
  pub id : String
  pub round : KnockoutRoundSlug
  pub kickoff : String
  pub home : BracketTeam
  pub away : BracketTeam
  pub home_score : Option ℕ
  pub away_score : Option ℕ
  pub state : MatchState
  pub status_detail : String
  pub status_name : String
  pub minute : Option String
  pub winner_id : Option String
  pub note : Option String

pub record BracketRound : Type 0 where
  pub slug : KnockoutRoundSlug
  pub matches : List BracketMatch

pub record OverallTable : Type 0 where
  pub id : String
  pub label_key : OverallTableLabelKey
  pub zones : Option (List Zone)

pub record GroupLabels : Type 0 where
  pub primary : String
  pub split : String

pub record ComputedTables : Type 0 where
  pub dates_range : String
  pub cut : ℕ
  pub group_labels : GroupLabels

abbrev pub scheduled_b : MatchState → Bool
scheduled_b MatchState.scheduled = Bool.true
scheduled_b _ = Bool.false

abbrev pub live_b : MatchState → Bool
live_b MatchState.live = Bool.true
live_b _ = Bool.false

abbrev pub finished_b : MatchState → Bool
finished_b MatchState.finished = Bool.true
finished_b _ = Bool.false

pub finished_b→eq : (s : MatchState) → finished_b s ≡ Bool.true → s ≡ MatchState.finished
finished_b→eq s h = ground arith
