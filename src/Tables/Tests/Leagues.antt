-- ===== src/Tables/Tests/Leagues.antt =====
-- The league tables at sample inputs: MLS's overall table, the Leagues Cup and the Liguilla.
use score_arc.Prelude.{ℕ, pos, String, Option, none, some, List, [], ◌∷◌, map, ◌-ℤ◌, ◌≡◌, refl, All}
use score_arc.Prelude.Sort.{sort}
use score_arc.Model.{
  Standing, Group, named, OverallTable, supporters_shield_overall, MatchState, Shootout,
  ComputedTables,
}
use score_arc.Model.Samples.{by_first_letter, team, standing}
use score_arc.Tables.Overall.{compute_overall_table, compare_by_mls_rules, first_rows}
use score_arc.Tables.Phase.{
  PhaseMatch, row_for, modify, tally_match, tally, compare_rows, rank, in_mls, in_liga_mx,
  compute_phase_tables, configured_phase_tables,
}
use score_arc.Tables.Phase.Totals.{IsBalanced, count_if, is_counted, lacks_shootout, tally-balance}
use score_arc.Tables.Phase.Split.{IsPhaseTable, compute_phase_tables-IsPhaseTable}
use score_arc.Tables.Derived.{
  SeasonTables, ReaderStandingsInputs, complete, issues_of, unplaced_after, unplaced_clubs,
  phase_issues, derive_reader_standings,
}
use score_arc.Tables.Derived.Honest.{IsWhole, derive_reader_standings-IsWhole}

abbrev table_of : String → List Standing → Group
table_of id rows = record { id = id; standings = rows; zones = none; title = named id }

-- Two conferences that both list "B".
abbrev conferences : List Group
conferences =
    table_of "East" (standing "A" 1 3 1 (pos 0) (pos 4) ∷ standing "B" 2 3 0 (pos 0) (pos 2) ∷ [])
    ∷ table_of "West" (standing "C" 1 3 2 (pos 3) (pos 6) ∷ standing "B" 2 3 0 (pos 0) (pos 2) ∷ [])
    ∷ []

abbrev shield : OverallTable
shield = record { id = "overall"; label_key = supporters_shield_overall; zones = none }

merge : Unit {0}
unfolding compute_overall_table compare_by_mls_rules first_rows sort ◌-ℤ◌
merge = tt

abbrev shield_group : Group
shield_group = elim (compute_overall_table by_first_letter conferences shield) [
  | some g ↦ g
  | none ↦ table_of "none" []
]

shield_order : map (λ s. s.team.id) shield_group.standings ≡ "C" ∷ "A" ∷ "B" ∷ []
unfolding merge
shield_order = refl

abbrev phase_match : String → String → ℕ → ℕ → Option Shootout → PhaseMatch
phase_match home away a b so = record {
  kickoff = "2025-08-01T00:00Z";
  state = MatchState.finished;
  home = team home;
  away = team away;
  home_score = some a;
  away_score = some b;
  shootout = so;
}

abbrev phase : List PhaseMatch
phase =
    phase_match "A" "X" 2 1 none
    ∷ phase_match "Y" "B" 0 0 (some (record { home_score = 4; away_score = 3 }))
    ∷ []

phases : Unit {0}
unfolding row_for modify tally_match tally compare_rows rank in_mls in_liga_mx compute_phase_tables
    sort ◌-ℤ◌
phases = tt

phase_order :
    map
      (λ g. map (λ s. s.team.id) g.standings)
      (compute_phase_tables by_first_letter phase ("X" ∷ "Y" ∷ []) 1 none)
    ≡ ("A" ∷ "B" ∷ []) ∷ ("Y" ∷ "X" ∷ []) ∷ []
unfolding phases
phase_order = refl

tally-balance_example :
    IsBalanced (count_if is_counted phase) (count_if lacks_shootout phase) (tally phase [])
tally-balance_example = tally-balance phase

compute_phase_tables-IsPhaseTable_example :
    All
      (IsPhaseTable by_first_letter phase ("X" ∷ "Y" ∷ []) 1 none)
      (compute_phase_tables by_first_letter phase ("X" ∷ "Y" ∷ []) 1 none)
compute_phase_tables-IsPhaseTable_example =
    compute_phase_tables-IsPhaseTable by_first_letter phase ("X" ∷ "Y" ∷ []) 1 none

abbrev seeded_tables : List Group
seeded_tables =
    table_of "mls" (standing "A" 1 3 1 (pos 0) (pos 4) ∷ standing "B" 2 3 0 (pos 0) (pos 2) ∷ [])
    ∷ table_of "liga-mx"
        (standing "X" 1 3 2 (pos 3) (pos 6) ∷ standing "Y" 2 3 0 (pos 0) (pos 2) ∷ [])
    ∷ []

abbrev place : String → ℕ → Standing
place id rank = standing id rank 3 1 (pos 0) (pos 4)

abbrev apertura : List Group
apertura =
    table_of "general" (
      place "A" 1
      ∷ place "B" 2
      ∷ place "C" 3
      ∷ place "D" 4
      ∷ place "E" 5
      ∷ place "F" 6
      ∷ place "G" 7
      ∷ place "H" 8
      ∷ place "I" 9
      ∷ [])
    ∷ []

abbrev leagues_cup : ComputedTables
leagues_cup = record {
  dates_range = "20250729-20250807";
  cut = 1;
  group_labels = record { primary = "MLS"; split = "Liga MX" };
}

abbrev season : SeasonTables
season = record { computed_tables = some leagues_cup; overall_table = none }

abbrev inputs : ReaderStandingsInputs
inputs = record {
  standings = [];
  phase_matches = some phase;
  membership = some (record {
    primary =
        table_of "East"
          (standing "A" 1 3 1 (pos 0) (pos 4) ∷ standing "B" 2 3 0 (pos 0) (pos 2) ∷ [])
        ∷ [];
    split =
        table_of "Liga MX"
          (standing "X" 1 3 2 (pos 3) (pos 6) ∷ standing "Y" 2 3 0 (pos 0) (pos 2) ∷ [])
        ∷ [];
  });
}

derived : Unit {0}
unfolding phases configured_phase_tables issues_of unplaced_after unplaced_clubs phase_issues
    derive_reader_standings
derived = tt

derived_complete : (derive_reader_standings by_first_letter season inputs).status ≡ complete
unfolding derived
derived_complete = refl

derive_reader_standings-IsWhole_example :
    IsWhole phase (derive_reader_standings by_first_letter season inputs).groups
derive_reader_standings-IsWhole_example =
    derive_reader_standings-IsWhole by_first_letter season inputs leagues_cup phase refl refl
      derived_complete
