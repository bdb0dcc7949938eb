-- ===== src/Tables/Derived.antt =====
-- Tables derived from the reader's responses: src/server/data/derivedStandings.ts.
pub mod Evidence
pub mod Honest
use Prim.Native.String
use Prim.Native.Nat.{Ordering}
use score_arc.Prelude.{
  ℕ, ℤ, pos, negsuc, String, Bool, true, false, not, ◌&&◌, ◌||◌, Option, none, some, List, [], ◌∷◌,
  ◌++◌, map, if◌then◌else◌, ◌==◌, eqb_ℤ, str_eq, has, filter, flat_map,
}
use score_arc.Prelude.Sort.{Comparator, Collation, sort}
use score_arc.Model.{
  Standing, Group, GroupTitle, named, labelled, OverallTable, ComputedTables, Shootout, finished_b,
}
use score_arc.Tables.Overall.{compute_overall_table}
use score_arc.Tables.Phase.{PhaseMatch, configured_phase_tables}

pub record Membership : Type 0 where
  pub primary : List Group
  pub split : List Group

pub record ReaderStandingsInputs : Type 0 where
  pub standings : List Group
  pub phase_matches : Option (List PhaseMatch)
  pub membership : Option Membership

-- What the derivation reads of a season.
pub record SeasonTables : Type 0 where
  pub computed_tables : Option ComputedTables
  pub overall_table : Option OverallTable

pub record Sides : Type 0 where
  pub kickoff : String
  pub home_id : String
  pub away_id : String

pub data DerivedIssue : Type 0 where
  missing_shootout incomplete_score : Sides → DerivedIssue
  unclassified_team conflicting_row : (team_id : String) → DerivedIssue

pub data Status : Type 0 where
  complete partial unavailable : Status

pub record DerivedStandings : Type 0 where
  pub status : Status
  pub groups : List Group
  pub issues : List DerivedIssue

abbrev pub status_of : List DerivedIssue → Status
status_of [] = complete
status_of (i ∷ issues) = partial

abbrev pub result : List Group → List DerivedIssue → DerivedStandings
result groups issues = record { status = status_of issues; groups = groups; issues = issues }

abbrev pub unavailable_result : DerivedStandings
unavailable_result = record { status = unavailable; groups = []; issues = [] }

-- The default order of `sort()` on ids.
abbrev pub id_order : Comparator String
id_order a b = elim (String.compare a b) [
  | Ordering.lt ↦ negsuc 0
  | Ordering.eq ↦ pos 0
  | Ordering.gt ↦ pos 1
]

-- Two rows with one joined text of their eight numbers.
unfoldable pub same_record : Standing → Standing → Bool
same_record a b =
    (a.played == b.played)
    && (a.wins == b.wins)
    && (a.draws == b.draws)
    && (a.losses == b.losses)
    && (a.goals_for == b.goals_for)
    && (a.goals_against == b.goals_against)
    && eqb_ℤ a.goal_difference b.goal_difference
    && eqb_ℤ a.points b.points

abbrev pub member_ids : List Group → List String
member_ids groups = flat_map (λ g. map (λ s. s.team.id) g.standings) groups

-- `add` of a set.
abbrev pub add : String → List String → List String
add id ids = if has id ids then ids else ids ++ id ∷ []

abbrev pub sides_of : PhaseMatch → Sides
sides_of m = record { kickoff = m.kickoff; home_id = m.home.id; away_id = m.away.id }

abbrev pub no_shootout : Option Shootout → Bool
no_shootout none = true
no_shootout (some so) = so.home_score == so.away_score

module _ (mls liga_mx : List String) where
  -- In both sets or in neither.
  abbrev pub unplaced_id : String → Bool
  unplaced_id id = if has id mls then has id liga_mx else not (has id liga_mx)

  abbrev pub note_id : String → List String → List String
  note_id id ids = if unplaced_id id then add id ids else ids

  abbrev pub score_issues : PhaseMatch → Option ℕ → Option ℕ → List DerivedIssue
  score_issues m (some hs) (some aws) =
      if (hs == aws) && no_shootout m.shootout then missing_shootout (sides_of m) ∷ [] else []
  score_issues m _ _ = incomplete_score (sides_of m) ∷ []

  abbrev pub score_unplaced : PhaseMatch → Option ℕ → Option ℕ → List String → List String
  score_unplaced m (some hs) (some aws) ids = note_id m.away.id (note_id m.home.id ids)
  score_unplaced m _ _ ids = ids

  -- What one round of the loop over the matches pushes, and the set of clubs that it leaves.
  unfoldable pub issues_of : PhaseMatch → List DerivedIssue
  issues_of m = if finished_b m.state then score_issues m m.home_score m.away_score else []

  unfoldable pub unplaced_after : PhaseMatch → List String → List String
  unplaced_after m ids =
      if finished_b m.state then score_unplaced m m.home_score m.away_score ids else ids

  unfoldable pub unplaced_clubs : List PhaseMatch → List String → List String
  unplaced_clubs [] ids = ids
  unplaced_clubs (m ∷ matches) ids = unplaced_clubs matches (unplaced_after m ids)

  unfoldable pub phase_issues : List PhaseMatch → List DerivedIssue
  unfolding issues_of unplaced_after unplaced_clubs
  phase_issues matches =
      flat_map issues_of matches
      ++ map unclassified_team (sort id_order (unplaced_clubs matches []))

-- `membership.length` on both sides.
abbrev pub both_sides : List Group → List Group → Bool
both_sides (p ∷ primary) (s ∷ split) = true
both_sides _ _ = false

abbrev pub is_provider : OverallTable → Group → Bool
is_provider overall g = elim g.title [
  | named name ↦ not (str_eq g.id overall.id)
  | labelled key ↦ false
]

abbrev pub first_of_club : String → List Standing → Option Standing
first_of_club id [] = none
first_of_club id (s ∷ rows) = if str_eq s.team.id id then some s else first_of_club id rows

abbrev pub disagrees : Option Standing → Standing → Bool
disagrees none s = false
disagrees (some t) s = not (same_record t s)

-- The clubs with a later row that differs from their first, in the order found. `seen` are the
-- rows before.
unfoldable pub conflicts : List Standing → List Standing → List String → List String
unfolding same_record
conflicts seen [] found = found
conflicts seen (s ∷ rows) found =
    conflicts (seen ++ s ∷ []) rows
      (if disagrees (first_of_club s.team.id seen) s then add s.team.id found else found)

abbrev pub with_merged : List Group → Option Group → DerivedStandings
with_merged provider none = unavailable_result
with_merged provider (some merged) =
    result (provider ++ merged ∷ [])
      (map conflicting_row (sort id_order (conflicts [] (flat_map (λ g. g.standings) provider) [])))

module _ (locale : Collation) where
  abbrev pub derive_computed :
      ComputedTables → Option (List PhaseMatch) → Option Membership → DerivedStandings
  derive_computed computed (some matches) (some m) =
      if both_sides m.primary m.split
      then result
          (configured_phase_tables locale matches computed (member_ids m.split)
            (some (member_ids m.primary)))
          (phase_issues (member_ids m.primary) (member_ids m.split) matches)
      else unavailable_result
  derive_computed computed _ _ = unavailable_result

  abbrev pub derive_overall : Option OverallTable → List Group → DerivedStandings
  derive_overall none standings = result standings []
  derive_overall (some overall) standings =
      let provider = filter (is_provider overall) standings in
      with_merged provider (compute_overall_table locale provider overall)

  abbrev pub derive :
      Option ComputedTables → SeasonTables → ReaderStandingsInputs → DerivedStandings
  derive (some computed) season inputs =
      derive_computed computed inputs.phase_matches inputs.membership
  derive none season inputs = derive_overall season.overall_table inputs.standings

  unfoldable pub derive_reader_standings : SeasonTables → ReaderStandingsInputs → DerivedStandings
  unfolding phase_issues conflicts
  derive_reader_standings season inputs = derive season.computed_tables season inputs
