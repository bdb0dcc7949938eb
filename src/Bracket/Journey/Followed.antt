-- ===== src/Bracket/Journey/Followed.antt =====
-- What the journeys hold.
use score_arc.Prelude.{
  pos, ◌≤ℤ◌, String, Bool, not, ◌&&◌, any, has, Option, none, some, List, [], map, ◌≡◌, ◌≢◌, str_eq,
  All, IsDistinct,
}
use score_arc.Prelude.Sort.{Comparator, IsSorted, ascending}
use score_arc.Bracket.{Slot}
use score_arc.Bracket.Journey.{RingNode, TeamNodes, nodes_from, TeamJourney}

-- No node of the list stands deeper than the last.
abbrev pub EndsDeepest : Option RingNode → List RingNode → Type 0
EndsDeepest none nodes = ⊥
EndsDeepest (some n) nodes = All (λ m. ascending (λ n. pos n.depth) m n ≤ℤ pos 0) nodes

abbrev pub by_depth : Comparator RingNode
by_depth = ascending (λ n. pos n.depth)

pub record IsJourney (j : TeamJourney) : Type 0 where
  pub of_team : All (λ n. n.slot.team.id ≡ j.team_id) j.positions
  pub inward : IsSorted by_depth j.positions
  pub deepest : EndsDeepest j.deepest_node j.positions

-- The nodes pushed so far: all of the team, and not none.
abbrev OfTeam : TeamNodes → Type 0
OfTeam t = All (λ n. n.slot.team.id ≡ t.team_id) t.nodes × (t.nodes ≢ [])

abbrev ids : List TeamNodes → List String
ids teams = map (λ t. t.team_id) teams

-- A node of a team with an id.
abbrev pub stands_for : String → RingNode → Bool
stands_for k n = not n.slot.team.placeholder && str_eq n.slot.team.id k

-- What the journeys through the rings guarantee.
pub record IsFollowed (rings : List (List Slot)) (journeys : List TeamJourney) : Type 0 where
  pub journeys_hold : All IsJourney journeys
  pub one_each : IsDistinct (λ j. j.team_id) journeys
  pub complete :
      (k : String) → has k (map (λ j. j.team_id) journeys) ≡ any (stands_for k) (nodes_from 0 rings)
