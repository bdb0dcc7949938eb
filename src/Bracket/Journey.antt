-- ===== src/Bracket/Journey.antt =====
-- A team's way through the rings: `teamJourney` of src/components/radialBracketModel.ts, over the
-- nodes without their coordinates.
pub mod Followed
use score_arc.Prelude.{
  ℕ, suc, pos, String, Bool, true, false, Option, none, some, List, [], ◌∷◌, ◌++◌, map,
  map_idx_from, if◌then◌else◌, str_eq, find,
}
use score_arc.Prelude.Sort.{ascending, sort}
use score_arc.Bracket.{Slot}

pub record RingNode : Type 0 where
  pub depth : ℕ
  pub index : ℕ
  pub slot : Slot

-- The nodes of the rings, ring by ring.
unfoldable pub nodes_from : ℕ → List (List Slot) → List RingNode
nodes_from depth [] = []
nodes_from depth (ring ∷ rings) =
    map_idx_from (λ i s. record { depth = depth; index = i; slot = s }) 0 ring
    ++ nodes_from (suc depth) rings

-- An entry of `byTeam`; the nodes are in order of their pushes.
pub record TeamNodes : Type 0 where
  pub team_id : String
  pub nodes : List RingNode

unfoldable pub push_node : RingNode → List TeamNodes → List TeamNodes
push_node n [] = record { team_id = n.slot.team.id; nodes = n ∷ [] } ∷ []
push_node n (t ∷ teams) =
    let rest = push_node n teams in
    if str_eq t.team_id n.slot.team.id
    then record t { nodes = t.nodes ++ (n ∷ []) } ∷ teams
    else t ∷ rest

abbrev pub push_real : Bool → RingNode → List TeamNodes → List TeamNodes
push_real true n teams = teams
push_real false n teams = push_node n teams

unfoldable pub collect_teams : List RingNode → List TeamNodes → List TeamNodes
unfolding push_node
collect_teams [] teams = teams
collect_teams (n ∷ nodes) teams = collect_teams nodes (push_real n.slot.team.placeholder n teams)

pub record TeamJourney : Type 0 where
  pub team_id : String
  pub positions : List RingNode
  pub eliminated_at_depth : Option ℕ
  -- `undefined` for no nodes.
  pub deepest_node : Option RingNode

abbrev pub depth_of : Option RingNode → Option ℕ
depth_of none = none
depth_of (some n) = some n.depth

abbrev pub last_of : List RingNode → Option RingNode
last_of [] = none
last_of (n ∷ []) = some n
last_of (n ∷ m ∷ nodes) = last_of (m ∷ nodes)

abbrev pub journey_of : TeamNodes → TeamJourney
journey_of t =
    let nodes = sort (ascending (λ n. pos n.depth)) t.nodes in
    record {
      team_id = t.team_id;
      positions = nodes;
      eliminated_at_depth = depth_of (find (λ n. n.slot.eliminated) nodes);
      deepest_node = last_of nodes;
    }

unfoldable pub team_journey : List (List Slot) → List TeamJourney
unfolding nodes_from collect_teams
team_journey rings = map journey_of (collect_teams (nodes_from 0 rings) [])
