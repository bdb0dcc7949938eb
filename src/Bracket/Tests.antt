-- ===== src/Bracket/Tests.antt =====
-- Tests of the bracket, and the theorems at sample inputs.
use score_arc.Prelude.{
  ◌-ℤ◌, ℕ, String, false, Option, none, some, List, [], ◌∷◌, map, ◌≡◌, refl, All,
}
use score_arc.Prelude.Sort.{sort}
use score_arc.Model.{BracketTeam, BracketMatch, BracketRound, KnockoutRoundSlug, MatchState}
use score_arc.Bracket.{BracketMode, Picks, winner_team, effective_winner, is_decidable}
use score_arc.Bracket.Leaves.{
  Seeds, set_size, index_from, seed_indices, leaf_order_from_seeds, leaf_index, unfold_tree,
  derive_leaf_order,
}
use score_arc.Bracket.Leaves.Order.{IsOrdering}
use score_arc.Bracket.Rings.Once.{leaf_order-IsOrdering}
use score_arc.Bracket.Journey.{nodes_from, push_node, collect_teams, team_journey}
use score_arc.Bracket.Rings.{
  leaf_order, BracketShape, leaf_slots, advancing, ring_slot, ring_slots, inner_rings, build_rings,
}
use score_arc.Bracket.Rings.Lawful.{IsLawful, build_rings-IsLawful}

abbrev side : String → BracketTeam
side id = record { id = id; name = id; abbr = id; crest_url = none; placeholder = false }

abbrev tie : KnockoutRoundSlug → String → String → Option String → BracketMatch
tie slug home away winner = record {
  id = home;
  round = slug;
  kickoff = "";
  home = side home;
  away = side away;
  home_score = none;
  away_score = none;
  state = MatchState.scheduled;
  status_detail = "";
  status_name = "";
  minute = none;
  winner_id = winner;
  note = none;
}

-- The second semi-final is listed first.
abbrev semifinals : List BracketMatch
semifinals =
    tie KnockoutRoundSlug.semifinals "C" "D" (some "C")
    ∷ tie KnockoutRoundSlug.semifinals "A" "B" (some "A")
    ∷ []

abbrev rounds : List BracketRound
rounds =
    record { slug = KnockoutRoundSlug.semifinals; matches = semifinals }
    ∷ record {
      slug = KnockoutRoundSlug.final;
      matches = tie KnockoutRoundSlug.final "A" "C" none ∷ [];
    }
    ∷ []

abbrev slugs : List KnockoutRoundSlug
slugs = KnockoutRoundSlug.semifinals ∷ KnockoutRoundSlug.final ∷ []

abbrev shape : BracketShape
shape = record { knockout_rounds = slugs; bracket_order = none }

abbrev no_picks : Picks
no_picks depth i = none

abbrev upper : String → String
upper s = s

abbrev digits : ℕ → String
digits n = "0"

rings : Unit {0}
unfolding winner_team effective_winner is_decidable set_size index_from seed_indices
    leaf_order_from_seeds leaf_index unfold_tree derive_leaf_order leaf_slots advancing ring_slot
    ring_slots inner_rings build_rings nodes_from push_node collect_teams team_journey sort ◌-ℤ◌
rings = tt

derived_order : derive_leaf_order rounds slugs ≡ 1 ∷ 0 ∷ []
unfolding rings
derived_order = refl

ring_teams :
    map (map (λ s. s.team.id)) (build_rings upper digits rounds shape no_picks BracketMode.live)
    ≡ ("A" ∷ "B" ∷ "C" ∷ "D" ∷ []) ∷ ("A" ∷ "C" ∷ []) ∷ []
unfolding rings
ring_teams = refl

abbrev seeds : List Seeds
seeds = record { first = "B"; second = "A" } ∷ record { first = "C"; second = "D" } ∷ []

seeded_order : leaf_order_from_seeds upper semifinals seeds ≡ 1 ∷ 0 ∷ []
unfolding rings
seeded_order = refl

leaf_order-IsOrdering_example : IsOrdering 2 (leaf_order upper rounds slugs semifinals (some seeds))
leaf_order-IsOrdering_example =
    leaf_order-IsOrdering upper rounds KnockoutRoundSlug.semifinals (KnockoutRoundSlug.final ∷ [])
      (some seeds)

build_rings-IsLawful_example :
    All
      (All (IsLawful BracketMode.live))
      (build_rings upper digits rounds shape no_picks BracketMode.live)
build_rings-IsLawful_example =
    build_rings-IsLawful upper digits rounds shape no_picks BracketMode.live

journey_teams :
    map
      (λ j. j.team_id)
      (team_journey (build_rings upper digits rounds shape no_picks BracketMode.live))
    ≡ "A" ∷ "B" ∷ "C" ∷ "D" ∷ []
unfolding rings
journey_teams = refl
