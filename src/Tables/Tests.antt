-- ===== src/Tables/Tests.antt =====
-- Tests of the tables, and the theorems at sample inputs: here the third-placed teams.
mod Leagues
mod Bands
use score_arc.Prelude.{
  ℕ, ℤ, pos, ◌<ℤ◌, ◌-ℤ◌, String, Bool, true, false, Option, none, some, List, [], ◌∷◌, map, ◌≡◌,
  refl, ◌↔◌, filter, get_elem?, All, flat_map, arith,
}
use score_arc.Prelude.Sort.{sort}
use score_arc.Model.{
  Standing, Group, named, OverallTable, supporters_shield_overall, MatchState, Shootout,
}
use score_arc.Model.Samples.{by_first_letter, team, standing}
use score_arc.Tables.Thirds.{
  ThirdPlaceRow, third_rows, third_placed_ranking, compare_third, boundary_is_earned,
}
use score_arc.Tables.Thirds.Boundary.{merit, qualifies-better}
use score_arc.Tables.Thirds.Ranking.{IsIdle}

abbrev group_of : String → ℤ → ℕ → Group
group_of id points played = record {
  id = id;
  standings = standing "x" 1 played 1 (pos 1) (pos 9) ∷ standing id 3 played 1 (pos 1) points ∷ [];
  zones = none;
  title = named id;
}

-- Nine groups: the ninth third-placed team is a point behind the eighth.
abbrev nine_groups : List Group
nine_groups =
    group_of "A" (pos 4) 3
    ∷ group_of "B" (pos 3) 3
    ∷ group_of "C" (pos 4) 3
    ∷ group_of "D" (pos 4) 3
    ∷ group_of "E" (pos 4) 3
    ∷ group_of "F" (pos 4) 3
    ∷ group_of "G" (pos 4) 3
    ∷ group_of "H" (pos 4) 3
    ∷ group_of "I" (pos 6) 3
    ∷ []

thirds : Unit {0}
unfolding third_placed_ranking third_rows compare_third boundary_is_earned sort ◌-ℤ◌
thirds = tt

thirds_order :
    map (λ r. r.group_id) (third_placed_ranking by_first_letter nine_groups)
    ≡ "I" ∷ "A" ∷ "C" ∷ "D" ∷ "E" ∷ "F" ∷ "G" ∷ "H" ∷ "B" ∷ []
unfolding thirds
thirds_order = refl

thirds_tied :
    filter
      (λ r. r.qualifies)
      (third_placed_ranking by_first_letter
        (group_of "J" (pos 4) 3 ∷ group_of "K" (pos 4) 3 ∷ nine_groups))
    ≡ []
unfolding thirds
thirds_tied = refl

abbrev place : ℕ → String → ℤ → Bool → ThirdPlaceRow
place rank id points q = record {
  team = team id;
  group_id = id;
  played = 3;
  wins = 1;
  draws = 0;
  losses = 0;
  goals_for = 2;
  goal_difference = pos 1;
  points = points;
  rank = rank;
  qualifies = q;
}

At : (i : ℕ) (r : ThirdPlaceRow) → Type 0
At i r = get_elem? (third_placed_ranking by_first_letter nine_groups) i ≡ some r

eighth : At 7 (place 8 "H" (pos 4) true)
unfolding At thirds
eighth = refl

ninth : At 8 (place 9 "B" (pos 3) false)
unfolding At thirds
ninth = refl

qualifies-better_example : merit (place 8 "H" (pos 4) true) (place 9 "B" (pos 3) false) <ℤ pos 0
unfolding At
qualifies-better_example =
    qualifies-better by_first_letter nine_groups 7 8 (place 8 "H" (pos 4) true)
      (place 9 "B" (pos 3) false) eighth ninth refl refl

idle_row : String → ℕ → Standing
idle_row id rank = record {
  team = team id;
  rank = rank;
  played = 0;
  wins = 0;
  draws = 0;
  losses = 0;
  goals_for = 0;
  goals_against = 0;
  goal_difference = pos 0;
  points = pos 0;
  advanced = false;
}

abbrev idle_group : Group
idle_group = record {
  id = "A";
  standings = idle_row "x" 1 ∷ idle_row "y" 2 ∷ idle_row "z" 3 ∷ [];
  zones = none;
  title = named "A";
}
