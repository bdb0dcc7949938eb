-- ===== src/Tables/Thirds.antt =====
-- The race of the third-placed teams: src/lib/standings.ts.
pub mod Boundary
pub mod Ranking
use score_arc.Prelude.{
  ℕ, ◌+◌, ◌-◌, ℤ, pos, String, Bool, true, false, ◌&&◌, ◌||◌, Option, none, some, List, [], ◌∷◌,
  ltb, leb, ◌==◌, if◌then◌else◌, eqb_ℤ, ◌-ℤ◌, length, get_elem?, find, any, map_idx_from,
}
use score_arc.Prelude.Sort.{Comparator, Collation, ◌or_else◌, sort}
use score_arc.Model.{Team, Standing, Group}

pub record ThirdPlaceRow : Type 0 where
  pub team : Team
  pub group_id : String
  pub played : ℕ
  pub wins : ℕ
  pub draws : ℕ
  pub losses : ℕ
  pub goals_for : ℕ
  pub goal_difference : ℤ
  pub points : ℤ
  pub rank : ℕ
  pub qualifies : Bool

abbrev pub qualifying_thirds : ℕ
qualifying_thirds = 8

-- One round of the loop that collects each group's row of rank 3.
abbrev pub collect : Group → Option Standing → List ThirdPlaceRow → List ThirdPlaceRow
collect group none rows = rows
collect group (some third) rows =
    record {
      team = third.team;
      group_id = group.id;
      played = third.played;
      wins = third.wins;
      draws = third.draws;
      losses = third.losses;
      goals_for = third.goals_for;
      goal_difference = third.goal_difference;
      points = third.points;
      rank = 0;
      qualifies = false;
    }
    ∷ rows

unfoldable pub third_rows : List Group → List ThirdPlaceRow
third_rows [] = []
third_rows (group ∷ groups) =
    collect group (find (λ s. s.rank == 3) group.standings) (third_rows groups)

unfoldable pub tied_on_merit : ThirdPlaceRow → ThirdPlaceRow → Bool
tied_on_merit a b =
    eqb_ℤ a.points b.points
    && eqb_ℤ a.goal_difference b.goal_difference
    && (a.goals_for == b.goals_for)

-- `!tiedOnMerit(rows[7], rows[8])`; both are there when there are more than eight rows.
abbrev pub untied : Option ThirdPlaceRow → Option ThirdPlaceRow → Bool
untied (some a) (some b) = if tied_on_merit a b then false else true
untied _ _ = false

unfoldable pub boundary_is_earned : List ThirdPlaceRow → Bool
unfolding tied_on_merit
boundary_is_earned rows =
    (leb (length rows) qualifying_thirds && any (λ row. ltb 0 row.played) rows)
    || (ltb qualifying_thirds (length rows)
        && untied (get_elem? rows (qualifying_thirds - 1)) (get_elem? rows qualifying_thirds))

abbrev pub ranked : Bool → ℕ → ThirdPlaceRow → ThirdPlaceRow
ranked earned i row = record row { rank = i + 1; qualifies = earned && ltb i qualifying_thirds }

module _ (locale : Collation) where
  unfoldable pub compare_third : Comparator ThirdPlaceRow
  compare_third a b =
      (b.points -ℤ a.points)
      or_else (b.goal_difference -ℤ a.goal_difference)
      or_else (pos b.goals_for -ℤ pos a.goals_for)
      or_else locale.compare_text a.group_id b.group_id

  abbrev pub sorted_rows : List Group → List ThirdPlaceRow
  sorted_rows groups = sort compare_third (third_rows groups)

  unfoldable pub third_placed_ranking : List Group → List ThirdPlaceRow
  unfolding boundary_is_earned
  third_placed_ranking groups =
      let rows = sorted_rows groups in map_idx_from (ranked (boundary_is_earned rows)) 0 rows
