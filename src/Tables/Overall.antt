-- ===== src/Tables/Overall.antt =====
-- The league-wide table merged from the conference tables: src/server/data/mlsTables.ts.
pub mod Laws
use score_arc.Prelude.{
  ℕ, ◌+◌, ℤ, pos, ◌-ℤ◌, String, Bool, true, false, Option, none, some, List, [], ◌∷◌, if◌then◌else◌,
  has, flat_map, map_idx_from,
}
use score_arc.Prelude.Sort.{Comparator, Collation, ◌or_else◌, sort}
use score_arc.Model.{Standing, Group, OverallTable, labelled}

unfoldable pub compare_by_mls_rules : Collation → Comparator Standing
compare_by_mls_rules locale a b =
    (b.points -ℤ a.points)
    or_else (pos b.wins -ℤ pos a.wins)
    or_else (b.goal_difference -ℤ a.goal_difference)
    or_else (pos b.goals_for -ℤ pos a.goals_for)
    or_else locale.compare_text a.team.name b.team.name

-- The filter that keeps the first row of each club; `seen` grows as it runs.
unfoldable pub first_rows : List String → List Standing → List Standing
first_rows seen [] = []
first_rows seen (s ∷ rows) =
    let kept = s ∷ first_rows (s.team.id ∷ seen) rows in
    let skipped = first_rows seen rows in if has s.team.id seen then skipped else kept

abbrev pub renumbered : ℕ → Standing → Standing
renumbered i s = record s { rank = i + 1 }

abbrev pub merge_rows : Collation → List Standing → OverallTable → Option Group
merge_rows locale [] config = none
merge_rows locale (s ∷ rows) config = some (record {
  id = config.id;
  title = labelled config.label_key;
  standings =
      map_idx_from renumbered 0 (sort (compare_by_mls_rules locale) (first_rows [] (s ∷ rows)));
  zones = config.zones;
})

unfoldable pub compute_overall_table : Collation → List Group → OverallTable → Option Group
unfolding compare_by_mls_rules first_rows
compute_overall_table locale groups config =
    merge_rows locale (flat_map (λ g. g.standings) groups) config
