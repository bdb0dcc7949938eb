-- ===== src/Tables/Overall/Laws.antt =====
-- What the merged table holds.
use mathlib.Core.List.Perm
use mathlib.Core.List.{Perm}
use score_arc.Prelude.{
  String, none, List, [], ◌∷◌, map, ◌≡◌, refl, ◌↔◌, has, flat_map, map_idx_from, IsDistinct,
  IsNumbered,
}
use score_arc.Prelude.Sort.{Collation, sort, IsSorted}
use score_arc.Model.{Standing, Group, OverallTable}
use score_arc.Tables.Overall.{
  compare_by_mls_rules, first_rows, renumbered, merge_rows, compute_overall_table,
}

abbrev pub ids : List Standing → List String
ids rows = map (λ s. s.team.id) rows

-- A row without its place.
abbrev pub unnumbered : Standing → Standing
unnumbered s = record s { rank = 0 }

-- What the merge of `rows` into the table `g` guarantees.
pub record IsMerged (locale : Collation) (rows : List Standing) (g : Group) : Type 0 where
  pub same_records : Perm (map unnumbered g.standings) (map unnumbered (first_rows [] rows))
  pub one_row_each : IsDistinct (λ s. s.team.id) g.standings
  pub same_clubs : (k : String) → has k (ids g.standings) ≡ has k (ids rows)
  pub numbered : IsNumbered (λ s. s.rank) 0 g.standings
  pub in_order : IsSorted (compare_by_mls_rules locale) g.standings

module _ (locale : Collation) (rows : List Standing) where
  merged : List Standing
  merged = map_idx_from renumbered 0 (sort (compare_by_mls_rules locale) (first_rows [] rows))

-- There is no table exactly when no given table has a row.
pub compute_overall_table-none_iff :
    (locale : Collation) (groups : List Group) (config : OverallTable)
    → (compute_overall_table locale groups config ≡ none)
      ↔ (flat_map (λ t. t.standings) groups ≡ [])
unfolding compute_overall_table
compute_overall_table-none_iff locale groups config =
    let rows = flat_map (λ t. t.standings) groups in none_iff rows
  where
    none_iff : (rows : List Standing) → (merge_rows locale rows config ≡ none) ↔ (rows ≡ [])
    none_iff [] = ((λ e. refl), (λ e. refl))
    none_iff (s ∷ rows) = ((λ e. cc), (λ e. cc))
