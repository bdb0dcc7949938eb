-- ===== src/Tables/Thirds/Ranking.antt =====
-- What the ranking of third-placed teams holds, and how many of them qualify.
use score_arc.Prelude.{
  ℕ, suc, pos, Bool, true, false, Option, none, some, List, [], ◌∷◌, ◌≡◌, refl, inl, inr, arith,
  ltb, ◌==◌, Bool-cases, get_elem?, find, any, All, map_idx_from, All-find, All-get, filter,
}
use score_arc.Prelude.Sort.{Collation, All-sort}
use score_arc.Model.{Standing, Group}
use score_arc.Tables.Thirds.{
  ThirdPlaceRow, collect, third_rows, tied_on_merit, untied, boundary_is_earned, ranked,
  compare_third, sorted_rows, third_placed_ranking,
}

-- A row without the place that the ranking gives it.
abbrev pub unplaced : ThirdPlaceRow → ThirdPlaceRow
unplaced row = record row { rank = 0; qualifies = false }

module _ (earned : Bool) where
  none_placed :
      (k : ℕ) (rows : List ThirdPlaceRow)
      → earned ≡ false
      → filter (λ r. r.qualifies) (map_idx_from (ranked earned) k rows) ≡ []
  none_placed k [] e = refl
  none_placed k (row ∷ rows) e = rw e (none_placed (suc k) rows e)

-- A team that has no match behind it.
abbrev pub IsIdle : Standing → Type 0
IsIdle s = (s.played ≡ 0) × (s.points ≡ pos 0) × (s.goal_difference ≡ pos 0) × (s.goals_for ≡ 0)

abbrev IsIdleRow : ThirdPlaceRow → Type 0
IsIdleRow s = (s.played ≡ 0) × (s.points ≡ pos 0) × (s.goal_difference ≡ pos 0) × (s.goals_for ≡ 0)

third_rows-IsIdle :
    (groups : List Group)
    → All (λ g. All IsIdle g.standings) groups
    → All IsIdleRow (third_rows groups)
unfolding third_rows
third_rows-IsIdle [] h = tt
third_rows-IsIdle (g ∷ groups) h =
    go (find (λ s. s.rank == 3) g.standings) (λ a e. All-find IsIdle _ g.standings h.0 e)
      (third_rows-IsIdle groups h.1)
  where
    go :
        (o : Option Standing)
        → ((a : Standing) → o ≡ some a → IsIdle a)
        → All IsIdleRow (third_rows groups)
        → All IsIdleRow (collect g o (third_rows groups))
    go none f ih = ih
    go (some third) f ih = (f third refl, ih)

none_played :
    (rows : List ThirdPlaceRow) → All IsIdleRow rows → any (λ row. ltb 0 row.played) rows ≡ false
none_played [] h = refl
none_played (row ∷ rows) h = ground (arith, none_played rows h.1)

idle_tied :
    (o p : Option ThirdPlaceRow)
    → untied o p ≡ true
    → ((a : ThirdPlaceRow) → o ≡ some a → IsIdleRow a)
    → ((a : ThirdPlaceRow) → p ≡ some a → IsIdleRow a)
    → ⊥
unfolding tied_on_merit
idle_tied none p h f g = cc
idle_tied (some a) none h f g = cc
idle_tied (some a) (some b) h f g = ground (arith, f a refl, g b refl)

idle_unearned : (rows : List ThirdPlaceRow) → All IsIdleRow rows → boundary_is_earned rows ≡ false
unfolding boundary_is_earned
idle_unearned rows h = elim (Bool-cases (untied (get_elem? rows 7) (get_elem? rows 8))) [
  | inl u ↦
      absurd (
        idle_tied _ _ u (λ a e. All-get IsIdleRow rows 7 h e) (λ a e. All-get IsIdleRow rows 8 h e))
  | inr u ↦ ground (arith, none_played rows h)
]

module _ (locale : Collation) (groups : List Group) where
  -- Before a group has played, however many groups there are, no team is marked as qualified.
  idle-none_qualify :
      All (λ g. All IsIdle g.standings) groups
      → filter (λ r. r.qualifies) (third_placed_ranking locale groups) ≡ []
  unfolding third_placed_ranking
  idle-none_qualify h =
      let rows = sorted_rows locale groups in
      none_placed _ 0 rows
        (idle_unearned rows (All-sort (compare_third locale) _ _ (third_rows-IsIdle groups h)))
