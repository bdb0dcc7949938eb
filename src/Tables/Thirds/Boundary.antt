-- ===== src/Tables/Thirds/Boundary.antt =====
-- The cut between the qualifying places and the rest is earned on the criteria.
use score_arc.Prelude.{
  ℕ, ◌<◌, ◌≤◌, pos, ◌≤ℤ◌, ◌<ℤ◌, ◌-ℤ◌, true, false, Option, none, some, List, ◌≡◌, refl, ap, ◌∙◌,
  arith, and_split, and_false, ltb→lt, ltb-false→le, length, get_elem?, get-map_idx, lt_of_get,
}
use score_arc.Prelude.Sort.{
  Comparator, Collation, IsOrder, ◌or_else◌, IsSorted, sort-IsSorted, descending-IsOrder,
  then_by-IsOrder, view-IsOrder, IsSorted-get, IsSorted-imp, strict_chain,
}
use score_arc.Model.{Group}
use score_arc.Tables.Thirds.{
  ThirdPlaceRow, qualifying_thirds, third_rows, tied_on_merit, untied, boundary_is_earned, ranked,
  compare_third, sorted_rows, third_placed_ranking,
}

-- The numeric criteria alone: points, goal difference, goals scored. Below zero: `a` is better.
abbrev pub merit : Comparator ThirdPlaceRow
merit a b =
    (b.points -ℤ a.points)
    or_else (b.goal_difference -ℤ a.goal_difference)
    or_else (pos b.goals_for -ℤ pos a.goals_for)

merit-IsOrder : IsOrder merit
merit-IsOrder = then_by-IsOrder (descending-IsOrder (λ r. r.points)) (
    then_by-IsOrder (descending-IsOrder (λ r. r.goal_difference))
      (descending-IsOrder (λ r. pos r.goals_for)))

tied_of_merit :
    (a b : ThirdPlaceRow) → tied_on_merit a b ≡ false → merit a b ≤ℤ pos 0 → merit a b <ℤ pos 0
unfolding tied_on_merit ◌-ℤ◌
tied_of_merit a b t h = ground arith

module _ (locale : Collation) where
  compare_third-IsOrder : IsOrder (compare_third locale)
  unfolding compare_third
  compare_third-IsOrder = then_by-IsOrder (descending-IsOrder (λ r. r.points)) (
      then_by-IsOrder (descending-IsOrder (λ r. r.goal_difference)) (
        then_by-IsOrder (descending-IsOrder (λ r. pos r.goals_for))
          (view-IsOrder (λ r. r.group_id) locale.is_order)))

  merit_of_compare : (a b : ThirdPlaceRow) → compare_third locale a b ≤ℤ pos 0 → merit a b ≤ℤ pos 0
  unfolding compare_third
  merit_of_compare a b h = ground arith

  pub sorted_rows-IsSorted : (groups : List Group) → IsSorted merit (sorted_rows locale groups)
  sorted_rows-IsSorted groups =
      IsSorted-imp (compare_third locale) merit merit_of_compare _
        (sort-IsSorted (compare_third locale) compare_third-IsOrder (third_rows groups))

untied_split :
    (o p : Option ThirdPlaceRow)
    → untied o p ≡ true
    → (a : ThirdPlaceRow) × (b : ThirdPlaceRow) × (o ≡ some a)
      × (p ≡ some b)
      × (tied_on_merit a b ≡ false)
untied_split none p h = cc
untied_split (some a) none h = cc
untied_split (some a) (some b) h = (a, b, refl, refl, ground arith)

earned_split :
    (rows : List ThirdPlaceRow)
    → boundary_is_earned rows ≡ true
    → qualifying_thirds < length rows
    → untied (get_elem? rows 7) (get_elem? rows 8) ≡ true
unfolding boundary_is_earned
earned_split rows h more = ground arith

-- Across an earned boundary the criteria separate every row above from every row below.
separated :
    (rows : List ThirdPlaceRow) (i j : ℕ) (a b : ThirdPlaceRow)
    → IsSorted merit rows
    → boundary_is_earned rows ≡ true
    → get_elem? rows i ≡ some a
    → get_elem? rows j ≡ some b
    → i < 8
    → 8 ≤ j
    → merit a b <ℤ pos 0
separated rows i j a b s earned ea eb hi hj =
    let (x, y, ex, ey, t) =
      untied_split _ _ (earned_split rows earned (omega (arith, lt_of_get rows j eb))) in
    let o : IsOrder merit = merit-IsOrder in
    let above = IsSorted-get o rows i 7 s (omega arith) ea ex in
    let cut = tied_of_merit x y t (IsSorted-get o rows 7 8 s (omega arith) ex ey) in
    let below = IsSorted-get o rows 8 j s hj ey eb in strict_chain o a x y b above cut below

module _ (locale : Collation) (groups : List Group) where
  ranking_row :
      (i : ℕ) {a : ThirdPlaceRow}
      → get_elem? (third_placed_ranking locale groups) i ≡ some a
      → (r : ThirdPlaceRow) × (get_elem? (sorted_rows locale groups) i ≡ some r)
        × (ranked (boundary_is_earned (sorted_rows locale groups)) i r ≡ a)
  unfolding third_placed_ranking
  ranking_row i e = get-map_idx _ (sorted_rows locale groups) i e

  -- A team that the ranking lets through is strictly better on the numeric criteria (points, then
  -- goal difference, then goals) than every team that it leaves out: the order of the groups'
  -- names never decides a place.
  pub qualifies-better :
      (i j : ℕ) (a b : ThirdPlaceRow)
      → get_elem? (third_placed_ranking locale groups) i ≡ some a
      → get_elem? (third_placed_ranking locale groups) j ≡ some b
      → a.qualifies ≡ true
      → b.qualifies ≡ false
      → merit a b <ℤ pos 0
  qualifies-better i j a b ea eb qa qb =
      let (r, er, sr) = ranking_row i ea in
      let (t, et, st) = ranking_row j eb in
      let rows = sorted_rows locale groups in
      let (earned, hi) = and_split _ _ (ap (λ x. x.qualifies) sr ∙ qa) in
      let hj = and_false _ _ earned (ap (λ x. x.qualifies) st ∙ qb) in
      rw (← sr, ← st)
        (separated rows i j r t (sorted_rows-IsSorted locale groups) earned er et (ltb→lt _ _ hi)
          (ltb-false→le _ _ hj))
