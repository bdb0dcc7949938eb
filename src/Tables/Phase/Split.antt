-- ===== src/Tables/Phase/Split.antt =====
-- The two tables: who stands in them, in what order, and who advances.
use mathlib.Core.List.{append-nil}
use score_arc.Prelude.{
  ℕ, suc, pos, ◌≤ℤ◌, ◌-ℤ◌, sub_ℕ, String, Bool, true, false, ◌&&◌, ◌||◌, Option, none, some, List,
  [], ◌∷◌, ◌++◌, map, ◌≡◌, refl, sym, ap, ◌∙◌, ◌≢◌, ◌⊎◌, arith, leb, str_eq, eq_iff, Bool-cases,
  inl, inr, any, has, has-any, filter, All, All-filter, Pairs, IsDistinct, IsNumbered,
  map-map_idx_from, map_idx_from-IsNumbered, Pairs-map_idx_from, subst,
}
use score_arc.Prelude.Sort.{
  Comparator, Collation, IsOrder, ◌or_else◌, sort, IsSorted, sort-IsSorted, any-sort, Pairs-sort,
  descending-IsOrder, then_by-IsOrder, view-IsOrder,
}
use score_arc.Model.{Standing, Group, named}
use score_arc.Tables.Phase.{
  PhaseMatch, Row, has_row, tally, compare_rows, standing_of, rank, in_mls, in_liga_mx,
  mark_advanced, table, league_rows, compute_phase_tables,
}
use score_arc.Tables.Phase.Book.{Keyed}
use score_arc.Tables.Phase.Records.{tally-records}

-- Points, then goal difference, then goals. Below zero: `a` is better.
abbrev pub phase_merit : Comparator Standing
phase_merit a b =
    (b.points -ℤ a.points)
    or_else (b.goal_difference -ℤ a.goal_difference)
    or_else (pos b.goals_for -ℤ pos a.goals_for)

abbrev pub club_ids : List Standing → List String
club_ids rows = map (λ s. s.team.id) rows

-- What a league's table guarantees, of the rows that the matches gave.
pub record IsLeagueTable (member : String → Bool) (cut : ℕ) (rows : List Row)
    (standings : List Standing) : Type 0 where
  pub in_order : IsSorted phase_merit standings
  pub numbered : IsNumbered (λ s. s.rank) 0 standings
  pub one_row_each : IsDistinct (λ s. s.team.id) standings
  pub advancing : All (λ s. s.advanced ≡ leb s.rank cut) standings
  pub listed : (id : String) → has id (club_ids standings) ≡ (has_row id rows && member id)

sub_pos : (a b : ℕ) → pos a -ℤ pos b ≡ sub_ℕ a b
unfolding ◌-ℤ◌
sub_pos a b = ground arith

module _ (locale : Collation) where
  compare_rows-IsOrder : IsOrder (compare_rows locale)
  unfolding compare_rows
  compare_rows-IsOrder = then_by-IsOrder (descending-IsOrder (λ r. pos r.points)) (
      then_by-IsOrder (descending-IsOrder (λ r. pos r.goals_for -ℤ pos r.goals_against)) (
        then_by-IsOrder (descending-IsOrder (λ r. pos r.goals_for))
          (view-IsOrder (λ r. r.team.name) locale.is_order)))

  phase_merit_of_compare :
      (a b : Row) (i j : ℕ)
      → compare_rows locale a b ≤ℤ pos 0
      → phase_merit (standing_of i a) (standing_of j b) ≤ℤ pos 0
  unfolding compare_rows
  phase_merit_of_compare a b i j h =
      let ga = sub_pos a.goals_for a.goals_against in
      let gb = sub_pos b.goals_for b.goals_against in rw (← ga, ← gb) (ground arith)

any-filter :
    (p : Row → Bool) (q : Row → Bool) (b : Bool) (rows : List Row)
    → ((r : Row) → p r ≡ true → q r ≡ b)
    → any p (filter q rows) ≡ (any p rows && b)
any-filter p q b [] h = refl
any-filter p q b (r ∷ rows) h = ground (arith, h r, any-filter p q b rows h)

Pairs-filter {ℓ} :
    (R : Row → Row → Type ℓ) (q : Row → Bool) (rows : List Row)
    → Pairs R rows
    → Pairs R (filter q rows)
Pairs-filter R q [] h = tt
Pairs-filter R q (r ∷ rows) h = elim (Bool-cases (q r)) [
  | inl t ↦ rw t (All-filter (R r) q rows h.0, Pairs-filter R q rows h.1)
  | inr t ↦ rw t (Pairs-filter R q rows h.1)
]

-- A map that leaves what a relation reads keeps the relation.
module _ (f : Standing → Standing) (R : Standing → Standing → Type 0)
    (blind : (a b : Standing) → R a b → R (f a) (f b)) where
  All-mapped : (a : Standing) (rows : List Standing) → All (R a) rows → All (R (f a)) (map f rows)
  All-mapped a [] h = tt
  All-mapped a (s ∷ rows) h = (blind a s h.0, All-mapped a rows h.1)

  Pairs-mapped : (rows : List Standing) → Pairs R rows → Pairs R (map f rows)
  Pairs-mapped [] h = tt
  Pairs-mapped (s ∷ rows) h = (All-mapped s rows h.0, Pairs-mapped rows h.1)

marked-advancing :
    (cut : ℕ) (rows : List Standing)
    → All (λ s. s.advanced ≡ leb s.rank cut) (map (mark_advanced cut) rows)
marked-advancing cut [] = tt
marked-advancing cut (s ∷ rows) = (refl, marked-advancing cut rows)

marked-IsNumbered :
    (cut k : ℕ) (rows : List Standing)
    → IsNumbered (λ s. s.rank) k rows
    → IsNumbered (λ s. s.rank) k (map (mark_advanced cut) rows)
marked-IsNumbered cut k [] h = tt
marked-IsNumbered cut k (s ∷ rows) h = (h.0, marked-IsNumbered cut (suc k) rows h.1)

marked-ids :
    (cut : ℕ) (rows : List Standing) → club_ids (map (mark_advanced cut) rows) ≡ club_ids rows
marked-ids cut [] = refl
marked-ids cut (s ∷ rows) = ap (◌∷◌ s.team.id) (marked-ids cut rows)

module _ (locale : Collation) (member : String → Bool) (cut : ℕ) (rows : List Row) where
  abbrev kept : List Row
  kept = sort (compare_rows locale) (filter (λ r. member r.team.id) rows)

  kept-listed : (id : String) → any (λ r. str_eq r.team.id id) kept ≡ (has_row id rows && member id)
  kept-listed id =
      any-sort (compare_rows locale) (λ r. str_eq r.team.id id) _
      ∙ any-filter (λ r. str_eq r.team.id id) (λ r. member r.team.id) (member id) rows
          (λ r t. ap member ((eq_iff _ _).0 t))

  league_rows-listed :
      (id : String)
      → has id (club_ids (league_rows locale member cut rows)) ≡ (has_row id rows && member id)
  unfolding rank
  league_rows-listed id =
      ap (has id) (marked-ids cut _)
      ∙ ap (has id)
          (map-map_idx_from standing_of (λ s. s.team.id) (λ r. r.team.id) (λ i r. refl) 0 kept)
      ∙ has-any (λ r. r.team.id) id kept
      ∙ kept-listed id

  league_rows-IsLeagueTable :
      Keyed rows → IsLeagueTable member cut rows (league_rows locale member cut rows)
  unfolding rank
  league_rows-IsLeagueTable k = record {
    in_order =
        Pairs-mapped (mark_advanced cut) (λ a b. phase_merit a b ≤ℤ pos 0) (λ a b h. h) _
          (Pairs-map_idx_from standing_of (λ a b. compare_rows locale a b ≤ℤ pos 0)
            (λ a b. phase_merit a b ≤ℤ pos 0) (phase_merit_of_compare locale) 0 kept
            (sort-IsSorted (compare_rows locale) (compare_rows-IsOrder locale) _));
    numbered =
        marked-IsNumbered cut 0 _
          (map_idx_from-IsNumbered standing_of (λ s. s.rank) (λ i r. refl) 0 kept);
    one_row_each =
        Pairs-mapped (mark_advanced cut) (λ a b. a.team.id ≢ b.team.id) (λ a b h. h) _
          (Pairs-map_idx_from standing_of (λ a b. a.team.id ≢ b.team.id)
            (λ a b. a.team.id ≢ b.team.id) (λ a b i j h. h) 0 kept
            (Pairs-sort (compare_rows locale) (λ a b. a.team.id ≢ b.team.id) (λ a b h e. h (sym e))
              _ (Pairs-filter (λ a b. a.team.id ≢ b.team.id) _ rows k)));
    advancing = marked-advancing cut _;
    listed = league_rows-listed;
  }

-- Whether a club has a row in one of the tables.
unfoldable pub listed_in : String → List Group → Bool
listed_in id groups = any (λ g. has id (club_ids g.standings)) groups

listed_in-table :
    (id name k : String) (rows : List Standing) (rest : List Group)
    → listed_in k (table id name rows ++ rest) ≡ (has k (club_ids rows) || listed_in k rest)
unfolding listed_in
listed_in-table id name k [] rest = refl
listed_in-table id name k (s ∷ rows) rest = refl

or_regroup :
    (a b r x y : Bool) → a ≡ (r && x) → b ≡ (r && y) → (a || (b || false)) ≡ (r && (x || y))
or_regroup a b r x y p q = ground arith

listed_in-tables :
    (id : String) (xs ys : List Standing) (r x y : Bool)
    → has id (club_ids xs) ≡ (r && x)
    → has id (club_ids ys) ≡ (r && y)
    → listed_in id (table "mls" "MLS" xs ++ table "liga-mx" "Liga MX" ys) ≡ (r && (x || y))
unfolding listed_in
listed_in-tables id xs ys r x y p q =
    listed_in-table "mls" "MLS" id xs (table "liga-mx" "Liga MX" ys)
    ∙ ap (λ t. has id (club_ids xs) || listed_in id t)
        (sym (append-nil (table "liga-mx" "Liga MX" ys)))
    ∙ ap (λ t. has id (club_ids xs) || t) (listed_in-table "liga-mx" "Liga MX" id ys [])
    ∙ or_regroup (has id (club_ids xs)) (has id (club_ids ys)) r x y p q

never_both :
    (liga_mx : List String) (mls : Option (List String)) (id : String)
    → in_mls liga_mx mls id ≡ true
    → in_liga_mx liga_mx mls id ≡ false
unfolding in_mls in_liga_mx
never_both liga_mx none id h = ground arith
never_both liga_mx (some mls) id h = ground arith

module _ (locale : Collation) (matches : List PhaseMatch) (liga_mx : List String) (cut : ℕ)
    (mls : Option (List String)) where
  -- The MLS table or the Liga MX table of these matches.
  abbrev pub IsPhaseTable : Group → Type 0
  IsPhaseTable g =
      (g.id ≡ "mls") × IsLeagueTable (in_mls liga_mx mls) cut (tally matches []) g.standings
      ⊎ (g.id ≡ "liga-mx")
        × IsLeagueTable (in_liga_mx liga_mx mls) cut (tally matches []) g.standings

  table-All :
      (id name : String) (rows : List Standing) (rest : List Group)
      → ((g : Group) → g.id ≡ id → g.standings ≡ rows → IsPhaseTable g)
      → All IsPhaseTable rest
      → All IsPhaseTable (table id name rows ++ rest)
  table-All id name [] rest f h = h
  table-All id name (s ∷ rows) rest f h =
      (f (record { id = id; standings = s ∷ rows; zones = none; title = named name }) refl refl, h)

  -- Each table lists the clubs of its own league that played, once each, numbered 1, 2, 3, … in the
  -- order of points, goal difference and goals, and marks as advanced exactly the places down to
  -- the cut.
  pub compute_phase_tables-IsPhaseTable :
      All IsPhaseTable (compute_phase_tables locale matches liga_mx cut mls)
  unfolding compute_phase_tables
  compute_phase_tables-IsPhaseTable =
      let k = (tally-records matches).keyed in
      table-All "mls" "MLS" _ _
        (λ g i e. inl (
          i,
          subst (IsLeagueTable (in_mls liga_mx mls) cut (tally matches [])) (sym e)
              (league_rows-IsLeagueTable locale (in_mls liga_mx mls) cut _ k),
        ))
        (subst (All IsPhaseTable) (append-nil _) (
          table-All "liga-mx" "Liga MX" _ []
            (λ g i e. inr (
              i,
              subst (IsLeagueTable (in_liga_mx liga_mx mls) cut (tally matches [])) (sym e)
                  (league_rows-IsLeagueTable locale (in_liga_mx liga_mx mls) cut _ k),
            ))
            tt))

  -- A club that played is in a table exactly when its league is known, and no club is in both.
  pub compute_phase_tables-listed :
      (id : String)
      → (listed_in id (compute_phase_tables locale matches liga_mx cut mls)
          ≡ (has_row id (tally matches []) && (in_mls liga_mx mls id || in_liga_mx liga_mx mls id)))
        × ((in_mls liga_mx mls id && in_liga_mx liga_mx mls id) ≡ false)
  unfolding compute_phase_tables
  compute_phase_tables-listed id =
      let rows = tally matches [] in
      (
        listed_in-tables id (league_rows locale (in_mls liga_mx mls) cut rows)
            (league_rows locale (in_liga_mx liga_mx mls) cut rows) (has_row id rows)
            (in_mls liga_mx mls id) (in_liga_mx liga_mx mls id)
            (league_rows-listed locale (in_mls liga_mx mls) cut rows id)
            (league_rows-listed locale (in_liga_mx liga_mx mls) cut rows id),
        ground (arith, never_both liga_mx mls id),
      )
