-- ===== src/Sources/Standings/Measured.antt =====
-- The stats of the provider's rows: which row is found to lack one, and what a row says of its entry.
use score_arc.Prelude.{
  true_ne, ℕ, suc, ℤ, pos, negsuc, pos_part, String, true, false, Option, none, some, List, [], ◌∷◌,
  All, str_eq, ◌≡◌, refl, sym, ◌∙◌, if_cases,
}
use score_arc.Model.{Standing}
use score_arc.Sources.TableOrder.{RawEntry, stat_map}
use score_arc.Sources.Standings.{
  required_stats, ReadRow, ReadTable, team_of, row_of, is_valid_stat, bad_stat, or_bad, at_row,
  bad_row, bad_table, integer, standing_of,
}

-- A search that finds what breaks a condition.
abbrev pub Refutes : {A : Type 0} → Type 0 → Option A → Type 0
Refutes P none = P
Refutes P (some a) = ¬ P

or_bad-Refutes :
    {A : Type 0} {P Q R : Type 0} (a b : Option A)
    → (R → P × Q)
    → (P → Q → R)
    → Refutes P a
    → Refutes Q b
    → Refutes R (or_bad a b)
or_bad-Refutes none none split join h k = join h k
or_bad-Refutes none (some b) split join h k = λ r. k (split r).1
or_bad-Refutes (some a) b split join h k = λ r. h (split r).0

abbrev IsStat : (String → Option ℤ) → String → Type 0
IsStat stats stat = is_valid_stat stat (stats stat) ≡ true

bad_stat-Refutes :
    (stats : String → Option ℤ) (names : List String)
    → Refutes (All (IsStat stats) names) (bad_stat stats names)
bad_stat-Refutes stats [] = tt
bad_stat-Refutes stats (n ∷ names) =
    if_cases (Refutes (All (IsStat stats) (n ∷ names))) (is_valid_stat n (stats n))
      (bad_stat stats names) (some n)
      (λ t. with_valid t (bad_stat stats names) (bad_stat-Refutes stats names))
      (λ t h. true_ne (sym h.0 ∙ t))
  where
    with_valid :
        IsStat stats n
        → (o : Option String) → Refutes (All (IsStat stats) names) o
        → Refutes (All (IsStat stats) (n ∷ names)) o
    with_valid t none h = (t, h)
    with_valid t (some s) h = λ a. h a.1

abbrev pub HasStats : ReadRow → Type 0
HasStats row = All (IsStat row.stats) required_stats

at_row-Refutes :
    (P : Type 0) (i : ℕ) (name : String) (o : Option String)
    → Refutes P o
    → Refutes P (at_row i name o)
at_row-Refutes P i name none h = h
at_row-Refutes P i name (some s) h = h

bad_row-Refutes :
    (name : String) (i : ℕ) (rows : List ReadRow)
    → Refutes (All HasStats rows) (bad_row name i rows)
bad_row-Refutes name i [] = tt
bad_row-Refutes name i (row ∷ rows) =
    or_bad-Refutes (at_row i name (bad_stat row.stats required_stats)) (bad_row name (suc i) rows)
      (λ r. r) (λ p q. (p, q))
      (at_row-Refutes _ i name (bad_stat row.stats required_stats)
        (bad_stat-Refutes row.stats required_stats))
      (bad_row-Refutes name (suc i) rows)

pub bad_table-Refutes :
    (ts : List ReadTable) → Refutes (All (λ t. All HasStats t.rows) ts) (bad_table ts)
bad_table-Refutes [] = tt
bad_table-Refutes (t ∷ ts) =
    or_bad-Refutes (bad_row t.name 0 t.rows) (bad_table ts) (λ r. r) (λ p q. (p, q))
      (bad_row-Refutes t.name 0 t.rows) (bad_table-Refutes ts)

abbrev pub All2 : {A B : Type 0} → (A → B → Type 0) → List A → List B → Type 0
All2 R [] [] = Unit
All2 R (x ∷ xs) (y ∷ ys) = R x y × All2 R xs ys
All2 R _ _ = ⊥

-- A row says what its entry measures: no stat that is missing is a zero.
pub record IsMeasuredBy (e : RawEntry) (s : Standing) : Type 0 where
  pub team : s.team ≡ team_of e
  pub played : stat_map e.stats "gamesPlayed" ≡ some (pos s.played)
  pub wins : stat_map e.stats "wins" ≡ some (pos s.wins)
  pub draws : stat_map e.stats "ties" ≡ some (pos s.draws)
  pub losses : stat_map e.stats "losses" ≡ some (pos s.losses)
  pub goals_for : stat_map e.stats "pointsFor" ≡ some (pos s.goals_for)
  pub goals_against : stat_map e.stats "pointsAgainst" ≡ some (pos s.goals_against)
  pub goal_difference : stat_map e.stats "pointDifferential" ≡ some s.goal_difference
  pub points : stat_map e.stats "points" ≡ some s.points

count_stat :
    (name : String) (o : Option ℤ)
    → str_eq name "pointDifferential" ≡ false
    → is_valid_stat name o ≡ true
    → o ≡ some (pos (pos_part (integer o)))
count_stat name none n h = cc
count_stat name (some (pos x)) n h = refl
count_stat name (some (negsuc x)) n h = absurd (true_ne (sym h ∙ n))

some_stat : (name : String) (o : Option ℤ) → is_valid_stat name o ≡ true → o ≡ some (integer o)
some_stat name none h = cc
some_stat name (some x) h = refl

pub standing_of-IsMeasuredBy :
    (i : ℕ) (e : RawEntry) → HasStats (row_of e) → IsMeasuredBy e (standing_of i (row_of e))
standing_of-IsMeasuredBy i e h = record {
  team = refl;
  played = count_stat "gamesPlayed" _ refl h.0;
  wins = count_stat "wins" _ refl h.1.0;
  draws = count_stat "ties" _ refl h.1.1.0;
  losses = count_stat "losses" _ refl h.1.1.1.0;
  goals_for = count_stat "pointsFor" _ refl h.1.1.1.1.0;
  goals_against = count_stat "pointsAgainst" _ refl h.1.1.1.1.1.0;
  goal_difference = some_stat "pointDifferential" _ h.1.1.1.1.1.1.0;
  points = some_stat "points" _ h.1.1.1.1.1.1.1.0;
}
