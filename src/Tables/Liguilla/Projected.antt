-- ===== src/Tables/Liguilla/Projected.antt =====
-- What the projected bracket is, and exactly when there is one.
use score_arc.Prelude.{ℕ, zero, suc, ◌≤◌, some, List, [], ◌∷◌, ◌≡◌, leb, find, length}
use score_arc.Model.{Standing, Group, BracketMatch, BracketRound, quarterfinals}
use score_arc.Tables.Liguilla.{
  qf_pairs, seat, Projection, nothing, crashed, projected, quarter_ties, later_rounds,
}
use score_arc.Tables.Liguilla.Seats.{claims, IsSeating, seat-IsSeating}

-- The rows claim each of the seeds from 1 to `k` exactly once.
abbrev pub EachOnce : ℕ → List Standing → Type 0
EachOnce zero rows = Unit
EachOnce (suc k) rows = (claims (suc k) rows ≡ 1) × EachOnce k rows

abbrev SeatsEight : List Standing → Type 0
SeatsEight rows = (n : ℕ) → 1 ≤ n → n ≤ 8 → claims n rows ≡ 1

-- The rows that stand behind a projection: the first table with eight rows or more.
pub record IsSeatable (groups : List Group) : Type 0 where
  pub general : Group
  pub first_long : find (λ g. leb 8 (length g.standings)) groups ≡ some general
  pub eight : EachOnce 8 general.standings

-- The bracket of a table: 1 meets 8, 4 meets 5, 2 meets 7, 3 meets 6, each by the row of that rank.
pub record IsDrawn (rows : List Standing) (rounds : List BracketRound) : Type 0 where
  pub ties : List BracketMatch
  pub drawn : quarter_ties rows qf_pairs ≡ some ties
  pub shown : rounds ≡ record { slug = quarterfinals; matches = ties } ∷ later_rounds

module _ (rows seats : List Standing) (e : seat rows [] ≡ some seats) where
  abbrev seating : IsSeating rows [] seats
  seating = seat-IsSeating rows [] seats e

-- What a projection says of the groups it was made from.
abbrev pub Answers : List Group → Projection → Type 0
Answers groups nothing = ¬ IsSeatable groups
Answers groups crashed = ⊥
Answers groups (projected rounds) = (s : IsSeatable groups) × IsDrawn s.general.standings rounds
