-- ===== src/Tables/Phase/Totals.antt =====
-- Totals of the phase tables: what one club gains another loses.
use score_arc.Prelude.{
  ℕ, ◌+◌, ◌*◌, String, Bool, true, false, ◌&&◌, Option, none, some, List, [], ◌∷◌, ◌≡◌, refl, ap,
  ◌∙◌, arith, if◌then◌else◌, ◌==◌, Bool-cases, inl, inr,
}
use score_arc.Model.{Team, Shootout, finished_b}
use score_arc.Tables.Phase.{
  PhaseMatch, Row, blank, has_row, row_for, modify, add_goals, add_win, add_loss, add_draw,
  split_points, settle, tally_scores, tally_match, tally,
}
use score_arc.Tables.Phase.Book.{
  sum, sum-row_for, has_row-row_for, has_row-row_for_mono, has_row-modify, sum-modify,
}

-- A total after the writes to the two sides of a match.
sum-modify-modify :
    (f : Row → ℕ) (g g' : Row → Row) (d d' : ℕ) (home away : String) (rows : List Row)
    → ((r : Row) → f (g r) ≡ f r + d)
    → ((r : Row) → f (g' r) ≡ f r + d')
    → ((r : Row) → (g r).team.id ≡ r.team.id)
    → has_row home rows ≡ true
    → has_row away rows ≡ true
    → sum f (modify away g' (modify home g rows)) ≡ sum f rows + d + d'
sum-modify-modify f g g' d d' home away rows h h' keeps hh ha =
    sum-modify f g' d' h' away (modify home g rows) (has_row-modify g keeps away home rows ∙ ha)
    ∙ ap (λ n. n + d') (sum-modify f g d h home rows hh)

-- A match level after regulation whose shootout is missing or level too.
abbrev pub undecided : Option Shootout → Bool
undecided none = true
undecided (some so) = so.home_score == so.away_score

abbrev pub one_if : Bool → ℕ
one_if true = 1
one_if false = 0

split_worth :
    (so : Option Shootout) → (split_points so).0 + (split_points so).1 + one_if (undecided so) ≡ 3
split_worth none = refl
split_worth (some so) = ground arith

record Gains (hs as_ : ℕ) (so : Option Shootout) (old rows : List Row) : Type 0 where
  scored : sum (λ r. r.goals_for) rows ≡ sum (λ r. r.goals_for) old + (hs + as_)
  conceded : sum (λ r. r.goals_against) rows ≡ sum (λ r. r.goals_against) old + (hs + as_)
  played : sum (λ r. r.played) rows ≡ sum (λ r. r.played) old + 2
  won :
      sum (λ r. r.wins) rows + sum (λ r. r.losses) old
      ≡ sum (λ r. r.losses) rows + sum (λ r. r.wins) old
  points :
      sum (λ r. r.points) rows + one_if ((hs == as_) && undecided so) ≡ sum (λ r. r.points) old + 3

module _ (home away : String) (hs as_ : ℕ) (so : Option Shootout) (rows : List Row)
    (hh : has_row home rows ≡ true) (ha : has_row away rows ≡ true) where
  abbrev after_goals : List Row
  after_goals = modify away (add_goals as_ hs) (modify home (add_goals hs as_) rows)

  hh' : has_row home after_goals ≡ true
  hh' = has_row-modify _ (λ r. refl) home away _ ∙ has_row-modify _ (λ r. refl) home home rows ∙ hh

  ha' : has_row away after_goals ≡ true
  ha' = has_row-modify _ (λ r. refl) away away _ ∙ has_row-modify _ (λ r. refl) away home rows ∙ ha

  goals_total :
      (f : Row → ℕ) (d d' : ℕ)
      → ((r : Row) → f (add_goals hs as_ r) ≡ f r + d)
      → ((r : Row) → f (add_goals as_ hs r) ≡ f r + d')
      → sum f after_goals ≡ sum f rows + d + d'
  goals_total f d d' h h' = sum-modify-modify f _ _ d d' home away rows h h' (λ r. refl) hh ha

  abbrev settled : List Row
  settled = settle home away hs as_ so after_goals

  abbrev drawn : List Row
  drawn =
      modify away (add_draw (split_points so).1)
        (modify home (add_draw (split_points so).0) after_goals)

  -- What the result adds to a total, by the branch that it takes.
  settle_total :
      (f : Row → ℕ) (w l p q : ℕ)
      → ((r : Row) → f (add_win r) ≡ f r + w)
      → ((r : Row) → f (add_loss r) ≡ f r + l)
      → ((r : Row) → f (add_draw (split_points so).0 r) ≡ f r + p)
      → ((r : Row) → f (add_draw (split_points so).1 r) ≡ f r + q)
      → sum f settled ≡ sum f after_goals + (if hs == as_ then p + q else w + l)
  settle_total f w l p q hw hl hp hq = ground (
    arith,
    sum-modify-modify f add_win add_loss w l home away after_goals hw hl (λ r. refl) hh' ha',
    sum-modify-modify f add_win add_loss w l away home after_goals hw hl (λ r. refl) ha' hh',
    sum-modify-modify f (add_draw (split_points so).0) (add_draw (split_points so).1) p q home away
        after_goals hp hq (λ r. refl) hh' ha',
  )

  settled-Gains : Gains hs as_ so rows settled
  settled-Gains = record {
    scored = omega (
      arith,
      goals_total (λ r. r.goals_for) hs as_ (λ r. refl) (λ r. refl),
      unchanged (λ r. r.goals_for) (λ r. omega arith) (λ r. omega arith) (λ p r. omega arith),
    );
    conceded = omega (
      arith,
      goals_total (λ r. r.goals_against) as_ hs (λ r. refl) (λ r. refl),
      unchanged (λ r. r.goals_against) (λ r. omega arith) (λ r. omega arith) (λ p r. omega arith),
    );
    played = omega (
      arith,
      goals_total (λ r. r.played) 1 1 (λ r. refl) (λ r. refl),
      unchanged (λ r. r.played) (λ r. omega arith) (λ r. omega arith) (λ p r. omega arith),
    );
    won = ground (
      arith,
      goals_total (λ r. r.wins) 0 0 (λ r. omega arith) (λ r. omega arith),
      goals_total (λ r. r.losses) 0 0 (λ r. omega arith) (λ r. omega arith),
      settle_total (λ r. r.wins) 1 0 0 0 (λ r. refl) (λ r. omega arith) (λ r. omega arith)
          (λ r. omega arith),
      settle_total (λ r. r.losses) 0 1 0 0 (λ r. omega arith) (λ r. refl) (λ r. omega arith)
          (λ r. omega arith),
    );
    points = points_gain;
  }
    where
      unchanged :
          (f : Row → ℕ)
          → ((r : Row) → f (add_win r) ≡ f r + 0)
          → ((r : Row) → f (add_loss r) ≡ f r + 0)
          → ((p : ℕ) (r : Row) → f (add_draw p r) ≡ f r + 0)
          → sum f settled ≡ sum f after_goals
      unchanged f w l d =
          settle_total f 0 0 0 0 w l (d (split_points so).0) (d (split_points so).1) ∙ ground arith

      points_gain :
          sum (λ r. r.points) settled + one_if ((hs == as_) && undecided so)
          ≡ sum (λ r. r.points) rows + 3
      points_gain = ground (
        arith,
        goals_total (λ r. r.points) 0 0 (λ r. omega arith) (λ r. omega arith),
        split_worth so,
        settle_total (λ r. r.points) 3 0 (split_points so).0 (split_points so).1 (λ r. refl)
            (λ r. omega arith) (λ r. refl) (λ r. refl),
      )

-- Whether a match enters the tables, and whether it is short of a shootout.
abbrev pub counts : Option ℕ → Option ℕ → Bool
counts (some hs) (some as_) = true
counts _ _ = false

abbrev pub is_level : Option ℕ → Option ℕ → Bool
is_level (some hs) (some as_) = hs == as_
is_level _ _ = false

abbrev pub is_counted : PhaseMatch → Bool
is_counted m = finished_b m.state && counts m.home_score m.away_score

abbrev pub lacks_shootout : PhaseMatch → Bool
lacks_shootout m = finished_b m.state && is_level m.home_score m.away_score && undecided m.shootout

abbrev pub count_if : (PhaseMatch → Bool) → List PhaseMatch → ℕ
count_if p [] = 0
count_if p (m ∷ matches) = one_if (p m) + count_if p matches

-- The books of a list of rows after `counted` matches of which `short` lack a shootout.
pub record IsBalanced (counted short : ℕ) (rows : List Row) : Type 0 where
  pub goals : sum (λ r. r.goals_for) rows ≡ sum (λ r. r.goals_against) rows
  pub results : sum (λ r. r.wins) rows ≡ sum (λ r. r.losses) rows
  pub matches : sum (λ r. r.played) rows ≡ 2 * counted
  pub points : sum (λ r. r.points) rows + short ≡ 3 * counted

module _ (m : PhaseMatch) (rows : List Row) where
  abbrev opened : List Row
  opened = row_for m.away (row_for m.home rows)

  opened-total : (f : Row → ℕ) → ((t : Team) → f (blank t) ≡ 0) → sum f opened ≡ sum f rows
  opened-total f z =
      sum-row_for f m.away (row_for m.home rows) (z m.away) ∙ sum-row_for f m.home rows (z m.home)

  tally_scores-Gains :
      (hs as_ : ℕ) → Gains hs as_ m.shootout opened (tally_scores m (some hs) (some as_) rows)
  tally_scores-Gains hs as_ =
      settled-Gains m.home.id m.away.id hs as_ m.shootout opened
        (has_row-row_for_mono m.home.id m.away _ (has_row-row_for m.home rows))
        (has_row-row_for m.away _)

  tally_scores-IsBalanced :
      (n k : ℕ) (o p : Option ℕ)
      → IsBalanced n k rows
      → IsBalanced
          (one_if (counts o p) + n)
          (one_if (is_level o p && undecided m.shootout) + k)
          (tally_scores m o p rows)
  tally_scores-IsBalanced n k (some hs) (some as_) b =
      let g = tally_scores-Gains hs as_ in
      let gf = opened-total (λ r. r.goals_for) (λ t. refl) in
      let ga = opened-total (λ r. r.goals_against) (λ t. refl) in
      let w = opened-total (λ r. r.wins) (λ t. refl) in
      let l = opened-total (λ r. r.losses) (λ t. refl) in
      let pl = opened-total (λ r. r.played) (λ t. refl) in
      let pt = opened-total (λ r. r.points) (λ t. refl) in
      record {
        goals = omega (arith, b.goals, g.scored, g.conceded, gf, ga);
        results = omega (arith, b.results, g.won, w, l);
        matches = omega (arith, b.matches, g.played, pl);
        points = omega (arith, b.points, g.points, pt);
      }
  tally_scores-IsBalanced n k none p b = omega arith
  tally_scores-IsBalanced n k (some hs) none b = omega arith

tally-IsBalanced :
    (matches : List PhaseMatch) (rows : List Row) (n k : ℕ)
    → IsBalanced n k rows
    → IsBalanced
        (count_if is_counted matches + n)
        (count_if lacks_shootout matches + k)
        (tally matches rows)
unfolding tally tally_match
tally-IsBalanced [] rows n k b = omega arith
tally-IsBalanced (m ∷ matches) rows n k b = elim (Bool-cases (finished_b m.state)) [
  | inl done ↦ rw done (
      regroup matches n k _ _ (
        tally-IsBalanced matches _ _ _
          (tally_scores-IsBalanced m rows n k m.home_score m.away_score b)))
  | inr open_ ↦ let later = tally-IsBalanced matches rows n k b in rw open_ (omega arith)
]
  where
    regroup :
        (ms : List PhaseMatch) (n k a c : ℕ) {result : List Row}
        → IsBalanced
            (count_if is_counted ms + (a + n))
            (count_if lacks_shootout ms + (c + k))
            result
        → IsBalanced (a + count_if is_counted ms + n) (c + count_if lacks_shootout ms + k) result
    regroup ms n k a c b = record {
      goals = b.goals;
      results = b.results;
      matches = omega (arith, b.matches);
      points = omega (arith, b.points);
    }

-- Over all rows, goals scored equal goals conceded and wins equal losses, each counted match is
-- played by two sides, and it is worth three points in all, less one for each level match that
-- lacks a decisive shootout. So no match is dropped and none is counted twice.
pub tally-balance :
    (matches : List PhaseMatch)
    → IsBalanced (count_if is_counted matches) (count_if lacks_shootout matches) (tally matches [])
tally-balance matches =
    let b =
      tally-IsBalanced matches [] 0 0
        (record { goals = refl; results = refl; matches = refl; points = refl }) in
    record {
      goals = b.goals;
      results = b.results;
      matches = omega (arith, b.matches);
      points = omega (arith, b.points);
    }
