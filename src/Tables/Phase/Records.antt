-- ===== src/Tables/Phase/Records.antt =====
-- The record of each row: one row to a club, and results and points that add up.
use mathlib.Core.Path.{fun_ext}
use score_arc.Prelude.{
  ℕ, ◌+◌, ◌*◌, ◌≤◌, String, false, Option, none, some, List, [], ◌∷◌, ◌++◌, map, ◌≡◌, refl, sym, ap,
  ◌∙◌, ◌≢◌, inl, inr, subst, arith, if◌then◌else◌, ltb, str_eq, eq_iff, Bool-cases, All, All-append,
}
use score_arc.Model.{Team, Shootout, finished_b}
use score_arc.Tables.Phase.{
  PhaseMatch, Row, blank, has_row, row_for, modify, add_goals, add_win, add_loss, add_draw,
  split_points, settle, tally_scores, tally_match, tally,
}
use score_arc.Tables.Phase.Book.{Keyed, write, modify-map}

-- A row adds up: games by result, and points between one and two for each draw.
pub record IsBooked (r : Row) : Type 0 where
  pub games : r.played ≡ r.wins + r.draws + r.losses
  pub least : 3 * r.wins + r.draws ≤ r.points
  pub most : r.points ≤ 3 * r.wins + 2 * r.draws

Keyed-append_new :
    (rows : List Row) (team : Team)
    → Keyed rows
    → has_row team.id rows ≡ false
    → Keyed (rows ++ blank team ∷ [])
Keyed-append_new [] team k h = (tt, tt)
Keyed-append_new (r ∷ rows) team k h = (
  All-append (λ s. r.team.id ≢ s.team.id) rows (blank team ∷ []) k.0
      ((λ e. ground (arith, eq_iff r.team.id team.id)), tt),
  Keyed-append_new rows team k.1 (ground arith),
)

row_for-Keyed : (team : Team) (rows : List Row) → Keyed rows → Keyed (row_for team rows)
unfolding row_for
row_for-Keyed team rows k = elim (Bool-cases (has_row team.id rows)) [
  | inl old ↦ rw old k
  | inr new ↦ rw new (Keyed-append_new rows team k new)
]

pub row_for-All :
    (P : Row → Type 0) (team : Team) (rows : List Row)
    → P (blank team)
    → All P rows
    → All P (row_for team rows)
unfolding row_for
row_for-All P team rows p h = elim (Bool-cases (has_row team.id rows)) [
  | inl old ↦ rw old h
  | inr new ↦ rw new (All-append P rows (blank team ∷ []) h (p, tt))
]

module _ (f : Row → Row) (keeps : (r : Row) → (f r).team.id ≡ r.team.id) where
  modify-ne :
      (id k : String) (rows : List Row)
      → All (λ r. k ≢ r.team.id) rows
      → All (λ r. k ≢ r.team.id) (modify id f rows)
  unfolding modify
  modify-ne id k [] h = tt
  modify-ne id k (r ∷ rows) h = elim (Bool-cases (str_eq r.team.id id)) [
    | inl t ↦ rw t ((λ e. h.0 (e ∙ keeps r)), h.1)
    | inr t ↦ rw t (h.0, modify-ne id k rows h.1)
  ]

  modify-Keyed : (id : String) (rows : List Row) → Keyed rows → Keyed (modify id f rows)
  unfolding modify
  modify-Keyed id [] k = tt
  modify-Keyed id (r ∷ rows) k = elim (Bool-cases (str_eq r.team.id id)) [
    | inl t ↦ rw t (subst (λ x. All (λ s. x ≢ s.team.id) rows) (sym (keeps r)) k.0, k.1)
    | inr t ↦ rw t (modify-ne id r.team.id rows k.0, modify-Keyed id rows k.1)
  ]

All-map {ℓ} :
    (P Q : Row → Type ℓ) (f : Row → Row)
    → ((r : Row) → P r → Q (f r))
    → (rows : List Row) → All P rows
    → All Q (map f rows)
All-map P Q f h [] a = tt
All-map P Q f h (r ∷ rows) a = (h r a.0, All-map P Q f h rows a.1)

-- The effect of a counted match on one row.
played_row : String → String → ℕ → ℕ → Option Shootout → Row → Row
played_row home away hs as_ so r =
    let r' = write away (add_goals as_ hs) (write home (add_goals hs as_) r) in
    if ltb as_ hs
    then write away add_loss (write home add_win r')
    else if ltb hs as_
    then write home add_loss (write away add_win r')
    else write away (add_draw (split_points so).1) (write home (add_draw (split_points so).0) r')

split_range :
    (so : Option Shootout)
    → (1 ≤ (split_points so).0)
      × ((split_points so).0 ≤ 2)
      × (1 ≤ (split_points so).1)
      × ((split_points so).1 ≤ 2)
split_range none = omega arith
split_range (some so) = ground arith

played_row-IsBooked :
    (home away : String) (hs as_ : ℕ) (so : Option Shootout) (r : Row)
    → IsBooked r
    → IsBooked (played_row home away hs as_ so r)
unfolding played_row
played_row-IsBooked home away hs as_ so r b = ground (arith, split_range so)

map-map-row : (f g : Row → Row) (rows : List Row) → map f (map g rows) ≡ map (λ r. f (g r)) rows
map-map-row f g [] = refl
map-map-row f g (r ∷ rows) = ap (◌∷◌ (f (g r))) (map-map-row f g rows)

modify-modify-map :
    (f g : Row → Row) (home away : String) (rows : List Row)
    → ((r : Row) → (f r).team.id ≡ r.team.id)
    → Keyed rows
    → modify away g (modify home f rows) ≡ map (λ r. write away g (write home f r)) rows
modify-modify-map f g home away rows keeps k =
    modify-map away g (modify home f rows) (modify-Keyed f keeps home rows k)
    ∙ ap (map (write away g)) (modify-map home f rows k)
    ∙ map-map-row (write away g) (write home f) rows

modify-modify-Keyed :
    (f g : Row → Row) (home away : String) (rows : List Row)
    → ((r : Row) → (f r).team.id ≡ r.team.id)
    → ((r : Row) → (g r).team.id ≡ r.team.id)
    → Keyed rows
    → Keyed (modify away g (modify home f rows))
modify-modify-Keyed f g home away rows kf kg k =
    modify-Keyed g kg away _ (modify-Keyed f kf home rows k)

module _ (home away : String) (hs as_ : ℕ) (so : Option Shootout) (rows : List Row)
    (k : Keyed rows) where
  abbrev after_goals : List Row
  after_goals = modify away (add_goals as_ hs) (modify home (add_goals hs as_) rows)

  after_goals-Keyed : Keyed after_goals
  after_goals-Keyed = modify-modify-Keyed _ _ home away rows (λ r. refl) (λ r. refl) k

  two :
      (f g : Row → Row) (h a : String)
      → ((r : Row) → (f r).team.id ≡ r.team.id)
      → modify a g (modify h f after_goals)
        ≡ map
            (λ r.
              write a g
                (write h f (write away (add_goals as_ hs) (write home (add_goals hs as_) r))))
            rows
  two f g h a keeps =
      modify-modify-map f g h a after_goals keeps after_goals-Keyed
      ∙ ap (map (λ r. write a g (write h f r)))
          (modify-modify-map (add_goals hs as_) (add_goals as_ hs) home away rows (λ r. refl) k)
      ∙ map-map-row _ _ rows

  settle-map : settle home away hs as_ so after_goals ≡ map (played_row home away hs as_ so) rows
  unfolding played_row
  settle-map = elim (Bool-cases (ltb as_ hs)) [
    | inl won ↦
        rw won (
          two add_win add_loss home away (λ r. refl) ∙ ap (λ f. map f rows) (fun_ext (λ r. rw won)))
    | inr w ↦ elim (Bool-cases (ltb hs as_)) [
      | inl lost ↦
          rw (w, lost)
            (two add_win add_loss away home (λ r. refl)
              ∙ ap (λ f. map f rows) (fun_ext (λ r. rw (w, lost))))
      | inr l ↦
          rw (w, l)
            (two _ _ home away (λ r. refl) ∙ ap (λ f. map f rows) (fun_ext (λ r. rw (w, l))))
    ]
  ]

  settle-Keyed : Keyed (settle home away hs as_ so after_goals)
  settle-Keyed = elim (Bool-cases (ltb as_ hs)) [
    | inl won ↦
        rw won (
          modify-modify-Keyed add_win add_loss home away _ (λ r. refl) (λ r. refl)
            after_goals-Keyed)
    | inr w ↦ elim (Bool-cases (ltb hs as_)) [
      | inl lost ↦
          rw (w, lost)
            (modify-modify-Keyed add_win add_loss away home _ (λ r. refl) (λ r. refl)
              after_goals-Keyed)
      | inr l ↦
          rw (w, l) (modify-modify-Keyed _ _ home away _ (λ r. refl) (λ r. refl) after_goals-Keyed)
    ]
  ]

-- What the rows keep through every match.
pub record IsSound (rows : List Row) : Type 0 where
  pub keyed : Keyed rows
  pub booked : All IsBooked rows

tally_scores-IsSound :
    (m : PhaseMatch) (o p : Option ℕ) (rows : List Row)
    → IsSound rows
    → IsSound (tally_scores m o p rows)
tally_scores-IsSound m (some hs) (some as_) rows s =
    let k = row_for-Keyed m.away _ (row_for-Keyed m.home rows s.keyed) in
    let b =
      row_for-All IsBooked m.away _ (omega arith)
        (row_for-All IsBooked m.home rows (omega arith) s.booked) in
    record {
      keyed = settle-Keyed m.home.id m.away.id hs as_ m.shootout _ k;
      booked = rw (settle-map m.home.id m.away.id hs as_ m.shootout _ k) (
          All-map IsBooked IsBooked _ (played_row-IsBooked m.home.id m.away.id hs as_ m.shootout) _
            b);
    }
tally_scores-IsSound m none p rows s = s
tally_scores-IsSound m (some hs) none rows s = s

tally-IsSound :
    (matches : List PhaseMatch) (rows : List Row) → IsSound rows → IsSound (tally matches rows)
unfolding tally tally_match
tally-IsSound [] rows s = s
tally-IsSound (m ∷ matches) rows s = elim (Bool-cases (finished_b m.state)) [
  | inl done ↦
      rw done (tally-IsSound matches _ (tally_scores-IsSound m m.home_score m.away_score rows s))
  | inr open_ ↦ rw open_ (tally-IsSound matches rows s)
]

-- After any matches each club has one row. In it the games played are the wins, draws and losses
-- together, and the points are three for each win and one or two for each draw.
pub tally-records : (matches : List PhaseMatch) → IsSound (tally matches [])
tally-records matches = tally-IsSound matches [] (record { keyed = tt; booked = tt })
