-- ===== src/Tables/Derived/Evidence.antt =====
-- What the status of a derivation says of the evidence behind it.
use score_arc.Prelude.{
  ℕ, String, Bool, true, false, ◌&&◌, ◌||◌, Option, none, some, List, [], ◌∷◌, ◌++◌, ◌≡◌, refl, sym,
  ◌≢◌, inl, inr, arith, str_eq, eq_iff, ltb, Bool-cases, has, flat_map, All, subst,
}
use score_arc.Model.{Shootout, finished_b}
use score_arc.Tables.Phase.{
  PhaseMatch, Row, has_row, modify, tally_scores, tally_match, tally, in_mls, in_liga_mx,
}
use score_arc.Tables.Phase.Records.{row_for-All}
use score_arc.Tables.Phase.Totals.{
  is_counted, lacks_shootout, count_if, counts, is_level, undecided, one_if,
}
use score_arc.Tables.Derived.{
  add, unplaced_id, note_id, score_issues, score_unplaced, issues_of, unplaced_after,
  unplaced_clubs,
}

abbrev pub is_finished : PhaseMatch → Bool
is_finished m = finished_b m.state

pub append-nil_split : {A : Type 0} (xs ys : List A) → xs ++ ys ≡ [] → (xs ≡ []) × (ys ≡ [])
append-nil_split [] ys e = (refl, e)
append-nil_split (x ∷ xs) ys e = cc

-- A match that raises no issue was counted in full when it was finished.
quiet_match :
    (mls liga_mx : List String) (m : PhaseMatch)
    → issues_of mls liga_mx m ≡ []
    → (one_if (lacks_shootout m) ≡ 0) × (one_if (is_counted m) ≡ one_if (is_finished m))
unfolding issues_of
quiet_match mls liga_mx m e = elim (Bool-cases (finished_b m.state)) [
  | inl done ↦ rw done (go m.home_score m.away_score m.shootout (rw done at e))
  | inr open_ ↦ rw open_ (refl, refl)
]
  where
    go :
        (o p : Option ℕ) (so : Option Shootout)
        → score_issues mls liga_mx (record m { shootout = so }) o p ≡ []
        → (one_if (true && is_level o p && undecided so) ≡ 0)
          × (one_if (true && counts o p) ≡ one_if true)
    go none p so e = cc
    go (some hs) none so e = cc
    go (some hs) (some aws) none e = (ground arith, refl)
    go (some hs) (some aws) (some so) e = (ground arith, refl)

pub quiet_matches :
    (mls liga_mx : List String) (matches : List PhaseMatch)
    → flat_map (issues_of mls liga_mx) matches ≡ []
    → (count_if lacks_shootout matches ≡ 0)
      × (count_if is_counted matches ≡ count_if is_finished matches)
quiet_matches mls liga_mx [] e = (refl, refl)
quiet_matches mls liga_mx (m ∷ matches) e =
    let (now, later) = append-nil_split (issues_of mls liga_mx m) _ e in
    omega (arith, quiet_match mls liga_mx m now, quiet_matches mls liga_mx matches later)

-- A property of the club's id survives every write.
modify-All_id :
    (P : String → Type 0) (id : String) (f : Row → Row) (rows : List Row)
    → ((r : Row) → (f r).team.id ≡ r.team.id)
    → All (λ r. P r.team.id) rows
    → All (λ r. P r.team.id) (modify id f rows)
unfolding modify
modify-All_id P id f [] k h = tt
modify-All_id P id f (r ∷ rows) k h = elim (Bool-cases (str_eq r.team.id id)) [
  | inl t ↦ rw t (subst P (sym (k r)) h.0, h.1)
  | inr t ↦ rw t (h.0, modify-All_id P id f rows k h.1)
]

-- The sides of a match bring their ids into the rows, and nothing else does.
tally_scores-All_id :
    (P : String → Type 0) (m : PhaseMatch) (hs aws : ℕ) (rows : List Row)
    → P m.home.id
    → P m.away.id
    → All (λ r. P r.team.id) rows
    → All (λ r. P r.team.id) (tally_scores m (some hs) (some aws) rows)
tally_scores-All_id P m hs aws rows ph pa h =
    let a =
      row_for-All (λ r. P r.team.id) m.away _ pa
        (row_for-All (λ r. P r.team.id) m.home rows ph h) in
    let b =
      modify-All_id P m.away.id _ _ (λ r. refl) (modify-All_id P m.home.id _ _ (λ r. refl) a) in
    elim (Bool-cases (ltb aws hs)) [
      | inl won ↦
          rw won (
            modify-All_id P m.away.id _ _ (λ r. refl) (modify-All_id P m.home.id _ _ (λ r. refl) b))
      | inr w ↦ elim (Bool-cases (ltb hs aws)) [
        | inl lost ↦
            rw (w, lost)
              (modify-All_id P m.home.id _ _ (λ r. refl)
                (modify-All_id P m.away.id _ _ (λ r. refl) b))
        | inr l ↦
            rw (w, l)
              (modify-All_id P m.away.id _ _ (λ r. refl)
                (modify-All_id P m.home.id _ _ (λ r. refl) b))
      ]
    ]

module _ (mls liga_mx : List String) where
  add-ne_nil : (id : String) (ids : List String) → add id ids ≢ []
  add-ne_nil id [] e = cc
  add-ne_nil id (k ∷ ids) e = elim (Bool-cases (has id (k ∷ ids))) [
    | inl t ↦ cons_ne (rw t at e)
    | inr t ↦ cons_ne (rw t at e)
  ]
    where
      cons_ne : {z : String} {zs : List String} → z ∷ zs ≡ [] → ⊥
      cons_ne e = cc

  note_id-nil :
      (id : String) (ids : List String)
      → note_id mls liga_mx id ids ≡ []
      → (unplaced_id mls liga_mx id ≡ false) × (ids ≡ [])
  note_id-nil id ids e = elim (Bool-cases (unplaced_id mls liga_mx id)) [
    | inl t ↦ absurd (add-ne_nil id ids (rw t at e))
    | inr t ↦ (t, rw t at e)
  ]

  abbrev pub IsPlaced : String → Type 0
  IsPlaced id = unplaced_id mls liga_mx id ≡ false

  score_unplaced-nil :
      (m : PhaseMatch) (o p : Option ℕ) (ids : List String)
      → score_unplaced mls liga_mx m o p ids ≡ []
      → ids ≡ []
  score_unplaced-nil m none p ids e = e
  score_unplaced-nil m (some hs) none ids e = e
  score_unplaced-nil m (some hs) (some aws) ids e =
      (note_id-nil m.home.id ids (note_id-nil m.away.id _ e).1).1

  unplaced_after-nil :
      (m : PhaseMatch) (ids : List String) → unplaced_after mls liga_mx m ids ≡ [] → ids ≡ []
  unfolding unplaced_after
  unplaced_after-nil m ids e = elim (Bool-cases (finished_b m.state)) [
    | inl done ↦ score_unplaced-nil m m.home_score m.away_score ids (rw done at e)
    | inr open_ ↦ rw open_ at e
  ]

  unplaced_clubs-nil :
      (matches : List PhaseMatch) (ids : List String)
      → unplaced_clubs mls liga_mx matches ids ≡ []
      → ids ≡ []
  unfolding unplaced_clubs
  unplaced_clubs-nil [] ids e = e
  unplaced_clubs-nil (m ∷ matches) ids e =
      unplaced_after-nil m ids (unplaced_clubs-nil matches (unplaced_after mls liga_mx m ids) e)

  tally_scores-IsPlaced :
      (m : PhaseMatch) (o p : Option ℕ) (ids : List String) (rows : List Row)
      → score_unplaced mls liga_mx m o p ids ≡ []
      → All (λ r. IsPlaced r.team.id) rows
      → All (λ r. IsPlaced r.team.id) (tally_scores m o p rows)
  tally_scores-IsPlaced m none p ids rows e h = h
  tally_scores-IsPlaced m (some hs) none ids rows e h = h
  tally_scores-IsPlaced m (some hs) (some aws) ids rows e h =
      let (away, rest) = note_id-nil m.away.id _ e in
      tally_scores-All_id IsPlaced m hs aws rows (note_id-nil m.home.id ids rest).0 away h

  tally_match-IsPlaced :
      (m : PhaseMatch) (ids : List String) (rows : List Row)
      → unplaced_after mls liga_mx m ids ≡ []
      → All (λ r. IsPlaced r.team.id) rows
      → All (λ r. IsPlaced r.team.id) (tally_match m rows)
  unfolding unplaced_after tally_match
  tally_match-IsPlaced m ids rows e h = elim (Bool-cases (finished_b m.state)) [
    | inl done ↦
        rw done (tally_scores-IsPlaced m m.home_score m.away_score ids rows (rw done at e) h)
    | inr open_ ↦ rw open_ h
  ]

  pub tally-IsPlaced :
      (matches : List PhaseMatch) (ids : List String) (rows : List Row)
      → unplaced_clubs mls liga_mx matches ids ≡ []
      → All (λ r. IsPlaced r.team.id) rows
      → All (λ r. IsPlaced r.team.id) (tally matches rows)
  unfolding unplaced_clubs tally
  tally-IsPlaced [] ids rows e h = h
  tally-IsPlaced (m ∷ matches) ids rows e h =
      tally-IsPlaced matches (unplaced_after mls liga_mx m ids) _ e
        (tally_match-IsPlaced m ids rows (unplaced_clubs-nil matches _ e) h)

  -- A club in exactly one of the sets has a league.
  league_of_placed :
      (id : String)
      → IsPlaced id
      → (in_mls liga_mx (some mls) id || in_liga_mx liga_mx (some mls) id) ≡ true
  unfolding in_mls in_liga_mx
  league_of_placed id h = ground arith

  pub has_row-league :
      (id : String) (rows : List Row)
      → All (λ r. IsPlaced r.team.id) rows
      → (has_row id rows && (in_mls liga_mx (some mls) id || in_liga_mx liga_mx (some mls) id))
        ≡ has_row id rows
  has_row-league id [] h = refl
  has_row-league id (r ∷ rows) h = elim (Bool-cases (str_eq r.team.id id)) [
    | inl t ↦
        let p : IsPlaced id = subst IsPlaced ((eq_iff _ _).0 t) h.0 in rw (t, league_of_placed id p)
    | inr t ↦ rw t (has_row-league id rows h.1)
  ]
