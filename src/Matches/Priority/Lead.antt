-- ===== src/Matches/Priority/Lead.antt =====
-- What the digest leads with, and where the wheel of matches opens.
use score_arc.Prelude.{
  ℕ, ℤ, pos, ◌≤ℤ◌, leb_ℤ, Bool, true, false, Option, none, some, List, [], ◌∷◌, ◌≡◌, refl, ◌≢◌, ◌⊎◌,
  inl, inr, arith, filter, All, any, Bool-cases, Option-cases, get_elem?, some_inj, subst,
}
use score_arc.Model.{Match, MatchState, scheduled_b, live_b, finished_b, finished_b→eq}
use score_arc.Matches.Priority.{
  Buckets, WhatsOnMode, none_on, upcoming_horizon_ms, find_index, next_index, later_index,
  find_last_index, initial_index,
}

-- What each mode says of the buckets and of the rows it shows.
abbrev pub Leads : {T : Type 0} → Buckets T → (T → ℤ) → WhatsOnMode → List T → Type 0
Leads b ms WhatsOnMode.live pool = (pool ≡ b.live) × (pool ≢ [])
Leads b ms WhatsOnMode.recent pool =
    (b.live ≡ [])
    × (pool ≡ b.recent)
    × (pool ≢ [])
    × (filter (λ i. leb_ℤ (ms i) (pos upcoming_horizon_ms)) b.upcoming ≡ [])
Leads b ms WhatsOnMode.upcoming pool =
    (b.live ≡ [])
    × (pool ≢ [])
    × (All (λ i. ms i ≤ℤ pos upcoming_horizon_ms) pool ⊎ (b.recent ≡ []) × (pool ≡ b.upcoming))
Leads b ms none_on pool = (b.live ≡ []) × (b.upcoming ≡ []) × (b.recent ≡ []) × (pool ≡ [])

-- The match at an index passes a test.
abbrev Hits : (Match → Bool) → List Match → ℕ → Type 0
Hits p ms i = (m : Match) × (get_elem? ms i ≡ some m) × (p m ≡ true)

find_index-Hits :
    (p : Match → Bool) (ms : List Match) (i : ℕ) → find_index p ms ≡ some i → Hits p ms i
find_index-Hits p [] i e = cc
find_index-Hits p (m ∷ ms) i e = elim (Bool-cases (p m)) [
  | inl t ↦
      let same : ◌≡◌ {A = ℕ} 0 i = some_inj (rw t at e) in subst (Hits p (m ∷ ms)) same (m, refl, t)
  | inr t ↦ go (find_index p ms) i (find_index-Hits p ms) refl (rw t at e)
]
  where
    go :
        (o : Option ℕ) (i : ℕ)
        → ((j : ℕ) → find_index p ms ≡ some j → Hits p ms j)
        → find_index p ms ≡ o
        → next_index o ≡ some i
        → Hits p (m ∷ ms) i
    go none i found e f = cc
    go (some j) i found e f = subst (Hits p (m ∷ ms)) (some_inj f) (found j e)

find_index-none : (p : Match → Bool) (ms : List Match) → find_index p ms ≡ none → any p ms ≡ false
find_index-none p [] e = refl
find_index-none p (m ∷ ms) e = ground (arith, find_index-none p ms)

find_last_index-Hits :
    (p : Match → Bool) (ms : List Match) (i : ℕ) → find_last_index p ms ≡ some i → Hits p ms i
find_last_index-Hits p [] i e = cc
find_last_index-Hits p (m ∷ ms) i e =
    go (find_last_index p ms) (p m) i (find_last_index-Hits p ms) refl refl e
  where
    go :
        (o : Option ℕ) (b : Bool) (i : ℕ)
        → ((j : ℕ) → find_last_index p ms ≡ some j → Hits p ms j)
        → find_last_index p ms ≡ o
        → p m ≡ b
        → later_index b o ≡ some i
        → Hits p (m ∷ ms) i
    go (some j) b i found e t f = subst (Hits p (m ∷ ms)) (some_inj f) (found j e)
    go none true i found e t f = subst (Hits p (m ∷ ms)) (some_inj f) (m, refl, t)
    go none false i found e t f = cc

find_last_index-none :
    (p : Match → Bool) (ms : List Match) → find_last_index p ms ≡ none → any p ms ≡ false
find_last_index-none p [] e = refl
find_last_index-none p (m ∷ ms) e = ground (arith, find_last_index-none p ms)

-- Opening on a match of a state means that no match of a better state is listed.
abbrev pub Opens : MatchState → List Match → Type 0
Opens MatchState.live ms = Unit
Opens MatchState.scheduled ms = any (λ m. live_b m.state) ms ≡ false
Opens MatchState.finished ms =
    (any (λ m. live_b m.state) ms ≡ false) × (any (λ m. scheduled_b m.state) ms ≡ false)

state_of_none :
    (ms : List Match)
    → any (λ m. live_b m.state) ms ≡ false
    → any (λ m. scheduled_b m.state) ms ≡ false
    → any (λ m. finished_b m.state) ms ≡ false
    → ms ≡ []
state_of_none [] a b c = refl
state_of_none (m ∷ ms) a b c = absurd (ground arith)

-- The wheel opens on a listed match: a live one if any is live, else a scheduled one if any is
-- scheduled, else a finished one.
initial_index-Opens :
    (ms : List Match)
    → ms ≢ []
    → (m : Match) × (get_elem? ms (initial_index ms) ≡ some m) × Opens m.state ms
unfolding initial_index
initial_index-Opens ms some_there = elim (Option-cases (find_index (λ m. live_b m.state) ms)) [
  | inr (i, e) ↦ let (m, g, t) = find_index-Hits _ ms i e in rw e (m, g, rw (live_eq m.state t) tt)
  | inl no_live ↦
      let l = find_index-none _ ms no_live in
      elim (Option-cases (find_index (λ m. scheduled_b m.state) ms)) [
        | inr (i, e) ↦
            let (m, g, t) = find_index-Hits _ ms i e in
            rw (no_live, e) (m, g, rw (scheduled_eq m.state t) l)
        | inl no_next ↦
            let s = find_index-none _ ms no_next in
            elim (Option-cases (find_last_index (λ m. finished_b m.state) ms)) [
              | inr (i, e) ↦
                  let (m, g, t) = find_last_index-Hits _ ms i e in
                  rw (no_live, no_next, e) (m, g, rw (finished_b→eq m.state t) (l, s))
              | inl no_last ↦
                  absurd (some_there (state_of_none ms l s (find_last_index-none _ ms no_last)))
            ]
      ]
]
  where
    live_eq : (s : MatchState) → live_b s ≡ true → s ≡ MatchState.live
    live_eq s h = ground arith

    scheduled_eq : (s : MatchState) → scheduled_b s ≡ true → s ≡ MatchState.scheduled
    scheduled_eq s h = ground arith
