-- ===== src/Matches/Performance/Record.antt =====
-- The numbers of a record: one result for each match, mirrored for the other side.
use score_arc.Prelude.{
  ℕ, suc, min, ◌+◌, ◌≤◌, ◌<◌, ℤ, pos, ◌+ℤ◌, ◌-ℤ◌, String, Bool, true, false, ◌&&◌, ◌||◌, Option,
  none, some, List, [], ◌∷◌, ◌++◌, ◌≡◌, refl, ap, ◌∙◌, arith, str_eq, Bool-cases, inl, inr, length,
  filter, take, drop, leb, leb→le, leb-false→lt, length-take, length-append, int_laws,
  if◌then◌else◌, str_eq_self, not, zero,
}
use score_arc.Model.{Match, Scope, finished_b}
use score_arc.Matches.Performance.{
  TeamResult, win, draw, loss, PerformanceMatch, PerformancePeriod, result_of, perform, scored,
  countable, is_some, played_b, in_scope, known_score, Change, TeamPerformance, performance_match,
  is_result, count_of, period, performance_of, eligible_team_matches, unique_team_matches,
  team_performance,
}
use score_arc.Prelude.Sort.{Collation}

-- The other side's result.
abbrev pub mirror : TeamResult → TeamResult
mirror win = loss
mirror draw = draw
mirror loss = win

result_of-mirror : (a b : ℕ) → result_of b a ≡ mirror (result_of a b)
result_of-mirror a b = ground arith

-- The two records of one match.
pub record IsMirrored (home away : PerformanceMatch) : Type 0 where
  pub result : away.result ≡ mirror home.result
  pub scored_conceded : away.goals_against ≡ home.goals_for
  pub conceded_scored : away.goals_for ≡ home.goals_against

results_partition :
    (ms : List PerformanceMatch) → count_of win ms + count_of draw ms + count_of loss ms ≡ length ms
results_partition [] = omega arith
results_partition (m ∷ ms) = one m.result (results_partition ms)
  where
    one :
        (r : TeamResult)
        → count_of win ms + count_of draw ms + count_of loss ms ≡ length ms
        → length (
              if is_result r win
              then m ∷ filter (λ m. is_result m.result win) ms
              else filter (λ m. is_result m.result win) ms)
            + length (
                if is_result r draw
                then m ∷ filter (λ m. is_result m.result draw) ms
                else filter (λ m. is_result m.result draw) ms)
            + length (
                if is_result r loss
                then m ∷ filter (λ m. is_result m.result loss) ms
                else filter (λ m. is_result m.result loss) ms)
          ≡ suc (length ms)
    one win ih = omega (arith, ih)
    one draw ih = omega (arith, ih)
    one loss ih = omega (arith, ih)

abbrev pub Mirrors : Option PerformanceMatch → Option PerformanceMatch → Type 0
Mirrors none none = Unit
Mirrors (some home) (some away) = IsMirrored home away
Mirrors _ _ = ⊥

perform-IsMirrored : (m : Match) (h a : ℕ) → IsMirrored (perform m true h a) (perform m false h a)
perform-IsMirrored m h a = record {
  result = result_of-mirror h a;
  scored_conceded = refl;
  conceded_scored = refl;
}

scored-Mirrors :
    (m : Match) (ho ao : Option ℕ)
    → str_eq m.home.id m.away.id ≡ false
    → Mirrors (scored m m.home.id ho ao) (scored m m.away.id ho ao)
scored-Mirrors m none ao ne = tt
scored-Mirrors m (some h) none ne = tt
scored-Mirrors m (some h) (some a) ne = elim (Bool-cases (known_score h && known_score a)) [
  | inl t ↦ rw (t, ne, str_eq_self m.home.id) (perform-IsMirrored m h a)
  | inr t ↦ rw t tt
]

-- A finished match counts for both sides or for neither, whichever its guards refuse: the goals
-- that one side scored the other conceded, and a win of one is a loss of the other.
performance_match-Mirrors :
    (instant : String → Option ℤ) (m : Match) (scope : Scope)
    → Mirrors
        (performance_match instant m m.home.id scope)
        (performance_match instant m m.away.id scope)
unfolding performance_match
performance_match-Mirrors instant m scope =
    let same = countable-same instant m scope in
    elim (Bool-cases (countable instant m m.away.id scope)) [
      | inl t ↦
          rw (t, same ∙ t)
            (scored-Mirrors m m.home_score m.away_score (two_sides instant m scope t))
      | inr t ↦ rw (t, same ∙ t) tt
    ]
  where
    countable-same :
        (instant : String → Option ℤ) (m : Match) (scope : Scope)
        → countable instant m m.home.id scope ≡ countable instant m m.away.id scope
    countable-same instant m scope =
        ap
          (λ b.
            not (str_eq m.id "")
            && is_some (instant m.kickoff)
            && finished_b m.state
            && played_b m.status_name
            && in_scope m.scope scope
            && not (str_eq m.home.id m.away.id)
            && b)
          (both (str_eq m.away.id m.home.id) (str_eq m.home.id m.away.id) (str_eq_self m.home.id)
            (str_eq_self m.away.id))
      where
        both : {x y : Bool} (b c : Bool) → x ≡ true → y ≡ true → (x || b) ≡ (c || y)
        both b c hx hy = ground arith

    two_sides :
        (instant : String → Option ℤ) (m : Match) (scope : Scope)
        → countable instant m m.away.id scope ≡ true
        → str_eq m.home.id m.away.id ≡ false
    two_sides instant m scope h =
        sixth (not (str_eq m.id "")) (is_some (instant m.kickoff)) (finished_b m.state)
          (played_b m.status_name) (in_scope m.scope scope) (str_eq m.home.id m.away.id)
          (str_eq m.home.id m.away.id || str_eq m.away.id m.away.id) h
      where
        sixth : (a b c d e f g : Bool) → (a && b && c && d && e && not f && g) ≡ true → f ≡ false
        sixth a b c d e f g h = ground arith

-- The comparison with the five matches before.
abbrev pub Compares : List PerformanceMatch → Option PerformancePeriod → Option Change → Type 0
Compares eligible none none = length eligible < 10
Compares eligible (some p) (some c) =
    (p.sample ≡ 5)
    × (p.wins + p.draws + p.losses ≡ 5)
    × (take 5 eligible ++ p.matches ≡ take 10 eligible)
    × (c.wins +ℤ c.draws +ℤ c.losses ≡ pos 0)
Compares eligible _ _ = ⊥

-- What the performance says of the eligible matches.
pub record IsRecord (eligible : List PerformanceMatch) (t : TeamPerformance) : Type 0 where
  pub counted : t.eligible_count ≡ length eligible
  pub newest : t.recent.matches ≡ take 5 eligible
  pub sample : t.recent.sample ≡ min 5 (length eligible)
  pub adds_up : t.recent.wins + t.recent.draws + t.recent.losses ≡ t.recent.sample
  pub compares : Compares eligible t.previous t.change

suc-plus : (n k : ℕ) → suc (n + k) ≡ suc n + k
suc-plus n k = omega arith

take-append :
    (n k : ℕ) (xs : List PerformanceMatch) → take n xs ++ take k (drop n xs) ≡ take (n + k) xs
take-append zero k xs = ap (λ i. take i xs) (omega arith)
take-append (suc n) k [] = take_nil k ∙ ap (λ i. take {A = PerformanceMatch} i []) (suc-plus n k)
  where
    take_nil :
        (k : ℕ) → take {A = PerformanceMatch} k [] ≡ take {A = PerformanceMatch} (suc (n + k)) []
    take_nil zero = refl
    take_nil (suc k) = refl
take-append (suc n) k (x ∷ xs) =
    ap (λ ys. x ∷ ys) (take-append n k xs) ∙ ap (λ i. take i (x ∷ xs)) (suc-plus n k)

length-drop5 : (xs : List PerformanceMatch) → 10 ≤ length xs → length (take 5 (drop 5 xs)) ≡ 5
length-drop5 xs h =
    length-take 5 (drop 5 xs)
    ∙ omega (
      arith,
      h,
      length-append (take 5 xs) (take 5 (drop 5 xs)),
      length-take 5 xs,
      ap length (take-append 5 5 xs),
      length-take 10 xs,
      length-take 5 (drop 5 xs),
    )

performance_of-IsRecord :
    (eligible : List PerformanceMatch) → IsRecord eligible (performance_of eligible)
unfolding performance_of period
performance_of-IsRecord eligible = record {
  counted = refl;
  newest = refl;
  sample = length-take 5 eligible;
  adds_up = results_partition (take 5 eligible);
  compares = elim (Bool-cases (leb 10 (length eligible))) [
    | inl t ↦
        let full : 10 ≤ length eligible = leb→le _ _ t in
        let next = take 5 (drop 5 eligible) in
        let five = length-drop5 eligible full in
        rw t (
          five,
          results_partition next ∙ five,
          take-append 5 5 eligible,
          no_change (take 5 eligible) next (length-take 5 eligible ∙ omega (arith, full)) five,
        )
    | inr t ↦ rw t (leb-false→lt _ _ t)
  ];
}
  where
    cancels :
        (w d l v e k : ℕ)
        → w + d + l ≡ 5
        → v + e + k ≡ 5
        → (pos w -ℤ pos v) +ℤ (pos d -ℤ pos e) +ℤ (pos l -ℤ pos k) ≡ pos 0
    cancels w d l v e k h g = omega int_laws

    no_change :
        (xs ys : List PerformanceMatch)
        → length xs ≡ 5
        → length ys ≡ 5
        → (pos (count_of win xs) -ℤ pos (count_of win ys))
            +ℤ (pos (count_of draw xs) -ℤ pos (count_of draw ys))
            +ℤ (pos (count_of loss xs) -ℤ pos (count_of loss ys))
          ≡ pos 0
    no_change xs ys a b =
        cancels (count_of win xs) (count_of draw xs) (count_of loss xs) (count_of win ys)
          (count_of draw ys) (count_of loss ys) (results_partition xs ∙ a)
          (results_partition ys ∙ b)

-- The recent period is the five newest countable matches, or all where there are fewer, and its
-- wins, draws and losses make up the sample. There is a comparison exactly from ten countable
-- matches on: it is with the five matches just before, none shared and none skipped, and the
-- changes in wins, draws and losses cancel out.
pub team_performance-IsRecord :
    (instant : String → Option ℤ) (ids : Collation) (matches : List Match) (team_id : String)
    (scope : Scope)
    → IsRecord
        (eligible_team_matches instant (unique_team_matches instant ids matches) team_id scope)
        (team_performance instant ids matches team_id scope)
unfolding team_performance
team_performance-IsRecord instant ids matches team_id scope =
    performance_of-IsRecord
      (eligible_team_matches instant (unique_team_matches instant ids matches) team_id scope)
