-- ===== src/Views/Cut.antt =====
-- A table split at its qualification cut: src/components/splitByCut.ts, and the highlight of a row
-- of src/components/groupRowClass.ts.
use score_arc.Prelude.{
  ℕ, zero, suc, ◌+◌, ◌-◌, ◌≤◌, ◌<◌, min, max, String, Bool, true, false, ◌||◌, List, [], ◌∷◌, ◌≡◌,
  refl, ap, ◌∙◌, arith, ltb, leb, ◌==◌, if◌then◌else◌, Bool-cases, inl, inr, ◌⊎◌, any, filter, take,
  drop, length, IsNumbered,
}
use score_arc.Model.{Standing}

pub record Split : Type 0 where
  pub in_cut : List Standing
  pub out : List Standing
  pub started : Bool

abbrev pub clamped_cut : ℕ → ℕ → ℕ
clamped_cut n cut = max 1 (min cut (max 1 (n - 1)))

unfoldable pub split_by_cut : List Standing → ℕ → Split
split_by_cut standings cut =
    let c = clamped_cut (length standings) cut in
    let started = any (λ s. ltb 0 s.played) standings in
    if started
    then record {
      in_cut = filter (λ s. leb s.rank c) standings;
      out = filter (λ s. ltb c s.rank) standings;
      started = started;
    }
    else record { in_cut = []; out = standings; started = started }

unfoldable pub group_row_class : Standing → Bool → String
group_row_class s started =
    if started
    then if s.advanced || leb s.rank 2
      then "row-qualify"
      else if s.rank == 3
      then "row-playoff"
      else ""
    else ""

upper-take :
    (c k : ℕ) (xs : List Standing)
    → IsNumbered (λ s. s.rank) k xs
    → filter (λ s. leb s.rank c) xs ≡ take (c - k) xs
upper-take c k [] h = empty (c - k)
  where
    empty : (n : ℕ) → [] ≡ take {A = Standing} n []
    empty zero = refl
    empty (suc n) = refl
upper-take c k (s ∷ xs) h = elim (Bool-cases (leb s.rank c)) [
  | inl t ↦ rw t (
      ap (λ ys. s ∷ ys) (upper-take c (suc k) xs h.1)
      ∙ ap (λ n. take n (s ∷ xs)) (one_more c k s.rank t h.0))
  | inr t ↦ rw t (
      upper-take c (suc k) xs h.1
      ∙ ap (λ n. take n xs) (none_left c k s.rank t h.0)
      ∙ ap (λ n. take n (s ∷ xs)) (none_here c k s.rank t h.0))
]
  where
    one_more : (c k r : ℕ) → leb r c ≡ true → r ≡ k + 1 → suc (c - suc k) ≡ c - k
    one_more c k r t h = ground arith

    none_left : (c k r : ℕ) → leb r c ≡ false → r ≡ k + 1 → c - suc k ≡ 0
    none_left c k r t h = ground arith

    none_here : (c k r : ℕ) → leb r c ≡ false → r ≡ k + 1 → 0 ≡ c - k
    none_here c k r t h = ground arith

lower-drop :
    (c k : ℕ) (xs : List Standing)
    → IsNumbered (λ s. s.rank) k xs
    → filter (λ s. ltb c s.rank) xs ≡ drop (c - k) xs
lower-drop c k [] h = empty (c - k)
  where
    empty : (n : ℕ) → [] ≡ drop {A = Standing} n []
    empty zero = refl
    empty (suc n) = refl
lower-drop c k (s ∷ xs) h = elim (Bool-cases (ltb c s.rank)) [
  | inl t ↦ rw t (
      ap (λ ys. s ∷ ys)
        (lower-drop c (suc k) xs h.1 ∙ ap (λ n. drop n xs) (none_left c k s.rank t h.0))
      ∙ ap (λ n. drop n (s ∷ xs)) (none_here c k s.rank t h.0))
  | inr t ↦
      rw t (lower-drop c (suc k) xs h.1 ∙ ap (λ n. drop n (s ∷ xs)) (one_more c k s.rank t h.0))
]
  where
    one_more : (c k r : ℕ) → ltb c r ≡ false → r ≡ k + 1 → suc (c - suc k) ≡ c - k
    one_more c k r t h = ground arith

    none_left : (c k r : ℕ) → ltb c r ≡ true → r ≡ k + 1 → c - suc k ≡ 0
    none_left c k r t h = ground arith

    none_here : (c k r : ℕ) → ltb c r ≡ true → r ≡ k + 1 → 0 ≡ c - k
    none_here c k r t h = ground arith

-- What a split of a table is: its first rows and its last, or no cut before a match is played.
abbrev pub Splits : List Standing → ℕ → Bool → Split → Type 0
Splits standings c true s = (s.in_cut ≡ take c standings) × (s.out ≡ drop c standings)
Splits standings c false s = (s.in_cut ≡ []) × (s.out ≡ standings)

-- In a table whose rows are numbered 1, 2, 3, … the rows above the cut are its first and the others
-- its last, none lost; the cut leaves a row on both sides where there are two rows or more. Before
-- a match is played nobody is above the cut.
split_by_cut-Splits :
    (standings : List Standing) (cut : ℕ)
    → IsNumbered (λ s. s.rank) 0 standings
    → Splits standings
        (clamped_cut (length standings) cut)
        (any (λ s. ltb 0 s.played) standings)
        (split_by_cut standings cut)
      × (1 ≤ clamped_cut (length standings) cut)
      × ((length standings ≤ 1) ⊎ (clamped_cut (length standings) cut < length standings))
unfolding split_by_cut
split_by_cut-Splits standings cut h = (
  elim (Bool-cases (any (λ s. ltb 0 s.played) standings)) [
    | inl t ↦ rw t (
      upper-take (clamped_cut (length standings) cut) 0 standings h
          ∙ ap (λ n. take n standings) (less_none (clamped_cut (length standings) cut)),
      lower-drop (clamped_cut (length standings) cut) 0 standings h
          ∙ ap (λ n. drop n standings) (less_none (clamped_cut (length standings) cut)),
    )
    | inr t ↦ rw t (refl, refl)
  ],
  omega arith,
  room (length standings),
)
  where
    less_none : (n : ℕ) → n - 0 ≡ n
    less_none n = omega arith

    room : (n : ℕ) → (n ≤ 1) ⊎ (clamped_cut n cut < n)
    room n = ground arith
