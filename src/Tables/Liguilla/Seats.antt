-- ===== src/Tables/Liguilla/Seats.antt =====
-- When eight clubs can be seated, and who meets whom.
use score_arc.Prelude.{
  ℕ, zero, suc, ◌+◌, ◌≤◌, ◌||◌, ◌&&◌, ◌≢◌, Option, none, some, List, [], ◌∷◌, ◌++◌, ◌≡◌, refl, ap,
  ◌∙◌, inl, inr, arith, if◌then◌else◌, ltb, leb, ◌==◌, ==_iff, any, length, Bool-cases, some_inj,
  All, All-append,
}
use score_arc.Model.{Standing}
use score_arc.Tables.Liguilla.{seat, seed}

-- How many rows claim a seed.
abbrev pub claims : ℕ → List Standing → ℕ
claims n [] = 0
claims n (s ∷ rows) = (if s.rank == n then 1 else 0) + claims n rows

claims-append : (n : ℕ) (xs ys : List Standing) → claims n (xs ++ ys) ≡ claims n xs + claims n ys
claims-append n [] ys = omega arith
claims-append n (x ∷ xs) ys = omega (arith, claims-append n xs ys)

any-claims : (n : ℕ) (xs : List Standing) → any (λ r. r.rank == n) xs ≡ ltb 0 (claims n xs)
any-claims n [] = refl
any-claims n (x ∷ xs) = ground (arith, any-claims n xs)

abbrev pub InRange : Standing → Type 0
InRange s = (1 ≤ s.rank) × (s.rank ≤ 8)

-- The seats after the loop: each seed from 1 to 8 as often as it was claimed, and at most once.
pub record IsSeating (rows before after : List Standing) : Type 0 where
  pub exact : (n : ℕ) → 1 ≤ n → n ≤ 8 → claims n after ≡ claims n before + claims n rows
  pub single : (n : ℕ) → claims n before ≤ 1 → claims n after ≤ 1
  pub ranged : All InRange before → All InRange after

pub seat-IsSeating :
    (rows before after : List Standing)
    → seat rows before ≡ some after
    → IsSeating rows before after
unfolding seat
seat-IsSeating [] before after e = record {
  exact = λ n a b. rw (← some_inj e) (omega arith);
  single = λ n h. rw (← some_inj e) h;
  ranged = λ h. rw (← some_inj e) h;
}
seat-IsSeating (s ∷ rows) before after e = elim (Bool-cases (ltb s.rank 1 || ltb 8 s.rank)) [
  | inl out ↦
      let ih = seat-IsSeating rows before after (rw out at e) in
      record {
        exact = λ n a b. ground (arith, ih.exact n a b);
        single = λ n h. ih.single n h;
        ranged = λ h. ih.ranged h;
      }
  | inr inside ↦ elim (Bool-cases (any (λ r. r.rank == s.rank) before)) [
    | inl twice ↦ absurd (impossible (rw (inside, twice) at e))
    | inr fresh ↦
        let ih = seat-IsSeating rows (before ++ s ∷ []) after (rw (inside, fresh) at e) in
        record {
          exact = λ n a b. ground (arith, ih.exact n a b, claims-append n before (s ∷ []));
          single = λ n h.
              ih.single n (ground (arith, claims-append n before (s ∷ []), any-claims n before));
          ranged = λ h. ih.ranged (All-append InRange before (s ∷ []) h (ground arith, tt));
        }
  ]
]
  where
    impossible : ◌≡◌ {A = Option (List Standing)} none (some after) → ⊥
    impossible e = cc

-- The loop gives up only over a seed that is claimed twice.
pub seat-ne-none :
    (rows before : List Standing)
    → ((n : ℕ) → 1 ≤ n → n ≤ 8 → claims n before + claims n rows ≤ 1)
    → seat rows before ≢ none
unfolding seat
seat-ne-none [] before h e = cc
seat-ne-none (s ∷ rows) before h e = elim (Bool-cases (ltb s.rank 1 || ltb 8 s.rank)) [
  | inl out ↦ seat-ne-none rows before (λ n a b. ground (arith, h n a b)) (rw out at e)
  | inr inside ↦ elim (Bool-cases (any (λ r. r.rank == s.rank) before)) [
    | inl twice ↦
        let c = h s.rank (ground arith) (ground arith) in ground (arith, any-claims s.rank before)
    | inr fresh ↦
        seat-ne-none rows (before ++ s ∷ [])
          (λ n a b. omega (arith, h n a b, claims-append n before (s ∷ [])))
          (rw (inside, fresh) at e)
  ]
]

abbrev pub first_of : Option Standing → Option Standing → Option Standing
first_of none y = y
first_of (some x) y = some x

seed-append : (n : ℕ) (xs ys : List Standing) → seed (xs ++ ys) n ≡ first_of (seed xs n) (seed ys n)
seed-append n [] ys = refl
seed-append n (x ∷ xs) ys = ground (arith, seed-append n xs ys)

first_of_assoc : (x y z : Option Standing) → first_of (first_of x y) z ≡ first_of x (first_of y z)
first_of_assoc none y z = refl
first_of_assoc (some x) y z = refl

-- The seat of a seed is its first claim.
pub seat-seed :
    (rows before after : List Standing) (n : ℕ)
    → seat rows before ≡ some after
    → 1 ≤ n
    → n ≤ 8
    → seed after n ≡ first_of (seed before n) (seed rows n)
unfolding seat
seat-seed [] before after n e a b = rw (← some_inj e) (go (seed before n))
  where
    go : (o : Option Standing) → o ≡ first_of o none
    go none = refl
    go (some x) = refl
seat-seed (s ∷ rows) before after n e a b = elim (Bool-cases (ltb s.rank 1 || ltb 8 s.rank)) [
  | inl out ↦ ground (arith, seat-seed rows before after n (rw out at e) a b)
  | inr inside ↦ elim (Bool-cases (any (λ r. r.rank == s.rank) before)) [
    | inl twice ↦ absurd (impossible (rw (inside, twice) at e))
    | inr fresh ↦
        seat-seed rows (before ++ s ∷ []) after n (rw (inside, fresh) at e) a b
        ∙ ap (λ o. first_of o (seed rows n)) (seed-append n before (s ∷ []))
        ∙ first_of_assoc (seed before n) (seed (s ∷ []) n) (seed rows n)
        ∙ ap (first_of (seed before n)) (cons_seed s rows n)
  ]
]
  where
    impossible : ◌≡◌ {A = Option (List Standing)} none (some after) → ⊥
    impossible e = cc

    cons_seed :
        (s : Standing) (rows : List Standing) (n : ℕ)
        → first_of (seed (s ∷ []) n) (seed rows n) ≡ seed (s ∷ rows) n
    cons_seed s rows n = ground arith

-- The claims of the seeds 1 to `k` together.
abbrev pub claims_upto : ℕ → List Standing → ℕ
claims_upto zero xs = 0
claims_upto (suc k) xs = claims_upto k xs + claims (suc k) xs

claims_upto-cons :
    (k : ℕ) (s : Standing) (xs : List Standing)
    → claims_upto k (s ∷ xs) ≡ (if ltb 0 s.rank && leb s.rank k then 1 else 0) + claims_upto k xs
claims_upto-cons zero s xs = ground arith
claims_upto-cons (suc k) s xs = ground (arith, claims_upto-cons k s xs)

claims_upto-nil : (k : ℕ) → claims_upto k [] ≡ 0
claims_upto-nil zero = refl
claims_upto-nil (suc k) = omega (arith, claims_upto-nil k)

pub length-claims : (xs : List Standing) → All InRange xs → length xs ≡ claims_upto 8 xs
length-claims [] h = refl
length-claims (x ∷ xs) h = ground (arith, claims_upto-cons 8 x xs, length-claims xs h.1)

claims_upto-le : (k : ℕ) (xs : List Standing) → ((n : ℕ) → claims n xs ≤ 1) → claims_upto k xs ≤ k
claims_upto-le zero xs h = omega arith
claims_upto-le (suc k) xs h = omega (arith, claims_upto-le k xs h, h (suc k))

-- Eight seats hold each of the eight seeds.
pub claims_full :
    (k : ℕ) (xs : List Standing) (n : ℕ)
    → ((n : ℕ) → claims n xs ≤ 1)
    → claims_upto k xs ≡ k
    → 1 ≤ n
    → n ≤ k
    → claims n xs ≡ 1
claims_full zero xs n h e a b = absurd (omega arith)
claims_full (suc k) xs n h e a b = elim (Bool-cases (n == suc k)) [
  | inl last ↦ rw ((==_iff n (suc k)).0 last) (omega (arith, claims_upto-le k xs h, h (suc k)))
  | inr earlier ↦
      claims_full k xs n h (omega (arith, claims_upto-le k xs h, h (suc k))) a (ground arith)
]

pub claims_upto_of_each :
    (k : ℕ) (xs : List Standing)
    → ((n : ℕ) → 1 ≤ n → n ≤ k → claims n xs ≡ 1)
    → claims_upto k xs ≡ k
claims_upto_of_each zero xs h = refl
claims_upto_of_each (suc k) xs h = omega (
  arith,
  h (suc k) (omega arith) (omega arith),
  claims_upto_of_each k xs (λ n a b. h n a (omega arith)),
)

pub seed_of_claims :
    (xs : List Standing) (n : ℕ) → claims n xs ≡ 1 → (s : Standing) × (seed xs n ≡ some s)
seed_of_claims [] n h = absurd (omega arith)
seed_of_claims (x ∷ xs) n h = elim (Bool-cases (x.rank == n)) [
  | inl t ↦ (x, rw t)
  | inr t ↦ let (s, e) = seed_of_claims xs n (ground arith) in (s, rw t e)
]
