-- ===== src/Prelude/Lists.antt =====
-- Lists measured and indexed by native numbers, filters and searches by a Boolean test, and
-- predicates on all members.
use Prim.Native.Nat.{ℕ, zero, suc, ◌+◌, ◌≤◌, ◌<◌, min}
use Prim.Native.String.{String}
use mathlib.Core.Path.{◌≡◌, refl, ap, ◌∙◌, subst, sym}
use mathlib.Core.Logic.{inl, inr}
use mathlib.Core.Bool.{Bool, true, false, ◌&&◌, ◌||◌}
use mathlib.Core.Option.{Option, none, some}
use mathlib.Core.List.{List, [], ◌∷◌, ◌++◌, map}
use native.Mathlib.Omega.{arith}
use score_arc.Prelude.Tests.{if◌then◌else◌, str_eq, some_inj, Bool-cases}

module _ {ℓ} {A : Type ℓ} where
  abbrev pub length : List A → ℕ
  length [] = 0
  length (x ∷ xs) = suc (length xs)

  abbrev pub get_elem? : List A → ℕ → Option A
  get_elem? [] i = none
  get_elem? (x ∷ xs) zero = some x
  get_elem? (x ∷ xs) (suc i) = get_elem? xs i

  -- `slice(0, n)` and `slice(n)`.
  abbrev pub take : ℕ → List A → List A
  take zero xs = []
  take (suc n) [] = []
  take (suc n) (x ∷ xs) = x ∷ take n xs

  abbrev pub drop : ℕ → List A → List A
  drop zero xs = xs
  drop (suc n) [] = []
  drop (suc n) (x ∷ xs) = drop n xs

  -- `filter`, `find`, `some` and `every` of an array.
  abbrev pub filter : (A → Bool) → List A → List A
  filter p [] = []
  filter p (x ∷ xs) = if p x then x ∷ filter p xs else filter p xs

  abbrev pub find : (A → Bool) → List A → Option A
  find p [] = none
  find p (x ∷ xs) = if p x then some x else find p xs

  abbrev pub any : (A → Bool) → List A → Bool
  any p [] = false
  any p (x ∷ xs) = p x || any p xs

  abbrev pub all : (A → Bool) → List A → Bool
  all p [] = true
  all p (x ∷ xs) = p x && all p xs

  -- A predicate of every member, computing to a tuple.
  abbrev pub All {κ} : (A → Type κ) → List A → Type κ
  All P [] = Unit
  All P (x ∷ xs) = P x × All P xs

abbrev pub is_nil {ℓ} : {A : Type ℓ} → List A → Bool
is_nil [] = true
is_nil (x ∷ xs) = false

-- `flatMap`.
abbrev pub flat_map {ℓ κ} : {A : Type ℓ} {B : Type κ} → (A → List B) → List A → List B
flat_map f [] = []
flat_map f (x ∷ xs) = f x ++ flat_map f xs

-- `has` of a set of ids, kept as the list of its members.
abbrev pub has : String → List String → Bool
has k [] = false
has k (x ∷ xs) = str_eq x k || has k xs

-- `map((x, i) => f i x)` from a first index.
abbrev pub map_idx_from {ℓ κ} : {A : Type ℓ} {B : Type κ} → (ℕ → A → B) → ℕ → List A → List B
map_idx_from f i [] = []
map_idx_from f i (x ∷ xs) = f i x ∷ map_idx_from f (suc i) xs

module _ {ℓ} {A : Type ℓ} where
  pub length-append : (xs ys : List A) → length (xs ++ ys) ≡ length xs + length ys
  length-append [] ys = omega arith
  length-append (x ∷ xs) ys = omega (arith, length-append xs ys)

  pub length-map {κ} : {B : Type κ} (f : A → B) (xs : List A) → length (map f xs) ≡ length xs
  length-map f [] = refl
  length-map f (x ∷ xs) = ap suc (length-map f xs)

  pub length-map_idx_from {κ} :
      {B : Type κ} (f : ℕ → A → B) (i : ℕ) (xs : List A) → length (map_idx_from f i xs) ≡ length xs
  length-map_idx_from f i [] = refl
  length-map_idx_from f i (x ∷ xs) = ap suc (length-map_idx_from f (suc i) xs)

  pub length-take : (n : ℕ) (xs : List A) → length (take n xs) ≡ min n (length xs)
  length-take zero xs = omega arith
  length-take (suc n) [] = omega arith
  length-take (suc n) (x ∷ xs) = omega (arith, length-take n xs)

  pub length-filter : (p : A → Bool) (xs : List A) → length (filter p xs) ≤ length xs
  length-filter p [] = omega arith
  length-filter p (x ∷ xs) = ground (arith, length-filter p xs)

  pub All-append {κ} : (P : A → Type κ) (xs ys : List A) → All P xs → All P ys → All P (xs ++ ys)
  All-append P [] ys hx hy = hy
  All-append P (x ∷ xs) ys hx hy = (hx.0, All-append P xs ys hx.1 hy)

  pub All-imp {κ μ} :
      {P : A → Type κ} {Q : A → Type μ}
      → ((x : A) → P x → Q x)
      → (xs : List A) → All P xs
      → All Q xs
  All-imp f [] h = tt
  All-imp f (x ∷ xs) h = (f x h.0, All-imp f xs h.1)

  pub All-filter {κ} :
      (P : A → Type κ) (p : A → Bool) (xs : List A) → All P xs → All P (filter p xs)
  All-filter P p [] h = tt
  All-filter P p (x ∷ xs) h = go (p x) (All-filter P p xs h.1)
    where
      go : (b : Bool) → All P (filter p xs) → All P (if b then x ∷ filter p xs else filter p xs)
      go true ih = (h.0, ih)
      go false ih = ih

  -- What a filter keeps passes its test.
  pub filter-All : (p : A → Bool) (xs : List A) → All (λ x. p x ≡ true) (filter p xs)
  filter-All p [] = tt
  filter-All p (x ∷ xs) = go (p x) refl (filter-All p xs)
    where
      go :
          (b : Bool)
          → p x ≡ b
          → All (λ y. p y ≡ true) (filter p xs)
          → All (λ y. p y ≡ true) (if b then x ∷ filter p xs else filter p xs)
      go true e ih = (e, ih)
      go false e ih = ih

module _ {ℓ} {A : Type ℓ} where
  pub All-get {κ} :
      (P : A → Type κ) (xs : List A) (i : ℕ) {a : A} → All P xs → get_elem? xs i ≡ some a → P a
  All-get P [] i h e = cc
  All-get P (x ∷ xs) zero h e = subst P (some_inj e) h.0
  All-get P (x ∷ xs) (suc i) h e = All-get P xs i h.1 e

  pub get-map_idx_from {κ} :
      {B : Type κ} (f : ℕ → A → B) (k : ℕ) (xs : List A) (i : ℕ) {b : B}
      → get_elem? (map_idx_from f k xs) i ≡ some b
      → (a : A) × (get_elem? xs i ≡ some a) × (f (k + i) a ≡ b)
  get-map_idx_from f k [] i e = cc
  get-map_idx_from f k (x ∷ xs) zero e = (x, refl, ap (λ n. f n x) (omega arith) ∙ some_inj e)
  get-map_idx_from f k (x ∷ xs) (suc i) e =
      let (a, g, same) = get-map_idx_from f (suc k) xs i e in
      (a, g, ap (λ n. f n a) (omega arith) ∙ same)

  pub get-some_of_lt : (xs : List A) (i : ℕ) → i < length xs → (a : A) × (get_elem? xs i ≡ some a)
  get-some_of_lt [] i h = absurd (omega arith)
  get-some_of_lt (x ∷ xs) zero h = (x, refl)
  get-some_of_lt (x ∷ xs) (suc i) h = get-some_of_lt xs i (omega arith)

  pub lt_of_get : (xs : List A) (i : ℕ) {a : A} → get_elem? xs i ≡ some a → i < length xs
  lt_of_get [] i e = cc
  lt_of_get (x ∷ xs) zero e = omega arith
  lt_of_get (x ∷ xs) (suc i) e = omega (arith, lt_of_get xs i e)

  pub get-map_idx {κ} :
      {B : Type κ} (f : ℕ → A → B) (xs : List A) (i : ℕ) {b : B}
      → get_elem? (map_idx_from f 0 xs) i ≡ some b
      → (a : A) × (get_elem? xs i ≡ some a) × (f i a ≡ b)
  get-map_idx f xs i e =
      let (a, g, same) = get-map_idx_from f 0 xs i e in (a, g, ap (λ n. f n a) (omega arith) ∙ same)

  -- What `find` returns passes the test, and has what all members have.
  pub find-true : (p : A → Bool) (xs : List A) {a : A} → find p xs ≡ some a → p a ≡ true
  find-true p [] e = cc
  find-true p (x ∷ xs) {a} e = elim (Bool-cases (p x)) [
    | inl t ↦ subst (λ y. p y ≡ true) (some_inj (sym (rw t) ∙ e)) t
    | inr f ↦ find-true p xs (rw f at e)
  ]

  pub All-find {κ} :
      (P : A → Type κ) (p : A → Bool) (xs : List A) {a : A} → All P xs → find p xs ≡ some a → P a
  All-find P p [] h e = cc
  All-find P p (x ∷ xs) {a} h e = elim (Bool-cases (p x)) [
    | inl t ↦ subst P (some_inj (sym (rw t) ∙ e)) h.0
    | inr f ↦ All-find P p xs h.1 (rw f at e)
  ]

module _ {ℓ} {A : Type ℓ} where
  -- A value that is a member of a list.
  abbrev pub IsListed : List A → A → Type ℓ
  IsListed xs x = (i : ℕ) × (get_elem? xs i ≡ some x)

  pub All-IsListed : (xs : List A) → All (IsListed xs) xs
  All-IsListed [] = tt
  All-IsListed (x ∷ xs) = ((0, refl), All-imp (λ y l. (suc l.0, l.1)) xs (All-IsListed xs))
