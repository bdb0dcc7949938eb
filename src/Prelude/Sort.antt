-- ===== src/Prelude/Sort.antt =====
-- `Array.prototype.sort` with a comparator that returns a number: a stable sort. The laws of a
-- comparator, and the `||` chains by which the source composes comparators.
use Prim.Native.String.{String}
use Prim.Native.Nat.{ℕ, zero, suc, ◌≤◌}
use mathlib.Core.Path.{◌≡◌, refl, sym, ◌∙◌, subst, ap}
use mathlib.Core.Option.{some}
use mathlib.Core.Logic.{◌≢◌, inl, inr}
use mathlib.Core.Bool.{Bool, true, false, ◌||◌}
use mathlib.Core.List.{List, [], ◌∷◌, Perm}
use mathlib.Core.List.Perm
use native.Mathlib.Omega.{arith}
use score_arc.Prelude.Tests.{str_eq, if◌then◌else◌, leb→le, some_inj, Bool-cases}
use score_arc.Prelude.Lists.{length, has, All, All-imp, All-get, get_elem?, any}
use score_arc.Prelude.Keys.{Pairs}
use score_arc.Prelude.Int.{ℤ, pos, ◌≤ℤ◌, ◌<ℤ◌, leb_ℤ, eqb_ℤ, ◌-ℤ◌, -ℤ_parts}

-- `a || b` on numbers.
infixr 30 ◌or_else◌
abbrev pub ◌or_else◌ : ℤ → ℤ → ℤ
a or_else b = if eqb_ℤ a (pos 0) then b else a

abbrev pub Comparator {ℓ} : Type ℓ → Type ℓ
Comparator A = A → A → ℤ

-- What makes a comparator a total preorder: the sign turns with the arguments, and `≤` chains.
pub record IsOrder {ℓ} {A : Type ℓ} (cmp : Comparator A) : Type ℓ where
  pub flip_up : (a b : A) → cmp a b ≤ℤ pos 0 → pos 0 ≤ℤ cmp b a
  pub flip_down : (a b : A) → pos 0 ≤ℤ cmp a b → cmp b a ≤ℤ pos 0
  pub chain : (a b c : A) → cmp a b ≤ℤ pos 0 → cmp b c ≤ℤ pos 0 → cmp a c ≤ℤ pos 0

-- `b.f - a.f` and `a.f - b.f`.
module _ {ℓ} {A : Type ℓ} (f : A → ℤ) where
  abbrev pub descending : Comparator A
  descending a b = f b -ℤ f a

  abbrev pub ascending : Comparator A
  ascending a b = f a -ℤ f b

  pub descending-IsOrder : IsOrder descending
  descending-IsOrder = record {
    flip_up = λ a b h. omega (arith, -ℤ_parts);
    flip_down = λ a b h. omega (arith, -ℤ_parts);
    chain = λ a b c h k. omega (arith, -ℤ_parts);
  }

  pub ascending-IsOrder : IsOrder ascending
  ascending-IsOrder = record {
    flip_up = λ a b h. omega (arith, -ℤ_parts);
    flip_down = λ a b h. omega (arith, -ℤ_parts);
    chain = λ a b c h k. omega (arith, -ℤ_parts);
  }

-- A chain of two orders is an order.
module _ {ℓ} {A : Type ℓ} {c d : Comparator A} (oc : IsOrder c) (od : IsOrder d) where
  abbrev then_by : Comparator A
  then_by a b = c a b or_else d a b

  then_by-chain : (x y z : A) → then_by x y ≤ℤ pos 0 → then_by y z ≤ℤ pos 0 → then_by x z ≤ℤ pos 0
  then_by-chain x y z h k = ground (
    arith,
    oc.chain x y z,
    oc.chain y z x,
    oc.chain z x y,
    oc.flip_down x z,
    oc.flip_up y x,
    oc.flip_up z y,
    od.chain x y z,
  )

  pub then_by-IsOrder : IsOrder (λ a b. c a b or_else d a b)
  then_by-IsOrder = record {
    flip_up = λ a b h.
        ground (
          arith,
          oc.flip_up a b,
          oc.flip_up b a,
          oc.flip_down a b,
          oc.flip_down b a,
          od.flip_up a b,
        );
    flip_down = λ a b h. ground (
      arith,
      oc.flip_up a b,
      oc.flip_up b a,
      oc.flip_down a b,
      oc.flip_down b a,
      od.flip_down a b,
    );
    chain = then_by-chain;
  }

-- An order of a view is an order.
pub view-IsOrder {ℓ κ} :
    {A : Type ℓ} {B : Type κ} {cmp : Comparator B} (f : A → B)
    → IsOrder cmp
    → IsOrder {A = A} (λ a b. cmp (f a) (f b))
view-IsOrder f o = record {
  flip_up = λ a b. o.flip_up (f a) (f b);
  flip_down = λ a b. o.flip_down (f a) (f b);
  chain = λ a b c. o.chain (f a) (f b) (f c);
}

-- `localeCompare`: its collation is the runtime's, and what the source relies on is an order.
pub record Collation : Type 0 where
  pub compare_text : Comparator String
  pub is_order : IsOrder compare_text

module _ {ℓ} {A : Type ℓ} (cmp : Comparator A) where
  abbrev insert : A → List A → List A
  insert x [] = x ∷ []
  insert x (y ∷ ys) = if leb_ℤ (cmp x y) (pos 0) then x ∷ y ∷ ys else y ∷ insert x ys

  unfoldable pub sort : List A → List A
  sort [] = []
  sort (x ∷ xs) = insert x (sort xs)

  -- No member compares above a later one.
  abbrev pub IsSorted : List A → Type 0
  IsSorted xs = Pairs (λ x y. cmp x y ≤ℤ pos 0) xs

  insert-perm : (x : A) (ys : List A) → Perm (insert x ys) (x ∷ ys)
  insert-perm x [] = Perm.refl _
  insert-perm x (y ∷ ys) = go (leb_ℤ (cmp x y) (pos 0)) (insert-perm x ys)
    where
      go :
          (b : Bool)
          → Perm (insert x ys) (x ∷ ys)
          → Perm (if b then x ∷ y ∷ ys else y ∷ insert x ys) (x ∷ y ∷ ys)
      go true ih = Perm.refl _
      go false ih = Perm.trans (Perm.cons y ih) (Perm.swap x y ys)

  pub sort-perm : (xs : List A) → Perm (sort xs) xs
  unfolding sort
  sort-perm [] = Perm.refl _
  sort-perm (x ∷ xs) = Perm.trans (insert-perm x (sort xs)) (Perm.cons x (sort-perm xs))

  All-insert {κ} : (P : A → Type κ) (x : A) (ys : List A) → P x → All P ys → All P (insert x ys)
  All-insert P x [] p h = (p, tt)
  All-insert P x (y ∷ ys) p h = go (leb_ℤ (cmp x y) (pos 0)) (All-insert P x ys p h.1)
    where
      go : (b : Bool) → All P (insert x ys) → All P (if b then x ∷ y ∷ ys else y ∷ insert x ys)
      go true ih = (p, h)
      go false ih = (h.0, ih)

  pub All-sort {κ} : (P : A → Type κ) (xs : List A) → All P xs → All P (sort xs)
  unfolding sort
  All-sort P [] h = tt
  All-sort P (x ∷ xs) h = All-insert P x (sort xs) h.0 (All-sort P xs h.1)

  module _ (o : IsOrder cmp) where
    insert-IsSorted : (x : A) (ys : List A) → IsSorted ys → IsSorted (insert x ys)
    insert-IsSorted x [] s = (tt, tt)
    insert-IsSorted x (y ∷ ys) s = go (leb_ℤ (cmp x y) (pos 0)) refl (insert-IsSorted x ys s.1)
      where
        go :
            (b : Bool)
            → leb_ℤ (cmp x y) (pos 0) ≡ b
            → IsSorted (insert x ys)
            → IsSorted (if b then x ∷ y ∷ ys else y ∷ insert x ys)
        go true e ih =
            let le : cmp x y ≤ℤ pos 0 = leb→le _ _ e in
            ((le, All-imp (λ z h. o.chain x y z le h) ys s.0), s)
        go false e ih =
            (All-insert (λ z. cmp y z ≤ℤ pos 0) x ys (o.flip_down x y (ground arith)) s.0, ih)

    pub sort-IsSorted : (xs : List A) → IsSorted (sort xs)
    unfolding sort
    sort-IsSorted [] = tt
    sort-IsSorted (x ∷ xs) = insert-IsSorted x (sort xs) (sort-IsSorted xs)

module _ {ℓ} {A : Type ℓ} {cmp : Comparator A} (o : IsOrder cmp) where
  pub order_refl : (a : A) → cmp a a ≤ℤ pos 0
  order_refl a = ground (arith, o.flip_down a a)

  -- In a sorted list an earlier member compares at or below a later one.
  pub IsSorted-get :
      (xs : List A) (i j : ℕ) {a b : A}
      → IsSorted cmp xs
      → i ≤ j
      → get_elem? xs i ≡ some a
      → get_elem? xs j ≡ some b
      → cmp a b ≤ℤ pos 0
  IsSorted-get [] i j s h e f = cc
  IsSorted-get (x ∷ xs) zero zero {a} s h e f =
      subst (λ b. cmp a b ≤ℤ pos 0) (some_inj (sym e ∙ f)) (order_refl a)
  IsSorted-get (x ∷ xs) zero (suc j) {b} s h e f =
      subst (λ a. cmp a b ≤ℤ pos 0) (some_inj e) (All-get (λ y. cmp x y ≤ℤ pos 0) xs j s.0 f)
  IsSorted-get (x ∷ xs) (suc i) zero s h e f = absurd (omega arith)
  IsSorted-get (x ∷ xs) (suc i) (suc j) s h e f = IsSorted-get xs i j s.1 (omega arith) e f

-- A list sorted by one comparator is sorted by any that it refines.
pub IsSorted-imp {ℓ} :
    {A : Type ℓ} (c d : Comparator A)
    → ((a b : A) → c a b ≤ℤ pos 0 → d a b ≤ℤ pos 0)
    → (xs : List A) → IsSorted c xs
    → IsSorted d xs
IsSorted-imp c d f [] s = tt
IsSorted-imp c d f (x ∷ xs) s = (All-imp (f x) xs s.0, IsSorted-imp c d f xs s.1)

module _ {ℓ} {A : Type ℓ} {cmp : Comparator A} (o : IsOrder cmp) where
  -- One strict step makes a chain strict.
  pub strict_chain :
      (a x y b : A) → cmp a x ≤ℤ pos 0 → cmp x y <ℤ pos 0 → cmp y b ≤ℤ pos 0 → cmp a b <ℤ pos 0
  strict_chain a x y b p q r =
      ground (arith, o.flip_down a b, o.chain y b a, o.chain y a x, o.flip_up y x)

module _ {ℓ} {A : Type ℓ} (cmp : Comparator A) where
  any-insert : (p : A → Bool) (x : A) (ys : List A) → any p (insert cmp x ys) ≡ (p x || any p ys)
  any-insert p x [] = refl
  any-insert p x (y ∷ ys) = ground (arith, any-insert p x ys)

  pub any-sort : (p : A → Bool) (xs : List A) → any p (sort cmp xs) ≡ any p xs
  unfolding sort
  any-sort p [] = refl
  any-sort p (x ∷ xs) = any-insert p x (sort cmp xs) ∙ ap (λ b. p x || b) (any-sort p xs)

  module _ {κ} (R : A → A → Type κ) (symmetric : (a b : A) → R a b → R b a) where
    Pairs-insert : (x : A) (ys : List A) → All (R x) ys → Pairs R ys → Pairs R (insert cmp x ys)
    Pairs-insert x [] h p = (tt, tt)
    Pairs-insert x (y ∷ ys) h p = go (leb_ℤ (cmp x y) (pos 0)) (Pairs-insert x ys h.1 p.1)
      where
        go :
            (b : Bool)
            → Pairs R (insert cmp x ys)
            → Pairs R (if b then x ∷ y ∷ ys else y ∷ insert cmp x ys)
        go true ih = (h, p)
        go false ih = (All-insert cmp (R y) x ys (symmetric x y h.0) p.0, ih)

    pub Pairs-sort : (xs : List A) → Pairs R xs → Pairs R (sort cmp xs)
    unfolding sort
    Pairs-sort [] p = tt
    Pairs-sort (x ∷ xs) p =
        Pairs-insert x (sort cmp xs) (All-sort cmp (R x) xs p.0) (Pairs-sort xs p.1)

module _ {ℓ} {A : Type ℓ} (cmp : Comparator A) where
  insert-ne_nil : (x : A) (ys : List A) → insert cmp x ys ≢ []
  insert-ne_nil x [] e = cc
  insert-ne_nil x (y ∷ ys) e = elim (Bool-cases (leb_ℤ (cmp x y) (pos 0))) [
    | inl t ↦ nil_ne (rw t at e)
    | inr t ↦ nil_ne (rw t at e)
  ]
    where
      nil_ne : {z : A} {zs : List A} → z ∷ zs ≡ [] → ⊥
      nil_ne e = cc

  pub sort-eq_nil : (xs : List A) → sort cmp xs ≡ [] → xs ≡ []
  unfolding sort
  sort-eq_nil [] e = refl
  sort-eq_nil (x ∷ xs) e = absurd (insert-ne_nil x (sort cmp xs) e)

-- Comparators that agree on the members of a list sort it alike.
module _ {ℓ κ} {A : Type ℓ} (c d : Comparator A) (P : A → Type κ)
    (agree : (a b : A) → P a → P b → c a b ≡ d a b) where
  insert-agree : (x : A) (ys : List A) → P x → All P ys → insert c x ys ≡ insert d x ys
  insert-agree x [] p h = refl
  insert-agree x (y ∷ ys) p h =
      rw (agree x y p h.0)
        (ap (λ t. if leb_ℤ (d x y) (pos 0) then x ∷ y ∷ ys else y ∷ t) (insert-agree x ys p h.1))

  pub sort-agree : (xs : List A) → All P xs → sort c xs ≡ sort d xs
  unfolding sort
  sort-agree [] h = refl
  sort-agree (x ∷ xs) h =
      ap (insert c x) (sort-agree xs h.1) ∙ insert-agree x (sort d xs) h.0 (All-sort d P xs h.1)

module _ {ℓ} {A : Type ℓ} (cmp : Comparator A) where
  insert-first : (x : A) (ys : List A) → All (λ y. cmp x y ≤ℤ pos 0) ys → insert cmp x ys ≡ x ∷ ys
  insert-first x [] h = refl
  insert-first x (y ∷ ys) h = ground arith

  -- A sorted list is left as it is.
  pub sort-sorted : (xs : List A) → IsSorted cmp xs → sort cmp xs ≡ xs
  unfolding sort
  sort-sorted [] s = refl
  sort-sorted (x ∷ xs) s = rw (sort-sorted xs s.1) (insert-first x xs s.0)

module _ {ℓ} {A : Type ℓ} (cmp : Comparator A) where
  length-insert : (x : A) (ys : List A) → length (insert cmp x ys) ≡ suc (length ys)
  length-insert x [] = refl
  length-insert x (y ∷ ys) = ground (arith, length-insert x ys)

  pub length-sort : (xs : List A) → length (sort cmp xs) ≡ length xs
  unfolding sort
  length-sort [] = refl
  length-sort (x ∷ xs) = length-insert x (sort cmp xs) ∙ ap suc (length-sort xs)

module _ (cmp : Comparator String) (k : String) where
  has-insert : (x : String) (ys : List String) → has k (insert cmp x ys) ≡ (str_eq x k || has k ys)
  has-insert x [] = refl
  has-insert x (y ∷ ys) = ground (arith, has-insert x ys)

  pub has-sort : (xs : List String) → has k (sort cmp xs) ≡ has k xs
  unfolding sort
  has-sort [] = refl
  has-sort (x ∷ xs) = has-insert x (sort cmp xs) ∙ ap (λ b. str_eq x k || b) (has-sort xs)
