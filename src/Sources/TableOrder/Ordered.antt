-- ===== src/Sources/TableOrder/Ordered.antt =====
-- The order of a table's rows: the provider's ranks where they are complete.
use score_arc.Prelude.{
  none_ne, true_ne, ℕ, zero, suc, ◌+◌, ◌≤◌, ◌<◌, ℤ, pos, negsuc, -ℤ_parts, true, false, Option,
  none, some, List, [], ◌∷◌, map, length, All, All-imp, ◌≡◌, ◌≢◌, ◌↔◌, refl, sym, ◌∙◌, arith,
  Bool-cases, Option-cases, inl, inr, some_inj, Pairs, IsNumbered,
}
use score_arc.Prelude.Sort.{
  sort, ascending, ascending-IsOrder, IsSorted, sort-IsSorted, Pairs-sort, All-sort, length-sort,
  sort-perm,
}
use mathlib.Core.List.{Perm}
use mathlib.Core.List.Perm
use score_arc.Sources.TableOrder.{
  RawEntry, natural, rank_of, has_rank, fits, number, seen_ranks, is_complete, rank_number,
  in_table_order,
}

-- Distinct numbers in ascending order within as many places fill the places.
module _ {ℓ} {A : Type ℓ} (f : A → ℕ) where
  above :
      (x : A) (xs : List A)
      → All (λ y. f x ≤ f y) xs
      → All (λ y. f x ≢ f y) xs
      → All (λ y. f x < f y) xs
  above x [] h d = tt
  above x (y ∷ xs) h d = (ground (arith, d.0, h.0), above x xs h.1 d.1)

  room :
      (lo n : ℕ) (xs : List A)
      → Pairs (λ x y. f x ≤ f y) xs
      → Pairs (λ x y. f x ≢ f y) xs
      → All (λ x. lo < f x) xs
      → All (λ x. f x ≤ n) xs
      → lo ≤ n
      → lo + length xs ≤ n
  room lo n [] s d a b h = omega arith
  room lo n (x ∷ xs) s d a b h =
      omega (arith, a.0, room (f x) n xs s.1 d.1 (above x xs s.0 d.0) b.1 b.0)

  places :
      (lo n : ℕ) (xs : List A)
      → Pairs (λ x y. f x ≤ f y) xs
      → Pairs (λ x y. f x ≢ f y) xs
      → All (λ x. lo < f x) xs
      → All (λ x. f x ≤ n) xs
      → n ≡ lo + length xs
      → IsNumbered f lo xs
  places lo n [] s d a b e = tt
  places lo n (x ∷ xs) s d a b e =
      let higher = above x xs s.0 d.0 in
      let first : f x ≡ lo + 1 = omega (arith, a.0, room (f x) n xs s.1 d.1 higher b.1 b.0) in
      (
        first,
        places (suc lo) n xs s.1 d.1 (All-imp (λ y h. omega (arith, first)) xs higher) b.1
            (omega arith),
      )

pub record IsRank (n : ℕ) (o : Option ℕ) : Type 0 where
  pub from_one : 0 < number o
  pub within : number o ≤ n
  pub given : o ≡ some (number o)

-- The provider's ranks are a permutation of the places.
pub record IsComplete (es : List RawEntry) : Type 0 where
  pub ranks : All (λ e. IsRank (length es) (rank_of e)) es
  pub distinct : Pairs (λ a b. number (rank_of a) ≢ number (rank_of b)) es

natural-positive : (v : Option ℤ) {r : ℕ} → natural v ≡ some r → 0 < r
natural-positive none e = cc
natural-positive (some (pos zero)) e = cc
natural-positive (some (pos (suc n))) {r} e = ground (arith, some_inj e)
natural-positive (some (negsuc n)) e = cc

has_rank-ne :
    (r : ℕ) (seen : List ℕ) (s : ℕ)
    → has_rank r (s ∷ seen) ≡ false
    → (s ≢ r) × (has_rank r seen ≡ false)
has_rank-ne r seen s h = ground arith

fits-IsRank :
    (n : ℕ) (e : RawEntry) (seen : List ℕ)
    → fits n (rank_of e) seen ≡ true
    → IsRank n (rank_of e) × (has_rank (number (rank_of e)) seen ≡ false)
fits-IsRank n e seen h = go (rank_of e) refl h
  where
    go :
        (o : Option ℕ)
        → rank_of e ≡ o
        → fits n o seen ≡ true
        → IsRank n o × (has_rank (number o) seen ≡ false)
    go none q h = cc
    go (some r) q h = (
      record { from_one = natural-positive _ q; within = ground arith; given = refl },
      ground arith,
    )

abbrev Unseen : List ℕ → RawEntry → Type 0
Unseen seen e = has_rank (number (rank_of e)) seen ≡ false

seen_ranks-distinct :
    (n : ℕ) (es : List RawEntry) (seen : List ℕ) {out : List ℕ}
    → seen_ranks n (map rank_of es) seen ≡ some out
    → All (λ e. IsRank n (rank_of e)) es
      × Pairs (λ a b. number (rank_of a) ≢ number (rank_of b)) es
      × All (Unseen seen) es
seen_ranks-distinct n [] seen q = (tt, tt, tt)
seen_ranks-distinct n (e ∷ es) seen q = elim (Bool-cases (fits n (rank_of e) seen)) [
  | inr t ↦ absurd (none_ne (rw t at q))
  | inl t ↦
      let ih = seen_ranks-distinct n es (number (rank_of e) ∷ seen) (rw t at q) in
      let here = fits-IsRank n e seen t in
      (
        (here.0, ih.0),
        (All-imp (λ x h. (has_rank-ne _ seen _ h).0) es ih.2, ih.1),
        (here.1, All-imp (λ x h. (has_rank-ne _ seen _ h).1) es ih.2),
      )
]

fits-true :
    (n : ℕ) (o : Option ℕ) (seen : List ℕ)
    → IsRank n o
    → has_rank (number o) seen ≡ false
    → fits n o seen ≡ true
fits-true n none seen r h = absurd (omega (arith, r.from_one))
fits-true n (some x) seen r h = rw h (ground (arith, r.within))

seen_ranks-length :
    (n : ℕ) (es : List RawEntry) (seen : List ℕ)
    → All (λ e. IsRank n (rank_of e)) es
    → Pairs (λ a b. number (rank_of a) ≢ number (rank_of b)) es
    → All (Unseen seen) es
    → (out : List ℕ) × (seen_ranks n (map rank_of es) seen ≡ some out)
      × (length out ≡ length seen + length es)
seen_ranks-length n [] seen r d u = (seen, refl, omega arith)
seen_ranks-length n (e ∷ es) seen r d u =
    let rest = seen_ranks-length n es (number (rank_of e) ∷ seen) r.1 d.1 (both es d.0 u.1) in
    (rest.0, rw (fits-true n (rank_of e) seen r.0 u.0) rest.1, omega (arith, rest.2))
  where
    both :
        (xs : List RawEntry)
        → All (λ x. number (rank_of e) ≢ number (rank_of x)) xs
        → All (Unseen seen) xs
        → All (Unseen (number (rank_of e) ∷ seen)) xs
    both [] d u = tt
    both (x ∷ xs) d u = (rw u.0 (ground (arith, d.0)), both xs d.1 u.1)

All-empty : (es : List RawEntry) → All (Unseen []) es
All-empty [] = tt
All-empty (e ∷ es) = (refl, All-empty es)

is_complete_iff :
    (es : List RawEntry)
    → (is_complete (length es) (seen_ranks (length es) (map rank_of es) []) ≡ true) ↔ IsComplete es
is_complete_iff es = (
  (λ h. elim (Option-cases (seen_ranks (length es) (map rank_of es) [])) [
    | inl none_seen ↦ absurd (false_ne (rw none_seen at h))
    | inr (out, q) ↦
        let c = seen_ranks-distinct (length es) es [] q in record { ranks = c.0; distinct = c.1 }
  ]),
  (λ c.
      let found = seen_ranks-length (length es) es [] c.ranks c.distinct (All-empty es) in
      rw found.1 (ground (arith, found.2))),
)
  where
    false_ne : false ≡ true → ⊥
    false_ne e = cc

sorted-IsNumbered :
    (es : List RawEntry)
    → IsComplete es
    → IsNumbered (λ e. number (rank_of e)) 0 (sort (ascending rank_number) es)
sorted-IsNumbered es c =
    let ranks = All-sort (ascending rank_number) _ es c.ranks in
    let sorted = sort (ascending rank_number) es in
    places (λ e. number (rank_of e)) 0 (length es) sorted
      (ascends sorted (sort-IsSorted (ascending rank_number) (ascending-IsOrder rank_number) es))
      (Pairs-sort (ascending rank_number) (λ a b. number (rank_of a) ≢ number (rank_of b))
        (λ a b d e. d (sym e)) es c.distinct)
      (All-imp (λ e r. r.from_one) sorted ranks) (All-imp (λ e r. r.within) sorted ranks)
      (omega (arith, length-sort (ascending rank_number) es))
  where
    ascends :
        (xs : List RawEntry)
        → IsSorted (ascending rank_number) xs
        → Pairs (λ a b. number (rank_of a) ≤ number (rank_of b)) xs
    ascends [] s = tt
    ascends (x ∷ xs) s = (All-imp (λ y h. omega (arith, -ℤ_parts)) xs s.0, ascends xs s.1)

-- What the order of a table is: by the provider's ranks, each row at its rank, when these are a
-- permutation of the places, and else as the rows came.
pub record IsTableOrder (es rows : List RawEntry) : Type 0 where
  pub kept : Perm rows es
  pub ranked : IsComplete es → IsNumbered (λ e. number (rank_of e)) 0 rows
  pub otherwise : ¬ (IsComplete es) → rows ≡ es

-- The rows of a table are put at their provider ranks exactly when the ranks are a permutation of
-- the places 1 to n; otherwise they stay as they came, and no row is lost or doubled either way.
pub in_table_order-IsTableOrder : (es : List RawEntry) → IsTableOrder es (in_table_order es)
unfolding in_table_order
in_table_order-IsTableOrder es =
    elim (Bool-cases (is_complete (length es) (seen_ranks (length es) (map rank_of es) []))) [
      | inl t ↦ rw t (record {
        kept = sort-perm (ascending rank_number) es;
        ranked = sorted-IsNumbered es;
        otherwise = λ n. absurd (n ((is_complete_iff es).0 t));
      })
      | inr t ↦ rw t (record {
        kept = Perm.refl es;
        ranked = λ c. absurd (true_ne (sym ((is_complete_iff es).1 c) ∙ t));
        otherwise = λ n. refl;
      })
    ]
