-- ===== src/Bracket/Leaves/Order.antt =====
-- The order of the leaf round has each match once.
use score_arc.Prelude.{
  ℕ, suc, str_eq, ◌+◌, ◌≤◌, ◌<◌, String, Bool, true, false, ◌&&◌, Option, none, some, List, [], ◌∷◌,
  ◌≡◌, ◌≢◌, ◌∙◌, sym, arith, if◌then◌else◌, ◌==◌, ==_iff, Bool-cases, inl, inr, find, length,
  map_idx_from, length-map_idx_from, All, All-append, Pairs, and_split,
}
use score_arc.Model.{BracketMatch, BracketRound, KnockoutRoundSlug}
use score_arc.Bracket.{matches_of, round_with}
use score_arc.Bracket.Leaves.{
  event_order, has_number, set_size, checked, index_from, push_index, Seeds, is_pair, seed_indices,
  leaf_order_from_seeds, match_key, later_or, leaf_index, won_by, joined, single, bind_match,
  unfold_tree, backward, rounds_below, tree_order, tree_from, derive_leaf_order,
}

-- Every index of `n` things, each once.
pub record IsOrdering (n : ℕ) (order : List ℕ) : Type 0 where
  pub number : length order ≡ n
  pub in_range : All (λ i. i < n) order
  pub once : Pairs (λ i j. i ≢ j) order

set_size_le : (xs : List ℕ) → set_size xs ≤ length xs
unfolding set_size
set_size_le [] = omega arith
set_size_le (x ∷ xs) = ground (arith, set_size_le xs)

has_number-All : (n : ℕ) (xs : List ℕ) → has_number n xs ≡ false → All (λ x. n ≢ x) xs
has_number-All n [] h = tt
has_number-All n (x ∷ xs) h = (ground arith, has_number-All n xs (ground arith))

-- As many members in the set as in the list: none is there twice.
set_size-once : (xs : List ℕ) → set_size xs ≡ length xs → Pairs (λ i j. i ≢ j) xs
unfolding set_size
set_size-once [] h = tt
set_size-once (x ∷ xs) h = elim (Bool-cases (has_number x xs)) [
  | inl t ↦ absurd (too_few (set_size xs) (length xs) (rw t at h) (set_size_le xs))
  | inr t ↦ (has_number-All x xs t, set_size-once xs (same (set_size xs) (length xs) (rw t at h)))
]
  where
    too_few : (n k : ℕ) → n ≡ suc k → n ≤ k → ⊥
    too_few n k h l = omega arith

    same : (n k : ℕ) → suc n ≡ suc k → n ≡ k
    same n k h = omega arith

count_up-range :
    (k n : ℕ) (ms : List BracketMatch)
    → k + length ms ≤ n
    → All (λ i. i < n) (map_idx_from (λ i m. i) k ms)
count_up-range k n [] h = tt
count_up-range k n (m ∷ ms) h = (omega (arith, h), count_up-range (suc k) n ms (omega (arith, h)))

count_up-above :
    (j k : ℕ) (ms : List BracketMatch) → j < k → All (λ i. j ≢ i) (map_idx_from (λ i m. i) k ms)
count_up-above j k [] h = tt
count_up-above j k (m ∷ ms) h =
    ((λ e. omega (arith, h, e)), count_up-above j (suc k) ms (omega (arith, h)))

count_up-once :
    (k : ℕ) (ms : List BracketMatch) → Pairs (λ i j. i ≢ j) (map_idx_from (λ i m. i) k ms)
count_up-once k [] = tt
count_up-once k (m ∷ ms) = (count_up-above k (suc k) ms (omega arith), count_up-once (suc k) ms)

event_order-IsOrdering : (ms : List BracketMatch) → IsOrdering (length ms) (event_order ms)
event_order-IsOrdering ms = record {
  number = length-map_idx_from (λ i m. i) 0 ms;
  in_range = count_up-range 0 (length ms) ms (omega arith);
  once = count_up-once 0 ms;
}

-- All indices that an unfolding gives, when it gives some.
abbrev InRange : ℕ → Option (List ℕ) → Type 0
InRange n none = Unit
InRange n (some order) = All (λ i. i < n) order

checked-IsOrdering :
    (leaf : List BracketMatch) (o : Option (List ℕ))
    → InRange (length leaf) o
    → IsOrdering (length leaf) (checked leaf o)
checked-IsOrdering leaf none h = event_order-IsOrdering leaf
checked-IsOrdering leaf (some order) h =
    elim (Bool-cases ((length order == length leaf) && (set_size order == length leaf))) [
      | inl t ↦
          let (l, s) = and_split _ _ t in
          let number : length order ≡ length leaf = (==_iff _ _).0 l in
          rw t (record {
            number = number;
            in_range = h;
            once = set_size-once order ((==_iff _ _).0 s ∙ sym number);
          })
      | inr t ↦ rw t (event_order-IsOrdering leaf)
    ]

-- An index that is found from `k` on lies in the list.
abbrev IsWithin : ℕ → ℕ → Option ℕ → Type 0
IsWithin k n none = Unit
IsWithin k n (some i) = i < k + n

index_from-IsWithin :
    (p : BracketMatch → Bool) (k : ℕ) (ms : List BracketMatch)
    → IsWithin k (length ms) (index_from p k ms)
unfolding index_from
index_from-IsWithin p k [] = tt
index_from-IsWithin p k (m ∷ ms) = elim (Bool-cases (p m)) [
  | inl t ↦ rw t (omega arith)
  | inr t ↦ rw t (later (index_from p (suc k) ms) (index_from-IsWithin p (suc k) ms))
]
  where
    later : (o : Option ℕ) → IsWithin (suc k) (length ms) o → IsWithin k (length (m ∷ ms)) o
    later none h = tt
    later (some i) h = omega (arith, h)

leaf_index-IsWithin :
    (key : String) (k : ℕ) (ms : List BracketMatch) → IsWithin k (length ms) (leaf_index key k ms)
unfolding leaf_index
leaf_index-IsWithin key k [] = tt
leaf_index-IsWithin key k (m ∷ ms) =
    later (leaf_index key (suc k) ms) (str_eq (match_key m) key)
      (leaf_index-IsWithin key (suc k) ms)
  where
    later :
        (o : Option ℕ) (b : Bool)
        → IsWithin (suc k) (length ms) o
        → IsWithin k (length (m ∷ ms)) (later_or o (if b then some k else none))
    later none true h = omega arith
    later none false h = tt
    later (some i) b h = omega (arith, h)

seed_indices-range :
    (upper : String → String) (leaf : List BracketMatch) (seeds : List Seeds)
    → All (λ i. i < length leaf) (seed_indices upper leaf seeds)
unfolding seed_indices
seed_indices-range upper leaf [] = tt
seed_indices-range upper leaf (s ∷ seeds) =
    pushed (index_from (is_pair upper (upper s.first) (upper s.second)) 0 leaf)
      (seed_indices upper leaf seeds)
      (index_from-IsWithin (is_pair upper (upper s.first) (upper s.second)) 0 leaf)
      (seed_indices-range upper leaf seeds)
  where
    pushed :
        (o : Option ℕ) (order : List ℕ)
        → IsWithin 0 (length leaf) o
        → All (λ i. i < length leaf) order
        → All (λ i. i < length leaf) (push_index o order)
    pushed none order h r = r
    pushed (some i) order h r = (omega (arith, h), r)

-- Whatever the seed list says, the order has every match of the leaf round exactly once.
pub leaf_order_from_seeds-IsOrdering :
    (upper : String → String) (leaf : List BracketMatch) (seeds : List Seeds)
    → IsOrdering (length leaf) (leaf_order_from_seeds upper leaf seeds)
unfolding leaf_order_from_seeds
leaf_order_from_seeds-IsOrdering upper leaf seeds =
    elim (Bool-cases (length leaf == length seeds)) [
      | inl t ↦ rw t (
          checked-IsOrdering leaf (some (seed_indices upper leaf seeds))
            (seed_indices-range upper leaf seeds))
      | inr t ↦ rw t (event_order-IsOrdering leaf)
    ]

joined-InRange :
    (n : ℕ) (a b : Option (List ℕ)) → InRange n a → InRange n b → InRange n (joined a b)
joined-InRange n none b ha hb = tt
joined-InRange n (some a) none ha hb = tt
joined-InRange n (some a) (some b) ha hb = All-append (λ i. i < n) a b ha hb

unfold_tree-InRange :
    (leaf : List BracketMatch) (below : List (List BracketMatch)) (m : BracketMatch)
    → InRange (length leaf) (unfold_tree leaf below m)
unfolding unfold_tree
unfold_tree-InRange leaf [] m =
    one (leaf_index (match_key m) 0 leaf) (leaf_index-IsWithin (match_key m) 0 leaf)
  where
    one : (o : Option ℕ) → IsWithin 0 (length leaf) o → InRange (length leaf) (single o)
    one none h = tt
    one (some i) h = (omega (arith, h), tt)
unfold_tree-InRange leaf (round ∷ below) m =
    joined-InRange (length leaf)
      (bind_match (find (won_by m.home.id) round) (λ c. unfold_tree leaf below c))
      (bind_match (find (won_by m.away.id) round) (λ c. unfold_tree leaf below c))
      (bound (find (won_by m.home.id) round) (λ c. unfold_tree-InRange leaf below c))
      (bound (find (won_by m.away.id) round) (λ c. unfold_tree-InRange leaf below c))
  where
    bound :
        (o : Option BracketMatch)
        → ((c : BracketMatch) → InRange (length leaf) (unfold_tree leaf below c))
        → InRange (length leaf) (bind_match o (λ c. unfold_tree leaf below c))
    bound none h = tt
    bound (some c) h = h c

-- Whatever the tree of results is, complete, contradictory or missing, the derived order has every
-- match of the leaf round exactly once.
pub derive_leaf_order-IsOrdering :
    (rounds : List BracketRound) (outer : KnockoutRoundSlug) (slugs : List KnockoutRoundSlug)
    → IsOrdering
        (length (matches_of (round_with outer rounds)))
        (derive_leaf_order rounds (outer ∷ slugs))
unfolding derive_leaf_order
derive_leaf_order-IsOrdering rounds outer slugs =
    let leaf = matches_of (round_with outer rounds) in
    checked-IsOrdering leaf _ (from leaf (backward slugs (outer ∷ [])))
  where
    ordered :
        (leaf : List BracketMatch) (below : List (List BracketMatch)) (o : Option BracketMatch)
        → InRange (length leaf) (tree_order leaf below o)
    ordered leaf below none = tt
    ordered leaf below (some m) = unfold_tree-InRange leaf below m

    from :
        (leaf : List BracketMatch) (slugs : List KnockoutRoundSlug)
        → InRange (length leaf) (tree_from rounds leaf slugs)
    from leaf [] = tt
    from leaf (last ∷ inner) = ordered leaf (rounds_below rounds inner) _
