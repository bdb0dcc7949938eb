-- ===== src/Bracket/Leaves.antt =====
-- The order of the leaf round: `leafOrderFromSeeds` and `deriveLeafOrder` of
-- src/components/radialBracketModel.ts. `upper` is `toUpperCase`.
pub mod Order
use Prim.Native.Nat.{Ordering}
use Prim.Native.String
use score_arc.Prelude.{
  ℕ, zero, suc, String, Bool, true, false, not, ◌&&◌, ◌||◌, Option, none, some, List, [], ◌∷◌, ◌++◌,
  if◌then◌else◌, str_eq, ◌==◌, length, any, find, get_elem?, map_idx_from,
}
use score_arc.Model.{BracketTeam, BracketMatch, BracketRound, KnockoutRoundSlug}
use score_arc.Bracket.{round_with, matches_of, slug_number}

-- `map((_, i) => i)`.
abbrev pub event_order : List BracketMatch → List ℕ
event_order ms = map_idx_from (λ i m. i) 0 ms

abbrev pub has_number : ℕ → List ℕ → Bool
has_number n xs = any (λ x. x == n) xs

-- `new Set(order).size`.
unfoldable pub set_size : List ℕ → ℕ
set_size [] = 0
set_size (x ∷ xs) = let n = set_size xs in if has_number x xs then n else suc n

-- The order, unless it is not one index for each match.
abbrev pub checked : List BracketMatch → Option (List ℕ) → List ℕ
checked leaf none = event_order leaf
checked leaf (some order) =
    if (length order == length leaf) && (set_size order == length leaf)
    then order
    else event_order leaf

-- The first index of a match that passes a test.
unfoldable pub index_from : (BracketMatch → Bool) → ℕ → List BracketMatch → Option ℕ
index_from p i [] = none
index_from p i (m ∷ ms) = let rest = index_from p (suc i) ms in if p m then some i else rest

abbrev pub push_index : Option ℕ → List ℕ → List ℕ
push_index none order = order
push_index (some i) order = i ∷ order

pub record Seeds : Type 0 where
  pub first : String
  pub second : String

module _ (upper : String → String) where
  abbrev pub is_pair : String → String → BracketMatch → Bool
  is_pair a b m =
      (str_eq (upper m.home.abbr) a && str_eq (upper m.away.abbr) b)
      || (str_eq (upper m.home.abbr) b && str_eq (upper m.away.abbr) a)

  unfoldable pub seed_indices : List BracketMatch → List Seeds → List ℕ
  unfolding index_from
  seed_indices leaf [] = []
  seed_indices leaf (s ∷ seeds) =
      push_index (index_from (is_pair (upper s.first) (upper s.second)) 0 leaf)
        (seed_indices leaf seeds)

  unfoldable pub leaf_order_from_seeds : List BracketMatch → List Seeds → List ℕ
  unfolding seed_indices set_size
  leaf_order_from_seeds leaf seeds =
      if length leaf == length seeds
      then checked leaf (some (seed_indices leaf seeds))
      else event_order leaf

-- The two ids in order, joined.
abbrev pub match_key : BracketMatch → String
match_key m = elim (String.compare m.home.id m.away.id) [
  | Ordering.gt ↦ String.◌++◌ m.away.id (String.◌++◌ "|" m.home.id)
  | _ ↦ String.◌++◌ m.home.id (String.◌++◌ "|" m.away.id)
]

abbrev pub later_or : Option ℕ → Option ℕ → Option ℕ
later_or none here = here
later_or (some i) here = some i

-- `leafIndex.get`: a later match with one key overwrites an earlier.
unfoldable pub leaf_index : String → ℕ → List BracketMatch → Option ℕ
leaf_index key i [] = none
leaf_index key i (m ∷ ms) =
    later_or (leaf_index key (suc i) ms) (if str_eq (match_key m) key then some i else none)

-- `winnerOf(m) === id`.
abbrev pub won_by : String → BracketMatch → Bool
won_by id m = elim m.winner_id [
  | none ↦ false
  | some w ↦ (str_eq w m.home.id || str_eq w m.away.id) && str_eq w id
]

abbrev pub joined : Option (List ℕ) → Option (List ℕ) → Option (List ℕ)
joined (some a) (some b) = some (a ++ b)
joined _ _ = none

abbrev pub single : Option ℕ → Option (List ℕ)
single none = none
single (some i) = some (i ∷ [])

abbrev pub bind_match : Option BracketMatch → (BracketMatch → Option (List ℕ)) → Option (List ℕ)
bind_match none f = none
bind_match (some m) f = f m

-- `below` are the rounds under the match, the nearest first; none of them: it is a leaf.
unfoldable pub unfold_tree :
    List BracketMatch → List (List BracketMatch) → BracketMatch → Option (List ℕ)
unfolding leaf_index
unfold_tree leaf [] m = single (leaf_index (match_key m) 0 leaf)
unfold_tree leaf (round ∷ below) m =
    joined (bind_match (find (won_by m.home.id) round) (λ c. unfold_tree leaf below c))
      (bind_match (find (won_by m.away.id) round) (λ c. unfold_tree leaf below c))

abbrev pub rounds_below : List BracketRound → List KnockoutRoundSlug → List (List BracketMatch)
rounds_below rounds [] = []
rounds_below rounds (slug ∷ slugs) = matches_of (round_with slug rounds) ∷ rounds_below rounds slugs

-- The only match of the final round.
abbrev pub only_match : List BracketMatch → Option BracketMatch
only_match (m ∷ []) = some m
only_match _ = none

abbrev pub tree_order :
    List BracketMatch → List (List BracketMatch) → Option BracketMatch → Option (List ℕ)
tree_order leaf below none = none
tree_order leaf below (some m) = unfold_tree leaf below m

abbrev pub backward : List KnockoutRoundSlug → List KnockoutRoundSlug → List KnockoutRoundSlug
backward [] done = done
backward (slug ∷ slugs) done = backward slugs (slug ∷ done)

-- The slugs from the final outward to the leaf round.
abbrev pub tree_from :
    List BracketRound → List BracketMatch → List KnockoutRoundSlug → Option (List ℕ)
tree_from rounds leaf [] = none
tree_from rounds leaf (last ∷ inner) =
    tree_order leaf (rounds_below rounds inner) (only_match (matches_of (round_with last rounds)))

unfoldable pub derive_leaf_order : List BracketRound → List KnockoutRoundSlug → List ℕ
unfolding unfold_tree set_size
derive_leaf_order rounds [] = []
derive_leaf_order rounds (outer ∷ slugs) =
    let leaf = matches_of (round_with outer rounds) in
    checked leaf (tree_from rounds leaf (backward slugs (outer ∷ [])))
