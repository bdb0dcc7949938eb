-- ===== src/Bracket/Rings/Once.antt =====
-- The outermost ring has every match of the leaf round once.
use score_arc.Prelude.{String, Option, none, some, List, ◌∷◌, length}
use score_arc.Model.{BracketRound, KnockoutRoundSlug}
use score_arc.Bracket.{matches_of, round_with}
use score_arc.Bracket.Leaves.{Seeds}
use score_arc.Bracket.Leaves.Order.{
  IsOrdering, leaf_order_from_seeds-IsOrdering, derive_leaf_order-IsOrdering,
}
use score_arc.Bracket.Rings.{leaf_order}

-- Whatever the seed list or the tree of results says, complete, contradictory or missing, the order
-- in which the leaf round is drawn has each of its matches exactly once.
pub leaf_order-IsOrdering :
    (upper : String → String) (rounds : List BracketRound) (outer : KnockoutRoundSlug)
    (slugs : List KnockoutRoundSlug) (seeds : Option (List Seeds))
    → IsOrdering
        (length (matches_of (round_with outer rounds)))
        (leaf_order upper rounds (outer ∷ slugs) (matches_of (round_with outer rounds)) seeds)
leaf_order-IsOrdering upper rounds outer slugs none =
    derive_leaf_order-IsOrdering rounds outer slugs
leaf_order-IsOrdering upper rounds outer slugs (some seeds) =
    leaf_order_from_seeds-IsOrdering upper (matches_of (round_with outer rounds)) seeds
