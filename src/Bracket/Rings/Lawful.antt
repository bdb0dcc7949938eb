-- ===== src/Bracket/Rings/Lawful.antt =====
-- The marks of every slot agree with the results.
use score_arc.Prelude.{
  ℕ, suc, ◌+◌, ◌*◌, String, Bool, true, false, not, ◌&&◌, ◌||◌, Option, none, some, List, [], ◌∷◌,
  ◌≡◌, refl, arith, if◌then◌else◌, str_eq, get_elem?, All,
}
use score_arc.Model.{BracketTeam, BracketMatch, BracketRound, KnockoutRoundSlug}
use score_arc.Bracket.{
  BracketMode, Picks, picked, or_pick, winner_team, effective_winner, find_match, Slot, round_with,
  matches_of, is_team, is_other, is_decidable, is_predict, has_result, known_pair, predict,
}
use score_arc.Bracket.Rings.{
  BracketShape, leaf_slot, leaf_pair, leaf_slots, advancing, make_placeholder, team_or, ring_slot,
  ring_slots, inner_rings, rings_of, build_rings, leaf_order,
}

-- A mark by the real result of a match; without one there is no winner but a predicted one.
abbrev pub Decides : BracketMode → Option BracketTeam → Bool → BracketTeam → Type 0
Decides mode none won t = (won && not (is_predict mode)) ≡ false
Decides mode (some w) won t = won ≡ str_eq w.id t.id

pub record IsLawful (mode : BracketMode) (s : Slot) : Type 0 where
  pub exclusive : (s.is_winner && s.eliminated) ≡ false
  pub locked : (s.clickable && (has_result s.of_match || not (is_predict mode))) ≡ false
  pub decided : Decides mode (winner_team s.of_match) s.is_winner s.team

-- The winner is the real one; without a real one, in live mode, there is none.
effective_winner-Decides :
    (picks : Picks) (mode : BracketMode) (o : Option BracketMatch) (depth i : ℕ)
    (a b : Option BracketTeam) (t : BracketTeam)
    → Decides mode (winner_team o) (is_team (effective_winner o depth i picks mode a b) t) t
unfolding effective_winner
effective_winner-Decides picks mode o depth i a b t = go mode (winner_team o)
  where
    go :
        (mode : BracketMode) (w : Option BracketTeam)
        → Decides mode w (is_team (or_pick w (picked depth i picks mode a b)) t) t
    go mode (some w) = refl
    go BracketMode.live none = refl
    go predict none = ground arith

apart :
    (o : Option BracketTeam) (t : BracketTeam) (b : Bool)
    → (is_team o t && (b && is_other o t)) ≡ false
apart none t b = refl
apart (some w) t b = ground arith

apart_leaf : (o : Option BracketTeam) (t : BracketTeam) → (is_team o t && is_other o t) ≡ false
apart_leaf none t = refl
apart_leaf (some w) t = ground arith

unlocked :
    (mode : BracketMode) (o : Option BracketMatch) (a b : Option BracketTeam)
    → ((is_predict mode && is_decidable o a b) && (has_result o || not (is_predict mode))) ≡ false
unfolding is_decidable
unlocked mode o a b = go (is_predict mode) (has_result o) (known_pair a b)
  where
    go : (p r k : Bool) → ((p && (k && not r)) && (r || not p)) ≡ false
    go p r k = ground arith

module _ (picks : Picks) (mode : BracketMode) where
  leaf_slots-IsLawful :
      (leaf : List BracketMatch) (pos : ℕ) (order : List ℕ)
      → All (IsLawful mode) (leaf_slots picks mode leaf pos order)
  unfolding leaf_slots
  leaf_slots-IsLawful leaf pos [] = tt
  leaf_slots-IsLawful leaf pos (i ∷ order) =
      pair (get_elem? leaf i) (leaf_slots picks mode leaf (suc pos) order)
        (leaf_slots-IsLawful leaf (suc pos) order)
    where
      one :
          (m : BracketMatch) (is_home : Bool) (t : BracketTeam)
          → IsLawful mode (
              leaf_slot picks mode m
                (effective_winner (some m) 0 pos picks mode (some m.home) (some m.away))
                is_home
                t)
      one m is_home t = record {
        exclusive =
            apart_leaf (effective_winner (some m) 0 pos picks mode (some m.home) (some m.away)) t;
        locked = unlocked mode (some m) (some m.home) (some m.away);
        decided = effective_winner-Decides picks mode (some m) 0 pos (some m.home) (some m.away) t;
      }

      pair :
          (o : Option BracketMatch) (rest : List Slot)
          → All (IsLawful mode) rest
          → All (IsLawful mode) (leaf_pair picks mode pos o rest)
      pair none rest h = h
      pair (some m) rest h = (one m true m.home, (one m false m.away, h))

  module _ (digits : ℕ → String) where
    ring_slot-IsLawful :
        (round : List BracketMatch) (depth pair : ℕ) (a b : Option BracketTeam) (is_home : Bool)
        → IsLawful mode (ring_slot picks mode digits round depth pair a b is_home)
    unfolding ring_slot
    ring_slot-IsLawful round depth pair a b is_home =
        let of_match = find_match round a b in
        let team =
          if is_home
          then team_or (make_placeholder digits depth (2 * pair)) a
          else team_or (make_placeholder digits depth (2 * pair + 1)) b in
        record {
          exclusive =
              apart (effective_winner of_match depth pair picks mode a b) team
                (not team.placeholder);
          locked = unlocked mode of_match a b;
          decided = effective_winner-Decides picks mode of_match depth pair a b team;
        }

    ring_slots-IsLawful :
        (round : List BracketMatch) (depth pair : ℕ) (teams : List (Option BracketTeam))
        → All (IsLawful mode) (ring_slots picks mode digits round depth pair teams)
    unfolding ring_slots
    ring_slots-IsLawful round depth pair [] = tt
    ring_slots-IsLawful round depth pair (a ∷ []) =
        (ring_slot-IsLawful round depth pair a none true, tt)
    ring_slots-IsLawful round depth pair (a ∷ b ∷ teams) = (
      ring_slot-IsLawful round depth pair a b true,
      (
        ring_slot-IsLawful round depth pair a b false,
        ring_slots-IsLawful round depth (suc pair) teams,
      ),
    )

    inner_rings-IsLawful :
        (rounds : List BracketRound) (depth : ℕ) (slugs : List KnockoutRoundSlug) (prev : List Slot)
        → All (All (IsLawful mode)) (inner_rings picks mode digits rounds depth slugs prev)
    unfolding inner_rings
    inner_rings-IsLawful rounds depth [] prev = tt
    inner_rings-IsLawful rounds depth (slug ∷ slugs) prev =
        let round = matches_of (round_with slug rounds) in
        (
          ring_slots-IsLawful round depth 0 (advancing prev),
          inner_rings-IsLawful rounds (suc depth) slugs
              (ring_slots picks mode digits round depth 0 (advancing prev)),
        )

module _ (upper : String → String) (digits : ℕ → String) (rounds : List BracketRound)
    (shape : BracketShape) (picks : Picks) (mode : BracketMode) where
  -- In every slot of every ring the real result of a match decides over any pick, a match that has
  -- one is not open to picks, nothing is open or won without a result in live mode, and no team is
  -- both winner and eliminated.
  pub build_rings-IsLawful :
      All (All (IsLawful mode)) (build_rings upper digits rounds shape picks mode)
  unfolding build_rings
  build_rings-IsLawful = go shape.knockout_rounds
    where
      go :
          (slugs : List KnockoutRoundSlug)
          → All
              (All (IsLawful mode))
              (rings_of upper digits rounds shape.bracket_order picks mode slugs)
      go [] = (tt, tt)
      go (outer ∷ slugs) =
          let leaf = matches_of (round_with outer rounds) in
          let order = leaf_order upper rounds (outer ∷ slugs) leaf shape.bracket_order in
          (
            leaf_slots-IsLawful picks mode leaf 0 order,
            inner_rings-IsLawful picks mode digits rounds 1 slugs
                (leaf_slots picks mode leaf 0 order),
          )
