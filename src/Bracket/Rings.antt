-- ===== src/Bracket/Rings.antt =====
-- The rings of the bracket: `buildRings` of src/components/radialBracketModel.ts without its
-- coordinates. `digits` writes a number.
pub mod Fed
pub mod Lawful
pub mod Once
use Prim.Native.String
use score_arc.Prelude.{
  ℕ, zero, suc, ◌+◌, ◌*◌, String, Bool, true, false, not, ◌&&◌, ◌||◌, Option, none, some, List, [],
  ◌∷◌, ◌++◌, if◌then◌else◌, str_eq, get_elem?, find, map_idx_from,
}
use score_arc.Model.{BracketTeam, BracketMatch, BracketRound, KnockoutRoundSlug}
use score_arc.Bracket.{
  round_with, matches_of, BracketMode, is_predict, Picks, effective_winner, is_decidable,
  find_match, Slot, is_team, is_other,
}
use score_arc.Bracket.Leaves.{Seeds, leaf_order_from_seeds, derive_leaf_order}

pub record BracketShape : Type 0 where
  pub knockout_rounds : List KnockoutRoundSlug
  pub bracket_order : Option (List Seeds)

-- The team that goes on from two slots of a ring.
abbrev pub goes_on : Slot → Slot → Option BracketTeam
goes_on a b = if a.is_winner then some a.team else if b.is_winner then some b.team else none

unfoldable pub advancing : List Slot → List (Option BracketTeam)
advancing (a ∷ b ∷ prev) = goes_on a b ∷ advancing prev
advancing _ = []

abbrev pub make_placeholder : (ℕ → String) → ℕ → ℕ → BracketTeam
make_placeholder digits depth slot = record {
  id = String.◌++◌ "ph-" (String.◌++◌ (digits depth) (String.◌++◌ "-" (digits slot)));
  name = "";
  abbr = "";
  crest_url = none;
  placeholder = true;
}

abbrev pub team_or : BracketTeam → Option BracketTeam → BracketTeam
team_or placeholder none = placeholder
team_or placeholder (some t) = t

module _ (picks : Picks) (mode : BracketMode) where
  abbrev pub leaf_slot : BracketMatch → Option BracketTeam → Bool → BracketTeam → Slot
  leaf_slot m eff is_home team = record {
    team = team;
    of_match = some m;
    is_home = is_home;
    is_winner = is_team eff team;
    eliminated = is_other eff team;
    clickable = is_predict mode && is_decidable (some m) (some m.home) (some m.away);
  }

  abbrev pub leaf_pair : ℕ → Option BracketMatch → List Slot → List Slot
  leaf_pair pos none rest = rest
  leaf_pair pos (some m) rest =
      let eff = effective_winner (some m) 0 pos picks mode (some m.home) (some m.away) in
      leaf_slot m eff true m.home ∷ leaf_slot m eff false m.away ∷ rest

  unfoldable pub leaf_slots : List BracketMatch → ℕ → List ℕ → List Slot
  unfolding effective_winner is_decidable
  leaf_slots leaf pos [] = []
  leaf_slots leaf pos (i ∷ order) =
      leaf_pair pos (get_elem? leaf i) (leaf_slots leaf (suc pos) order)

  module _ (digits : ℕ → String) where
    -- The slot of one side of the pair `(a, b)` of teams that went on.
    unfoldable pub ring_slot :
        List BracketMatch → ℕ → ℕ → Option BracketTeam → Option BracketTeam → Bool → Slot
    unfolding effective_winner is_decidable
    ring_slot round depth pair a b is_home =
        let of_match = find_match round a b in
        let eff = effective_winner of_match depth pair picks mode a b in
        let team =
          if is_home
          then team_or (make_placeholder digits depth (2 * pair)) a
          else team_or (make_placeholder digits depth (2 * pair + 1)) b in
        record {
          team = team;
          of_match = of_match;
          is_home = is_home;
          is_winner = is_team eff team;
          eliminated = not team.placeholder && is_other eff team;
          clickable = is_predict mode && is_decidable of_match a b;
        }

    unfoldable pub ring_slots : List BracketMatch → ℕ → ℕ → List (Option BracketTeam) → List Slot
    unfolding ring_slot
    ring_slots round depth pair [] = []
    ring_slots round depth pair (a ∷ []) = ring_slot round depth pair a none true ∷ []
    ring_slots round depth pair (a ∷ b ∷ teams) =
        ring_slot round depth pair a b true
        ∷ ring_slot round depth pair a b false
        ∷ ring_slots round depth (suc pair) teams

    unfoldable pub inner_rings :
        List BracketRound → ℕ → List KnockoutRoundSlug → List Slot → List (List Slot)
    unfolding ring_slots advancing
    inner_rings rounds depth [] prev = []
    inner_rings rounds depth (slug ∷ slugs) prev =
        let ring = ring_slots (matches_of (round_with slug rounds)) depth 0 (advancing prev) in
        ring ∷ inner_rings rounds (suc depth) slugs ring

abbrev pub leaf_order :
    (String → String)
    → List BracketRound
    → List KnockoutRoundSlug
    → List BracketMatch
    → Option (List Seeds)
    → List ℕ
leaf_order upper rounds slugs leaf none = derive_leaf_order rounds slugs
leaf_order upper rounds slugs leaf (some seeds) = leaf_order_from_seeds upper leaf seeds

abbrev pub rings_of :
    (String → String)
    → (ℕ → String)
    → List BracketRound
    → Option (List Seeds)
    → Picks
    → BracketMode
    → List KnockoutRoundSlug
    → List (List Slot)
rings_of upper digits rounds seeds picks mode [] = [] ∷ []
rings_of upper digits rounds seeds picks mode (outer ∷ slugs) =
    let leaf = matches_of (round_with outer rounds) in
    let ring = leaf_slots picks mode leaf 0 (leaf_order upper rounds (outer ∷ slugs) leaf seeds) in
    ring ∷ inner_rings picks mode digits rounds 1 slugs ring

unfoldable pub build_rings :
    (String → String)
    → (ℕ → String)
    → List BracketRound
    → BracketShape
    → Picks
    → BracketMode
    → List (List Slot)
unfolding leaf_slots inner_rings leaf_order_from_seeds derive_leaf_order
build_rings upper digits rounds shape picks mode =
    rings_of upper digits rounds shape.bracket_order picks mode shape.knockout_rounds
