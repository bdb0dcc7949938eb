-- ===== src/Bracket.antt =====
-- The model of the radial bracket: src/components/radialBracketModel.ts. Its geometry is left out.
pub mod Leaves
pub mod Rings
pub mod Journey
mod Tests
use score_arc.Prelude.{
  ℕ, String, Bool, true, false, not, ◌&&◌, ◌||◌, Option, none, some, List, [], ◌∷◌, find,
  if◌then◌else◌, str_eq, ◌==◌,
}
use score_arc.Model.{BracketTeam, BracketMatch, BracketRound, KnockoutRoundSlug}

abbrev pub slug_number : KnockoutRoundSlug → ℕ
slug_number KnockoutRoundSlug.round_of_32 = 0
slug_number KnockoutRoundSlug.round_of_16 = 1
slug_number KnockoutRoundSlug.quarterfinals = 2
slug_number KnockoutRoundSlug.semifinals = 3
slug_number KnockoutRoundSlug.third_place_match = 4
slug_number KnockoutRoundSlug.final = 5

abbrev pub round_with : KnockoutRoundSlug → List BracketRound → Option BracketRound
round_with slug rounds = find (λ r. slug_number r.slug == slug_number slug) rounds

abbrev pub matches_of : Option BracketRound → List BracketMatch
matches_of none = []
matches_of (some r) = r.matches

pub data BracketMode : Type 0 where
  live predict : BracketMode

abbrev pub is_predict : BracketMode → Bool
is_predict BracketMode.live = false
is_predict predict = true

-- The side of a match with an id, the home side first.
abbrev pub side_with : String → BracketTeam → BracketTeam → Option BracketTeam
side_with id home away =
    if str_eq home.id id then some home else if str_eq away.id id then some away else none

-- An id that is missing or empty is none.
abbrev pub real_id : Option String → Option String
real_id none = none
real_id (some id) = if str_eq id "" then none else some id

abbrev pub with_side : Option String → BracketTeam → BracketTeam → Option BracketTeam
with_side none home away = none
with_side (some id) home away = side_with id home away

unfoldable pub winner_team : Option BracketMatch → Option BracketTeam
winner_team none = none
winner_team (some m) = with_side (real_id m.winner_id) m.home m.away

-- Both participants, when they are known.
abbrev pub known_pair : Option BracketTeam → Option BracketTeam → Bool
known_pair (some a) (some b) = not a.placeholder && not b.placeholder
known_pair _ _ = false

abbrev pub pick_of : Option String → Option BracketTeam → Option BracketTeam → Option BracketTeam
pick_of id (some a) (some b) = with_side (real_id id) a b
pick_of id _ _ = none

-- The picks of the reader, by depth and match.
abbrev pub Picks : Type 0
Picks = ℕ → ℕ → Option String

abbrev pub picked :
    ℕ → ℕ → Picks → BracketMode → Option BracketTeam → Option BracketTeam → Option BracketTeam
picked depth i picks mode a b =
    if is_predict mode && known_pair a b then pick_of (picks depth i) a b else none

abbrev pub or_pick : Option BracketTeam → Option BracketTeam → Option BracketTeam
or_pick none pick = pick
or_pick (some real) pick = some real

unfoldable pub effective_winner :
    Option BracketMatch
    → ℕ
    → ℕ
    → Picks
    → BracketMode
    → Option BracketTeam
    → Option BracketTeam
    → Option BracketTeam
unfolding winner_team
effective_winner m depth i picks mode a b = or_pick (winner_team m) (picked depth i picks mode a b)

abbrev pub has_result : Option BracketMatch → Bool
has_result none = false
has_result (some m) = elim (real_id m.winner_id) [ none ↦ false | some id ↦ true ]

unfoldable pub is_decidable : Option BracketMatch → Option BracketTeam → Option BracketTeam → Bool
is_decidable m a b = known_pair a b && not (has_result m)

abbrev pub joins : String → String → BracketMatch → Bool
joins a b m =
    (str_eq m.home.id a && str_eq m.away.id b) || (str_eq m.home.id b && str_eq m.away.id a)

abbrev pub find_match :
    List BracketMatch → Option BracketTeam → Option BracketTeam → Option BracketMatch
find_match round (some a) (some b) = find (joins a.id b.id) round
find_match round _ _ = none

pub record Slot : Type 0 where
  pub team : BracketTeam
  pub of_match : Option BracketMatch
  pub is_home : Bool
  pub is_winner : Bool
  pub eliminated : Bool
  pub clickable : Bool

abbrev pub is_team : Option BracketTeam → BracketTeam → Bool
is_team none t = false
is_team (some w) t = str_eq w.id t.id

abbrev pub is_other : Option BracketTeam → BracketTeam → Bool
is_other none t = false
is_other (some w) t = not (str_eq w.id t.id)
