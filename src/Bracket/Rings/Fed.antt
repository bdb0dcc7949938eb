-- ===== src/Bracket/Rings/Fed.antt =====
-- Every ring is filled by the ring outside it.
use score_arc.Prelude.{true, Option, none, some, List, [], ◌∷◌, ◌≡◌}
use score_arc.Model.{BracketTeam}
use score_arc.Bracket.{Slot}
use score_arc.Bracket.Rings.{advancing}

abbrev pub Filled : Option BracketTeam → Slot → Type 0
Filled none s = s.team.placeholder ≡ true
Filled (some t) s = s.team ≡ t

-- A ring has one slot for each pair of the ring outside it: the team that went on, or a placeholder.
abbrev pub Fed : List (Option BracketTeam) → List Slot → Type 0
Fed [] [] = Unit
Fed (o ∷ teams) (s ∷ ring) = Filled o s × Fed teams ring
Fed _ _ = ⊥

abbrev pub IsChain : List Slot → List (List Slot) → Type 0
IsChain prev [] = Unit
IsChain prev (ring ∷ rings) = Fed (advancing prev) ring × IsChain ring rings

-- Every ring but the outermost is fed by the one outside it.
abbrev pub IsBracket : List (List Slot) → Type 0
IsBracket [] = ⊥
IsBracket (ring ∷ rings) = IsChain ring rings
