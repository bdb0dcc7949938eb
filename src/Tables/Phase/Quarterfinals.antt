-- ===== src/Tables/Phase/Quarterfinals.antt =====
-- The quarter-final ties that follow from the two tables.
use score_arc.Prelude.{
  ℕ, ◌+◌, ◌-◌, ◌<◌, String, some, List, map, ◌≡◌, length, take, get_elem?, All, str_eq, find,
}
use score_arc.Model.{Standing, Group}
use score_arc.Tables.Phase.{SeededTie, standings_of}

abbrev pub seeded : String → ℕ → List Group → List Standing
seeded id cut groups = take cut (standings_of (find (λ g. str_eq g.id id) groups))

-- A tie joins two seeds of one sum, and its visitor is the club with that seed.
abbrev pub IsFair : ℕ → List Standing → SeededTie → Type 0
IsFair cut visitors tie =
    (tie.home_seed + tie.away_seed ≡ cut + 1)
    × (0 < tie.away_seed)
    × (tie.away ≡ get_elem? visitors (tie.away_seed - 1))
    × ((s : Standing) × (tie.away ≡ some s))

module _ (cut : ℕ) (visitors : List Standing) (full : length visitors ≡ cut) where
  abbrev tie : ℕ → Standing → SeededTie
  tie i home = record {
    home_seed = i + 1;
    away_seed = cut - i;
    home = home;
    away = get_elem? visitors (cut - 1 - i);
  }

-- The quarter-finals: all ties or none.
pub record IsDraw (groups : List Group) (cut : ℕ) (ties : List SeededTie) : Type 0 where
  pub homes : map (λ t. t.home) ties ≡ seeded "mls" cut groups
  pub number : length ties ≡ cut
  pub fair : All (IsFair cut (seeded "liga-mx" cut groups)) ties
