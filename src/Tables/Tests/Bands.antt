-- ===== src/Tables/Tests/Bands.antt =====
-- The bands of a table at sample inputs.
use score_arc.Prelude.{
  ◌≤◌, arith, pos, none, some, List, [], ◌∷◌, map, ◌≡◌, refl, length, get_elem?, ◌-ℤ◌,
}
use score_arc.Prelude.Sort.{sort}
use score_arc.Model.{Standing, Zone, ZoneKind, ZoneLabelKey}
use score_arc.Model.Samples.{standing}
use score_arc.Tables.Zones.{
  Band, BandKind, ceiling, clinched, resolve_zones, clamped, owner_from, run_end, bands_from,
  to_bands,
}
use score_arc.Tables.Zones.Tiling.{IsTiling, to_bands-IsTiling}

-- The last round of four is played: the leader cannot be caught.
abbrev final_table : List Standing
final_table =
    standing "A" 1 4 4 (pos 5) (pos 12)
    ∷ standing "B" 2 4 2 (pos 1) (pos 6)
    ∷ standing "C" 3 4 1 (pos 0) (pos 4)
    ∷ standing "D" 4 4 0 (pos 0) (pos 1)
    ∷ []

abbrev zones : List Zone
zones =
    record { from = 1; to = 1; kind = ZoneKind.champion; label_key = ZoneLabelKey.champion }
    ∷ record { from = 2; to = 2; kind = ZoneKind.ucl; label_key = ZoneLabelKey.champions_league }
    ∷ record { from = 4; to = 9; kind = ZoneKind.relegation; label_key = ZoneLabelKey.relegation }
    ∷ []

bands : Unit {0}
unfolding ceiling clinched resolve_zones clamped owner_from run_end bands_from to_bands sort ◌-ℤ◌
bands = tt

abbrev champion_band : Band
champion_band = elim (get_elem? (to_bands final_table zones (some 4)) 0) [
  | some b ↦ b
  | none ↦ record { kind = BandKind.mid; label_key = none; from = 0; to = 0; standings = [] }
]

band_ends : map (λ b. b.to) (to_bands final_table zones (some 4)) ≡ 1 ∷ 2 ∷ 3 ∷ 4 ∷ []
unfolding bands
band_ends = refl

first_place : champion_band.from ≤ 1
unfolding bands
first_place = omega arith

first_place_to : 1 ≤ champion_band.to
unfolding bands
first_place_to = omega arith

to_bands-IsTiling_example : IsTiling 1 (length final_table) (to_bands final_table zones (some 4))
to_bands-IsTiling_example = to_bands-IsTiling final_table zones (some 4)
