-- ===== src/Tables/Zones.antt =====
-- The bands of a league table: src/components/zoneBands.ts. Zones are compared by identity: a zone
-- of the clamped list is named by its index there.
pub mod Tiling
pub mod Champion
use score_arc.Prelude.{
  ℕ, zero, suc, ◌+◌, ◌-◌, ◌*◌, min, max, ℤ, pos, ◌+ℤ◌, ◌-ℤ◌, ltb_ℤ, leb_ℤ, String, Bool, true,
  false, not, ◌&&◌, ◌||◌, Option, none, some, List, [], ◌∷◌, ◌++◌, map, if◌then◌else◌, ltb, leb,
  ◌==◌, all, any, find, filter, length, get_elem?,
}
use score_arc.Prelude.Sort.{Comparator, ascending, sort}
use score_arc.Model.{Standing, Zone, ZoneKind, ZoneLabelKey}

pub data BandKind : Type 0 where
  zone : ZoneKind → BandKind
  mid : BandKind

pub record Band : Type 0 where
  pub kind : BandKind
  pub label_key : Option ZoneLabelKey
  pub from : ℕ
  pub to : ℕ
  pub standings : List Standing

abbrev pub is_champion : ZoneKind → Bool
is_champion ZoneKind.champion = true
is_champion _ = false

-- The best total that a chaser can still reach.
abbrev pub reach : ℕ → Standing → ℤ
reach rounds s = s.points +ℤ pos (3 * (rounds - s.played))

abbrev pub max_ℤ : ℤ → ℤ → ℤ
max_ℤ a b = if leb_ℤ a b then b else a

-- `Math.max` of the chasers' totals; there is a chaser.
unfoldable pub ceiling : ℕ → Standing → List Standing → ℤ
ceiling rounds s [] = reach rounds s
ceiling rounds s (t ∷ chasers) = max_ℤ (reach rounds s) (ceiling rounds t chasers)

abbrev pub clinched_by : ℕ → List Standing → Bool
clinched_by rounds [] = false
clinched_by rounds (leader ∷ []) = false
clinched_by rounds (leader ∷ s ∷ chasers) =
    ((leader.played == rounds) && all (λ t. t.played == rounds) (s ∷ chasers))
    || ltb_ℤ (ceiling rounds s chasers) leader.points

abbrev pub by_rank : List Standing → List Standing
by_rank standings = sort (ascending (λ s. pos s.rank)) standings

unfoldable pub clinched : List Standing → Option ℕ → Bool
unfolding ceiling
clinched standings none = false
clinched standings (some rounds) = clinched_by rounds (by_rank standings)

-- `find` of the champion zone, and the zones without it.
abbrev pub drop_champion : List Zone → List Zone
drop_champion [] = []
drop_champion (z ∷ zones) = if is_champion z.kind then zones else z ∷ drop_champion zones

-- The zone that begins where the champion zone ended takes its places over.
abbrev pub extend_abutting : Zone → List Zone → List Zone
extend_abutting champion [] = []
extend_abutting champion (z ∷ zones) =
    if z.from == champion.to + 1
    then record z { from = champion.from } ∷ zones
    else z ∷ extend_abutting champion zones

abbrev pub resolve_with : Bool → Option Zone → List Zone → List Zone
resolve_with won none zones = zones
resolve_with won (some champion) zones =
    if won then zones else extend_abutting champion (drop_champion zones)

unfoldable pub resolve_zones : List Standing → List Zone → Option ℕ → List Zone
unfolding clinched
resolve_zones standings zones rounds =
    resolve_with (clinched standings rounds) (find (λ z. is_champion z.kind) zones) zones

abbrev pub clamp_zone : ℕ → Zone → Zone
clamp_zone n z = record z { from = max 1 (min z.from n); to = max 1 (min z.to n) }

unfoldable pub clamped : ℕ → List Zone → List Zone
clamped n zones =
    sort (ascending (λ z. pos z.from)) (filter (λ z. leb z.from z.to) (map (clamp_zone n) zones))

abbrev pub covers : ℕ → Zone → Bool
covers r z = leb z.from r && leb r z.to

-- The table `owned`: the index of the first zone that covers a place.
unfoldable pub owner_from : ℕ → ℕ → List Zone → Option ℕ
owner_from i r [] = none
owner_from i r (z ∷ zones) = if covers r z then some i else owner_from (i + 1) r zones

abbrev pub owner : List Zone → ℕ → Option ℕ
owner zones r = owner_from 0 r zones

abbrev pub same_owner : Option ℕ → Option ℕ → Bool
same_owner none none = true
same_owner (some i) (some j) = i == j
same_owner _ _ = false

abbrev pub kind_of : Option Zone → BandKind
kind_of none = mid
kind_of (some z) = zone z.kind

abbrev pub label_of : Option Zone → Option ZoneLabelKey
label_of none = none
label_of (some z) = some z.label_key

abbrev pub zone_at : List Zone → Option ℕ → Option Zone
zone_at zones none = none
zone_at zones (some i) = get_elem? zones i

module _ (zones : List Zone) where
  -- The inner `while`: the last place of the run, with `left` places after `last`.
  unfoldable pub run_end : Option ℕ → ℕ → ℕ → ℕ
  run_end who zero last = last
  run_end who (suc left) last =
      let longer = run_end who left (last + 1) in
      if same_owner (owner zones (last + 1)) who then longer else last

  abbrev pub band : List Standing → ℕ → ℕ → Band
  band standings cursor last = record {
    kind = kind_of (zone_at zones (owner zones cursor));
    label_key = label_of (zone_at zones (owner zones cursor));
    from = cursor;
    to = last;
    standings = filter (λ s. leb cursor s.rank && leb s.rank last) standings;
  }

  -- The outer `while`; a round passes at least one place, so `n` rounds are enough.
  unfoldable pub bands_from : List Standing → ℕ → ℕ → ℕ → List Band
  unfolding run_end owner_from
  bands_from standings n zero cursor = []
  bands_from standings n (suc fuel) cursor =
      let last = run_end (owner zones cursor) (n - cursor) cursor in
      let later = bands_from standings n fuel (last + 1) in
      if leb cursor n then band standings cursor last ∷ later else []

abbrev pub unmarked : List Standing → List Band
unmarked standings =
    record { kind = mid; label_key = none; from = 1; to = length standings; standings = standings }
    ∷ []

unfoldable pub to_bands : List Standing → List Zone → Option ℕ → List Band
unfolding resolve_zones clamped bands_from
to_bands standings zones rounds =
    let n = length standings in
    if n == 0
    then []
    else if all (λ s. s.played == 0) standings
    then unmarked standings
    else bands_from (clamped n (resolve_zones standings zones rounds)) standings n n 1
