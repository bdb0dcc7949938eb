-- ===== src/Tables/Zones/Champion.antt =====
-- A champion is shown only when the title is settled.
use score_arc.Prelude.{ℕ, ◌-◌, ◌*◌, pos, ◌+ℤ◌, ◌<ℤ◌, false, List, ◌∷◌, ◌≡◌, ◌⊎◌, All}
use score_arc.Model.{Standing, Zone}
use score_arc.Tables.Zones.{is_champion, by_rank, drop_champion}

-- No other club can reach the leader, or the season of `rounds` rounds is over for every club.
abbrev pub IsSettled : ℕ → Standing → List Standing → Type 0
IsSettled rounds leader chasers =
    All (λ t. (t.points +ℤ pos (3 * (rounds - t.played))) <ℤ leader.points) chasers
    ⊎ All (λ t. t.played ≡ rounds) (leader ∷ chasers)

-- The title is decided: of the rows by rank, the first is the leader and there is a chaser.
pub record IsTitleDecided (standings : List Standing) (rounds : ℕ) : Type 0 where
  pub leader : Standing
  pub chaser : Standing
  pub others : List Standing
  pub ranked : by_rank standings ≡ leader ∷ chaser ∷ others
  pub settled : IsSettled rounds leader (chaser ∷ others)

abbrev pub NotChampion : Zone → Type 0
NotChampion z = is_champion z.kind ≡ false

-- At most one zone of the configuration crowns a champion.
abbrev pub HasOneTitle : List Zone → Type 0
HasOneTitle zones = All NotChampion (drop_champion zones)
