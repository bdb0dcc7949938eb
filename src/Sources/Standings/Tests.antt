-- ===== src/Sources/Standings/Tests.antt =====
-- Tests of the provider's standings, and its theorems at a sample payload.
use score_arc.Prelude.{
  ℕ, ◌-ℤ◌, pos, negsuc, String, Option, none, some, List, [], ◌∷◌, map, ◌≡◌, refl,
}
use score_arc.Prelude.Sort.{sort}
use score_arc.Sources.TableOrder.{RawStat, RawEntry, RawTable, stat_map, in_table_order}
use score_arc.Sources.Standings.{
  read_rows, read_table, read_tables, without_group, group_of, no_identity, no_id, listed_twice,
  rejected, without_stats, map_standings,
}
use score_arc.Sources.TableOrder.Ordered.{IsTableOrder, in_table_order-IsTableOrder}
use score_arc.Sources.Standings.Answered.{Explains, map_standings-Explains}

abbrev stat : String → ℕ → RawStat
stat name n = record { name = name; value = some (pos n) }

abbrev entry : String → ℕ → RawEntry
entry id rank = record {
  team_id = some id;
  display_name = id;
  abbreviation = id;
  crest = none;
  stats =
      stat "gamesPlayed" 2
      ∷ stat "wins" 1
      ∷ stat "ties" 0
      ∷ stat "losses" 1
      ∷ stat "pointsFor" 3
      ∷ stat "pointsAgainst" 4
      ∷ record { name = "pointDifferential"; value = some (negsuc 0) }
      ∷ stat "points" 3
      ∷ stat "rank" rank
      ∷ [];
}

abbrev table : List RawEntry → RawTable
table entries = record { name = "Group A"; id = none; entries = entries }

standing : Unit {0}
unfolding ◌-ℤ◌ sort stat_map in_table_order read_rows read_table read_tables without_group group_of
    map_standings
standing = tt

ids : List RawEntry → List (Option String)
ids es = map (λ e. e.team_id) es

by_rank : ids (in_table_order (entry "B" 2 ∷ entry "A" 1 ∷ [])) ≡ some "A" ∷ some "B" ∷ []
unfolding standing ids
by_rank = refl

twice_first : ids (in_table_order (entry "B" 1 ∷ entry "A" 1 ∷ [])) ≡ some "B" ∷ some "A" ∷ []
unfolding standing ids
twice_first = refl

short_name : without_group "Group A" ≡ "A"
unfolding standing
short_name = refl

nameless :
    map_standings "MLS" (some (table (record (entry "A" 1) { display_name = "" } ∷ []) ∷ []))
    ≡ rejected (no_identity 0 "Group A")
unfolding standing
nameless = refl

double :
    map_standings "MLS" (some (table (entry "A" 1 ∷ entry "A" 2 ∷ []) ∷ []))
    ≡ rejected (listed_twice "Group A" "A")
unfolding standing
double = refl

two_without_id :
    map_standings "MLS" (some (table (entry "A" 1 ∷ []) ∷ table (entry "A" 1 ∷ []) ∷ []))
    ≡ rejected (no_id "Group A")
unfolding standing
two_without_id = refl

abbrev unmeasured : RawEntry
unmeasured = record (entry "A" 1) { stats = stat "gamesPlayed" 0 ∷ [] }

missing_stat :
    map_standings "MLS" (some (table (unmeasured ∷ []) ∷ []))
    ≡ without_stats
        (record { index = 0; table = "Group A"; stat = "wins" })
        (record { id = "A"; name = "A"; abbr = "A"; crest_url = none } ∷ [])
unfolding standing
missing_stat = refl

abbrev sample : Option (List RawTable)
sample = some (table (entry "B" 2 ∷ entry "A" 1 ∷ []) ∷ [])

in_table_order-IsTableOrder_example :
    IsTableOrder (entry "B" 2 ∷ entry "A" 1 ∷ []) (in_table_order (entry "B" 2 ∷ entry "A" 1 ∷ []))
in_table_order-IsTableOrder_example = in_table_order-IsTableOrder (entry "B" 2 ∷ entry "A" 1 ∷ [])

map_standings-Explains_example : Explains "MLS" sample (map_standings "MLS" sample)
map_standings-Explains_example = map_standings-Explains "MLS" sample
