-- ===== src/Sources/Standings.antt =====
-- The provider's standings: src/server/data/providers/espn-standings.ts. A value of the payload is
-- what the code reads of it: a text that is missing or empty is "", an id is its text, and a stat is
-- an integer or, for all that `Number.isInteger` refuses, `none`.
pub mod Identity
pub mod Measured
pub mod Answered
mod Tests
use Prim.Native.String
use Prim.Native.Char.{code}
use score_arc.Prelude.{
  is_nil, ℕ, suc, ◌+◌, ℤ, pos, negsuc, pos_part, String, Bool, true, false, not, ◌&&◌, ◌||◌, Option,
  none, some, List, [], ◌∷◌, map, map_idx_from, flat_map, length, ltb, leb, ◌==◌, if◌then◌else◌,
  str_eq, has, eqb_ℤ,
}
use score_arc.Prelude.Sort.{sort, ascending}
use score_arc.Model.{Team, Standing, Group, named}
use score_arc.Sources.TableOrder.{
  RawEntry, RawStat, RawTable, fits, has_rank, in_table_order, is_complete, last_stat, natural,
  number, rank_number, rank_of, seen_ranks, stat_map,
}

abbrev pub required_stats : List String
required_stats =
    "gamesPlayed" ∷ "wins" ∷ "ties" ∷ "losses" ∷ "pointsFor" ∷ "pointsAgainst" ∷ "pointDifferential"
    ∷ "points" ∷ []

pub data MapError : Type 0 where
  no_children : MapError
  no_teams no_id repeated_id : String → MapError
  no_identity : ℕ → String → MapError
  listed_twice : String → String → MapError

pub data Result {ℓ} (A : Type ℓ) : Type ℓ where
  failed : MapError → Result A
  read : A → Result A

abbrev pub and_then {ℓ κ} : {A : Type ℓ} {B : Type κ} → Result A → (A → Result B) → Result B
and_then (failed e) f = failed e
and_then (read a) f = f a

pub record ReadRow : Type 0 where
  pub team : Team
  pub stats : String → Option ℤ

pub record ReadTable : Type 0 where
  pub name : String
  pub rows : List ReadRow

abbrev pub id_text : Option String → String
id_text none = ""
id_text (some id) = id

abbrev pub has_identity : RawEntry → Bool
has_identity e =
    not (str_eq (id_text e.team_id) "")
    && not (str_eq e.display_name "")
    && not (str_eq e.abbreviation "")

abbrev pub team_of : RawEntry → Team
team_of e = record {
  id = id_text e.team_id;
  name = e.display_name;
  abbr = e.abbreviation;
  crest_url = e.crest;
}

abbrev pub row_of : RawEntry → ReadRow
row_of e = record { team = team_of e; stats = stat_map e.stats }

abbrev pub read_row : String → ℕ → List String → RawEntry → Result ReadRow
read_row name i team_ids e =
    if not (has_identity e)
    then failed (no_identity i name)
    else if has (id_text e.team_id) team_ids
    then failed (listed_twice name (id_text e.team_id))
    else read (row_of e)

unfoldable pub read_rows : String → ℕ → List String → List RawEntry → Result (List ReadRow)
read_rows name i team_ids [] = read []
read_rows name i team_ids (e ∷ entries) = and_then (read_row name i team_ids e) (λ row.
    and_then (read_rows name (suc i) (id_text e.team_id ∷ team_ids) entries)
      (λ rows. read (row ∷ rows)))

abbrev pub named_or : String → String → String
named_or unnamed name = if str_eq name "" then unnamed else name

unfoldable pub read_table : String → Bool → List String → RawTable → Result ReadTable
unfolding read_rows in_table_order
read_table unnamed several table_ids t =
    if is_nil t.entries
    then failed (no_teams (named_or unnamed t.name))
    else if str_eq (id_text t.id) "" && several
    then failed (no_id (named_or unnamed t.name))
    else if has (id_text t.id) table_ids
    then failed (repeated_id (id_text t.id))
    else and_then (read_rows (named_or unnamed t.name) 0 [] (in_table_order t.entries))
        (λ rows. read (record { name = named_or unnamed t.name; rows = rows }))

unfoldable pub read_tables : String → Bool → List String → List RawTable → Result (List ReadTable)
unfolding read_table
read_tables unnamed several table_ids [] = read []
read_tables unnamed several table_ids (t ∷ tables) =
    and_then (read_table unnamed several table_ids t) (λ table.
      and_then (read_tables unnamed several (id_text t.id ∷ table_ids) tables)
        (λ rest. read (table ∷ rest)))

-- `Number.isInteger(value)`, and only the goal difference is negative.
abbrev pub is_valid_stat : String → Option ℤ → Bool
is_valid_stat stat none = false
is_valid_stat stat (some (pos n)) = true
is_valid_stat stat (some (negsuc n)) = str_eq stat "pointDifferential"

abbrev pub bad_stat : (String → Option ℤ) → List String → Option String
bad_stat stats [] = none
bad_stat stats (stat ∷ rest) =
    let later = bad_stat stats rest in if is_valid_stat stat (stats stat) then later else some stat

pub record BadRow : Type 0 where
  pub index : ℕ
  pub table : String
  pub stat : String

abbrev pub or_bad {ℓ} : {A : Type ℓ} → Option A → Option A → Option A
or_bad none later = later
or_bad (some x) later = some x

abbrev pub at_row : ℕ → String → Option String → Option BadRow
at_row i name none = none
at_row i name (some stat) = some (record { index = i; table = name; stat = stat })

abbrev pub bad_row : String → ℕ → List ReadRow → Option BadRow
bad_row name i [] = none
bad_row name i (row ∷ rows) =
    or_bad (at_row i name (bad_stat row.stats required_stats)) (bad_row name (suc i) rows)

abbrev pub bad_table : List ReadTable → Option BadRow
bad_table [] = none
bad_table (t ∷ tables) = or_bad (bad_row t.name 0 t.rows) (bad_table tables)

-- `name.replace('Group ', '')`: the first occurrence.
abbrev pub after_prefix : String → String → Option String
after_prefix String.[] s = some s
after_prefix (String.◌∷◌ p prefix) String.[] = none
after_prefix (String.◌∷◌ p prefix) (String.◌∷◌ c s) =
    let rest = after_prefix prefix s in if code p == code c then rest else none

abbrev pub or_next : Option String → String → String
or_next none next = next
or_next (some s) next = s

unfoldable pub without_group : String → String
without_group String.[] = String.[]
without_group (String.◌∷◌ c s) =
    or_next (after_prefix "Group " (String.◌∷◌ c s)) (String.◌∷◌ c (without_group s))

abbrev pub integer : Option ℤ → ℤ
integer none = pos 0
integer (some n) = n

abbrev pub standing_of : ℕ → ReadRow → Standing
standing_of i row = record {
  team = row.team;
  rank = i + 1;
  played = pos_part (integer (row.stats "gamesPlayed"));
  wins = pos_part (integer (row.stats "wins"));
  draws = pos_part (integer (row.stats "ties"));
  losses = pos_part (integer (row.stats "losses"));
  goals_for = pos_part (integer (row.stats "pointsFor"));
  goals_against = pos_part (integer (row.stats "pointsAgainst"));
  goal_difference = integer (row.stats "pointDifferential");
  points = integer (row.stats "points");
  advanced = eqb_ℤ (integer (row.stats "advanced")) (pos 1);
}

unfoldable pub group_of : ReadTable → Group
unfolding without_group
group_of t = record {
  id = without_group t.name;
  standings = map_idx_from standing_of 0 t.rows;
  zones = none;
  title = named t.name;
}

pub data Standings : Type 0 where
  mapped : List Group → Standings
  rejected : MapError → Standings
  -- `StandingsStatsError`.
  without_stats : BadRow → List Team → Standings

abbrev pub teams_of : List ReadTable → List Team
teams_of tables = flat_map (λ t. map (λ r. r.team) t.rows) tables

abbrev pub measured : List ReadTable → Option BadRow → Standings
measured tables none = mapped (map group_of tables)
measured tables (some bad) = without_stats bad (teams_of tables)

abbrev pub identified : Result (List ReadTable) → Standings
identified (failed e) = rejected e
identified (read tables) = measured tables (bad_table tables)

unfoldable pub map_standings : String → Option (List RawTable) → Standings
unfolding read_tables group_of
map_standings unnamed none = rejected no_children
map_standings unnamed (some children) =
    identified (read_tables unnamed (ltb 1 (length children)) [] children)
