-- ===== src/Sources/TableOrder.antt =====
-- The rows of a provider's table in order: `statMap` and `inTableOrder` of
-- src/server/data/providers/espn-standings.ts. A stat is an integer or, for all that
-- `Number.isInteger` refuses, none.
pub mod Ordered
use Prim.Native.String
use Prim.Native.Char.{code}
use score_arc.Prelude.{
  ℕ, suc, ◌+◌, ℤ, pos, negsuc, pos_part, String, Bool, true, false, not, ◌&&◌, ◌||◌, Option, none,
  some, List, [], ◌∷◌, map, map_idx_from, flat_map, length, ltb, leb, ◌==◌, if◌then◌else◌, str_eq,
  has, eqb_ℤ,
}
use score_arc.Prelude.Sort.{sort, ascending}
use score_arc.Model.{Team, Standing, Group, named}

pub record RawStat : Type 0 where
  pub name : String
  pub value : Option ℤ

pub record RawEntry : Type 0 where
  pub team_id : Option String
  pub display_name : String
  pub abbreviation : String
  pub crest : Option String
  pub stats : List RawStat

pub record RawTable : Type 0 where
  pub name : String
  pub id : Option String
  pub entries : List RawEntry

-- `statMap`: a later stat of a name writes over an earlier one.
abbrev pub last_stat : String → Option ℤ → List RawStat → Option ℤ
last_stat name found [] = found
last_stat name found (st ∷ stats) =
    last_stat name (if str_eq st.name name then st.value else found) stats

unfoldable pub stat_map : List RawStat → String → Option ℤ
stat_map stats name = last_stat name none stats

-- A rank that is an integer from 1.
abbrev pub natural : Option ℤ → Option ℕ
natural (some (pos (suc n))) = some (suc n)
natural _ = none

abbrev pub rank_of : RawEntry → Option ℕ
rank_of e = natural (stat_map e.stats "rank")

abbrev pub has_rank : ℕ → List ℕ → Bool
has_rank r [] = false
has_rank r (x ∷ xs) = (x == r) || has_rank r xs

abbrev pub fits : ℕ → Option ℕ → List ℕ → Bool
fits n none seen = false
fits n (some r) seen = leb r n && not (has_rank r seen)

abbrev pub number : Option ℕ → ℕ
number none = 0
number (some r) = r

-- `seen` after the loop over the ranks, or `none` when it returns early.
abbrev pub seen_ranks : ℕ → List (Option ℕ) → List ℕ → Option (List ℕ)
seen_ranks n [] seen = some seen
seen_ranks n (r ∷ ranks) seen =
    let rest = seen_ranks n ranks (number r ∷ seen) in if fits n r seen then rest else none

abbrev pub is_complete : ℕ → Option (List ℕ) → Bool
is_complete n none = false
is_complete n (some seen) = length seen == n

abbrev pub rank_number : RawEntry → ℤ
rank_number e = pos (number (rank_of e))

unfoldable pub in_table_order : List RawEntry → List RawEntry
unfolding sort stat_map
in_table_order entries =
    if is_complete (length entries) (seen_ranks (length entries) (map rank_of entries) [])
    then sort (ascending rank_number) entries
    else entries
