-- ===== src/Matches/Form/Reading.antt =====
-- The memberships of the teams and the loop that reads their matches: the first half of
-- `loadSourceStandingsForm` of src/server/data/standingsForm.ts.
use score_arc.Prelude.{
  ℕ, zero, suc, ◌+◌, ◌-◌, ◌*◌, min, max, ℤ, pos, leb_ℤ, ltb_ℤ, String, Bool, true, false, not, ◌&&◌,
  ◌||◌, Option, none, some, List, [], ◌∷◌, ◌++◌, map, filter, any, all, length, ltb, leb, ◌==◌,
  if◌then◌else◌, str_eq, has,
}
use score_arc.Model.{Match, Scope, Group, Standing}
use score_arc.Matches.Performance.{unique_team_matches, eligible_team_matches}
use score_arc.Matches.Form.{
  group_stage, regular_season, StandingsFormScope, Store, TableScope, day_ms, form_size,
}

-- A team's membership in the tables.
pub record Member : Type 0 where
  pub team_id : String
  pub played : ℕ
  pub group_ids : List String
  pub ambiguous : Bool

abbrev pub add_group : String → List String → List String
add_group id ids = if has id ids then ids else ids ++ (id ∷ [])

-- `members.get(team.id)`, written back.
abbrev pub join : Bool → String → Standing → List Member → List Member
join same_group group_id s [] =
    record { team_id = s.team.id; played = s.played; group_ids = group_id ∷ []; ambiguous = false }
    ∷ []
join same_group group_id s (m ∷ members) =
    let rest = join same_group group_id s members in
    if str_eq m.team_id s.team.id
    then record m {
      group_ids = add_group group_id m.group_ids;
      ambiguous = m.ambiguous || not (m.played == s.played) || same_group;
    }
      ∷ members
    else m ∷ rest

abbrev pub join_rows : Bool → String → List Standing → List Member → List Member
join_rows same_group group_id [] members = members
join_rows same_group group_id (s ∷ rows) members =
    join_rows same_group group_id rows (join same_group group_id s members)

abbrev pub members_from : Bool → List Group → List Member → List Member
members_from same_group [] members = members
members_from same_group (g ∷ groups) members =
    members_from same_group groups (join_rows same_group g.id g.standings members)

unfoldable pub members_of : Bool → List Group → List Member
members_of same_group groups = members_from same_group groups []

abbrev pub groups_of : String → List Member → List String
groups_of id [] = []
groups_of id (m ∷ members) = if str_eq m.team_id id then m.group_ids else groups_of id members

-- What one load reads its matches for.
pub record Reading : Type 0 where
  pub store : Store
  pub edition : Scope
  pub table : TableScope
  pub members : List Member

abbrev pub is_group_stage : StandingsFormScope → Bool
is_group_stage group_stage = true
is_group_stage _ = false

abbrev pub is_regular : StandingsFormScope → Bool
is_regular regular_season = true
is_regular _ = false

abbrev pub in_groups : Reading → Match → Bool
in_groups r m =
    not (is_group_stage r.table.scope)
    || any (λ id. has id (groups_of m.away.id r.members)) (groups_of m.home.id r.members)

abbrev pub instant_within : ℕ → ℕ → Option ℤ → Bool
instant_within start end none = false
instant_within start end (some t) =
    leb_ℤ (pos (day_ms * start)) t && ltb_ℤ t (pos (day_ms * end + day_ms))

abbrev pub same_edition : Scope → Option Scope → Bool
same_edition edition none = true
same_edition edition (some s) =
    str_eq s.competition_id edition.competition_id && str_eq s.season_id edition.season_id

abbrev pub is_held : Reading → ℕ → ℕ → Match → Bool
is_held r start end m =
    instant_within start end (r.store.parse m.kickoff)
    && same_edition r.edition m.scope
    && in_groups r m

abbrev pub with_edition : Scope → Match → Match
with_edition edition m = record m { scope = some edition }

-- What a window of matches adds to the held.
abbrev pub kept : Reading → ℕ → ℕ → List Match → List Match
kept r start end matches = map (with_edition r.edition) (filter (is_held r start end) matches)

abbrev pub is_played : Member → Bool
is_played m = ltb 0 m.played || m.ambiguous

abbrev pub has_enough : Reading → List Match → Member → Bool
has_enough r unique m =
    leb (min form_size m.played)
      (length (eligible_team_matches r.store.instant unique m.team_id r.edition))

unfoldable pub is_settled : Reading → List Match → Bool
unfolding unique_team_matches eligible_team_matches
is_settled r held =
    all (has_enough r (unique_team_matches r.store.instant r.store.id_order held))
      (filter is_played r.members)

pub data Held : Type 0 where
  out_of_fuel : Held
  unread : Held
  held_to : List Match → Bool → Held

abbrev pub window_start : Reading → ℕ → ℕ
window_start r end = max r.table.start (end - 91)

-- One round of the loop, and the rounds after it.
abbrev pub with_matches :
    Reading → ℕ → ℕ → List Match → (List Match → Held) → Option (List Match) → Held
with_matches r start end held next none = unread
with_matches r start end held next (some matches) =
    let now_held = held ++ kept r start end matches in
    let rest = next now_held in
    if leb start r.table.start
    then held_to now_held true
    else if is_regular r.table.scope
    then rest
    else if is_settled r now_held
    then held_to now_held false
    else rest

unfoldable pub windows : ℕ → Reading → ℕ → List Match → Held
unfolding is_settled
windows zero r end held = out_of_fuel
windows (suc fuel) r end held =
    let start = window_start r end in
    with_matches r start end held (λ now_held. windows fuel r (start - 1) now_held)
      (r.store.fixtures start end)

-- The loop, which runs unless nothing was played or the scope has not begun.
unfoldable pub read_matches : Reading → Held
unfolding windows
read_matches r =
    let nothing = length (filter is_played r.members) == 0 in
    let rest = windows (suc (r.table.end - r.table.start)) r r.table.end [] in
    if nothing || ltb r.table.end r.table.start then held_to [] true else rest
