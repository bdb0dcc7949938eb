-- ===== src/Matches/Form/Teams.antt =====
-- The forms of the teams and the whole load: the second half of `loadSourceStandingsForm` of
-- src/server/data/standingsForm.ts.
use score_arc.Prelude.{
  is_some, ℕ, ◌+◌, ◌-◌, ◌++◌, String, Bool, true, false, not, ◌&&◌, ◌||◌, Option, none, some, List,
  [], ◌∷◌, map, filter, any, length, take, drop, ltb, ◌==◌, if◌then◌else◌, str_eq, has,
}
use score_arc.Model.{Match, Scope, Group, finished_b}
use score_arc.Model.Registry.{CompetitionSeason}
use score_arc.Matches.Performance.{PerformanceMatch, unique_team_matches, eligible_team_matches}
use score_arc.Matches.Form.Reading.{
  Member, members_of, Reading, is_group_stage, is_regular, is_played, Held, out_of_fuel, unread,
  held_to, read_matches,
}
use score_arc.Matches.Form.{
  Store, FormResult, TeamForm, available, unavailable, StandingsForm, form_size, never_played,
  offers_no_form, Scoping, unreadable, no_scope, scoped, TableScope, table_scope,
}

abbrev pub has_side : String → Match → Bool
has_side team_id m = str_eq m.home.id team_id || str_eq m.away.id team_id

abbrev pub ids_of : List PerformanceMatch → List String
ids_of ps = map (λ p. p.of_match.id) ps

-- A final that the form leaves out and a table may have counted.
abbrev pub is_exceptional : String → List PerformanceMatch → Match → Bool
is_exceptional team_id counted m =
    finished_b m.state
    && not (has m.status_name never_played)
    && not (has m.id (ids_of counted))
    && has_side team_id m

abbrev pub exceptional : String → List PerformanceMatch → List Match → ℕ
exceptional team_id counted unique = length (filter (is_exceptional team_id counted) unique)

abbrev pub is_conflicted : String → List Match → List Match → Bool
is_conflicted team_id unique held =
    any (λ m. has_side team_id m && not (has m.id (map (λ u. u.id) unique))) held

abbrev pub is_beyond : Option ℕ → ℕ → Bool
is_beyond none played = false
is_beyond (some rounds) played = ltb rounds played

-- The matches that bear on a team: its own results, and how many more a table may count.
pub record Evidence : Type 0 where
  pub counted : List PerformanceMatch
  pub exceptional : ℕ
  pub conflicted : Bool

abbrev pub evidence : Reading → List Match → List Match → String → Evidence
evidence r held unique team_id =
    let counted = eligible_team_matches r.store.instant unique team_id r.edition in
    record {
      counted = counted;
      exceptional = exceptional team_id counted unique;
      conflicted = is_conflicted team_id unique held;
    }

abbrev pub is_over : Member → Evidence → Bool
is_over m e = ltb m.played (length e.counted + e.exceptional)

abbrev pub is_unavailable : Reading → Option ℕ → Bool → Member → Evidence → Bool
is_unavailable r rounds read_all m e =
    m.ambiguous
    || e.conflicted
    || (is_regular r.table.scope && is_beyond rounds m.played)
    || (read_all && ltb (length e.counted + e.exceptional) m.played)
    || (is_regular r.table.scope && is_over m e && ltb 0 e.exceptional)

abbrev pub form_matches : Reading → Member → Evidence → List PerformanceMatch
form_matches r m e = take form_size (
    if is_regular r.table.scope && is_over m e
    then drop (length e.counted + e.exceptional - m.played) e.counted
    else e.counted)

abbrev pub form_or_none : Bool → List PerformanceMatch → List PerformanceMatch
form_or_none refused form = if refused then [] else form

abbrev pub result_of : PerformanceMatch → FormResult
result_of p = record { match_id = p.of_match.id; result = p.result }

abbrev pub team_form : List PerformanceMatch → TeamForm
team_form [] = unavailable
team_form (p ∷ ps) = available (map result_of (p ∷ ps))

-- `used.set(match.id, match)`.
abbrev pub use_match : Match → List Match → List Match
use_match m [] = m ∷ []
use_match m (u ∷ used) =
    let rest = use_match m used in if str_eq u.id m.id then m ∷ used else u ∷ rest

abbrev pub use_matches : List PerformanceMatch → List Match → List Match
use_matches [] used = used
use_matches (p ∷ ps) used = use_matches ps (use_match p.of_match used)

-- The matches behind a member's form, none where it is unavailable.
unfoldable pub member_form :
    Reading → Option ℕ → List Match → List Match → Bool → Member → List PerformanceMatch
unfolding eligible_team_matches
member_form r rounds held unique read_all m =
    let e = evidence r held unique m.team_id in
    form_or_none (is_unavailable r rounds read_all m e) (form_matches r m e)

pub record Forms : Type 0 where
  pub teams : List (String × TeamForm)
  pub used : List Match

abbrev pub add_form : Member → List PerformanceMatch → Forms → Forms
add_form m form forms = record {
  teams = forms.teams ++ ((m.team_id, team_form form) ∷ []);
  used = use_matches form forms.used;
}

unfoldable pub forms_from : (Member → List PerformanceMatch) → List Member → Forms → Forms
forms_from form [] forms = forms
forms_from form (m ∷ members) forms = forms_from form members (add_form m (form m) forms)

abbrev pub no_forms : Forms
no_forms = record { teams = []; used = [] }

unfoldable pub forms_of : Reading → Option ℕ → List Match → Bool → Forms
unfolding member_form forms_from unique_team_matches
forms_of r rounds held read_all =
    let unique = unique_team_matches r.store.instant r.store.id_order held in
    forms_from (member_form r rounds held unique read_all) (filter is_played r.members) no_forms

pub data FormError : Type 0 where
  unread_store blank_table unreadable_edition never_ends : FormError

pub data FormLoad : Type 0 where
  failed : FormError → FormLoad
  loaded : StandingsForm → FormLoad

abbrev pub no_form : FormLoad
no_form = loaded (record { scope = none; teams = []; matches = [] })

abbrev pub with_held : Reading → Option ℕ → Held → FormLoad
with_held r rounds out_of_fuel = failed never_ends
with_held r rounds unread = failed unread_store
with_held r rounds (held_to held read_all) =
    let forms = forms_of r rounds held read_all in
    loaded (record { scope = some r.table.scope; teams = forms.teams; matches = forms.used })

abbrev pub edition_of : CompetitionSeason → Scope
edition_of rc = record { competition_id = rc.competition.id; season_id = rc.season.id }

abbrev pub reading_of : Store → CompetitionSeason → List Group → TableScope → Reading
reading_of store rc groups table = record {
  store = store;
  edition = edition_of rc;
  table = table;
  members = members_of (is_group_stage table.scope) groups;
}

abbrev pub with_scope : Store → CompetitionSeason → List Group → Scoping → FormLoad
with_scope store rc groups unreadable = failed unreadable_edition
with_scope store rc groups no_scope = no_form
with_scope store rc groups (scoped table) =
    let r = reading_of store rc groups table in with_held r rc.season.rounds (read_matches r)

abbrev pub with_groups : Store → CompetitionSeason → ℕ → Option (List Group) → FormLoad
with_groups store rc now none = failed unread_store
with_groups store rc now (some groups) =
    if (length groups == 0) && not (is_some rc.season.computed_tables)
    then failed blank_table
    else with_scope store rc groups (table_scope rc now (length groups))

abbrev pub offered : Store → CompetitionSeason → ℕ → Option Bool → FormLoad
offered store rc now none = failed unreadable_edition
offered store rc now (some true) = no_form
offered store rc now (some false) = with_groups store rc now store.standings

unfoldable pub load_standings_form : Store → CompetitionSeason → ℕ → FormLoad
unfolding offers_no_form
load_standings_form store rc now = offered store rc now (offers_no_form rc now)
