-- ===== src/Matches/Form/Loaded.antt =====
-- What a load of the forms answers, from the store to the page.
use score_arc.Prelude.{
  is_some, ℕ, Bool, false, none, some, List, [], map, filter, length, All, ◌≡◌, ◌⊎◌, IsDistinct,
}
use score_arc.Model.{Match, Group}
use score_arc.Model.Registry.{CompetitionSeason}
use score_arc.Matches.Performance.{PerformanceMatch, unique_team_matches}
use score_arc.Matches.Form.Reading.{Member, is_played, held_to}
use score_arc.Matches.Form.{Store, StandingsForm, TableScope, scoped, table_scope}
use score_arc.Matches.Form.Teams.{
  unread_store, blank_table, unreadable_edition, never_ends, FormLoad, failed, loaded, reading_of,
}
use score_arc.Matches.Form.Windows.{IsEnded}
use score_arc.Matches.Form.Results.{Shows}
use score_arc.Matches.Form.Members.{IsMembership, IsInTables, IsUsedIn, entry}

-- The forms of a page: of which matches, for whom, and what each is made of.
pub record IsPage (store : Store) (rc : CompetitionSeason) (groups : List Group)
    (table : TableScope) (f : StandingsForm) : Type 0 where
  pub held : List Match
  pub read_all : Bool
  pub ended : IsEnded (reading_of store rc groups table) (held_to held read_all)
  pub members : IsMembership (IsInTables groups) (reading_of store rc groups table).members
  pub form : Member → List PerformanceMatch
  pub shown :
      (m : Member)
      → Shows
          (reading_of store rc groups table)
          rc.season.rounds
          held
          (unique_team_matches store.instant store.id_order held)
          read_all
          m
          (form m)
  pub scope : f.scope ≡ some table.scope
  -- One entry for each team that has played, and no other.
  pub teams :
      f.teams ≡ map (entry form) (filter is_played (reading_of store rc groups table).members)
  pub matches : IsDistinct (λ u. u.id) f.matches
  pub used :
      All
        (λ m. IsUsedIn f.matches (form m))
        (filter is_played (reading_of store rc groups table).members)

abbrev pub IsNoForm : StandingsForm → Type 0
IsNoForm f = (f.scope ≡ none) × (f.teams ≡ []) × (f.matches ≡ [])

abbrev pub IsLoad : Store → CompetitionSeason → ℕ → FormLoad → Type 0
IsLoad store rc now (failed never_ends) = ⊥
IsLoad store rc now (failed unreadable_edition) = Unit
IsLoad store rc now (failed blank_table) =
    (store.standings ≡ some []) × (is_some rc.season.computed_tables ≡ false)
IsLoad store rc now (failed unread_store) =
    (store.standings ≡ none) ⊎ ((s : ℕ) × (e : ℕ) × (store.fixtures s e ≡ none))
IsLoad store rc now (loaded f) =
    IsNoForm f
    ⊎ ((groups : List Group) × (table : TableScope) × (store.standings ≡ some groups)
        × (table_scope rc now (length groups) ≡ scoped table)
        × IsPage store rc groups table f)
