-- ===== src/Tables/Phase.antt =====
-- The Leagues Cup phase tables: src/server/data/leaguesCupTables.ts. The map from club to row is
-- the list of its rows in the order of insertion; a row is changed in place through its club's id,
-- so two names of one row (a match of a club against itself) stay one row.
pub mod Book
pub mod Totals
pub mod Records
pub mod Split
pub mod Quarterfinals
use score_arc.Prelude.{
  ℕ, ◌+◌, ◌-◌, ℤ, pos, ◌-ℤ◌, sub_ℕ, String, Bool, true, false, not, ◌&&◌, Option, none, some, List,
  [], ◌∷◌, ◌++◌, map, if◌then◌else◌, ltb, leb, ◌==◌, str_eq, has, any, find, filter, length, take,
  get_elem?, map_idx_from,
}
use score_arc.Prelude.Sort.{Comparator, Collation, ◌or_else◌, sort}
use score_arc.Model.{
  Team, Match, MatchState, Standing, Shootout, Group, named, ComputedTables, finished_b,
}

pub record PhaseMatch : Type 0 where
  pub kickoff : String
  pub state : MatchState
  pub home : Team
  pub away : Team
  pub home_score : Option ℕ
  pub away_score : Option ℕ
  pub shootout : Option Shootout

pub record Row : Type 0 where
  pub team : Team
  pub played : ℕ
  pub wins : ℕ
  pub draws : ℕ
  pub losses : ℕ
  pub goals_for : ℕ
  pub goals_against : ℕ
  pub points : ℕ

abbrev pub blank : Team → Row
blank team = record {
  team = team;
  played = 0;
  wins = 0;
  draws = 0;
  losses = 0;
  goals_for = 0;
  goals_against = 0;
  points = 0;
}

-- LEAGUES_CUP_POINTS.
abbrev pub win_points : ℕ
win_points = 3

abbrev pub shootout_win_points : ℕ
shootout_win_points = 2

abbrev pub shootout_loss_points : ℕ
shootout_loss_points = 1

abbrev pub has_row : String → List Row → Bool
has_row id rows = any (λ r. str_eq r.team.id id) rows

-- `rowFor`: the club's row is there afterwards.
unfoldable pub row_for : Team → List Row → List Row
row_for team rows = if has_row team.id rows then rows else rows ++ blank team ∷ []

-- An assignment to fields of the row of a club.
unfoldable pub modify : String → (Row → Row) → List Row → List Row
modify id f [] = []
modify id f (r ∷ rows) = if str_eq r.team.id id then f r ∷ rows else r ∷ modify id f rows

abbrev pub add_goals : ℕ → ℕ → Row → Row
add_goals scored conceded r = record r {
  played = r.played + 1;
  goals_for = r.goals_for + scored;
  goals_against = r.goals_against + conceded;
}

abbrev pub add_win : Row → Row
add_win r = record r { wins = r.wins + 1; points = r.points + win_points }

abbrev pub add_loss : Row → Row
add_loss r = record r { losses = r.losses + 1 }

abbrev pub add_draw : ℕ → Row → Row
add_draw points r = record r { draws = r.draws + 1; points = r.points + points }

-- What a level match is worth to each side: the branch on the shootout.
abbrev pub split_points : Option Shootout → ℕ × ℕ
split_points none = (shootout_loss_points, shootout_loss_points)
split_points (some so) =
    if so.home_score == so.away_score
    then (shootout_loss_points, shootout_loss_points)
    else if ltb so.away_score so.home_score
    then (shootout_win_points, shootout_loss_points)
    else (shootout_loss_points, shootout_win_points)

-- The result of a match with both scores, on the rows of its sides.
abbrev pub settle : String → String → ℕ → ℕ → Option Shootout → List Row → List Row
settle home away hs as_ so rows =
    if ltb as_ hs
    then modify away add_loss (modify home add_win rows)
    else if ltb hs as_
    then modify home add_loss (modify away add_win rows)
    else modify away (add_draw (split_points so).1)
        (modify home (add_draw (split_points so).0) rows)

abbrev pub tally_scores : PhaseMatch → Option ℕ → Option ℕ → List Row → List Row
tally_scores m (some hs) (some as_) rows = settle m.home.id m.away.id hs as_ m.shootout (
    modify m.away.id (add_goals as_ hs)
      (modify m.home.id (add_goals hs as_) (row_for m.away (row_for m.home rows))))
tally_scores m _ _ rows = rows

-- One round of the loop over the matches.
unfoldable pub tally_match : PhaseMatch → List Row → List Row
unfolding row_for modify
tally_match m rows =
    if finished_b m.state then tally_scores m m.home_score m.away_score rows else rows

unfoldable pub tally : List PhaseMatch → List Row → List Row
tally [] rows = rows
tally (m ∷ matches) rows = tally matches (tally_match m rows)

unfoldable pub compare_rows : Collation → Comparator Row
compare_rows locale a b =
    (pos b.points -ℤ pos a.points)
    or_else ((pos b.goals_for -ℤ pos b.goals_against) -ℤ (pos a.goals_for -ℤ pos a.goals_against))
    or_else (pos b.goals_for -ℤ pos a.goals_for)
    or_else locale.compare_text a.team.name b.team.name

abbrev pub standing_of : ℕ → Row → Standing
standing_of i r = record {
  team = r.team;
  rank = i + 1;
  played = r.played;
  wins = r.wins;
  draws = r.draws;
  losses = r.losses;
  goals_for = r.goals_for;
  goals_against = r.goals_against;
  goal_difference = sub_ℕ r.goals_for r.goals_against;
  points = pos r.points;
  advanced = false;
}

unfoldable pub rank : Collation → List Row → List Standing
unfolding compare_rows
rank locale rows = map_idx_from standing_of 0 (sort (compare_rows locale) rows)

-- Membership: without the MLS set every club outside the Liga MX set is MLS.
unfoldable pub in_mls : List String → Option (List String) → String → Bool
in_mls liga_mx none id = not (has id liga_mx)
in_mls liga_mx (some mls) id = has id mls && not (has id liga_mx)

unfoldable pub in_liga_mx : List String → Option (List String) → String → Bool
in_liga_mx liga_mx none id = has id liga_mx
in_liga_mx liga_mx (some mls) id = has id liga_mx && not (has id mls)

abbrev pub mark_advanced : ℕ → Standing → Standing
mark_advanced cut s = record s { advanced = leb s.rank cut }

abbrev pub table : String → String → List Standing → List Group
table id name [] = []
table id name (s ∷ rows) =
    record { id = id; standings = s ∷ rows; zones = none; title = named name } ∷ []

abbrev pub with_label : ComputedTables → Group → Group
with_label config g = record g {
  zones = none;
  title =
      named
        (if str_eq g.id "liga-mx" then config.group_labels.split else config.group_labels.primary);
}

module _ (locale : Collation) where
  abbrev pub league_rows : (String → Bool) → ℕ → List Row → List Standing
  league_rows member cut rows =
      map (mark_advanced cut) (rank locale (filter (λ r. member r.team.id) rows))

  unfoldable pub compute_phase_tables :
      List PhaseMatch → List String → ℕ → Option (List String) → List Group
  unfolding tally tally_match rank in_mls in_liga_mx
  compute_phase_tables matches liga_mx cut mls =
      let rows = tally matches [] in
      table "mls" "MLS" (league_rows (in_mls liga_mx mls) cut rows)
      ++ table "liga-mx" "Liga MX" (league_rows (in_liga_mx liga_mx mls) cut rows)

  unfoldable pub configured_phase_tables :
      List PhaseMatch → ComputedTables → List String → Option (List String) → List Group
  unfolding compute_phase_tables
  configured_phase_tables matches config liga_mx mls =
      map (with_label config) (compute_phase_tables matches liga_mx config.cut mls)

pub record SeededTie : Type 0 where
  pub home_seed : ℕ
  pub away_seed : ℕ
  pub home : Standing
  -- `undefined` past the end of the list.
  pub away : Option Standing

abbrev pub standings_of : Option Group → List Standing
standings_of none = []
standings_of (some g) = g.standings

unfoldable pub compute_quarterfinals : List Group → ℕ → List SeededTie
compute_quarterfinals groups cut =
    let mls = take cut (standings_of (find (λ g. str_eq g.id "mls") groups)) in
    let liga_mx = take cut (standings_of (find (λ g. str_eq g.id "liga-mx") groups)) in
    if ltb (length mls) cut
    then []
    else if ltb (length liga_mx) cut
    then []
    else map_idx_from
        (λ i home. record {
          home_seed = i + 1;
          away_seed = cut - i;
          home = home;
          away = get_elem? liga_mx (cut - 1 - i);
        })
        0 mls
