-- ===== src/Tables/Liguilla.antt =====
-- The projected Liguilla: src/server/data/liguillaProjection.ts. The map from seed to row is the
-- list of its rows, since a row's key is its own rank. Ranks are whole numbers.
pub mod Seats
pub mod Projected
use score_arc.Prelude.{
  ℕ, String, Bool, true, false, ◌||◌, Option, none, some, List, [], ◌∷◌, ◌++◌, if◌then◌else◌, ltb,
  leb, ◌==◌, any, find, length,
}
use score_arc.Model.{
  Standing, Group, BracketTeam, BracketMatch, BracketRound, KnockoutRoundSlug, quarterfinals,
  semifinals, final, MatchState,
}

pub record Pairing : Type 0 where
  pub id : String
  pub high : ℕ
  pub low : ℕ

-- QF_PAIRS, with the ids that the index gives to the fixtures.
abbrev pub qf_pairs : List Pairing
qf_pairs =
    record { id = "proj-qf-1"; high = 1; low = 8 }
    ∷ record { id = "proj-qf-2"; high = 4; low = 5 }
    ∷ record { id = "proj-qf-3"; high = 2; low = 7 }
    ∷ record { id = "proj-qf-4"; high = 3; low = 6 }
    ∷ []

abbrev pub to_bracket_team : Standing → BracketTeam
to_bracket_team s = record {
  id = s.team.id;
  name = s.team.name;
  abbr = s.team.abbr;
  crest_url = s.team.crest_url;
  placeholder = false;
}

abbrev pub tbd : String → BracketTeam
tbd id = record { id = id; name = ""; abbr = ""; crest_url = none; placeholder = true }

abbrev pub fixture : String → KnockoutRoundSlug → BracketTeam → BracketTeam → BracketMatch
fixture id round home away = record {
  id = id;
  round = round;
  kickoff = "";
  home = home;
  away = away;
  home_score = none;
  away_score = none;
  state = MatchState.scheduled;
  status_detail = "";
  status_name = "STATUS_SCHEDULED";
  minute = none;
  winner_id = none;
  note = none;
}

-- The loop that seats the rows; `none` is its early `return null`.
unfoldable pub seat : List Standing → List Standing → Option (List Standing)
seat [] by_seed = some by_seed
seat (s ∷ rows) by_seed =
    let skipped = seat rows by_seed in
    let seated = seat rows (by_seed ++ s ∷ []) in
    if ltb s.rank 1 || ltb 8 s.rank
    then skipped
    else if any (λ r. r.rank == s.rank) by_seed
    then none
    else seated

-- The answer: `null`, the thrown error of a missing seed (`bySeed.get(n)!`), or the rounds.
pub data Projection : Type 0 where
  nothing crashed : Projection
  projected : List BracketRound → Projection

abbrev pub seed : List Standing → ℕ → Option Standing
seed by_seed n = find (λ r. r.rank == n) by_seed

abbrev pub tie_of : Pairing → Option Standing → Option Standing → Option BracketMatch
tie_of p (some hi) (some lo) =
    some (fixture p.id quarterfinals (to_bracket_team hi) (to_bracket_team lo))
tie_of p _ _ = none

abbrev pub push_tie : Option BracketMatch → Option (List BracketMatch) → Option (List BracketMatch)
push_tie (some m) (some ms) = some (m ∷ ms)
push_tie _ _ = none

unfoldable pub quarter_ties : List Standing → List Pairing → Option (List BracketMatch)
quarter_ties by_seed [] = some []
quarter_ties by_seed (p ∷ pairs) =
    push_tie (tie_of p (seed by_seed p.high) (seed by_seed p.low)) (quarter_ties by_seed pairs)

abbrev pub later_rounds : List BracketRound
later_rounds =
    record {
      slug = semifinals;
      matches =
          fixture "proj-sf-1" semifinals (tbd "proj-tbd-1") (tbd "proj-tbd-2")
          ∷ fixture "proj-sf-2" semifinals (tbd "proj-tbd-3") (tbd "proj-tbd-4")
          ∷ [];
    }
    ∷ record {
      slug = final;
      matches = fixture "proj-f-1" final (tbd "proj-tbd-5") (tbd "proj-tbd-6") ∷ [];
    }
    ∷ []

abbrev pub rounds_of : Option (List BracketMatch) → Projection
rounds_of none = crashed
rounds_of (some ties) = projected (record { slug = quarterfinals; matches = ties } ∷ later_rounds)

unfoldable pub project_seats : Option (List Standing) → Projection
unfolding quarter_ties
project_seats none = nothing
project_seats (some by_seed) =
    if length by_seed == 8 then rounds_of (quarter_ties by_seed qf_pairs) else nothing

abbrev pub project_table : Option Group → Projection
project_table none = nothing
project_table (some general) = project_seats (seat general.standings [])

unfoldable pub project_liguilla : List Group → Projection
unfolding seat project_seats
project_liguilla groups = project_table (find (λ g. leb 8 (length g.standings)) groups)
