-- ===== src/Model/Samples.antt =====
-- Sample values for the tests.
use Prim.Native.Char.{code}
use score_arc.Prelude.{ℕ, ◌-◌, ◌*◌, ℤ, pos, String, false, Option, none, some}
use score_arc.Prelude.Sort.{Collation, ascending, ascending-IsOrder}
use score_arc.Model.{Team, Match, MatchState, Standing, Scope}

-- A collation by the first letter.
abbrev first_code : String → ℕ
first_code String.[] = 0
first_code (String.◌∷◌ c s) = code c

abbrev pub by_first_letter : Collation
by_first_letter = record {
  compare_text = ascending (λ s. pos (first_code s));
  is_order = ascending-IsOrder (λ s. pos (first_code s));
}

abbrev pub team : String → Team
team id = record { id = id; name = id; abbr = id; crest_url = none }

abbrev pub standing : String → ℕ → ℕ → ℕ → ℤ → ℤ → Standing
standing id rank played wins gd points = record {
  team = team id;
  rank = rank;
  played = played;
  wins = wins;
  draws = 0;
  losses = 0;
  goals_for = 2;
  goals_against = 1;
  goal_difference = gd;
  points = points;
  advanced = false;
}

-- The instant of a kickoff that is written as one letter, in units of ten hours; "" is no instant.
abbrev pub instant_of : String → Option ℤ
instant_of String.[] = none
instant_of (String.◌∷◌ c s) = some (pos ((code c - 96) * 36000000))

abbrev pub cup : Scope
cup = record { competition_id = "cup"; season_id = "2025" }

abbrev pub match_of : String → String → MatchState → String → String → ℕ → ℕ → Match
match_of id kickoff state home away h a = record {
  id = id;
  scope = some cup;
  kickoff = kickoff;
  state = state;
  minute = none;
  status_detail = "FT";
  status_name = "STATUS_FULL_TIME";
  home = team home;
  away = team away;
  home_score = some h;
  away_score = some a;
  winner_id = none;
  note = none;
  shootout = none;
}
