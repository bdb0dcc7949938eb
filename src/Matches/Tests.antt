-- ===== src/Matches/Tests.antt =====
-- Tests of the matches, and the theorems at sample inputs.
use score_arc.Prelude.{String, none, pos, ℤ, ◌-ℤ◌, List, [], ◌∷◌, map, ◌≡◌, ◌≢◌, refl}
use score_arc.Prelude.Sort.{sort}
use score_arc.Model.{Match, MatchState}
use score_arc.Model.Samples.{by_first_letter, instant_of, cup, match_of}
use score_arc.Matches.Stories.{NewsArticle, first_articles, compare_articles, collect_stories}
use score_arc.Matches.Priority.{
  Buckets, default_windows, bucket_of, collect, asc, desc, prioritise_by, choose_whats_on,
  initial_index,
}
use score_arc.Matches.Performance.{
  same_facts, scan, newest_first, unique_team_matches, performance_match, eligible_team_matches,
  period, performance_of, team_performance,
}
use score_arc.Matches.Performance.Unique.{IsUnique, unique_team_matches-IsUnique}
use score_arc.Matches.Performance.Record.{IsRecord, team_performance-IsRecord}

abbrev day : List Match
day =
    match_of "old" "c" MatchState.finished "A" "B" 2 1
    ∷ match_of "on" "d" MatchState.live "C" "D" 0 0
    ∷ match_of "next" "f" MatchState.scheduled "E" "F" 0 0
    ∷ match_of "later" "z" MatchState.scheduled "G" "H" 0 0
    ∷ match_of "older" "b" MatchState.finished "I" "J" 0 3
    ∷ []

-- At "d".
abbrev now : ℤ
now = pos 144000000

abbrev buckets : Buckets Match
buckets = prioritise_by instant_of (λ m. m) day now default_windows

priority : Unit {0}
unfolding bucket_of collect asc desc prioritise_by choose_whats_on initial_index sort ◌-ℤ◌
priority = tt

recent_order : map (λ m. m.id) buckets.recent ≡ "old" ∷ "older" ∷ []
unfolding priority
recent_order = refl

upcoming_order : map (λ m. m.id) buckets.upcoming ≡ "next" ∷ "later" ∷ []
unfolding priority
upcoming_order = refl

day_ne : day ≢ []
day_ne e = cc

-- "A" plays twice; the listings of "odd" disagree.
abbrev results : List Match
results =
    match_of "m1" "a" MatchState.finished "A" "B" 2 1
    ∷ match_of "odd" "b" MatchState.finished "A" "B" 0 0
    ∷ match_of "odd" "b" MatchState.finished "A" "B" 4 0
    ∷ match_of "m2" "c" MatchState.finished "C" "A" 1 1
    ∷ match_of "m1" "a" MatchState.finished "A" "B" 2 1
    ∷ []

performance : Unit {0}
unfolding same_facts scan newest_first unique_team_matches performance_match eligible_team_matches
    period performance_of team_performance sort ◌-ℤ◌
performance = tt

unique_order :
    map (λ m. m.id) (unique_team_matches instant_of by_first_letter results) ≡ "m2" ∷ "m1" ∷ []
unfolding performance
unique_order = refl

one_win : (team_performance instant_of by_first_letter results "A" cup).recent.wins ≡ 1
unfolding performance
one_win = refl

unique_team_matches-IsUnique_example :
    IsUnique instant_of by_first_letter results
      (unique_team_matches instant_of by_first_letter results)
unique_team_matches-IsUnique_example =
    unique_team_matches-IsUnique instant_of by_first_letter results

team_performance-IsRecord_example :
    IsRecord
      (eligible_team_matches instant_of
        (unique_team_matches instant_of by_first_letter results)
        "A"
        cup)
      (team_performance instant_of by_first_letter results "A" cup)
team_performance-IsRecord_example =
    team_performance-IsRecord instant_of by_first_letter results "A" cup

abbrev article : String → String → NewsArticle
article id published = record {
  id = id;
  headline = id;
  description = "";
  published = published;
  image = none;
  url = "";
  byline = "";
}

-- Two feeds that share an article.
abbrev feeds : List (List NewsArticle)
feeds =
    (article "x" "c" ∷ article "y" "" ∷ article "late" "z" ∷ [])
    ∷ (article "w" "d" ∷ article "x" "c" ∷ [])
    ∷ []

stories : Unit {0}
unfolding first_articles compare_articles collect_stories sort ◌-ℤ◌
stories = tt

story_order :
    map (λ a. a.id) (collect_stories instant_of by_first_letter feeds 2 5) ≡ "w" ∷ "x" ∷ "y" ∷ []
unfolding stories
story_order = refl
