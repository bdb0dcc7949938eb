-- ===== src/Matches/Performance.antt =====
-- A team's recent record: src/server/data/teamPerformance.ts. `instant` is `Date.parse` on the texts
-- that `isMatchKickoff` accepts and `none` on the others. A quotient of goals by matches is kept as
-- its two numbers.
pub mod Scan
pub mod Unique
pub mod Record
use score_arc.Prelude.{
  ℕ, ◌+◌, ℤ, pos, ◌-ℤ◌, String, Bool, true, false, not, ◌&&◌, ◌||◌, Option, none, some, List, [],
  ◌∷◌, ◌++◌, ltb, leb, ◌==◌, if◌then◌else◌, str_eq, has, length, filter, find, take, drop,
}
use score_arc.Prelude.Sort.{Comparator, Collation, ◌or_else◌, sort}
use score_arc.Model.{Match, MatchState, Scope, Team, finished_b}

pub data TeamResult : Type 0 where
  win draw loss : TeamResult

pub record PerformanceMatch : Type 0 where
  pub of_match : Match
  pub result : TeamResult
  pub goals_for : ℕ
  pub goals_against : ℕ

pub record Quotient : Type 0 where
  pub goals : ℕ
  pub matches : ℕ

pub record PerformancePeriod : Type 0 where
  pub matches : List PerformanceMatch
  pub sample : ℕ
  pub wins : ℕ
  pub draws : ℕ
  pub losses : ℕ
  pub goals_for : ℕ
  pub goals_against : ℕ
  pub clean_sheets : ℕ
  pub goals_for_per_match : Option Quotient
  pub goals_against_per_match : Option Quotient

abbrev pub played_b : String → Bool
played_b status =
    str_eq status "STATUS_FULL_TIME"
    || str_eq status "STATUS_FINAL_AET"
    || str_eq status "STATUS_FINAL_PEN"

-- `Number.isSafeInteger`.
abbrev pub known_score : ℕ → Bool
known_score score = leb score 9007199254740991

abbrev pub in_scope : Option Scope → Scope → Bool
in_scope none scope = false
in_scope (some s) scope =
    str_eq s.competition_id scope.competition_id && str_eq s.season_id scope.season_id

abbrev pub result_of : ℕ → ℕ → TeamResult
result_of goals_for goals_against =
    if goals_for == goals_against then draw else if ltb goals_against goals_for then win else loss

abbrev pub perform : Match → Bool → ℕ → ℕ → PerformanceMatch
perform m home h a = record {
  of_match = m;
  result = if home then result_of h a else result_of a h;
  goals_for = if home then h else a;
  goals_against = if home then a else h;
}

abbrev pub scored : Match → String → Option ℕ → Option ℕ → Option PerformanceMatch
scored m team_id (some h) (some a) =
    if known_score h && known_score a then some (perform m (str_eq m.home.id team_id) h a) else none
scored m team_id _ _ = none

abbrev pub is_some : Option ℤ → Bool
is_some none = false
is_some (some x) = true

-- The tests of a match but those of its scores.
abbrev pub countable : (String → Option ℤ) → Match → String → Scope → Bool
countable instant m team_id scope =
    not (str_eq m.id "")
    && is_some (instant m.kickoff)
    && finished_b m.state
    && played_b m.status_name
    && in_scope m.scope scope
    && not (str_eq m.home.id m.away.id)
    && (str_eq m.home.id team_id || str_eq m.away.id team_id)

unfoldable pub performance_match :
    (String → Option ℤ) → Match → String → Scope → Option PerformanceMatch
performance_match instant m team_id scope =
    if countable instant m team_id scope then scored m team_id m.home_score m.away_score else none

abbrev pub same_score : Option ℕ → Option ℕ → Bool
same_score none none = true
same_score (some a) (some b) = a == b
same_score _ _ = false

abbrev pub same_scope : Option Scope → Option Scope → Bool
same_scope none none = true
same_scope (some s) (some t) =
    str_eq s.competition_id t.competition_id && str_eq s.season_id t.season_id
same_scope _ _ = false

abbrev pub same_state : MatchState → MatchState → Bool
same_state MatchState.scheduled MatchState.scheduled = true
same_state MatchState.live MatchState.live = true
same_state MatchState.finished MatchState.finished = true
same_state _ _ = false

-- The counting facts have one JSON text.
unfoldable pub same_facts : Match → Match → Bool
same_facts x y =
    str_eq x.kickoff y.kickoff
    && str_eq x.home.id y.home.id
    && str_eq x.away.id y.away.id
    && same_state x.state y.state
    && str_eq x.status_name y.status_name
    && same_score x.home_score y.home_score
    && same_score x.away_score y.away_score
    && same_scope x.scope y.scope

-- `byId` in order of insertion, and `conflicts`.
pub record Seen : Type 0 where
  pub by_id : List Match
  pub conflicts : List String

abbrev pub with_id : String → List Match → Option Match
with_id id ms = find (λ x. str_eq x.id id) ms

abbrev pub visit : Match → Option Match → Seen → Seen
visit m none seen = record seen { by_id = seen.by_id ++ (m ∷ []) }
visit m (some existing) seen =
    if same_facts existing m then seen else record seen { conflicts = m.id ∷ seen.conflicts }

unfoldable pub scan : List Match → Seen → Seen
unfolding same_facts
scan [] seen = seen
scan (m ∷ ms) seen = scan ms (visit m (with_id m.id seen.by_id) seen)

abbrev pub none_seen : Seen
none_seen = record { by_id = []; conflicts = [] }

module _ (instant : String → Option ℤ) (id_order : Collation) where
  abbrev pub time : Option ℤ → ℤ
  time none = pos 0
  time (some t) = t

  unfoldable pub newest_first : Comparator Match
  newest_first a b =
      (time (instant b.kickoff) -ℤ time (instant a.kickoff)) or_else id_order.compare_text a.id b.id

  abbrev pub is_kept : Seen → Match → Bool
  is_kept seen m = not (has m.id seen.conflicts) && is_some (instant m.kickoff)

  unfoldable pub unique_team_matches : List Match → List Match
  unfolding scan newest_first
  unique_team_matches matches =
      let seen = scan matches none_seen in sort newest_first (filter (is_kept seen) seen.by_id)

abbrev pub push_some : Option PerformanceMatch → List PerformanceMatch → List PerformanceMatch
push_some none rest = rest
push_some (some p) rest = p ∷ rest

unfoldable pub eligible_team_matches :
    (String → Option ℤ) → List Match → String → Scope → List PerformanceMatch
unfolding performance_match
eligible_team_matches instant [] team_id scope = []
eligible_team_matches instant (m ∷ ms) team_id scope =
    push_some (performance_match instant m team_id scope)
      (eligible_team_matches instant ms team_id scope)

abbrev pub total : (PerformanceMatch → ℕ) → List PerformanceMatch → ℕ
total f [] = 0
total f (m ∷ ms) = f m + total f ms

abbrev pub is_result : TeamResult → TeamResult → Bool
is_result win win = true
is_result draw draw = true
is_result loss loss = true
is_result _ _ = false

abbrev pub per_match : ℕ → ℕ → Option Quotient
per_match goals sample =
    if sample == 0 then none else some (record { goals = goals; matches = sample })

abbrev pub count_of : TeamResult → List PerformanceMatch → ℕ
count_of r ms = length (filter (λ m. is_result m.result r) ms)

unfoldable pub period : List PerformanceMatch → PerformancePeriod
period ms = record {
  matches = ms;
  sample = length ms;
  wins = count_of win ms;
  draws = count_of draw ms;
  losses = count_of loss ms;
  goals_for = total (λ m. m.goals_for) ms;
  goals_against = total (λ m. m.goals_against) ms;
  clean_sheets = length (filter (λ m. m.goals_against == 0) ms);
  goals_for_per_match = per_match (total (λ m. m.goals_for) ms) (length ms);
  goals_against_per_match = per_match (total (λ m. m.goals_against) ms) (length ms);
}

-- The change of the goals in a match is `goals` divided by 5.
pub record Change : Type 0 where
  pub wins : ℤ
  pub draws : ℤ
  pub losses : ℤ
  pub goals_for : ℤ
  pub goals_against : ℤ
  pub clean_sheets : ℤ

pub record TeamPerformance : Type 0 where
  pub recent : PerformancePeriod
  pub previous : Option PerformancePeriod
  pub eligible_count : ℕ
  pub change : Option Change

abbrev pub change_of : PerformancePeriod → Option PerformancePeriod → Option Change
change_of recent none = none
change_of recent (some previous) = some (record {
  wins = pos recent.wins -ℤ pos previous.wins;
  draws = pos recent.draws -ℤ pos previous.draws;
  losses = pos recent.losses -ℤ pos previous.losses;
  goals_for = pos recent.goals_for -ℤ pos previous.goals_for;
  goals_against = pos recent.goals_against -ℤ pos previous.goals_against;
  clean_sheets = pos recent.clean_sheets -ℤ pos previous.clean_sheets;
})

unfoldable pub performance_of : List PerformanceMatch → TeamPerformance
unfolding period
performance_of eligible =
    let recent = period (take 5 eligible) in
    let previous =
      if leb 10 (length eligible) then some (period (take 5 (drop 5 eligible))) else none in
    record {
      recent = recent;
      previous = previous;
      eligible_count = length eligible;
      change = change_of recent previous;
    }

unfoldable pub team_performance :
    (String → Option ℤ) → Collation → List Match → String → Scope → TeamPerformance
unfolding unique_team_matches eligible_team_matches performance_of
team_performance instant id_order matches team_id scope =
    performance_of
      (eligible_team_matches instant (unique_team_matches instant id_order matches) team_id scope)
