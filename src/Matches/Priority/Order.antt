-- ===== src/Matches/Priority/Order.antt =====
-- The buckets hold each item once, inside their windows and in order of kickoff.
use mathlib.Core.List.{Perm}
use score_arc.Prelude.{
  ℤ, pos, ◌-ℤ◌, ◌≤ℤ◌, String, Bool, true, false, Option, none, some, List, ◌≡◌, filter, All,
}
use score_arc.Prelude.Sort.{IsSorted, ascending, descending}
use score_arc.Model.{Match, MatchState}
use score_arc.Matches.Priority.{
  Windows, Bucket, upcoming, recent, skipped, Buckets, bucket_of, at, collect, prioritise_by,
}

abbrev pub is_bucket : Bucket → Bucket → Bool
is_bucket Bucket.live Bucket.live = true
is_bucket upcoming upcoming = true
is_bucket recent recent = true
is_bucket skipped skipped = true
is_bucket _ _ = false

-- The instant of a kickoff that is known.
abbrev pub time_of : Option ℤ → ℤ
time_of none = pos 0
time_of (some t) = t

module _ {T : Type 0} (instant : String → Option ℤ) (get_match : T → Match) (w : Windows)
    (now : ℤ) where
  abbrev pub goes_to : Bucket → T → Bool
  goes_to b item = is_bucket (bucket_of w now (get_match item).state (at instant get_match item)) b

  abbrev time : T → ℤ
  time item = time_of (at instant get_match item)

  -- A scheduled match that kicks off at most the grace period ago.
  abbrev pub IsUpcoming : T → Type 0
  IsUpcoming item =
      ((get_match item).state ≡ MatchState.scheduled)
      × (at instant get_match item ≡ some (time_of (at instant get_match item)))
      × ((now -ℤ pos w.grace_ms) ≤ℤ time_of (at instant get_match item))

  -- A finished match that kicked off in the recent window, and not in the future.
  abbrev pub IsRecent : T → Type 0
  IsRecent item =
      ((get_match item).state ≡ MatchState.finished)
      × (at instant get_match item ≡ some (time_of (at instant get_match item)))
      × (time_of (at instant get_match item) ≤ℤ now)
      × ((now -ℤ time_of (at instant get_match item)) ≤ℤ pos w.recent_ms)

  abbrev gathered : List T → Buckets T
  gathered items = collect instant get_match w now items

  abbrev result : List T → Buckets T
  result items = prioritise_by instant get_match items now w

  -- What the page shows next: scheduled, within the grace, nearest kickoff first.
  pub record IsPrioritised (items : List T) (b : Buckets T) : Type 0 where
    pub live_once : Perm b.live (filter (goes_to Bucket.live) items)
    pub upcoming_once : Perm b.upcoming (filter (goes_to upcoming) items)
    pub recent_once : Perm b.recent (filter (goes_to recent) items)
    pub upcoming_fits : All IsUpcoming b.upcoming
    pub recent_fits : All IsRecent b.recent
    pub upcoming_order : IsSorted (ascending (λ i. time_of (at instant get_match i))) b.upcoming
    pub recent_order : IsSorted (descending (λ i. time_of (at instant get_match i))) b.recent
