-- ===== src/Matches/Priority.antt =====
-- What a page leads with: src/server/data/matchPriority.ts, `chooseWhatsOn` of src/lib/digest.ts
-- and `wheelOrder` and `initialIndex` of src/components/matchWheelModel.ts. `instant` is
-- `new Date(kickoff).getTime()`, with `none` for NaN.
pub mod Order
pub mod Lead
use score_arc.Prelude.{
  ℕ, zero, suc, ◌+◌, ◌-◌, ◌*◌, ℤ, pos, negsuc, ◌+ℤ◌, ◌-ℤ◌, ltb_ℤ, leb_ℤ, String, Bool, true, false,
  not, ◌&&◌, ◌||◌, Option, none, some, List, [], ◌∷◌, if◌then◌else◌, ltb, leb, ◌==◌, filter, map,
  length,
}
use score_arc.Prelude.Sort.{Comparator, sort}
use score_arc.Model.{Match, MatchState, scheduled_b, live_b, finished_b}

-- 48 and 3 hours.
abbrev pub recent_window_ms : ℕ
recent_window_ms = 48 * 60 * 60 * 1000

abbrev pub kickoff_grace_ms : ℕ
kickoff_grace_ms = 3 * 60 * 60 * 1000

pub record Windows : Type 0 where
  pub recent_ms : ℕ
  pub grace_ms : ℕ

abbrev pub default_windows : Windows
default_windows = record { recent_ms = recent_window_ms; grace_ms = kickoff_grace_ms }

pub data Bucket : Type 0 where
  live upcoming recent skipped : Bucket

pub record Buckets (T : Type 0) : Type 0 where
  pub live : List T
  pub upcoming : List T
  pub recent : List T

-- Where the loop puts an item.
unfoldable pub bucket_of : Windows → ℤ → MatchState → Option ℤ → Bucket
bucket_of w now MatchState.live at = Bucket.live
bucket_of w now MatchState.scheduled none = skipped
bucket_of w now MatchState.scheduled (some kickoff) =
    if leb_ℤ (now -ℤ pos w.grace_ms) kickoff then upcoming else skipped
bucket_of w now MatchState.finished none = skipped
bucket_of w now MatchState.finished (some kickoff) =
    if leb_ℤ kickoff now && leb_ℤ (now -ℤ kickoff) (pos w.recent_ms) then recent else skipped

-- `asc` on instants: `sort` reads a NaN as 0.
abbrev pub gap : Option ℤ → Option ℤ → ℤ
gap (some a) (some b) = a -ℤ b
gap _ _ = pos 0

module _ {T : Type 0} (instant : String → Option ℤ) (get_match : T → Match) where
  abbrev pub at : T → Option ℤ
  at item = instant (get_match item).kickoff

  unfoldable pub asc : Comparator T
  asc a b = gap (at a) (at b)

  unfoldable pub desc : Comparator T
  unfolding asc
  desc a b = pos 0 -ℤ asc a b

  abbrev pub push : Bucket → T → Buckets T → Buckets T
  push Bucket.live item b = record b { live = item ∷ b.live }
  push upcoming item b = record b { upcoming = item ∷ b.upcoming }
  push recent item b = record b { recent = item ∷ b.recent }
  push skipped item b = b

  unfoldable pub collect : Windows → ℤ → List T → Buckets T
  unfolding bucket_of
  collect w now [] = record { live = []; upcoming = []; recent = [] }
  collect w now (item ∷ items) =
      push (bucket_of w now (get_match item).state (at item)) item (collect w now items)

  unfoldable pub prioritise_by : List T → ℤ → Windows → Buckets T
  unfolding collect asc desc
  prioritise_by items now w =
      let b = collect w now items in
      record { live = sort asc b.live; upcoming = sort asc b.upcoming; recent = sort desc b.recent }

unfoldable pub match_priority : (String → Option ℤ) → List Match → ℤ → Windows → Buckets Match
unfolding prioritise_by
match_priority instant matches now w = prioritise_by instant (λ m. m) matches now w

abbrev pub upcoming_horizon_ms : ℕ
upcoming_horizon_ms = 24 * 60 * 60 * 1000

pub data WhatsOnMode : Type 0 where
  live upcoming recent none_on : WhatsOnMode

pub record WhatsOn (T : Type 0) : Type 0 where
  pub mode : WhatsOnMode
  pub pool : List T

module _ {T : Type 0} where
  abbrev pub non_empty : List T → Bool
  non_empty [] = false
  non_empty (x ∷ xs) = true

  unfoldable pub choose_whats_on : Buckets T → (T → ℤ) → WhatsOn T
  choose_whats_on b ms_until =
      let imminent = filter (λ item. leb_ℤ (ms_until item) (pos upcoming_horizon_ms)) b.upcoming in
      if non_empty b.live
      then record { mode = WhatsOnMode.live; pool = b.live }
      else if non_empty imminent
      then record { mode = WhatsOnMode.upcoming; pool = imminent }
      else if non_empty b.recent
      then record { mode = WhatsOnMode.recent; pool = b.recent }
      else if non_empty b.upcoming
      then record { mode = WhatsOnMode.upcoming; pool = b.upcoming }
      else record { mode = none_on; pool = [] }

unfoldable pub wheel_order : (String → Option ℤ) → List Match → List Match
unfolding asc
wheel_order instant matches = sort (asc instant (λ m. m)) matches

abbrev pub next_index : Option ℕ → Option ℕ
next_index none = none
next_index (some i) = some (suc i)

abbrev pub find_index : (Match → Bool) → List Match → Option ℕ
find_index p [] = none
find_index p (m ∷ matches) = if p m then some 0 else next_index (find_index p matches)

abbrev pub later_index : Bool → Option ℕ → Option ℕ
later_index here (some i) = some (suc i)
later_index here none = if here then some 0 else none

-- `lastIndexOf`.
abbrev pub find_last_index : (Match → Bool) → List Match → Option ℕ
find_last_index p [] = none
find_last_index p (m ∷ matches) = later_index (p m) (find_last_index p matches)

abbrev pub or_index : Option ℕ → ℕ → ℕ
or_index (some i) other = i
or_index none other = other

unfoldable pub initial_index : List Match → ℕ
initial_index ordered = or_index (find_index (λ m. live_b m.state) ordered) (
    or_index (find_index (λ m. scheduled_b m.state) ordered)
      (or_index (find_last_index (λ m. finished_b m.state) ordered) 0))
