-- ===== src/Sources/Freshness.antt =====
-- How fresh the matches of a response are: src/lib/matchFreshness.ts. Whether `Date.parse` makes an
-- instant of a text is an argument.
pub mod Agreed
use Prim.Native.String
use Prim.Native.Char.{code}
use score_arc.Prelude.{
  ℕ, zero, suc, ◌+◌, ◌-◌, ◌*◌, String, Bool, true, false, not, ◌&&◌, ◌||◌, Option, none, some, ltb,
  leb, ◌==◌, if◌then◌else◌, str_eq,
}
use score_arc.Sources.Dates.{is_digit, Read, read_digits, days_in_month, bind, at_end}

pub data FreshnessStatus : Type 0 where
  fresh empty dormant stale unavailable : FreshnessStatus

pub data PollStatus : Type 0 where
  ok partial failed unknown : PollStatus

pub record MatchFreshness : Type 0 where
  pub status : FreshnessStatus
  pub observed_at : Option String
  pub poll_status : PollStatus
  pub stale_matches : ℕ
  pub overdue_matches : ℕ

-- One character of a pattern, and the text behind it.
abbrev pub read_char : ℕ → String → Option String
read_char k String.[] = none
read_char k (String.◌∷◌ c s) = if code c == k then some s else none

-- `:` and two digits.
abbrev pub read_part : String → Option Read
unfolding read_digits
read_part s = bind (read_char 58 s) (read_digits 2 0)

-- `[+-]\d{2}:\d{2}` behind its sign.
abbrev pub is_offset : Option Read → Bool
is_offset none = false
is_offset (some hours) = elim (read_part hours.rest) [
  | none ↦ false
  | some minutes ↦ at_end minutes.rest
]

-- `(Z|[+-]\d{2}:\d{2})$`.
abbrev pub is_zone : String → Bool
unfolding read_digits
is_zone String.[] = false
is_zone (String.◌∷◌ c s) =
    if code c == 90
    then at_end s
    else ((code c == 43) || (code c == 45)) && is_offset (read_digits 2 0 s)

abbrev pub drop_digits : ℕ → String → String
drop_digits zero s = s
drop_digits (suc n) String.[] = String.[]
drop_digits (suc n) (String.◌∷◌ c s) =
    let rest = drop_digits n s in if is_digit c then rest else String.◌∷◌ c s

-- `(?:\.\d{1,9})?` and the zone.
abbrev pub is_tail : String → Bool
unfolding read_digits
is_tail s = elim (read_char 46 s) [
  | none ↦ is_zone s
  | some digits ↦ elim (read_digits 1 0 digits) [
    | none ↦ false
    | some r ↦ is_zone (drop_digits 8 r.rest)
  ]
]

-- The parts of an instant.
pub record Parts : Type 0 where
  pub year : ℕ
  pub month : ℕ
  pub day : ℕ
  pub hours : ℕ
  pub minutes : ℕ
  pub seconds : ℕ
  pub tail : String

unfoldable pub read_parts : String → Option Parts
unfolding read_digits
read_parts s = bind (read_digits 4 0 s) (λ y. bind (read_char 45 y.rest) (λ s1.
    bind (read_digits 2 0 s1) (λ m. bind (read_char 45 m.rest) (λ s2.
      bind (read_digits 2 0 s2) (λ d. bind (read_char 84 d.rest) (λ s3.
        bind (read_digits 2 0 s3) (λ h. bind (read_part h.rest) (λ i. bind (read_part i.rest) (λ j.
          some (record {
            year = y.value;
            month = m.value;
            day = d.value;
            hours = h.value;
            minutes = i.value;
            seconds = j.value;
            tail = j.rest;
          }))))))))))

-- The round trip of the day through `Date`.
abbrev pub is_day : ℕ → ℕ → ℕ → Bool
is_day year month day =
    leb 1 month && leb month 12 && leb 1 day && leb day (days_in_month year month)

abbrev pub is_instant : Option Parts → Bool
is_instant none = false
is_instant (some p) =
    is_tail p.tail
    && leb p.hours 23
    && leb p.minutes 59
    && leb p.seconds 59
    && is_day p.year p.month p.day

unfoldable pub is_iso_instant : (String → Bool) → String → Bool
is_iso_instant date_parses value = is_instant (read_parts value) && date_parses value

-- `\d*$`.
abbrev pub decimal : ℕ → String → Option ℕ
decimal value String.[] = some value
decimal value (String.◌∷◌ c s) =
    let more = decimal (value * 10 + (code c - 48)) s in if is_digit c then more else none

-- `Number.isSafeInteger`.
abbrev pub safe_integer : ℕ → Option ℕ
safe_integer n = if leb n 9007199254740991 then some n else none

unfoldable pub count : Option String → Option ℕ
count none = none
count (some String.[]) = none
count (some (String.◌∷◌ c s)) =
    if code c == 48
    then if at_end s then some 0 else none
    else if is_digit c
    then bind (decimal (code c - 48) s) safe_integer
    else none

unfoldable pub status_of : Option String → Option FreshnessStatus
status_of none = none
status_of (some s) =
    if str_eq s "fresh"
    then some FreshnessStatus.fresh
    else if str_eq s "empty"
    then some FreshnessStatus.empty
    else if str_eq s "dormant"
    then some FreshnessStatus.dormant
    else if str_eq s "stale"
    then some FreshnessStatus.stale
    else if str_eq s "unavailable"
    then some FreshnessStatus.unavailable
    else none

unfoldable pub poll_of : Option String → Option PollStatus
poll_of none = none
poll_of (some s) =
    if str_eq s "ok"
    then some PollStatus.ok
    else if str_eq s "partial"
    then some PollStatus.partial
    else if str_eq s "failed"
    then some PollStatus.failed
    else if str_eq s "unknown"
    then some PollStatus.unknown
    else none

-- The header may be absent, and is an instant otherwise.
unfoldable pub observed_of : (String → Bool) → Option String → Option (Option String)
observed_of date_parses none = some none
observed_of date_parses (some at) = if is_iso_instant date_parses at then some (some at) else none

pub data FreshnessError : Type 0 where
  invalid_header : String → FreshnessError
  contradictory_counts empty_without_evidence : FreshnessError

pub data Parsed : Type 0 where
  rejected : FreshnessError → Parsed
  accepted : MatchFreshness → Parsed

-- `['fresh', 'empty', 'dormant'].includes(status)`.
abbrev pub is_current : FreshnessStatus → Bool
is_current FreshnessStatus.fresh = true
is_current FreshnessStatus.empty = true
is_current FreshnessStatus.dormant = true
is_current _ = false

abbrev pub is_empty : FreshnessStatus → Bool
is_empty FreshnessStatus.empty = true
is_empty _ = false

abbrev pub is_ok : PollStatus → Bool
is_ok PollStatus.ok = true
is_ok _ = false

abbrev pub is_absent : Option String → Bool
is_absent none = true
is_absent (some at) = false

abbrev pub checked_freshness : MatchFreshness → Parsed
checked_freshness f =
    if ltb f.stale_matches f.overdue_matches || (is_current f.status && not (f.stale_matches == 0))
    then rejected FreshnessError.contradictory_counts
    else if is_empty f.status && (not (is_ok f.poll_status) || is_absent f.observed_at)
    then rejected FreshnessError.empty_without_evidence
    else accepted f

abbrev pub or_invalid {ℓ} : {A : Type ℓ} → String → Option A → (A → Parsed) → Parsed
or_invalid name none next = rejected (invalid_header name)
or_invalid name (some a) next = next a

unfoldable pub parse_match_freshness : (String → Bool) → (String → Option String) → Parsed
parse_match_freshness date_parses headers =
    or_invalid "X-ScoreArc-Freshness" (status_of (headers "X-ScoreArc-Freshness")) (λ status.
      or_invalid "X-ScoreArc-Poll-Status" (poll_of (headers "X-ScoreArc-Poll-Status")) (λ poll.
        or_invalid "X-ScoreArc-Observed-At"
          (observed_of date_parses (headers "X-ScoreArc-Observed-At"))
          (λ at.
            or_invalid "X-ScoreArc-Stale-Matches" (count (headers "X-ScoreArc-Stale-Matches"))
              (λ behind.
                or_invalid "X-ScoreArc-Overdue-Matches"
                  (count (headers "X-ScoreArc-Overdue-Matches"))
                  (λ late. checked_freshness (record {
                    status = status;
                    observed_at = at;
                    poll_status = poll;
                    stale_matches = behind;
                    overdue_matches = late;
                  }))))))
