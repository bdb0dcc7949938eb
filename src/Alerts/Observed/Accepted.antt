-- ===== src/Alerts/Observed/Accepted.antt =====
-- The monitor accepts whatever a check answers.
use score_arc.Prelude.{
  ℕ, ◌≤◌, String, Bool, true, false, not, ◌||◌, Option, none, some, List, length, ◌≡◌, refl, arith,
  ltb, ◌==◌, Bool-cases, inl, inr, map,
}
use score_arc.Sources.Freshness.{
  FreshnessStatus, PollStatus, MatchFreshness, Parsed, accepted, rejected, parse_match_freshness,
}
use score_arc.Sources.Freshness.Agreed.{IsBacked, parse_match_freshness-IsAgreed}
use score_arc.Alerts.Observed.{
  ErrorCategory, is_category, valid_result, check_scope, response, Body, Row, Fetched, check_counts,
  check_rows, check_body, failure, success, contradicts, wrong_type, too_large, missing, no_json,
  malformed, rows, aborted, failed, check_headers, is_count, max_matches, is_distinct,
}

failure-valid :
    (count : Option ℕ) (e : ErrorCategory)
    → is_count count ≡ true
    → is_category e ≡ true
    → valid_result (failure count e) ≡ true
unfolding valid_result
failure-valid count e h k = ground arith

-- What the headers have agreed on, as the tests of the monitor read it.
abbrev Holds : MatchFreshness → Type 0
Holds f = (f.overdue_matches ≤ f.stale_matches) × IsBacked f.status f

success-valid :
    (f : MatchFreshness) (matches : ℕ) (unresolved : Bool)
    → Holds f
    → matches ≤ max_matches
    → contradicts f matches unresolved ≡ false
    → valid_result (success f matches) ≡ true
unfolding valid_result
success-valid f matches unresolved h k n = by_status f.status f.poll_status f refl refl h n
  where
    by_status :
        (s : FreshnessStatus) (p : PollStatus) (f : MatchFreshness)
        → f.status ≡ s
        → f.poll_status ≡ p
        → Holds f
        → contradicts f matches unresolved ≡ false
        → valid_result (success f matches) ≡ true
    by_status s p f e d h n = ground arith

counts-valid :
    (f : MatchFreshness) (matches : ℕ) (unresolved : Bool)
    → Holds f
    → matches ≤ max_matches
    → valid_result (check_counts f matches unresolved) ≡ true
counts-valid f matches unresolved h k = elim (Bool-cases (contradicts f matches unresolved)) [
  | inl c ↦ rw c (failure-valid (some matches) ErrorCategory.counts_contract (ground arith) refl)
  | inr c ↦ rw c (success-valid f matches unresolved h k c)
]

rows-valid :
    (f : MatchFreshness) (found : List Row) → Holds f → valid_result (check_rows f found) ≡ true
rows-valid f found h =
    elim (Bool-cases
      (ltb max_matches (length found) || not (is_distinct (map (λ r. r.id) found)))) [
        | inl c ↦ rw c (failure-valid none ErrorCategory.body_contract refl refl)
        | inr c ↦ rw c (counts-valid f (length found) _ h (ground arith))
      ]

body-valid : (f : MatchFreshness) (b : Body) → Holds f → valid_result (check_body f b) ≡ true
body-valid f wrong_type h = failure-valid none _ refl refl
body-valid f too_large h = failure-valid none _ refl refl
body-valid f missing h = failure-valid none _ refl refl
body-valid f no_json h = failure-valid none _ refl refl
body-valid f malformed h = failure-valid none _ refl refl
body-valid f (rows found) h = rows-valid f found h

headers-valid :
    (o : Parsed) (b : Body)
    → ((f : MatchFreshness) → o ≡ accepted f → Holds f)
    → valid_result (check_headers o b) ≡ true
headers-valid (rejected e) b h = failure-valid none _ refl refl
headers-valid (accepted f) b h = body-valid f b (h f refl)

-- A status has three digits.
abbrev pub IsAnswer : Fetched → Type 0
IsAnswer (response status headers b) = status ≤ 999
IsAnswer _ = Unit

-- Whatever a request comes to, a response of any status, headers and body, an error or the end of
-- its time, the monitor accepts what the check says of it: the counts are in bounds, the fields fit
-- together, and the verdict is the one that the monitor reads from the observation.
pub check_scope-valid :
    (date_parses : String → Bool) (fetched : Fetched)
    → IsAnswer fetched
    → valid_result (check_scope date_parses fetched) ≡ true
unfolding check_scope
check_scope-valid date_parses aborted h = failure-valid none _ refl refl
check_scope-valid date_parses failed h = failure-valid none _ refl refl
check_scope-valid date_parses (response status headers b) h = elim (Bool-cases (status == 200)) [
  | inl c ↦ rw c (
      headers-valid (parse_match_freshness date_parses headers) b (λ f e.
        let a = (parse_match_freshness-IsAgreed date_parses headers f).0 e in
        (a.bounded, a.backed)))
  | inr c ↦ rw c (failure-valid none (ErrorCategory.http status) refl (ground arith))
]
