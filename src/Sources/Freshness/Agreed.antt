-- ===== src/Sources/Freshness/Agreed.antt =====
-- What an accepted freshness says.
use score_arc.Prelude.{
  ◌≤◌, String, Bool, true, false, Option, none, some, ◌≡◌, refl, subst, ◌↔◌, arith,
}
use score_arc.Sources.Freshness.{
  FreshnessStatus, PollStatus, MatchFreshness, Parsed, accepted, status_of, poll_of, observed_of,
  count, checked_freshness, or_invalid, parse_match_freshness, is_absent, is_ok,
}

-- What each status rests on: a current answer has no stale match, and an empty one a successful
-- poll with its instant.
abbrev pub IsBacked : FreshnessStatus → MatchFreshness → Type 0
IsBacked FreshnessStatus.fresh f = f.stale_matches ≡ 0
IsBacked FreshnessStatus.dormant f = f.stale_matches ≡ 0
IsBacked FreshnessStatus.empty f =
    (f.stale_matches ≡ 0) × (f.poll_status ≡ PollStatus.ok) × (is_absent f.observed_at ≡ false)
IsBacked _ f = Unit

pub record IsAgreed (date_parses : String → Bool) (headers : String → Option String)
    (f : MatchFreshness) : Type 0 where
  pub status : status_of (headers "X-ScoreArc-Freshness") ≡ some f.status
  pub poll : poll_of (headers "X-ScoreArc-Poll-Status") ≡ some f.poll_status
  pub observed : observed_of date_parses (headers "X-ScoreArc-Observed-At") ≡ some f.observed_at
  pub behind : count (headers "X-ScoreArc-Stale-Matches") ≡ some f.stale_matches
  pub late : count (headers "X-ScoreArc-Overdue-Matches") ≡ some f.overdue_matches
  pub bounded : f.overdue_matches ≤ f.stale_matches
  pub backed : IsBacked f.status f

or_invalid-accepted :
    {A : Type 0} (name : String) (o : Option A) (next : A → Parsed) {f : MatchFreshness}
    → or_invalid name o next ≡ accepted f
    → (a : A) × (o ≡ some a) × (next a ≡ accepted f)
or_invalid-accepted name none next e = cc
or_invalid-accepted name (some a) next e = (a, refl, e)

accepted_inj : {g f : MatchFreshness} → accepted g ≡ accepted f → g ≡ f
accepted_inj e = cc

is_ok→eq : (p : PollStatus) → is_ok p ≡ true → p ≡ PollStatus.ok
is_ok→eq p h = ground arith

accepted-IsBacked :
    (s : FreshnessStatus) (f : MatchFreshness) {g : MatchFreshness}
    → f.status ≡ s
    → checked_freshness f ≡ accepted g
    → (f.overdue_matches ≤ f.stale_matches) × IsBacked s f × (f ≡ g)
accepted-IsBacked s f h e = ground (arith, is_ok→eq f.poll_status)

checked_freshness-accepted :
    (s : FreshnessStatus) (f : MatchFreshness)
    → f.status ≡ s
    → f.overdue_matches ≤ f.stale_matches
    → IsBacked s f
    → checked_freshness f ≡ accepted f
checked_freshness-accepted s f h b k = ground arith

accepted-IsAgreed :
    (date_parses : String → Bool) (headers : String → Option String) (f : MatchFreshness)
    → parse_match_freshness date_parses headers ≡ accepted f
    → IsAgreed date_parses headers f
unfolding parse_match_freshness
accepted-IsAgreed date_parses headers f e =
    let s = or_invalid-accepted _ _ _ e in
    let p = or_invalid-accepted _ _ _ s.2 in
    let o = or_invalid-accepted _ _ _ p.2 in
    let b = or_invalid-accepted _ _ _ o.2 in
    let l = or_invalid-accepted _ _ _ b.2 in
    let g : MatchFreshness = record {
      status = s.0;
      observed_at = o.0;
      poll_status = p.0;
      stale_matches = b.0;
      overdue_matches = l.0;
    } in
    let k = accepted-IsBacked s.0 g refl l.2 in
    subst (λ f. IsAgreed date_parses headers f) k.2
      (record {
        status = s.1;
        poll = p.1;
        observed = o.1;
        behind = b.1;
        late = l.1;
        bounded = k.0;
        backed = k.1;
      })

-- The headers of a response are accepted as a freshness exactly when they spell its fields, no more
-- matches are overdue than stale, a fresh, empty or dormant answer has no stale match, and an empty
-- one comes from a successful poll whose instant is given.
pub parse_match_freshness-IsAgreed :
    (date_parses : String → Bool) (headers : String → Option String) (f : MatchFreshness)
    → (parse_match_freshness date_parses headers ≡ accepted f) ↔ IsAgreed date_parses headers f
unfolding parse_match_freshness
parse_match_freshness-IsAgreed date_parses headers f = (
  accepted-IsAgreed date_parses headers f,
  λ a.
      rw (a.status, a.poll, a.observed, a.behind, a.late)
        (checked_freshness-accepted f.status f refl a.bounded a.backed),
)
