-- ===== src/Matches/Performance/Scan.antt =====
-- The loop over the listings of matches: what it keeps by id, and which ids it finds in conflict.
use text.Mathlib.TextEquality.{eq_iff}
use score_arc.Prelude.{
  some_ne, true_ne, ℕ, String, Bool, true, false, Option, none, some, List, [], ◌∷◌, ◌++◌, ◌≡◌, ◌≢◌,
  refl, sym, ◌∙◌, arith, str_eq, str_eq_self, Bool-cases, inl, inr, has, find, All, All-append,
  IsDistinct,
}
use score_arc.Model.{Match, MatchState, Scope}
use score_arc.Matches.Performance.{
  same_score, same_scope, same_state, same_facts, Seen, with_id, visit, scan,
}

same_score_refl : (o : Option ℕ) → same_score o o ≡ true
same_score_refl none = refl
same_score_refl (some a) = ground arith

same_scope_refl : (o : Option Scope) → same_scope o o ≡ true
same_scope_refl none = refl
same_scope_refl (some s) = rw (str_eq_self s.competition_id, str_eq_self s.season_id) refl

same_state_refl : (s : MatchState) → same_state s s ≡ true
same_state_refl MatchState.scheduled = refl
same_state_refl MatchState.live = refl
same_state_refl MatchState.finished = refl

same_facts_refl : (m : Match) → same_facts m m ≡ true
unfolding same_facts
same_facts_refl m =
    rw
      (
        str_eq_self m.kickoff,
        str_eq_self m.home.id,
        str_eq_self m.away.id,
        same_state_refl m.state,
        str_eq_self m.status_name,
        same_score_refl m.home_score,
        same_score_refl m.away_score,
        same_scope_refl m.scope,
      )
      refl

find-append :
    (p : Match → Bool) (xs ys : List Match) {e : Match}
    → find p xs ≡ some e
    → find p (xs ++ ys) ≡ some e
find-append p [] ys e = cc
find-append p (x ∷ xs) ys e = elim (Bool-cases (p x)) [
  | inl t ↦ rw t (rw t at e)
  | inr t ↦ rw t (find-append p xs ys (rw t at e))
]

find-append_none :
    (p : Match → Bool) (xs : List Match) (m : Match)
    → find p xs ≡ none
    → p m ≡ true
    → find p (xs ++ (m ∷ [])) ≡ some m
find-append_none p [] m e t = rw t refl
find-append_none p (x ∷ xs) m e t = elim (Bool-cases (p x)) [
  | inl s ↦ absurd (some_ne (rw s at e))
  | inr s ↦ rw s (find-append_none p xs m (rw s at e) t)
]

-- What is found by an id stays found.
visit-keeps :
    (id : String) (m : Match) (o : Option Match) (seen : Seen) {e : Match}
    → with_id id seen.by_id ≡ some e
    → with_id id (visit m o seen).by_id ≡ some e
visit-keeps id m none seen e = find-append _ seen.by_id (m ∷ []) e
visit-keeps id m (some x) seen e = elim (Bool-cases (same_facts x m)) [
  | inl t ↦ rw t e
  | inr t ↦ rw t e
]

scan-keeps :
    (id : String) (ms : List Match) (seen : Seen) {e : Match}
    → with_id id seen.by_id ≡ some e
    → with_id id (scan ms seen).by_id ≡ some e
unfolding scan
scan-keeps id [] seen e = e
scan-keeps id (m ∷ ms) seen e =
    scan-keeps id ms (visit m (with_id m.id seen.by_id) seen)
      (visit-keeps id m (with_id m.id seen.by_id) seen e)

visit-conflict :
    (id : String) (m : Match) (o : Option Match) (seen : Seen)
    → has id seen.conflicts ≡ true
    → has id (visit m o seen).conflicts ≡ true
visit-conflict id m none seen h = h
visit-conflict id m (some x) seen h = elim (Bool-cases (same_facts x m)) [
  | inl t ↦ rw t h
  | inr t ↦ rw t (ground (arith, h))
]

scan-conflict :
    (id : String) (ms : List Match) (seen : Seen)
    → has id seen.conflicts ≡ true
    → has id (scan ms seen).conflicts ≡ true
unfolding scan
scan-conflict id [] seen h = h
scan-conflict id (m ∷ ms) seen h =
    scan-conflict id ms (visit m (with_id m.id seen.by_id) seen)
      (visit-conflict id m (with_id m.id seen.by_id) seen h)

-- A scanned match is kept under its id, and unless the id is in conflict it has the kept facts.
abbrev pub Agrees : Seen → Match → Type 0
Agrees seen m =
    (e : Match) × (with_id m.id seen.by_id ≡ some e)
    × (has m.id seen.conflicts ≡ false → same_facts e m ≡ true)

visit-Agrees :
    (m : Match) (ms : List Match) (o : Option Match) (seen : Seen)
    → with_id m.id seen.by_id ≡ o
    → Agrees (scan ms (visit m o seen)) m
visit-Agrees m ms none seen e = (
  m,
  scan-keeps m.id ms (visit m none seen) (find-append_none _ seen.by_id m e (str_eq_self m.id)),
  λ h. same_facts_refl m,
)
visit-Agrees m ms (some x) seen e = (
  x,
  scan-keeps m.id ms (visit m (some x) seen) (visit-keeps m.id m (some x) seen e),
  λ h. elim (Bool-cases (same_facts x m)) [
    | inl t ↦ t
    | inr t ↦ absurd (
        true_ne
          (sym (scan-conflict m.id ms (visit m (some x) seen) (rw (t, str_eq_self m.id) refl)) ∙ h))
  ],
)

pub scan-Agrees : (ms : List Match) (seen : Seen) → All (Agrees (scan ms seen)) ms
unfolding scan
scan-Agrees [] seen = tt
scan-Agrees (m ∷ ms) seen = (
  visit-Agrees m ms (with_id m.id seen.by_id) seen refl,
  scan-Agrees ms (visit m (with_id m.id seen.by_id) seen),
)

with_id-none : (id : String) (xs : List Match) → with_id id xs ≡ none → All (λ x. x.id ≢ id) xs
with_id-none id [] e = tt
with_id-none id (x ∷ xs) e = elim (Bool-cases (str_eq x.id id)) [
  | inl t ↦ absurd (some_ne (rw t at e))
  | inr t ↦ (ground (arith, eq_iff x.id id), with_id-none id xs (rw t at e))
]

IsDistinct-append :
    (m : Match) (xs : List Match)
    → All (λ x. x.id ≢ m.id) xs
    → IsDistinct (λ x. x.id) xs
    → IsDistinct (λ x. x.id) (xs ++ (m ∷ []))
IsDistinct-append m [] h d = (tt, tt)
IsDistinct-append m (x ∷ xs) h d =
    (All-append (λ y. x.id ≢ y.id) xs (m ∷ []) d.0 (h.0, tt), IsDistinct-append m xs h.1 d.1)

visit-IsDistinct :
    (m : Match) (o : Option Match) (seen : Seen)
    → with_id m.id seen.by_id ≡ o
    → IsDistinct (λ x. x.id) seen.by_id
    → IsDistinct (λ x. x.id) (visit m o seen).by_id
visit-IsDistinct m none seen e d = IsDistinct-append m seen.by_id (with_id-none m.id seen.by_id e) d
visit-IsDistinct m (some x) seen e d = elim (Bool-cases (same_facts x m)) [
  | inl t ↦ rw t d
  | inr t ↦ rw t d
]

pub scan-IsDistinct :
    (ms : List Match) (seen : Seen)
    → IsDistinct (λ x. x.id) seen.by_id
    → IsDistinct (λ x. x.id) (scan ms seen).by_id
unfolding scan
scan-IsDistinct [] seen d = d
scan-IsDistinct (m ∷ ms) seen d =
    scan-IsDistinct ms (visit m (with_id m.id seen.by_id) seen)
      (visit-IsDistinct m (with_id m.id seen.by_id) seen refl d)

visit-All :
    (P : Match → Type 0) (m : Match) (o : Option Match) (seen : Seen)
    → P m
    → All P seen.by_id
    → All P (visit m o seen).by_id
visit-All P m none seen p h = All-append P seen.by_id (m ∷ []) h (p, tt)
visit-All P m (some x) seen p h = elim (Bool-cases (same_facts x m)) [
  | inl t ↦ rw t h
  | inr t ↦ rw t h
]

pub scan-All :
    (P : Match → Type 0) (ms : List Match) (seen : Seen)
    → All P ms
    → All P seen.by_id
    → All P (scan ms seen).by_id
unfolding scan
scan-All P [] seen ps h = h
scan-All P (m ∷ ms) seen ps h =
    scan-All P ms (visit m (with_id m.id seen.by_id) seen) ps.1
      (visit-All P m (with_id m.id seen.by_id) seen ps.0 h)

-- The match that a list with distinct ids holds under the id of a member is that member.
pub IsDistinct-with_id :
    (xs : List Match) → IsDistinct (λ x. x.id) xs → All (λ y. with_id y.id xs ≡ some y) xs
IsDistinct-with_id [] d = tt
IsDistinct-with_id (x ∷ xs) d =
    (rw (str_eq_self x.id) refl, later x xs xs d.0 (IsDistinct-with_id xs d.1))
  where
    later :
        (x : Match) (xs ys : List Match)
        → All (λ y. x.id ≢ y.id) ys
        → All (λ y. with_id y.id xs ≡ some y) ys
        → All (λ y. with_id y.id (x ∷ xs) ≡ some y) ys
    later x xs [] n h = tt
    later x xs (y ∷ ys) n h = (rw (differ x.id y.id n.0) h.0, later x xs ys n.1 h.1)
      where
        differ : (a b : String) → a ≢ b → str_eq a b ≡ false
        differ a b ne = ground (arith, eq_iff a b)
