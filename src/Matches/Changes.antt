-- ===== src/Matches/Changes.antt =====
-- Which scores changed between two reads: `scoreChanges` of src/components/matchWheelModel.ts.
use text.Mathlib.TextEquality.{eq_iff}
use score_arc.Prelude.{
  String, Bool, true, false, not, ◌&&◌, ◌||◌, Option, none, some, List, [], ◌∷◌, ◌≡◌, refl, arith,
  any, has, str_eq, if◌then◌else◌, Bool-cases, inl, inr,
}
use score_arc.Model.{Match}
use score_arc.Matches.Performance.{same_score}

-- `prevById.get`: a later match overwrites an earlier one with its id.
unfoldable pub last_with : String → List Match → Option Match
last_with id [] = none
last_with id (m ∷ ms) = elim (last_with id ms) [
  | some later ↦ some later
  | none ↦ if str_eq m.id id then some m else none
]

abbrev pub differs : Option Match → Match → Bool
differs none n = false
differs (some p) n =
    not (same_score p.home_score n.home_score) || not (same_score p.away_score n.away_score)

abbrev pub add : String → List String → List String
add id ids = if has id ids then ids else id ∷ ids

unfoldable pub score_changes : List Match → List Match → List String
unfolding last_with
score_changes prev [] = []
score_changes prev (n ∷ next) =
    let rest = score_changes prev next in
    if differs (last_with n.id prev) n then add n.id rest else rest

has-add : (k id : String) (ids : List String) → has k (add id ids) ≡ (str_eq id k || has k ids)
has-add k id ids = elim (Bool-cases (has id ids)) [
  | inl t ↦ rw t (already k id ids t)
  | inr t ↦ rw t refl
]
  where
    already :
        (k id : String) (ids : List String)
        → has id ids ≡ true
        → has k ids ≡ (str_eq id k || has k ids)
    already k id [] h = cc
    already k id (x ∷ ids) h = elim (Bool-cases (str_eq x id)) [
      | inl t ↦ ground (arith, eq_iff x id, eq_iff x k, eq_iff id k)
      | inr t ↦ ground (arith, already k id ids (rw t at h))
    ]

-- An id is in the set exactly when the new read has a match with it whose score, a goal or the
-- knowledge of it, differs from that of the last match with the id in the old read. A match that
-- the old read did not have is no change.
has-score_changes :
    (k : String) (prev next : List Match)
    → has k (score_changes prev next)
      ≡ any (λ n. str_eq n.id k && differs (last_with n.id prev) n) next
unfolding score_changes
has-score_changes k prev [] = refl
has-score_changes k prev (n ∷ next) = elim (Bool-cases (differs (last_with n.id prev) n)) [
  | inl t ↦
      rw (t, has-add k n.id (score_changes prev next), has-score_changes k prev next) (ground arith)
  | inr t ↦ rw (t, has-score_changes k prev next) (ground arith)
]
