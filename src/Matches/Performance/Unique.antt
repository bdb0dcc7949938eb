-- ===== src/Matches/Performance/Unique.antt =====
-- The list of unique matches: one per id, none whose listings disagree, the newest first.
use text.Mathlib.TextEquality.{eq_iff}
use score_arc.Prelude.{
  IsListed, All-IsListed, str_eq, Bool-cases, inl, inr, ℤ, pos, ◌≤ℤ◌, String, Bool, true, false,
  not, ◌&&◌, Option, some, List, [], ◌∷◌, ◌≡◌, ◌≢◌, refl, sym, ap, ◌∙◌, subst, arith, some_inj,
  Bool-cases, inl, inr, has, filter, All, All-imp, filter-All, All-filter, and_split, IsDistinct,
  Pairs,
}
use score_arc.Prelude.Sort.{
  Comparator, Collation, IsOrder, IsSorted, sort, sort-IsSorted, IsSorted-imp, All-sort, Pairs-sort,
  descending, descending-IsOrder, then_by-IsOrder, view-IsOrder,
}
use score_arc.Model.{Match}
use score_arc.Matches.Performance.{
  is_some, same_facts, Seen, with_id, scan, none_seen, time, newest_first, is_kept,
  unique_team_matches,
}
use score_arc.Matches.Performance.Scan.{
  Agrees, scan-Agrees, scan-IsDistinct, scan-All, IsDistinct-with_id,
}

-- Filtering keeps a relation between all pairs.
Pairs-filter :
    (R : Match → Match → Type 0) (p : Match → Bool) (xs : List Match)
    → Pairs R xs
    → Pairs R (filter p xs)
Pairs-filter R p [] h = tt
Pairs-filter R p (x ∷ xs) h = elim (Bool-cases (p x)) [
  | inl t ↦ rw t (All-filter (R x) p xs h.0, Pairs-filter R p xs h.1)
  | inr t ↦ rw t (Pairs-filter R p xs h.1)
]

-- No listing of the match disagrees with it on a counting fact.
abbrev pub IsUndisputed : List Match → Match → Type 0
IsUndisputed ms m = All (λ x. (str_eq x.id m.id && not (same_facts m x)) ≡ false) ms

undisputed :
    (seen : Seen) (y : Match) (ms : List Match)
    → with_id y.id seen.by_id ≡ some y
    → has y.id seen.conflicts ≡ false
    → All (Agrees seen) ms
    → IsUndisputed ms y
undisputed seen y [] e h a = tt
undisputed seen y (x ∷ ms) e h a = (
  elim (Bool-cases (str_eq x.id y.id)) [
    | inl t ↦
        let same : x.id ≡ y.id = (eq_iff x.id y.id).0 t in
        let (k, found, agrees) = a.0 in
        let k_is_y : k ≡ y = some_inj (sym found ∙ ap (λ i. with_id i seen.by_id) same ∙ e) in
        rw
          (
            t,
            subst (λ z. same_facts z x ≡ true) k_is_y
                (agrees (ap (λ i. has i seen.conflicts) same ∙ h)),
          )
          refl
    | inr t ↦ rw t refl
  ],
  undisputed seen y ms e h a.1,
)

module _ (instant : String → Option ℤ) (ids : Collation) where
  -- The instants of the kickoffs, the latest first.
  abbrev pub latest_first : Comparator Match
  latest_first = descending (λ m. time instant ids (instant m.kickoff))

  newest_first-IsOrder : IsOrder (newest_first instant ids)
  unfolding newest_first
  newest_first-IsOrder =
      then_by-IsOrder (descending-IsOrder (λ m. time instant ids (instant m.kickoff)))
        (view-IsOrder (λ m. m.id) ids.is_order)

  newest_first-latest :
      (a b : Match) → newest_first instant ids a b ≤ℤ pos 0 → latest_first a b ≤ℤ pos 0
  unfolding newest_first
  newest_first-latest a b h = ground arith

  -- What the list of unique matches guarantees.
  pub record IsUnique (matches unique : List Match) : Type 0 where
    pub from_input : All (IsListed matches) unique
    pub one_each : IsDistinct (λ m. m.id) unique
    pub agreed : All (IsUndisputed matches) unique
    pub dated : All (λ m. is_some (instant m.kickoff) ≡ true) unique
    pub order : IsSorted latest_first unique

  kept-All :
      (matches : List Match) (seen : Seen) (ys : List Match)
      → All (Agrees seen) matches
      → All (λ y. with_id y.id seen.by_id ≡ some y) ys
      → All (λ y. is_kept instant ids seen y ≡ true) ys
      → All (IsUndisputed matches) ys
  kept-All matches seen [] a w k = tt
  kept-All matches seen (y ∷ ys) a w k = (
    undisputed seen y matches w.0 (kept (has y.id seen.conflicts) (is_some (instant y.kickoff)) k.0)
        a,
    kept-All matches seen ys a w.1 k.1,
  )
    where
      kept : (a b : Bool) → (not a && b) ≡ true → a ≡ false
      kept a b h = ground arith

  -- The unique matches are matches of the input, one per id and the latest kickoff first. Each has
  -- a valid kickoff, and all listings of its id agree on every counting fact: a disputed match is
  -- not evidence.
  pub unique_team_matches-IsUnique :
      (matches : List Match) → IsUnique matches (unique_team_matches instant ids matches)
  unfolding unique_team_matches
  unique_team_matches-IsUnique matches =
      let seen = scan matches none_seen in
      let cmp = newest_first instant ids in
      let p = is_kept instant ids seen in
      let ys = filter p seen.by_id in
      let kept = filter-All p seen.by_id in
      let distinct = scan-IsDistinct matches none_seen tt in
      record {
        from_input = All-sort cmp (IsListed matches) ys (
            All-filter (IsListed matches) p seen.by_id
              (scan-All (IsListed matches) matches none_seen (All-IsListed matches) tt));
        one_each =
            Pairs-sort cmp (λ a b. a.id ≢ b.id) (λ a b ne e. ne (sym e)) ys
              (Pairs-filter (λ a b. a.id ≢ b.id) p seen.by_id distinct);
        agreed = All-sort cmp (IsUndisputed matches) ys (
            kept-All matches seen ys (scan-Agrees matches none_seen)
              (All-filter (λ y. with_id y.id seen.by_id ≡ some y) p seen.by_id
                (IsDistinct-with_id seen.by_id distinct))
              kept);
        dated =
            All-sort cmp (λ m. is_some (instant m.kickoff) ≡ true) ys
              (All-imp (λ m h. (and_split _ _ h).1) ys kept);
        order =
            IsSorted-imp cmp latest_first newest_first-latest (sort cmp ys)
              (sort-IsSorted cmp newest_first-IsOrder ys);
      }
