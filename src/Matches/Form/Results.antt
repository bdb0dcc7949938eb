-- ===== src/Matches/Form/Results.antt =====
-- What a team's form is made of.
use score_arc.Prelude.{
  ℕ, zero, suc, ◌+◌, ◌-◌, ◌≤◌, String, Bool, true, false, ◌&&◌, Option, none, some, List, [], ◌∷◌,
  ◌++◌, map, length, take, drop, All, has, ◌≡◌, refl, sym, ap, subst, arith, IsListed, All-IsListed,
  if_cases, length-take,
}
use score_arc.Model.{Match}
use score_arc.Matches.Performance.{
  PerformanceMatch, performance_match, push_some, eligible_team_matches,
}
use score_arc.Matches.Form.Reading.{Reading, Member, is_regular}
use score_arc.Matches.Form.{form_size}
use score_arc.Matches.Form.Teams.{
  has_side, exceptional, is_conflicted, is_beyond, Evidence, evidence, is_over, is_unavailable,
  form_matches, member_form,
}

abbrev pub IsWithin : Option ℕ → ℕ → Type 0
IsWithin none played = Unit
IsWithin (some rounds) played = played ≤ rounds

-- A result of a team: what one of the unique matches counts for it.
abbrev pub IsResultOf : Reading → List Match → String → PerformanceMatch → Type 0
IsResultOf r unique team_id p =
    (u : Match) × IsListed unique u
    × (performance_match r.store.instant u team_id r.edition ≡ some p)

module _ (r : Reading) (rounds : Option ℕ) (held unique : List Match) (read_all : Bool)
    (m : Member) where
  -- A form that is shown.
  pub record IsForm (form : List PerformanceMatch) : Type 0 where
    pub single : m.ambiguous ≡ false
    pub short : length form ≤ 5
    -- The results of the team, newest first, are those that came after the table closed and those
    -- that the form is taken from.
    pub newer : List PerformanceMatch
    pub considered : List PerformanceMatch
    pub split :
        newer ++ considered ≡ eligible_team_matches r.store.instant unique m.team_id r.edition
    pub results : All (IsResultOf r unique m.team_id) (newer ++ considered)
    pub newest : form ≡ take form_size considered
    pub whole : is_regular r.table.scope ≡ false → newer ≡ []
    pub counted : is_regular r.table.scope ≡ true → length considered ≤ m.played
    pub in_rounds : is_regular r.table.scope ≡ true → IsWithin rounds m.played
    -- No held match of the team is in dispute.
    pub agreed :
        All (λ x. has_side m.team_id x ≡ true → has x.id (map (λ u. u.id) unique) ≡ true) held
    -- Read to the start, the table counts no match that was not found.
    pub found :
        read_all ≡ true
        → m.played
          ≤ length (newer ++ considered)
            + exceptional m.team_id
                (eligible_team_matches r.store.instant unique m.team_id r.edition)
                unique

  abbrev results_of : List PerformanceMatch
  results_of = eligible_team_matches r.store.instant unique m.team_id r.edition

  eligible-IsResultOf :
      (us : List Match)
      → All (IsListed unique) us
      → All
          (IsResultOf r unique m.team_id)
          (eligible_team_matches r.store.instant us m.team_id r.edition)
  unfolding eligible_team_matches
  eligible-IsResultOf [] l = tt
  eligible-IsResultOf (u ∷ us) l =
      go (performance_match r.store.instant u m.team_id r.edition) refl (eligible-IsResultOf us l.1)
    where
      go :
          (o : Option PerformanceMatch)
          → performance_match r.store.instant u m.team_id r.edition ≡ o
          → All
              (IsResultOf r unique m.team_id)
              (eligible_team_matches r.store.instant us m.team_id r.edition)
          → All
              (IsResultOf r unique m.team_id)
              (push_some o (eligible_team_matches r.store.instant us m.team_id r.edition))
      go none q ih = ih
      go (some p) q ih = ((u, l.0, q), ih)

  agreed_of :
      (xs : List Match)
      → is_conflicted m.team_id unique xs ≡ false
      → All (λ x. has_side m.team_id x ≡ true → has x.id (map (λ u. u.id) unique) ≡ true) xs
  agreed_of [] h = tt
  agreed_of (x ∷ xs) h = (λ side. ground arith, agreed_of xs (ground arith))

  beyond_IsWithin : (o : Option ℕ) → is_beyond o m.played ≡ false → IsWithin o m.played
  beyond_IsWithin none h = tt
  beyond_IsWithin (some n) h = ground arith

take-drop : {A : Type 0} (n : ℕ) (xs : List A) → take n xs ++ drop n xs ≡ xs
take-drop zero xs = refl
take-drop (suc n) [] = refl
take-drop (suc n) (x ∷ xs) = ap (λ ys. x ∷ ys) (take-drop n xs)

length-drop : {A : Type 0} (n : ℕ) (xs : List A) → length (drop n xs) ≡ length xs - n
length-drop zero xs = omega arith
length-drop (suc n) [] = omega arith
length-drop (suc n) (x ∷ xs) = omega (arith, length-drop n xs)

take_short : {A : Type 0} (xs : List A) → length (take 5 xs) ≤ 5
take_short xs = omega (arith, length-take 5 xs)

module _ (r : Reading) (rounds : Option ℕ) (held unique : List Match) (read_all : Bool)
    (m : Member) where
  abbrev pub Shows : List PerformanceMatch → Type 0
  Shows [] = Unit
  Shows (p ∷ ps) = IsForm r rounds held unique read_all m (p ∷ ps)

  IsForm-Shows :
      (form : List PerformanceMatch) → IsForm r rounds held unique read_all m form → Shows form
  IsForm-Shows [] f = tt
  IsForm-Shows (p ∷ ps) f = f

  abbrev e : Evidence
  e = evidence r held unique m.team_id

  abbrev outside : ℕ
  outside = length e.counted + e.exceptional - m.played

  results : All (IsResultOf r unique m.team_id) e.counted
  results = eligible-IsResultOf r rounds held unique read_all m unique (All-IsListed unique)

  none_exceptional :
      is_unavailable r rounds read_all m e ≡ false
      → (is_regular r.table.scope && is_over m e) ≡ true
      → e.exceptional ≡ 0
  none_exceptional h over = ground arith

  form_matches-IsForm :
      is_unavailable r rounds read_all m (evidence r held unique m.team_id) ≡ false
      → IsForm r rounds held unique read_all m (form_matches r m (evidence r held unique m.team_id))
  form_matches-IsForm h =
      if_cases (λ considered. IsForm r rounds held unique read_all m (take form_size considered))
        (is_regular r.table.scope && is_over m e) (drop outside e.counted) e.counted
        (λ over. record {
          single = ground arith;
          short = take_short (drop outside e.counted);
          newer = take outside e.counted;
          considered = drop outside e.counted;
          split = take-drop outside e.counted;
          results =
              subst (All (IsResultOf r unique m.team_id)) (sym (take-drop outside e.counted))
                results;
          newest = refl;
          whole = λ other. absurd (ground arith);
          counted = λ t. omega (arith, length-drop outside e.counted, none_exceptional h over);
          in_rounds = λ t. beyond_IsWithin r rounds held unique read_all m rounds (ground arith);
          agreed = agreed_of r rounds held unique read_all m held (ground arith);
          found = λ t. rw (take-drop outside e.counted) (ground arith);
        })
        (λ not_over. record {
          single = ground arith;
          short = take_short e.counted;
          newer = [];
          considered = e.counted;
          split = refl;
          results = results;
          newest = refl;
          whole = λ other. refl;
          counted = λ t. ground arith;
          in_rounds = λ t. beyond_IsWithin r rounds held unique read_all m rounds (ground arith);
          agreed = agreed_of r rounds held unique read_all m held (ground arith);
          found = λ t. ground arith;
        })

  -- A form that is shown has one to five results, the newest of the team's own; none of the team's
  -- matches is in dispute and its tables agree; read to the start, no match that the table counts is
  -- missing; and where a later phase follows the table, the form is taken from no more matches
  -- than the table counts, leaving the newest, and only a table within the season's rounds has one.
  pub member_form-Shows : Shows (member_form r rounds held unique read_all m)
  unfolding member_form
  member_form-Shows =
      if_cases Shows (is_unavailable r rounds read_all m (evidence r held unique m.team_id)) _ _
        (λ t. tt) (λ t. IsForm-Shows _ (form_matches-IsForm t))
