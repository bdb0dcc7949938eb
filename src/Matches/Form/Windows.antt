-- ===== src/Matches/Form/Windows.antt =====
-- The reading of the matches behind the forms: the loop ends, and what it has read when it does.
use score_arc.Prelude.{
  ℕ, zero, suc, ◌-◌, ◌≤◌, ◌<◌, true, false, ◌||◌, Option, none, some, List, [], ◌∷◌, ◌++◌, map,
  filter, length, All, All-imp, All-append, ltb, leb, ◌==◌, ◌≡◌, refl, arith, Bool-cases, inl, inr,
  IsListed, All-IsListed, if_cases,
}
use score_arc.Model.{Match}
use score_arc.Matches.Form.Reading.{
  Reading, is_regular, is_held, with_edition, kept, is_settled, is_played, Held, out_of_fuel,
  unread, held_to, window_start, with_matches, windows, read_matches,
}

module _ {A : Type 0} where
  IsListed-left : (xs ys : List A) (x : A) → IsListed xs x → IsListed (xs ++ ys) x
  IsListed-left [] ys x (i, e) = cc
  IsListed-left (y ∷ xs) ys x (zero, e) = (0, e)
  IsListed-left (y ∷ xs) ys x (suc i, e) =
      let more = IsListed-left xs ys x (i, e) in (suc more.0, more.1)

  IsListed-right : (xs ys : List A) (x : A) → IsListed ys x → IsListed (xs ++ ys) x
  IsListed-right [] ys x l = l
  IsListed-right (y ∷ xs) ys x l = let more = IsListed-right xs ys x l in (suc more.0, more.1)

module _ (r : Reading) where
  -- A match that is held: one of a window's that passes its tests, with the edition as its scope.
  pub record IsRead (m : Match) : Type 0 where
    pub source : Match
    pub start : ℕ
    pub end : ℕ
    pub answer : List Match
    pub asked : r.store.fixtures start end ≡ some answer
    pub listed : IsListed answer source
    pub tested : is_held r start end source ≡ true
    pub tagged : m ≡ with_edition r.edition source

  -- A day that a window covers, all of whose matches that pass the tests are held.
  pub record IsCovered (held : List Match) (day : ℕ) : Type 0 where
    pub start : ℕ
    pub end : ℕ
    pub from : start ≤ day
    pub to : day ≤ end
    pub after : r.table.start ≤ start
    pub before : end ≤ r.table.end
    pub answer : List Match
    pub asked : r.store.fixtures start end ≡ some answer
    pub all_held : All (IsListed held) (kept r start end answer)

  kept-IsRead :
      (s e : ℕ) (answer : List Match)
      → r.store.fixtures s e ≡ some answer
      → All IsRead (kept r s e answer)
  kept-IsRead s e answer asked = go answer (All-IsListed answer)
    where
      go : (ms : List Match) → All (IsListed answer) ms → All IsRead (kept r s e ms)
      go [] l = tt
      go (m ∷ ms) l =
          if_cases (λ xs. All IsRead (map (with_edition r.edition) xs)) (is_held r s e m)
            (m ∷ filter (is_held r s e) ms) (filter (is_held r s e) ms)
            (λ t. (
              record {
                source = m;
                start = s;
                end = e;
                answer = answer;
                asked = asked;
                listed = l.0;
                tested = t;
                tagged = refl;
              },
              go ms l.1,
            ))
            (λ t. go ms l.1)

  IsCovered-more :
      (held more : List Match) (day : ℕ) → IsCovered held day → IsCovered (held ++ more) day
  IsCovered-more held more day c = record {
    start = c.start;
    end = c.end;
    from = c.from;
    to = c.to;
    after = c.after;
    before = c.before;
    answer = c.answer;
    asked = c.asked;
    all_held = All-imp (λ x l. IsListed-left held more x l) _ c.all_held;
  }

  abbrev IsCoveredFrom : ℕ → List Match → Type 0
  IsCoveredFrom from held = (day : ℕ) → from ≤ day → day ≤ r.table.end → IsCovered held day

  -- Some team has played, so that matches are read for its form.
  abbrev pub HasPlayed : Type 0
  HasPlayed = (length (filter is_played r.members) == 0) ≡ false

  -- What a reading ends with.
  abbrev pub IsEnded : Held → Type 0
  IsEnded out_of_fuel = ⊥
  IsEnded unread = (s : ℕ) × (e : ℕ) × (r.store.fixtures s e ≡ none)
  IsEnded (held_to held true) =
      All IsRead held
      × (HasPlayed → (day : ℕ) → r.table.start ≤ day → day ≤ r.table.end → IsCovered held day)
  IsEnded (held_to held false) =
      All IsRead held × (is_regular r.table.scope ≡ false) × (is_settled r held ≡ true)

  window-covers :
      (end : ℕ) (held answer : List Match)
      → r.table.start ≤ end
      → end ≤ r.table.end
      → r.store.fixtures (window_start r end) end ≡ some answer
      → IsCoveredFrom (suc end) held
      → IsCoveredFrom (window_start r end) (held ++ kept r (window_start r end) end answer)
  window-covers end held answer lo hi asked c day from to = elim (Bool-cases (leb day end)) [
    | inl t ↦ record {
      start = window_start r end;
      end = end;
      from = from;
      to = ground arith;
      after = omega arith;
      before = hi;
      answer = answer;
      asked = asked;
      all_held =
          All-imp (λ x l. IsListed-right held (kept r (window_start r end) end answer) x l) _
            (All-IsListed (kept r (window_start r end) end answer));
    }
    | inr t ↦ IsCovered-more held _ day (c day (ground arith) to)
  ]

  -- One round, by what its later rounds end with.
  with_matches-IsEnded :
      (end : ℕ) (held : List Match) (next : List Match → Held) (o : Option (List Match))
      → r.table.start ≤ end
      → end ≤ r.table.end
      → All IsRead held
      → IsCoveredFrom (suc end) held
      → ((now_held : List Match)
          → leb (window_start r end) r.table.start ≡ false
          → All IsRead now_held
          → IsCoveredFrom (window_start r end) now_held
          → IsEnded (next now_held))
      → r.store.fixtures (window_start r end) end ≡ o
      → IsEnded (with_matches r (window_start r end) end held next o)
  with_matches-IsEnded end held next none lo hi safe c later q = (window_start r end, end, q)
  with_matches-IsEnded end held next (some answer) lo hi safe c later q =
      let start = window_start r end in
      let now_held = held ++ kept r start end answer in
      let safe_now =
        All-append IsRead held (kept r start end answer) safe (kept-IsRead start end answer q) in
      let covered = window-covers end held answer lo hi q c in
      if_cases IsEnded (leb start r.table.start) _ _
        (λ t. (safe_now, λ p day from to. covered day (ground arith) to))
        (λ left.
          if_cases IsEnded (is_regular r.table.scope) _ _
            (λ t. later now_held left safe_now covered)
            (λ other.
              if_cases IsEnded (is_settled r now_held) _ _ (λ t. (safe_now, other, t))
                (λ t. later now_held left safe_now covered)))

  windows-IsEnded :
      (fuel end : ℕ) (held : List Match)
      → end - r.table.start < fuel
      → r.table.start ≤ end
      → end ≤ r.table.end
      → All IsRead held
      → IsCoveredFrom (suc end) held
      → IsEnded (windows fuel r end held)
  unfolding windows
  windows-IsEnded zero end held enough lo hi safe c = absurd (omega arith)
  windows-IsEnded (suc fuel) end held enough lo hi safe c =
      with_matches-IsEnded end held (λ now_held. windows fuel r (window_start r end - 1) now_held)
        (r.store.fixtures (window_start r end) end) lo hi safe c
        (λ now_held left safe_now covered.
          windows-IsEnded fuel (window_start r end - 1) now_held (ground arith) (ground arith)
            (ground arith) safe_now (λ day from to. covered day (ground arith) to))
        refl

  no_days :
      (day : ℕ) → r.table.start ≤ day → day ≤ r.table.end → ltb r.table.end r.table.start ≡ true → ⊥
  no_days day a b h = ground arith

  -- The reading always ends: either the store failed for one of the windows asked for, or what is
  -- held came from the store's windows and passed their tests; then, read to the start, every day of
  -- the scope lies in a window all of whose matches are held, if a team has played, and a reading that stopped early has
  -- for each team the matches that its form needs and is not of a table with a later phase.
  pub read_matches-IsEnded : IsEnded (read_matches r)
  unfolding read_matches
  read_matches-IsEnded =
      if_cases IsEnded ((length (filter is_played r.members) == 0) || ltb r.table.end r.table.start)
        _ _ (λ t. (tt, λ p day from to. absurd (no_days day from to (rw p at t))))
        (λ t.
          windows-IsEnded (suc (r.table.end - r.table.start)) r.table.end [] (omega arith)
            (ground arith) (omega arith) tt (λ day from to. absurd (omega arith)))
