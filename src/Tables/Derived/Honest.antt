-- ===== src/Tables/Derived/Honest.antt =====
-- What the status of a derivation says of its tables.
use score_arc.Prelude.{
  ◌*◌, String, ◌||◌, Option, none, some, List, [], ◌∷◌, map, ◌≡◌, refl, ap, ◌∙◌, inl, inr, arith,
  Bool-cases, has, flat_map,
}
use score_arc.Prelude.Sort.{Collation, sort-eq_nil}
use score_arc.Model.{Group, ComputedTables}
use score_arc.Tables.Phase.{PhaseMatch, has_row, tally, with_label, configured_phase_tables}
use score_arc.Tables.Phase.Book.{sum}
use score_arc.Tables.Phase.Totals.{count_if, tally-balance}
use score_arc.Tables.Phase.Split.{listed_in, club_ids, compute_phase_tables-listed}
use score_arc.Tables.Derived.{
  Membership, ReaderStandingsInputs, SeasonTables, DerivedIssue, complete, unavailable, status_of,
  member_ids, issues_of, phase_issues, both_sides, derive_computed, derive_reader_standings,
  id_order,
}
use score_arc.Tables.Derived.Evidence.{
  is_finished, append-nil_split, quiet_matches, tally-IsPlaced, has_row-league,
}

listed_in-labelled :
    (config : ComputedTables) (id : String) (groups : List Group)
    → listed_in id (map (with_label config) groups) ≡ listed_in id groups
unfolding listed_in
listed_in-labelled config id [] = refl
listed_in-labelled config id (g ∷ groups) =
    ap (λ b. has id (club_ids g.standings) || b) (listed_in-labelled config id groups)

-- A derivation with no caveat has the whole evidence of its matches in its tables.
pub record IsWhole (matches : List PhaseMatch) (groups : List Group) : Type 0 where
  pub points : sum (λ r. r.points) (tally matches []) ≡ 3 * count_if is_finished matches
  pub games : sum (λ r. r.played) (tally matches []) ≡ 2 * count_if is_finished matches
  pub clubs : (id : String) → listed_in id groups ≡ has_row id (tally matches [])

map-eq_nil : {A B : Type 0} (f : A → B) (xs : List A) → map f xs ≡ [] → xs ≡ []
map-eq_nil f [] e = refl
map-eq_nil f (x ∷ xs) e = cc

module _ (locale : Collation) (computed : ComputedTables) (matches : List PhaseMatch)
    (m : Membership) where
  phase_issues-IsWhole :
      phase_issues (member_ids m.primary) (member_ids m.split) matches ≡ []
      → IsWhole matches (
          configured_phase_tables locale matches computed
            (member_ids m.split)
            (some (member_ids m.primary)))
  unfolding phase_issues configured_phase_tables
  phase_issues-IsWhole e =
      let mls = member_ids m.primary in
      let liga_mx = member_ids m.split in
      let (quiet, placed) = append-nil_split (flat_map (issues_of mls liga_mx) matches) _ e in
      let none_left = sort-eq_nil id_order _ (map-eq_nil DerivedIssue.unclassified_team _ placed) in
      let (short, full) = quiet_matches mls liga_mx matches quiet in
      let b = tally-balance matches in
      record {
        points = omega (arith, b.points, short, full);
        games = omega (arith, b.matches, full);
        clubs = λ id.
            listed_in-labelled computed id _
            ∙ (compute_phase_tables-listed locale matches liga_mx computed.cut (some mls) id).0
            ∙ has_row-league mls liga_mx id (tally matches [])
                (tally-IsPlaced mls liga_mx matches [] [] none_left tt);
      }

module _ (locale : Collation) where
  derive_computed-IsWhole :
      (computed : ComputedTables) (matches : List PhaseMatch) (m : Option Membership)
      → (derive_computed locale computed (some matches) m).status ≡ complete
      → IsWhole matches (derive_computed locale computed (some matches) m).groups
  derive_computed-IsWhole computed matches none e = cc
  derive_computed-IsWhole computed matches (some m) e =
      elim (Bool-cases (both_sides m.primary m.split)) [
        | inl b ↦ rw b (phase_issues-IsWhole locale computed matches m (no_issues _ (rw b at e)))
        | inr b ↦ absurd (unavailable-ne (rw b at e))
      ]
    where
      no_issues : (issues : List DerivedIssue) → status_of issues ≡ complete → issues ≡ []
      no_issues [] e = refl
      no_issues (i ∷ issues) e = cc

      unavailable-ne : unavailable ≡ complete → ⊥
      unavailable-ne e = cc

  -- When the tables of a computed season are complete, the evidence is whole: the points in the
  -- books are three for every finished match, every finished match is played by two sides, and
  -- every club that played has a row in the tables.
  pub derive_reader_standings-IsWhole :
      (season : SeasonTables) (inputs : ReaderStandingsInputs) (computed : ComputedTables)
      (matches : List PhaseMatch)
      → season.computed_tables ≡ some computed
      → inputs.phase_matches ≡ some matches
      → (derive_reader_standings locale season inputs).status ≡ complete
      → IsWhole matches (derive_reader_standings locale season inputs).groups
  unfolding derive_reader_standings
  derive_reader_standings-IsWhole season inputs computed matches hc hm e =
      rw (hc, hm) (derive_computed-IsWhole computed matches inputs.membership (rw (hc, hm) at e))
