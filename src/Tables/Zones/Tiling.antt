-- ===== src/Tables/Zones/Tiling.antt =====
-- The bands cut the table into runs without gap or overlap, and lose no club.
use mathlib.Core.List.{append-nil}
use score_arc.Prelude.{
  get_elem?, All-get, ℕ, zero, suc, ◌+◌, ◌-◌, ◌≤◌, ◌<◌, Bool, true, false, ◌&&◌, Option, none, some,
  List, [], ◌∷◌, ◌++◌, ◌≡◌, refl, sym, ap, ◌∙◌, arith, leb, ◌==◌, ==_iff, leb→le, leb-false→lt, all,
  filter, length, flat_map, IsNumbered, Bool-cases, inl, inr, All,
}
use score_arc.Model.{Standing, Zone}
use score_arc.Tables.Zones.{
  Band, clamped, resolve_zones, owner, same_owner, kind_of, zone_at, run_end, bands_from, to_bands,
}

-- Bands that run from the place `from` to the place `to`, each behind the one before.
abbrev pub IsTiling : ℕ → ℕ → List Band → Type 0
IsTiling from to [] = from ≡ to + 1
IsTiling from to (b ∷ bands) = (b.from ≡ from) × (b.from ≤ b.to) × IsTiling (b.to + 1) to bands

same_owner-eq : (o p : Option ℕ) → same_owner o p ≡ true → o ≡ p
same_owner-eq none none h = refl
same_owner-eq none (some j) h = cc
same_owner-eq (some i) none h = cc
same_owner-eq (some i) (some j) h = ap some ((==_iff i j).0 h)

module _ (zones : List Zone) where
  record IsRun (who : Option ℕ) (left last stop : ℕ) : Type 0 where
    not_before : last ≤ stop
    not_behind : stop ≤ last + left
    one_owner : (r : ℕ) → last < r → r ≤ stop → owner zones r ≡ who

  run_end-IsRun :
      (who : Option ℕ) (left last : ℕ) → IsRun who left last (run_end zones who left last)
  unfolding run_end
  run_end-IsRun who zero last = record {
    not_before = omega arith;
    not_behind = omega arith;
    one_owner = λ r a b. absurd (omega arith);
  }
  run_end-IsRun who (suc left) last = elim (Bool-cases (same_owner (owner zones (last + 1)) who)) [
    | inl same ↦
        let ih = run_end-IsRun who left (last + 1) in
        rw same (record {
          not_before = omega (arith, ih.not_before);
          not_behind = omega (arith, ih.not_behind);
          one_owner = λ r a b. elim (Bool-cases (r == last + 1)) [
            | inl e ↦ rw ((==_iff r (last + 1)).0 e) (same_owner-eq _ _ same)
            | inr e ↦ ih.one_owner r (ground arith) b
          ];
        })
    | inr other ↦ rw other (record {
      not_before = omega arith;
      not_behind = omega arith;
      one_owner = λ r a b. absurd (omega arith);
    })
  ]

  abbrev stop_of : ℕ → ℕ → ℕ
  stop_of n cursor = run_end zones (owner zones cursor) (n - cursor) cursor

  bands_from-IsTiling :
      (standings : List Standing) (n fuel cursor : ℕ)
      → cursor ≤ n + 1
      → n + 1 ≤ fuel + cursor
      → IsTiling cursor n (bands_from zones standings n fuel cursor)
  unfolding bands_from
  bands_from-IsTiling standings n zero cursor h f = omega arith
  bands_from-IsTiling standings n (suc fuel) cursor h f = elim (Bool-cases (leb cursor n)) [
    | inl more ↦
        let run = run_end-IsRun (owner zones cursor) (n - cursor) cursor in
        let le = leb→le cursor n more in
        rw more (
          refl,
          run.not_before,
          bands_from-IsTiling standings n fuel (stop_of n cursor + 1)
              (omega (arith, run.not_behind)) (omega (arith, run.not_before)),
        )
    | inr done ↦ rw done (omega (arith, leb-false→lt cursor n done))
  ]

  -- All places of a band have the owner of its first.
  abbrev IsUniform : Band → Type 0
  IsUniform b = (r : ℕ) → b.from ≤ r → r ≤ b.to → kind_of (zone_at zones (owner zones r)) ≡ b.kind

  bands_from-IsUniform :
      (standings : List Standing) (n fuel cursor : ℕ)
      → All IsUniform (bands_from zones standings n fuel cursor)
  unfolding bands_from
  bands_from-IsUniform standings n zero cursor = tt
  bands_from-IsUniform standings n (suc fuel) cursor = elim (Bool-cases (leb cursor n)) [
    | inl more ↦
        let run = run_end-IsRun (owner zones cursor) (n - cursor) cursor in
        rw more (
          (λ r a b. elim (Bool-cases (r == cursor)) [
            | inl e ↦ rw ((==_iff r cursor).0 e)
            | inr e ↦ ap (λ o. kind_of (zone_at zones o)) (run.one_owner r (ground arith) b)
          ]),
          bands_from-IsUniform standings n fuel (stop_of n cursor + 1),
        )
    | inr done ↦ rw done tt
  ]

abbrev within : ℕ → ℕ → Standing → Bool
within a b s = leb a s.rank && leb s.rank b

abbrev beyond : ℕ → Standing → Bool
beyond a s = leb a s.rank

within-nil :
    (a b k : ℕ) (rows : List Standing)
    → IsNumbered (λ s. s.rank) k rows
    → b ≤ k
    → filter (within a b) rows ≡ []
within-nil a b k [] h le = refl
within-nil a b k (s ∷ rows) h le = ground (arith, within-nil a b (suc k) rows h.1)

within-append-beyond :
    (a b k : ℕ) (rows : List Standing)
    → IsNumbered (λ s. s.rank) k rows
    → a ≤ b + 1
    → filter (within a b) rows ++ filter (beyond (b + 1)) rows ≡ filter (beyond a) rows
within-append-beyond a b k [] h le = refl
within-append-beyond a b k (s ∷ rows) h le = elim (Bool-cases (leb s.rank b)) [
  | inl in_ ↦ ground (arith, within-append-beyond a b (suc k) rows h.1 le)
  | inr out ↦ ground (
    arith,
    within-append-beyond a b (suc k) rows h.1 le,
    within-nil a b (suc k) rows h.1 (ground arith),
  )
]

beyond-nil :
    (k : ℕ) (rows : List Standing)
    → IsNumbered (λ s. s.rank) k rows
    → filter (beyond (k + length rows + 1)) rows ≡ []
beyond-nil k [] h = refl
beyond-nil k (s ∷ rows) h =
    let ih = beyond-nil (suc k) rows h.1 in
    ground (arith, ap (λ m. filter (beyond m) rows) (shift k (length rows)))
  where
    shift : (k n : ℕ) → k + suc n + 1 ≡ suc k + n + 1
    shift k n = omega arith

beyond-all :
    (k : ℕ) (rows : List Standing) → IsNumbered (λ s. s.rank) k rows → filter (beyond 1) rows ≡ rows
beyond-all k [] h = refl
beyond-all k (s ∷ rows) h = ground (arith, beyond-all (suc k) rows h.1)

bands_from-standings :
    (zones : List Zone) (standings : List Standing) (n fuel cursor : ℕ)
    → IsNumbered (λ s. s.rank) 0 standings
    → filter (beyond (n + 1)) standings ≡ []
    → cursor ≤ n + 1
    → n + 1 ≤ fuel + cursor
    → flat_map (λ b. b.standings) (bands_from zones standings n fuel cursor)
      ≡ filter (beyond cursor) standings
unfolding bands_from
bands_from-standings zones standings n zero cursor num none_left h f =
    sym (ap (λ c. filter (beyond c) standings) (same cursor n h f) ∙ none_left)
  where
    same : (c n : ℕ) → c ≤ n + 1 → n + 1 ≤ 0 + c → c ≡ n + 1
    same c n h f = omega arith
bands_from-standings zones standings n (suc fuel) cursor num none_left h f =
    elim (Bool-cases (leb cursor n)) [
      | inl more ↦
          let stop = stop_of zones n cursor in
          let run = run_end-IsRun zones (owner zones cursor) (n - cursor) cursor in
          let le = leb→le cursor n more in
          rw more (
            ap (◌++◌ (filter (within cursor stop) standings)) (
              bands_from-standings zones standings n fuel (stop + 1) num none_left
                (omega (arith, run.not_behind)) (omega (arith, run.not_before)))
            ∙ within-append-beyond cursor stop 0 standings num (omega (arith, run.not_before)))
      | inr done ↦ rw done (
          sym (
            ap (λ c. filter (beyond c) standings) (same cursor n h (leb-false→lt cursor n done))
            ∙ none_left))
    ]
  where
    same : (c n : ℕ) → c ≤ n + 1 → n < c → c ≡ n + 1
    same c n h f = omega arith

cons-ne_zero : (standings : List Standing) → (suc (length standings) == 0) ≡ false
cons-ne_zero standings = ground arith

-- The bands follow one another from the first place of the table to its last, whatever the zones
-- say: overlapping, reversed or out-of-range zones leave neither a gap nor an overlap.
pub to_bands-IsTiling :
    (standings : List Standing) (zones : List Zone) (rounds : Option ℕ)
    → IsTiling 1 (length standings) (to_bands standings zones rounds)
unfolding to_bands
to_bands-IsTiling [] zones rounds = refl
to_bands-IsTiling (s ∷ standings) zones rounds =
    elim (Bool-cases (all (λ t. t.played == 0) (s ∷ standings))) [
      | inl idle ↦ rw (cons-ne_zero standings, idle) (refl, omega arith, refl)
      | inr begun ↦
          rw (cons-ne_zero standings, begun)
            (bands_from-IsTiling
              (clamped (length (s ∷ standings)) (resolve_zones (s ∷ standings) zones rounds))
              (s ∷ standings) (length (s ∷ standings)) (length (s ∷ standings)) 1 (omega arith)
              (omega arith))
    ]

-- In a table whose rows are numbered 1, 2, 3, … the rows of the bands, read in order, are the rows
-- of the table: no club is lost and none is shown twice.
to_bands-standings :
    (standings : List Standing) (zones : List Zone) (rounds : Option ℕ)
    → IsNumbered (λ s. s.rank) 0 standings
    → flat_map (λ b. b.standings) (to_bands standings zones rounds) ≡ standings
unfolding to_bands
to_bands-standings [] zones rounds num = refl
to_bands-standings (s ∷ standings) zones rounds num =
    elim (Bool-cases (all (λ t. t.played == 0) (s ∷ standings))) [
      | inl idle ↦ rw (cons-ne_zero standings, idle) (append-nil (s ∷ standings))
      | inr begun ↦
          rw (cons-ne_zero standings, begun)
            (bands_from-standings
                (clamped (length (s ∷ standings)) (resolve_zones (s ∷ standings) zones rounds))
                (s ∷ standings) (length (s ∷ standings)) (length (s ∷ standings)) 1 num
                (ap (λ m. filter (beyond m) (s ∷ standings)) (shift (length (s ∷ standings)))
                  ∙ beyond-nil 0 (s ∷ standings) num)
                (omega arith) (omega arith)
              ∙ beyond-all 0 (s ∷ standings) num)
    ]
  where
    shift : (n : ℕ) → n + 1 ≡ 0 + n + 1
    shift n = omega arith

to_bands-All_IsUniform :
    (standings : List Standing) (zones : List Zone) (rounds : Option ℕ)
    → all (λ t. t.played == 0) standings ≡ false
    → All
        (IsUniform (clamped (length standings) (resolve_zones standings zones rounds)))
        (to_bands standings zones rounds)
unfolding to_bands
to_bands-All_IsUniform [] zones rounds begun = cc
to_bands-All_IsUniform (s ∷ standings) zones rounds begun =
    rw (cons-ne_zero standings, begun)
      (bands_from-IsUniform
        (clamped (length (s ∷ standings)) (resolve_zones (s ∷ standings) zones rounds))
        (s ∷ standings) (length (s ∷ standings)) (length (s ∷ standings)) 1)

-- Once the season has begun, each place of a band has the kind of the first clamped zone that
-- covers it, or is unmarked where none does.
to_bands-kind :
    (standings : List Standing) (zones : List Zone) (rounds : Option ℕ) (i place : ℕ) (b : Band)
    → all (λ t. t.played == 0) standings ≡ false
    → get_elem? (to_bands standings zones rounds) i ≡ some b
    → b.from ≤ place
    → place ≤ b.to
    → kind_of (
        zone_at
          (clamped (length standings) (resolve_zones standings zones rounds))
          (owner (clamped (length standings) (resolve_zones standings zones rounds)) place))
      ≡ b.kind
to_bands-kind standings zones rounds i place b begun e above below =
    All-get (IsUniform (clamped (length standings) (resolve_zones standings zones rounds)))
      (to_bands standings zones rounds) i (to_bands-All_IsUniform standings zones rounds begun) e
      place above below
