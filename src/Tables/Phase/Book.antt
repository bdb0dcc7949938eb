-- ===== src/Tables/Phase/Book.antt =====
-- The rows as a store: what reads and writes through a club's id do.
use score_arc.Prelude.{
  ℕ, ◌+◌, String, Bool, true, ◌||◌, List, [], ◌∷◌, ◌++◌, map, ◌≡◌, refl, sym, ◌≢◌, arith,
  if◌then◌else◌, str_eq, eq_iff, str_eq_self, Bool-cases, inl, inr, any, All, IsDistinct, ◌∙◌, ap,
  subst,
}
use score_arc.Model.{Team}
use score_arc.Tables.Phase.{Row, blank, has_row, row_for, modify}

abbrev pub sum : (Row → ℕ) → List Row → ℕ
sum f [] = 0
sum f (r ∷ rows) = f r + sum f rows

abbrev pub Keyed : List Row → Type 0
Keyed rows = IsDistinct (λ r. r.team.id) rows

sum-append : (f : Row → ℕ) (xs ys : List Row) → sum f (xs ++ ys) ≡ sum f xs + sum f ys
sum-append f [] ys = omega arith
sum-append f (x ∷ xs) ys = omega (arith, sum-append f xs ys)

any-append : (p : Row → Bool) (xs ys : List Row) → any p (xs ++ ys) ≡ (any p xs || any p ys)
any-append p [] ys = refl
any-append p (x ∷ xs) ys = ground (arith, any-append p xs ys)

-- A fresh row adds nothing to a total that is zero at a blank row.
pub sum-row_for :
    (f : Row → ℕ) (team : Team) (rows : List Row)
    → f (blank team) ≡ 0
    → sum f (row_for team rows) ≡ sum f rows
unfolding row_for
sum-row_for f team rows z = elim (Bool-cases (has_row team.id rows)) [
  | inl old ↦ rw old
  | inr new ↦ rw new (omega (arith, sum-append f rows (blank team ∷ []), z))
]

pub has_row-row_for : (team : Team) (rows : List Row) → has_row team.id (row_for team rows) ≡ true
unfolding row_for
has_row-row_for team rows = elim (Bool-cases (has_row team.id rows)) [
  | inl old ↦ rw old old
  | inr new ↦ rw new (
      any-append (λ r. str_eq r.team.id team.id) rows (blank team ∷ [])
      ∙ ground (arith, str_eq_self team.id))
]

pub has_row-row_for_mono :
    (id : String) (team : Team) (rows : List Row)
    → has_row id rows ≡ true
    → has_row id (row_for team rows) ≡ true
unfolding row_for
has_row-row_for_mono id team rows h = elim (Bool-cases (has_row team.id rows)) [
  | inl old ↦ rw old h
  | inr new ↦
      rw new (any-append (λ r. str_eq r.team.id id) rows (blank team ∷ []) ∙ ground (arith, h))
]

module _ (f : Row → Row) (keeps : (r : Row) → (f r).team.id ≡ r.team.id) where
  pub has_row-modify :
      (id k : String) (rows : List Row) → has_row id (modify k f rows) ≡ has_row id rows
  unfolding modify
  has_row-modify id k [] = refl
  has_row-modify id k (r ∷ rows) = elim (Bool-cases (str_eq r.team.id k)) [
    | inl t ↦ rw t (ap (λ s. str_eq s id || has_row id rows) (keeps r))
    | inr t ↦ rw t (ap (λ b. str_eq r.team.id id || b) (has_row-modify id k rows))
  ]

-- A write that adds `d` to a field adds `d` to its total.
pub sum-modify :
    (f : Row → ℕ) (g : Row → Row) (d : ℕ)
    → ((r : Row) → f (g r) ≡ f r + d)
    → (id : String) (rows : List Row) → has_row id rows ≡ true
    → sum f (modify id g rows) ≡ sum f rows + d
unfolding modify
sum-modify f g d h id [] present = cc
sum-modify f g d h id (r ∷ rows) present = elim (Bool-cases (str_eq r.team.id id)) [
  | inl t ↦ rw t (omega (arith, h r))
  | inr t ↦ rw t (omega (arith, sum-modify f g d h id rows (rw t at present)))
]

-- The write to one row, seen from any row.
abbrev pub write : String → (Row → Row) → Row → Row
write id f r = if str_eq r.team.id id then f r else r

write_absent :
    (id : String) (f : Row → Row) (rows : List Row)
    → All (λ r. id ≢ r.team.id) rows
    → map (write id f) rows ≡ rows
write_absent id f [] h = refl
write_absent id f (r ∷ rows) h = ground (arith, eq_iff r.team.id id, write_absent id f rows h.1)

-- With one row to a club, `modify` is a write seen from every row.
pub modify-map :
    (id : String) (f : Row → Row) (rows : List Row)
    → Keyed rows
    → modify id f rows ≡ map (write id f) rows
unfolding modify
modify-map id f [] k = refl
modify-map id f (r ∷ rows) k = elim (Bool-cases (str_eq r.team.id id)) [
  | inl t ↦
      let same : r.team.id ≡ id = (eq_iff _ _).0 t in
      rw t (
        ap (◌∷◌ (f r))
          (sym (write_absent id f rows (subst (λ x. All (λ s. x ≢ s.team.id) rows) same k.0))))
  | inr t ↦ rw t (ap (◌∷◌ r) (modify-map id f rows k.1))
]
