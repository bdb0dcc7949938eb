-- ===== src/Alerts/Monitor/Ids.antt =====
-- Ids that are numbered without a gap.
use score_arc.Prelude.{
  ℕ, suc, ◌+◌, ◌≤◌, ◌<◌, String, Bool, true, false, ◌||◌, List, [], ◌∷◌, ◌++◌, map, length, all,
  All, All-imp, ◌≡◌, refl, arith, eq_iff, and_split, subst,
}
use score_arc.Alerts.State.{EventId, id_eq, has_id, continues, ascends, all_distinct}

pub all-All {ℓ} :
    {A : Type ℓ} (p : A → Bool) (xs : List A) → all p xs ≡ true → All (λ x. p x ≡ true) xs
all-All p [] h = tt
all-All p (x ∷ xs) h = let s = and_split (p x) (all p xs) h in (s.0, all-All p xs s.1)

pub All-all {ℓ} :
    {A : Type ℓ} (p : A → Bool) (xs : List A) → All (λ x. p x ≡ true) xs → all p xs ≡ true
All-all p [] h = refl
All-all p (x ∷ xs) h = rw (h.0, All-all p xs h.1) refl

pub id_eq_self : (a : EventId) → id_eq a a ≡ true
id_eq_self a = ground (arith, eq_iff a.epoch a.epoch)

pub id_eq→eq : (a b : EventId) → id_eq a b ≡ true → a ≡ b
id_eq→eq a b h = ground (arith, eq_iff a.epoch b.epoch)

module _ (epoch : String) where
  pub continues-cons :
      (k : ℕ) (id : EventId) (ids : List EventId)
      → continues epoch k (id ∷ ids) ≡ true
      → (id.epoch ≡ epoch) × (id.number ≡ suc k) × (continues epoch (suc k) ids ≡ true)
  continues-cons k id ids h = ground (arith, eq_iff id.epoch epoch)

  pub continues-append :
      (k : ℕ) (ids : List EventId)
      → continues epoch k ids ≡ true
      → continues epoch k (ids ++ record { epoch = epoch; number = suc (k + length ids) } ∷ [])
        ≡ true
  continues-append k [] h = ground (arith, eq_iff epoch epoch)
  continues-append k (id ∷ ids) h =
      let (same, next, rest) = continues-cons k id ids h in
      let more : continues epoch (suc k)
            (ids ++ record { epoch = epoch; number = suc (k + suc (length ids)) } ∷ [])
          ≡ true =
        subst
          (λ n.
            continues epoch (suc k) (ids ++ record { epoch = epoch; number = suc n } ∷ []) ≡ true)
          (omega arith) (continues-append (suc k) ids rest) in
      ground (arith, eq_iff id.epoch epoch)

  -- The ids of a run lie above its start and up to its end.
  pub has_id-below :
      (k : ℕ) (ids : List EventId) (id : EventId)
      → continues epoch k ids ≡ true
      → id.number ≤ k
      → has_id id ids ≡ false
  has_id-below k [] id h b = refl
  has_id-below k (x ∷ ids) id h b =
      let (same, next, rest) = continues-cons k x ids h in
      let none_later = has_id-below (suc k) ids id rest (omega arith) in ground arith

  pub has_id-above :
      (k : ℕ) (ids : List EventId) (id : EventId)
      → continues epoch k ids ≡ true
      → k + length ids < id.number
      → has_id id ids ≡ false
  has_id-above k [] id h b = refl
  has_id-above k (x ∷ ids) id h b =
      let (same, next, rest) = continues-cons k x ids h in
      let none_later = has_id-above (suc k) ids id rest (omega arith) in ground arith

  pub continues-bounds :
      (k : ℕ) (ids : List EventId)
      → continues epoch k ids ≡ true
      → All (λ id. (id.epoch ≡ epoch) × (suc k ≤ id.number) × (id.number ≤ k + length ids)) ids
  continues-bounds k [] h = tt
  continues-bounds k (x ∷ ids) h =
      let (same, next, rest) = continues-cons k x ids h in
      (
        (same, omega arith, omega arith),
        All-imp (λ id b. (b.0, omega arith, omega arith)) ids (continues-bounds (suc k) ids rest),
      )

  module _ {A : Type 0} (f : A → EventId) where
    pub continues-ascends :
        (k : ℕ) (xs : List A)
        → continues epoch k (map f xs) ≡ true
        → ascends (map (λ x. (f x).number) xs) ≡ true
    continues-ascends k [] h = refl
    continues-ascends k (x ∷ []) h = refl
    continues-ascends k (x ∷ y ∷ xs) h =
        let (same, next, rest) = continues-cons k (f x) (map f (y ∷ xs)) h in
        let (_, after, _) = continues-cons (suc k) (f y) (map f xs) rest in
        let more = continues-ascends (suc k) (y ∷ xs) rest in ground arith

pub has_id-append :
    (id : EventId) (xs ys : List EventId) → has_id id (xs ++ ys) ≡ (has_id id xs || has_id id ys)
has_id-append id [] ys = refl
has_id-append id (x ∷ xs) ys = ground (arith, has_id-append id xs ys)

-- Two runs, the first above the second, have no id twice.
module _ (epoch : String) (d : ℕ) (ys : List EventId) (run : continues epoch d ys ≡ true) where
  continues-distinct :
      (k : ℕ) (xs : List EventId) → continues epoch k xs ≡ true → all_distinct xs ≡ true
  continues-distinct k [] h = refl
  continues-distinct k (x ∷ xs) h =
      let (same, next, rest) = continues-cons epoch k x xs h in
      rw (has_id-below epoch (suc k) xs x rest (omega arith), continues-distinct (suc k) xs rest)
        refl

  pub distinct-append :
      (k : ℕ) (xs : List EventId)
      → continues epoch k xs ≡ true
      → d + length ys ≤ k
      → all_distinct (xs ++ ys) ≡ true
  distinct-append k [] h b = continues-distinct d ys run
  distinct-append k (x ∷ xs) h b =
      let (same, next, rest) = continues-cons epoch k x xs h in
      rw
        (
          has_id-append x xs ys,
          has_id-below epoch (suc k) xs x rest (omega arith),
          has_id-above epoch d ys x run (omega arith),
          distinct-append (suc k) xs rest (omega arith),
        )
        refl
