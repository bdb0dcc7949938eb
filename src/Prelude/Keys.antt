-- ===== src/Prelude/Keys.antt =====
-- Relations between all pairs of a list: distinct keys, numbering, and lists mapped with an index.
use Prim.Native.Nat.{ℕ, suc, ◌+◌}
use Prim.Native.String.{String}
use mathlib.Core.Path.{◌≡◌, refl}
use mathlib.Core.Logic.{◌≢◌}
use mathlib.Core.Bool.{false}
use mathlib.Core.List.{List, [], ◌∷◌, map}
use native.Mathlib.Omega.{arith}
use text.Mathlib.TextEquality.{eq_iff}
use score_arc.Prelude.Tests.{str_eq}
use score_arc.Prelude.Lists.{All, any, has, map_idx_from}

-- A relation between every member and every later one.
abbrev pub Pairs {ℓ κ} : {A : Type ℓ} → (A → A → Type κ) → List A → Type κ
Pairs R [] = Unit
Pairs R (x ∷ xs) = All (R x) xs × Pairs R xs

-- No two members have the same key.
abbrev pub IsDistinct {ℓ} : {A : Type ℓ} → (A → String) → List A → Type 0
IsDistinct key = Pairs (λ a b. key a ≢ key b)

module _ {ℓ} {A : Type ℓ} (key : A → String) where
  pub ne_of_not_has :
      (k : String) (xs : List A) → has k (map key xs) ≡ false → All (λ x. k ≢ key x) xs
  ne_of_not_has k [] h = tt
  ne_of_not_has k (x ∷ xs) h = (ground (arith, eq_iff (key x) k), ne_of_not_has k xs (ground arith))

  pub not_has_of_ne :
      (k : String) (xs : List A) → All (λ x. k ≢ key x) xs → has k (map key xs) ≡ false
  not_has_of_ne k [] h = refl
  not_has_of_ne k (x ∷ xs) h = ground (arith, eq_iff (key x) k, not_has_of_ne k xs h.1)

  pub has-any : (k : String) (xs : List A) → has k (map key xs) ≡ any (λ x. str_eq (key x) k) xs
  has-any k [] = refl
  has-any k (x ∷ xs) = rw (has-any k xs)

-- The numbers count up from `k + 1`.
abbrev pub IsNumbered {ℓ} : {A : Type ℓ} → (A → ℕ) → ℕ → List A → Type 0
IsNumbered rank k [] = Unit
IsNumbered rank k (x ∷ xs) = (rank x ≡ k + 1) × IsNumbered rank (suc k) xs

module _ {ℓ κ} {A : Type ℓ} {B : Type κ} (f : ℕ → A → B) where
  pub map_idx_from-IsNumbered :
      (rank : B → ℕ)
      → ((i : ℕ) (a : A) → rank (f i a) ≡ i + 1)
      → (k : ℕ) (xs : List A) → IsNumbered rank k (map_idx_from f k xs)
  map_idx_from-IsNumbered rank h k [] = tt
  map_idx_from-IsNumbered rank h k (x ∷ xs) = (h k x, map_idx_from-IsNumbered rank h (suc k) xs)

  -- A view that does not see what the index changes.
  pub map-map_idx_from {μ} :
      {C : Type μ} (v : B → C) (w : A → C)
      → ((i : ℕ) (a : A) → v (f i a) ≡ w a)
      → (k : ℕ) (xs : List A) → map v (map_idx_from f k xs) ≡ map w xs
  map-map_idx_from v w h k [] = refl
  map-map_idx_from v w h k (x ∷ xs) = cc (h k x, map-map_idx_from v w h (suc k) xs)

  module _ {μ ν} (R : A → A → Type μ) (S : B → B → Type ν)
      (keep : (a b : A) (i j : ℕ) → R a b → S (f i a) (f j b)) where
    All-map_idx_from :
        (i k : ℕ) (a : A) (xs : List A) → All (R a) xs → All (S (f i a)) (map_idx_from f k xs)
    All-map_idx_from i k a [] h = tt
    All-map_idx_from i k a (x ∷ xs) h = (keep a x i k h.0, All-map_idx_from i (suc k) a xs h.1)

    pub Pairs-map_idx_from : (k : ℕ) (xs : List A) → Pairs R xs → Pairs S (map_idx_from f k xs)
    Pairs-map_idx_from k [] h = tt
    Pairs-map_idx_from k (x ∷ xs) h =
        (All-map_idx_from k (suc k) x xs h.0, Pairs-map_idx_from (suc k) xs h.1)
