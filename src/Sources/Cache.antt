-- ===== src/Sources/Cache.antt =====
-- The cache with a time to live: src/server/data/cache.ts. The Map is its list of entries, the
-- least recently used first; the clock is an argument.
pub mod History
use score_arc.Prelude.{
  ℕ, ◌+◌, String, Bool, true, false, not, Option, none, some, List, [], ◌∷◌, ◌++◌, ltb, leb,
  if◌then◌else◌, str_eq, length, filter, find,
}

abbrev pub max_entries : ℕ
max_entries = 500

pub record Entry (T : Type 0) : Type 0 where
  pub key : String
  pub value : T
  pub expires : ℕ

-- What `get` returns, and the store that it leaves.
pub record Lookup (T : Type 0) : Type 0 where
  pub found : Option T
  pub store : List (Entry T)

module _ {T : Type 0} where
  abbrev pub delete : String → List (Entry T) → List (Entry T)
  delete key store = filter (λ e. not (str_eq e.key key)) store

  abbrev pub entry_of : String → List (Entry T) → Option (Entry T)
  entry_of key store = find (λ e. str_eq e.key key) store

  abbrev pub read : ℕ → List (Entry T) → Option (Entry T) → Lookup T
  read now store none = record { found = none; store = store }
  read now store (some e) =
      if ltb e.expires now
      then record { found = none; store = delete e.key store }
      else record { found = some e.value; store = delete e.key store ++ (e ∷ []) }

  unfoldable pub get : ℕ → String → List (Entry T) → Lookup T
  get now key store = read now store (entry_of key store)

  -- The loop that drops the oldest entry while the store is full.
  unfoldable pub evict : List (Entry T) → List (Entry T)
  evict [] = []
  evict (e ∷ store) =
      let rest = evict store in if leb max_entries (length (e ∷ store)) then rest else e ∷ store

  unfoldable pub set : ℕ → String → T → ℕ → List (Entry T) → List (Entry T)
  unfolding evict
  set now key value ttl_ms store =
      evict (delete key store) ++ (record { key = key; value = value; expires = now + ttl_ms } ∷ [])
