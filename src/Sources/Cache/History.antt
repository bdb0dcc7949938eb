-- ===== src/Sources/Cache/History.antt =====
-- The cache after any sequence of calls.
use text.Mathlib.TextEquality.{eq_iff}
use score_arc.Prelude.{
  none_ne, ℕ, ◌+◌, ◌≤◌, ◌<◌, String, true, false, not, Option, none, some, List, [], ◌∷◌, ◌++◌, ◌≡◌,
  ◌≢◌, refl, ap, ◌∙◌, subst, arith, ltb, leb, if◌then◌else◌, str_eq, str_eq_self, some_inj,
  Bool-cases, inl, inr, length, All, All-imp, All-append, All-filter, filter-All, All-find,
  find-true, length-append, length-filter, ltb-false→le, leb-false→lt, IsDistinct, Pairs,
}
use score_arc.Sources.Cache.{Entry, delete, entry_of, read, get, evict, set, max_entries}

-- A call with the time at which it is made.
pub data Call (T : Type 0) : Type 0 where
  gets : (now : ℕ) (key : String) → Call T
  sets : (now : ℕ) (key : String) (value : T) (ttl_ms : ℕ) → Call T

module _ {T : Type 0} where
  abbrev pub step : Call T → List (Entry T) → List (Entry T)
  step (gets now key) store = (get now key store).store
  step (sets now key value ttl_ms) store = set now key value ttl_ms store

  -- The store after a history of calls, the latest first.
  unfoldable pub run : List (Call T) → List (Entry T)
  run [] = []
  run (c ∷ calls) = step c (run calls)

  -- What was last set under a key.
  abbrev pub last_set : String → List (Call T) → Option (Entry T)
  last_set k [] = none
  last_set k (gets now key ∷ calls) = last_set k calls
  last_set k (sets now key value ttl_ms ∷ calls) =
      if str_eq key k
      then some (record { key = key; value = value; expires = now + ttl_ms })
      else last_set k calls

  evict-All : (P : Entry T → Type 0) (store : List (Entry T)) → All P store → All P (evict store)
  unfolding evict
  evict-All P [] h = tt
  evict-All P (e ∷ store) h = elim (Bool-cases (leb max_entries (length (e ∷ store)))) [
    | inl t ↦ rw t (evict-All P store h.1)
    | inr t ↦ rw t h
  ]

  evict-length : (store : List (Entry T)) → length (evict store) < max_entries
  unfolding evict
  evict-length [] = omega arith
  evict-length (e ∷ store) = elim (Bool-cases (leb max_entries (length (e ∷ store)))) [
    | inl t ↦ rw t (evict-length store)
    | inr t ↦ rw t (leb-false→lt max_entries (length (e ∷ store)) t)
  ]

  evict-Pairs :
      (R : Entry T → Entry T → Type 0) (store : List (Entry T))
      → Pairs R store
      → Pairs R (evict store)
  unfolding evict
  evict-Pairs R [] h = tt
  evict-Pairs R (e ∷ store) h = elim (Bool-cases (leb max_entries (length (e ∷ store)))) [
    | inl t ↦ rw t (evict-Pairs R store h.1)
    | inr t ↦ rw t h
  ]

  -- What stays after a deletion has another key.
  delete-ne : (key : String) (store : List (Entry T)) → All (λ e. e.key ≢ key) (delete key store)
  delete-ne key store =
      All-imp (λ e t. differs e.key key t) (delete key store)
        (filter-All (λ e. not (str_eq e.key key)) store)
    where
      differs : (a b : String) → not (str_eq a b) ≡ true → a ≢ b
      differs a b t = ground (arith, eq_iff a b)

  delete-Pairs :
      (R : Entry T → Entry T → Type 0) (key : String) (store : List (Entry T))
      → Pairs R store
      → Pairs R (delete key store)
  delete-Pairs R key [] h = tt
  delete-Pairs R key (e ∷ store) h = elim (Bool-cases (not (str_eq e.key key))) [
    | inl t ↦
        rw t
          (All-filter (R e) (λ e. not (str_eq e.key key)) store h.0, delete-Pairs R key store h.1)
    | inr t ↦ rw t (delete-Pairs R key store h.1)
  ]

  IsDistinct-last :
      (store : List (Entry T)) (e : Entry T)
      → IsDistinct (λ x. x.key) store
      → All (λ x. x.key ≢ e.key) store
      → IsDistinct (λ x. x.key) (store ++ (e ∷ []))
  IsDistinct-last [] e d h = (tt, tt)
  IsDistinct-last (x ∷ store) e d h = (
    All-append (λ y. x.key ≢ y.key) store (e ∷ []) d.0 (h.0, tt),
    IsDistinct-last store e d.1 h.1,
  )

  -- Where an entry is found under a key, a deletion makes the store shorter.
  length-delete :
      (key : String) (store : List (Entry T)) {e : Entry T}
      → entry_of key store ≡ some e
      → length (delete key store) < length store
  length-delete key [] e = cc
  length-delete key (x ∷ store) e = elim (Bool-cases (str_eq x.key key)) [
    | inl t ↦ rw t (omega (arith, length-filter (λ e. not (str_eq e.key key)) store))
    | inr t ↦ rw t (omega (arith, length-delete key store (rw t at e)))
  ]

  -- One entry per key, never more than the limit, and each the last that was set under its key.
  pub record IsCoherent (calls : List (Call T)) (store : List (Entry T)) : Type 0 where
    pub one_each : IsDistinct (λ e. e.key) store
    pub bounded : length store ≤ max_entries
    pub latest : All (λ e. last_set e.key calls ≡ some e) store

  set-IsCoherent :
      (calls : List (Call T)) (store : List (Entry T)) (now : ℕ) (key : String) (value : T)
      (ttl : ℕ)
      → IsCoherent calls store
      → IsCoherent (sets now key value ttl ∷ calls) (set now key value ttl store)
  unfolding set
  set-IsCoherent calls store now key value ttl c =
      let e : Entry T = record { key = key; value = value; expires = now + ttl } in
      let kept = delete key store in
      let other = evict-All (λ x. x.key ≢ key) kept (delete-ne key store) in
      record {
        one_each =
            IsDistinct-last (evict kept) e
              (evict-Pairs (λ a b. a.key ≢ b.key) kept
                (delete-Pairs (λ a b. a.key ≢ b.key) key store c.one_each))
              other;
        bounded = omega (arith, evict-length kept, length-append (evict kept) (e ∷ []));
        latest =
            All-append (λ x. last_set x.key (sets now key value ttl ∷ calls) ≡ some x) (evict kept)
              (e ∷ [])
              (unaffected (evict kept) other (
                evict-All (λ x. last_set x.key calls ≡ some x) kept
                  (All-filter (λ x. last_set x.key calls ≡ some x) (λ x. not (str_eq x.key key))
                    store c.latest)))
              (rw (str_eq_self key) refl, tt);
      }
    where
      differ : (a b : String) → b ≢ a → str_eq a b ≡ false
      differ a b ne = ground (arith, eq_iff a b)

      unaffected :
          (xs : List (Entry T))
          → All (λ x. x.key ≢ key) xs
          → All (λ x. last_set x.key calls ≡ some x) xs
          → All (λ x. last_set x.key (sets now key value ttl ∷ calls) ≡ some x) xs
      unaffected [] n h = tt
      unaffected (x ∷ xs) n h = (rw (differ key x.key n.0) h.0, unaffected xs n.1 h.1)

  read-IsCoherent :
      (calls : List (Call T)) (store : List (Entry T)) (now : ℕ) (key : String)
      (o : Option (Entry T))
      → entry_of key store ≡ o
      → IsCoherent calls store
      → IsCoherent (gets now key ∷ calls) (read now store o).store
  read-IsCoherent calls store now key none f c = record {
    one_each = c.one_each;
    bounded = c.bounded;
    latest = c.latest;
  }
  read-IsCoherent calls store now key (some e) f c =
      let kept = delete e.key store in
      let apart = delete-Pairs (λ a b. a.key ≢ b.key) e.key store c.one_each in
      let lasts =
        All-filter (λ x. last_set x.key calls ≡ some x) (λ x. not (str_eq x.key e.key)) store
          c.latest in
      elim (Bool-cases (ltb e.expires now)) [
        | inl t ↦ rw t (record {
          one_each = apart;
          bounded = omega (arith, c.bounded, length-filter (λ x. not (str_eq x.key e.key)) store);
          latest = lasts;
        })
        | inr t ↦ rw t (record {
          one_each = IsDistinct-last kept e apart (delete-ne e.key store);
          bounded = omega (
            arith,
            c.bounded,
            length-append kept (e ∷ []),
            length-delete e.key store (found_again store key e f),
          );
          latest =
              All-append (λ x. last_set x.key calls ≡ some x) kept (e ∷ []) lasts
                (
                  All-find (λ x. last_set x.key calls ≡ some x) (λ x. str_eq x.key key) store
                      c.latest f,
                  tt,
                );
        })
      ]
    where
      same_key : (a b : String) → str_eq a b ≡ true → b ≡ a
      same_key a b t = ground (arith, eq_iff a b)

      found_again :
          (store : List (Entry T)) (key : String) (e : Entry T)
          → entry_of key store ≡ some e
          → entry_of e.key store ≡ some e
      found_again store key e f =
          subst (λ k. entry_of k store ≡ some e)
            (same_key e.key key (find-true (λ x. str_eq x.key key) store f)) f

  pub run-IsCoherent : (calls : List (Call T)) → IsCoherent calls (run calls)
  unfolding run get
  run-IsCoherent [] = record { one_each = tt; bounded = omega arith; latest = tt }
  run-IsCoherent (gets now key ∷ calls) =
      read-IsCoherent calls (run calls) now key (entry_of key (run calls)) refl
        (run-IsCoherent calls)
  run-IsCoherent (sets now key value ttl_ms ∷ calls) =
      set-IsCoherent calls (run calls) now key value ttl_ms (run-IsCoherent calls)

  -- What the calls of a history last set under a key, and is not past its time.
  abbrev pub IsCurrent : List (Call T) → ℕ → String → T → Type 0
  IsCurrent calls now key value =
      (e : Entry T) × (last_set key calls ≡ some e) × (e.value ≡ value) × (now ≤ e.expires)

  read-IsCurrent :
      (calls : List (Call T)) (now : ℕ) (key : String) (o : Option (Entry T)) {v : T}
      → entry_of key (run calls) ≡ o
      → (read now (run calls) o).found ≡ some v
      → IsCurrent calls now key v
  read-IsCurrent calls now key none f e = cc
  read-IsCurrent calls now key (some x) f e = elim (Bool-cases (ltb x.expires now)) [
    | inl t ↦ absurd (none_ne (rw t at e))
    | inr t ↦ (
      x,
      subst (λ k. last_set k calls ≡ some x)
          (same_key x.key key (find-true (λ y. str_eq y.key key) (run calls) f))
          (All-find (λ y. last_set y.key calls ≡ some y) (λ y. str_eq y.key key) (run calls)
            (run-IsCoherent calls).latest f),
      some_inj (rw t at e),
      ltb-false→le x.expires now t,
    )
  ]
    where
      same_key : (a b : String) → str_eq a b ≡ true → a ≡ b
      same_key a b t = ground (arith, eq_iff a b)

  -- What a read returns after any calls is what was last set under the key, and not past its time.
  get-IsCurrent :
      (calls : List (Call T)) (now : ℕ) (key : String) (value : T)
      → (get now key (run calls)).found ≡ some value
      → IsCurrent calls now key value
  unfolding get
  get-IsCurrent calls now key value e =
      read-IsCurrent calls now key (entry_of key (run calls)) refl e

  find-last :
      (store : List (Entry T)) (e : Entry T)
      → All (λ x. x.key ≢ e.key) store
      → entry_of e.key (store ++ (e ∷ [])) ≡ some e
  find-last [] e h = rw (str_eq_self e.key) refl
  find-last (x ∷ store) e h = rw (differ x.key e.key h.0) (find-last store e h.1)
    where
      differ : (a b : String) → a ≢ b → str_eq a b ≡ false
      differ a b ne = ground (arith, eq_iff a b)

  -- A value that is set is read back up to and including the last instant of its time, also from a
  -- full cache, and not after it.
  pub get-set :
      (set_at now : ℕ) (key : String) (value : T) (ttl_ms : ℕ) (store : List (Entry T))
      → (get now key (set set_at key value ttl_ms store)).found
        ≡ (if leb now (set_at + ttl_ms) then some value else none)
  unfolding get set
  get-set set_at now key value ttl_ms store =
      let e : Entry T = record { key = key; value = value; expires = set_at + ttl_ms } in
      ap (λ o. (read now (evict (delete key store) ++ (e ∷ [])) o).found)
        (find-last (evict (delete key store)) e
          (evict-All (λ x. x.key ≢ key) (delete key store) (delete-ne key store)))
      ∙ elim (Bool-cases (ltb (set_at + ttl_ms) now)) [
        | inl t ↦ rw (t, late (set_at + ttl_ms) now t) refl
        | inr t ↦ rw (t, in_time (set_at + ttl_ms) now t) refl
      ]
    where
      late : (a b : ℕ) → ltb a b ≡ true → leb b a ≡ false
      late a b t = ground arith

      in_time : (a b : ℕ) → ltb a b ≡ false → leb b a ≡ true
      in_time a b t = ground arith
