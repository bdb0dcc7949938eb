-- ===== src/Follows/Held.antt =====
-- The list of followed teams: one entry per team, never more than the limit.
use text.Mathlib.TextEquality.{eq_iff}
use score_arc.Prelude.{
  ℕ, suc, ◌+◌, ◌≤◌, String, Bool, true, false, not, ◌&&◌, ◌||◌, Option, none, some, List, [], ◌∷◌,
  ◌≡◌, ◌≢◌, refl, arith, ltb, leb, ◌==◌, if◌then◌else◌, str_eq, Bool-cases, inl, inr, length, all,
  All, All-filter, length-filter, IsDistinct,
}
use score_arc.Follows.{
  TeamFollow, Body, Document, put, has_team, Checks, clean, valid_entry, migrate, decode_entries,
  decode_version, decode_body, decode, Storage, State, initial, StorageEvent, read_storage, refresh,
  save, follow_fresh, follow_team, unfollow_team, without, on_storage, get_snapshot, subscribe,
  Event, step, too_large, is_future, max_teams, followed, unfollowed, noticed, mounted, changed,
  max_document_length,
}

abbrev pub IsHeld : List TeamFollow → Type 0
IsHeld teams = IsDistinct (λ t. t.team_id) teams × (length teams ≤ max_teams)

put-All_ne :
    (id : String) (t : TeamFollow) (teams : List TeamFollow)
    → id ≢ t.team_id
    → All (λ u. id ≢ u.team_id) teams
    → All (λ u. id ≢ u.team_id) (put t teams)
unfolding put
put-All_ne id t [] ne h = (ne, tt)
put-All_ne id t (u ∷ teams) ne h = elim (Bool-cases (str_eq u.team_id t.team_id)) [
  | inl e ↦ rw e (ne, h.1)
  | inr e ↦ rw e (h.0, put-All_ne id t teams ne h.1)
]

same_ids :
    (a b : String) (teams : List TeamFollow)
    → str_eq a b ≡ true
    → All (λ u. a ≢ u.team_id) teams
    → All (λ u. b ≢ u.team_id) teams
same_ids a b [] e h = tt
same_ids a b (u ∷ teams) e h = (ground (arith, eq_iff a b, h.0), same_ids a b teams e h.1)

differ : (a b : String) → str_eq a b ≡ false → a ≢ b
differ a b e = ground (arith, eq_iff a b)

put-IsDistinct :
    (t : TeamFollow) (teams : List TeamFollow)
    → IsDistinct (λ u. u.team_id) teams
    → IsDistinct (λ u. u.team_id) (put t teams)
unfolding put
put-IsDistinct t [] d = (tt, tt)
put-IsDistinct t (u ∷ teams) d = elim (Bool-cases (str_eq u.team_id t.team_id)) [
  | inl e ↦ rw e (same_ids u.team_id t.team_id teams e d.0, d.1)
  | inr e ↦
      rw e (
        put-All_ne u.team_id t teams (differ u.team_id t.team_id e) d.0,
        put-IsDistinct t teams d.1,
      )
]

length-put :
    (t : TeamFollow) (teams : List TeamFollow)
    → length (put t teams) ≡ (if has_team t.team_id teams then length teams else suc (length teams))
unfolding put
length-put t [] = refl
length-put t (u ∷ teams) = elim (Bool-cases (str_eq u.team_id t.team_id)) [
  | inl e ↦ rw e refl
  | inr e ↦ rw e (ground (arith, length-put t teams))
]

length-put_le :
    (t : TeamFollow) (teams : List TeamFollow) → length (put t teams) ≤ suc (length teams)
length-put_le t teams = ground (arith, length-put t teams)

without-IsHeld : (id : String) (teams : List TeamFollow) → IsHeld teams → IsHeld (without id teams)
without-IsHeld id teams h =
    (apart teams h.0, ground (arith, h.1, length-filter (λ t. not (str_eq t.team_id id)) teams))
  where
    apart :
        (teams : List TeamFollow)
        → IsDistinct (λ t. t.team_id) teams
        → IsDistinct (λ t. t.team_id) (without id teams)
    apart [] d = tt
    apart (t ∷ teams) d = elim (Bool-cases (not (str_eq t.team_id id))) [
      | inl e ↦ rw e (
        All-filter (λ u. t.team_id ≢ u.team_id) (λ u. not (str_eq u.team_id id)) teams d.0,
        apart teams d.1,
      )
      | inr e ↦ rw e (apart teams d.1)
    ]

nil-IsHeld : IsHeld []
nil-IsHeld = (tt, omega arith)

module _ (checks : Checks) where
  migrate-IsDistinct :
      (entries : List (Option TeamFollow)) (teams : List TeamFollow)
      → IsDistinct (λ t. t.team_id) teams
      → IsDistinct (λ t. t.team_id) (migrate checks entries teams)
  unfolding migrate
  migrate-IsDistinct [] teams d = d
  migrate-IsDistinct (none ∷ entries) teams d = migrate-IsDistinct entries teams d
  migrate-IsDistinct (some t ∷ entries) teams d =
      migrate-IsDistinct entries (put (clean checks t) teams)
        (put-IsDistinct (clean checks t) teams d)

  length-migrate :
      (entries : List (Option TeamFollow)) (teams : List TeamFollow)
      → length (migrate checks entries teams) ≤ length entries + length teams
  unfolding migrate
  length-migrate [] teams = omega arith
  length-migrate (none ∷ entries) teams = omega (arith, length-migrate entries teams)
  length-migrate (some t ∷ entries) teams = omega (
    arith,
    length-migrate entries (put (clean checks t) teams),
    length-put_le (clean checks t) teams,
  )

  decode_entries-IsHeld :
      (o : Option (List (Option TeamFollow))) → IsHeld (decode_entries checks o).teams
  decode_entries-IsHeld none = nil-IsHeld
  decode_entries-IsHeld (some entries) =
      elim (Bool-cases (ltb max_teams (length entries) || not (all (valid_entry checks) entries))) [
        | inl t ↦ rw t nil-IsHeld
        | inr t ↦ rw t (
          migrate-IsDistinct entries [] tt,
          few (length entries) (length (migrate checks entries []))
              (not (all (valid_entry checks) entries)) t (length-migrate entries []),
        )
      ]
    where
      few : (n k : ℕ) (b : Bool) → (ltb max_teams n || b) ≡ false → k ≤ n + 0 → k ≤ max_teams
      few n k b t h = ground arith

  decode_version-IsHeld :
      (o : Option ℕ) (e : Option (List (Option TeamFollow)))
      → IsHeld (decode_version checks o e).teams
  decode_version-IsHeld none e = nil-IsHeld
  decode_version-IsHeld (some v) e = elim (Bool-cases (ltb 2 v)) [
    | inl t ↦ rw t nil-IsHeld
    | inr t ↦ elim (Bool-cases ((v == 1) || (v == 2))) [
      | inl k ↦ rw (t, k) (decode_entries-IsHeld e)
      | inr k ↦ rw (t, k) nil-IsHeld
    ]
  ]

  decode-IsHeld : (o : Option Document) → IsHeld (decode checks o).teams
  unfolding decode
  decode-IsHeld none = nil-IsHeld
  decode-IsHeld (some d) = elim (Bool-cases (ltb max_document_length d.size)) [
    | inl t ↦ rw t nil-IsHeld
    | inr t ↦ rw t (body d.body)
  ]
    where
      body : (o : Option Body) → IsHeld (decode_body checks o).teams
      body none = nil-IsHeld
      body (some b) = decode_version-IsHeld b.version b.entries

module _ (checks : Checks) (size_of : List TeamFollow → ℕ) where
  abbrev pub IsHeldIn : State → Type 0
  IsHeldIn s = IsHeld s.snapshot.teams

  read_storage-IsHeld : (s : State) → IsHeldIn s → IsHeldIn (read_storage checks s)
  unfolding read_storage
  read_storage-IsHeld s h = elim (Bool-cases s.storage.readable) [
    | inl t ↦ rw t (decode-IsHeld checks s.storage.document)
    | inr t ↦ rw t h
  ]

  either-IsHeld : (b : Bool) (s t : State) → IsHeldIn s → IsHeldIn t → IsHeldIn (if b then s else t)
  either-IsHeld true s t hs ht = hs
  either-IsHeld false s t hs ht = ht

  refresh-IsHeld : (s : State) → IsHeldIn s → IsHeldIn (refresh checks s)
  refresh-IsHeld s h = either-IsHeld s.dirty s (read_storage checks s) h (read_storage-IsHeld s h)

  -- A save shows its teams on every branch.
  pub save-teams :
      (teams : List TeamFollow) (s : State) → (save checks size_of teams s).snapshot.teams ≡ teams
  unfolding save
  save-teams teams s = elim (Bool-cases s.protected_future) [
    | inl p ↦ rw p refl
    | inr p ↦ elim (Bool-cases (not s.storage.readable || too_large s.storage.document)) [
      | inl r ↦ rw (p, r) refl
      | inr r ↦ elim (Bool-cases (is_future (decode checks s.storage.document).notice)) [
        | inl f ↦ rw (p, r, f) refl
        | inr f ↦ elim (Bool-cases s.storage.writable) [
          | inl w ↦ rw (p, r, f, w) refl
          | inr w ↦ rw (p, r, f, w) refl
        ]
      ]
    ]
  ]

  follow_fresh-IsHeld :
      (t : TeamFollow) (s : State) → IsHeldIn s → IsHeldIn (follow_fresh checks size_of t s)
  follow_fresh-IsHeld t s h =
      elim (Bool-cases
        (not (has_team t.team_id s.snapshot.teams) && leb max_teams (length s.snapshot.teams))) [
          | inl full ↦ rw full h
          | inr room ↦
              rw (room, save-teams (put (clean checks t) s.snapshot.teams) s)
                (
                  put-IsDistinct (clean checks t) s.snapshot.teams h.0,
                  fits (has_team t.team_id s.snapshot.teams) (length s.snapshot.teams) room h.1
                      (length-put (clean checks t) s.snapshot.teams),
                )
        ]
    where
      fits :
          (b : Bool) (n : ℕ) {k : ℕ}
          → (not b && leb max_teams n) ≡ false
          → n ≤ max_teams
          → k ≡ (if b then n else suc n)
          → k ≤ max_teams
      fits b n room h e = ground arith

  follow_team-IsHeld :
      (t : TeamFollow) (s : State) → IsHeldIn s → IsHeldIn (follow_team checks size_of t s)
  unfolding follow_team
  follow_team-IsHeld t s h = elim (Bool-cases (checks.valid_team t)) [
    | inl v ↦ rw v (follow_fresh-IsHeld t (refresh checks s) (refresh-IsHeld s h))
    | inr v ↦ rw v h
  ]

  unfollow_team-IsHeld :
      (id : String) (s : State) → IsHeldIn s → IsHeldIn (unfollow_team checks size_of id s)
  unfolding unfollow_team
  unfollow_team-IsHeld id s h =
      rw (save-teams (without id (refresh checks s).snapshot.teams) (refresh checks s))
        (without-IsHeld id (refresh checks s).snapshot.teams (refresh-IsHeld s h))

  on_storage-IsHeld : (e : StorageEvent) (s : State) → IsHeldIn s → IsHeldIn (on_storage checks e s)
  unfolding on_storage
  on_storage-IsHeld e s h = elim (Bool-cases (s.dirty || not e.concerns_key || not e.is_local)) [
    | inl t ↦ rw t h
    | inr t ↦ rw t (decode-IsHeld checks e.new_value)
  ]

  get_snapshot-IsHeld : (s : State) → IsHeldIn s → IsHeldIn (get_snapshot checks s)
  unfolding get_snapshot
  get_snapshot-IsHeld s h = elim (Bool-cases s.initialized) [
    | inl t ↦ rw t h
    | inr t ↦ rw t (read_storage-IsHeld s h)
  ]

  subscribe-IsHeld : (first : Bool) (s : State) → IsHeldIn s → IsHeldIn (subscribe checks first s)
  unfolding subscribe
  subscribe-IsHeld true s h = refresh-IsHeld (get_snapshot checks s) (get_snapshot-IsHeld s h)
  subscribe-IsHeld false s h = get_snapshot-IsHeld s h

  -- The state after a history of events, the latest first.
  unfoldable pub run : Storage → List Event → State
  run browser [] = initial browser
  run browser (e ∷ events) = step checks size_of e (run browser events)

  -- After any events, with the storage changed elsewhere, unreadable or full of anything, the list
  -- shown has one entry per team and never more than fifty.
  pub run-IsHeld :
      (browser : Storage) (events : List Event) → IsHeld (run browser events).snapshot.teams
  unfolding run
  run-IsHeld browser [] = nil-IsHeld
  run-IsHeld browser (followed t ∷ events) =
      follow_team-IsHeld t (run browser events) (run-IsHeld browser events)
  run-IsHeld browser (unfollowed id ∷ events) =
      unfollow_team-IsHeld id (run browser events) (run-IsHeld browser events)
  run-IsHeld browser (noticed e ∷ events) =
      on_storage-IsHeld e (run browser events) (run-IsHeld browser events)
  run-IsHeld browser (mounted first ∷ events) =
      subscribe-IsHeld first (run browser events) (run-IsHeld browser events)
  run-IsHeld browser (changed b ∷ events) = run-IsHeld browser events
