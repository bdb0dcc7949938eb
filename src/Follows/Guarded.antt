-- ===== src/Follows/Guarded.antt =====
-- What a call does to the list and to the stored document.
use text.Mathlib.TextEquality.{eq_iff}
use score_arc.Prelude.{
  ℕ, String, Bool, true, false, not, ◌&&◌, ◌||◌, some, List, [], ◌∷◌, ◌≡◌, refl, arith, leb,
  if◌then◌else◌, str_eq, Bool-cases, inl, inr, length, ap, ◌∙◌,
}
use score_arc.Follows.{
  TeamFollow, put, has_team, Checks, clean, decode, Storage, State, refresh, follow_fresh,
  follow_team, unfollow_team, without, too_large, is_future, max_teams, encode,
}
use score_arc.Follows.Held.{save-teams}

has_team-put :
    (k : String) (t : TeamFollow) (teams : List TeamFollow)
    → has_team k (put t teams) ≡ (str_eq t.team_id k || has_team k teams)
unfolding put
has_team-put k t [] = refl
has_team-put k t (u ∷ teams) = elim (Bool-cases (str_eq u.team_id t.team_id)) [
  | inl e ↦
      rw e (ground (arith, eq_iff u.team_id t.team_id, eq_iff u.team_id k, eq_iff t.team_id k))
  | inr e ↦ rw (e, has_team-put k t teams) (ground arith)
]

has_team-without :
    (k id : String) (teams : List TeamFollow)
    → has_team k (without id teams) ≡ (not (str_eq id k) && has_team k teams)
has_team-without k id [] = ground arith
has_team-without k id (t ∷ teams) = elim (Bool-cases (str_eq t.team_id id)) [
  | inl e ↦
      rw (e, has_team-without k id teams)
        (ground (arith, eq_iff t.team_id id, eq_iff t.team_id k, eq_iff id k))
  | inr e ↦
      rw (e, has_team-without k id teams)
        (ground (arith, eq_iff t.team_id id, eq_iff t.team_id k, eq_iff id k))
]

module _ (checks : Checks) (size_of : List TeamFollow → ℕ) where
  -- Whether there is a place for a team: it is followed already, or the list is not full.
  abbrev pub has_room : String → List TeamFollow → Bool
  has_room id teams = has_team id teams || not (leb max_teams (length teams))

  -- After unfollowing, exactly the other teams of the list are followed, whether or not the storage
  -- takes the change.
  unfollow_team-has_team :
      (id k : String) (s : State)
      → has_team k (unfollow_team checks size_of id s).snapshot.teams
        ≡ (not (str_eq id k) && has_team k (refresh checks s).snapshot.teams)
  unfolding unfollow_team
  unfollow_team-has_team id k s =
      ap (has_team k) (
        save-teams checks size_of (without id (refresh checks s).snapshot.teams) (refresh checks s))
      ∙ has_team-without k id (refresh checks s).snapshot.teams

  follow_fresh-has_team :
      (t : TeamFollow) (k : String) (s : State)
      → has_team k (follow_fresh checks size_of t s).snapshot.teams ≡ (
          has_team k s.snapshot.teams
          || (str_eq t.team_id k && has_room t.team_id s.snapshot.teams))
  follow_fresh-has_team t k s =
      let teams = s.snapshot.teams in
      elim (Bool-cases (not (has_team t.team_id teams) && leb max_teams (length teams))) [
        | inl full ↦ rw full (
            no_room (has_team t.team_id teams) (leb max_teams (length teams)) (has_team k teams)
              (str_eq t.team_id k) full)
        | inr room ↦
            rw (room, save-teams checks size_of (put (clean checks t) teams) s)
              (has_team-put k (clean checks t) teams
                ∙ with_room (has_team t.team_id teams) (leb max_teams (length teams))
                    (has_team k teams) (str_eq t.team_id k) room)
      ]
    where
      no_room : (b c h e : Bool) → (not b && c) ≡ true → h ≡ (h || (e && (b || not c)))
      no_room b c h e full = ground arith

      with_room : (b c h e : Bool) → (not b && c) ≡ false → (e || h) ≡ (h || (e && (b || not c)))
      with_room b c h e room = ground arith

  -- After following a valid team the list holds the teams that it held, and that team where there
  -- is a place for it, whether or not the storage takes the change. An invalid team changes nothing.
  follow_team-has_team :
      (t : TeamFollow) (k : String) (s : State)
      → has_team k (follow_team checks size_of t s).snapshot.teams ≡ (
          if checks.valid_team t
          then has_team k (refresh checks s).snapshot.teams
            || (str_eq t.team_id k && has_room t.team_id (refresh checks s).snapshot.teams)
          else has_team k s.snapshot.teams)
  unfolding follow_team
  follow_team-has_team t k s = elim (Bool-cases (checks.valid_team t)) [
    | inl v ↦ rw v (follow_fresh-has_team t k (refresh checks s))
    | inr v ↦ rw v refl
  ]

  -- A document that must not be written over: of a later version, too large to tell, or unreadable.
  abbrev pub is_guarded : Storage → Bool
  is_guarded b =
      not b.readable || too_large b.document || is_future (decode checks b.document).notice

  -- What a save leaves: the document written, or the old one with the session's changes unsaved.
  pub record IsSaved (teams : List TeamFollow) (s after : State) : Type 0 where
    pub shown : after.snapshot.teams ≡ teams
    pub stored :
        after.storage.document
        ≡ (if after.dirty then s.storage.document else some (encode checks size_of teams))
    pub unsaved :
        after.dirty ≡ (s.protected_future || is_guarded s.storage || not s.storage.writable)
