-- ===== src/Follows/Tests.antt =====
-- Tests of the followed teams, and the theorems at sample inputs.
use score_arc.Prelude.{ℕ, String, true, not, none, some, List, [], ◌∷◌, map, ◌≡◌, refl, str_eq}
use score_arc.Follows.{
  TeamFollow, Checks, Storage, Event, followed, unfollowed, mounted, put, migrate, decode,
  read_storage, save, follow_team, unfollow_team, on_storage, get_snapshot, subscribe,
}
use score_arc.Follows.Held.{IsHeld, run, run-IsHeld}

abbrev checks : Checks
checks = record { valid_team = λ t. not (str_eq t.name ""); trim = λ s. s }

abbrev size_of : List TeamFollow → ℕ
size_of teams = 100

abbrev club : String → TeamFollow
club id = record { team_id = id; competition_id = "mls"; name = id }

abbrev empty : Storage
empty = record { document = none; readable = true; writable = true }

-- The document of a later version.
abbrev later : Storage
later = record {
  document = some (record { size = 30; body = some (record { version = some 3; entries = none }) });
  readable = true;
  writable = true;
}

abbrev events : List Event
events =
    unfollowed "b-fc"
    ∷ followed (club "a-fc")
    ∷ followed (club "b-fc")
    ∷ followed (club "a-fc")
    ∷ mounted true
    ∷ []

follows : Unit {0}
unfolding put migrate decode read_storage save follow_team unfollow_team on_storage get_snapshot
    subscribe run
follows = tt

one_left : map (λ t. t.team_id) (run checks size_of empty events).snapshot.teams ≡ "a-fc" ∷ []
unfolding follows
one_left = refl

later_kept : (run checks size_of later events).storage.document ≡ later.document
unfolding follows
later_kept = refl

run-IsHeld_example : IsHeld (run checks size_of empty events).snapshot.teams
run-IsHeld_example = run-IsHeld checks size_of empty events
