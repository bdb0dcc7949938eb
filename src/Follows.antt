-- ===== src/Follows.antt =====
-- The teams a reader follows: src/lib/teamFollows.ts. The module's variables and the browser's
-- storage are one state. A stored text is its length with what `JSON.parse` makes of it.
pub mod Held
pub mod Guarded
mod Tests
use score_arc.Prelude.{
  ℕ, String, Bool, true, false, not, ◌&&◌, ◌||◌, Option, none, some, List, [], ◌∷◌, ◌++◌, map, ltb,
  leb, ◌==◌, if◌then◌else◌, str_eq, length, filter, find, any, all,
}

abbrev pub max_teams : ℕ
max_teams = 50

abbrev pub max_document_length : ℕ
max_document_length = 40000

pub record TeamFollow : Type 0 where
  pub team_id : String
  pub competition_id : String
  pub name : String

pub data Notice : Type 0 where
  corrupt future storage limit : Notice

pub record Snapshot : Type 0 where
  pub teams : List TeamFollow
  pub notice : Option Notice

-- An object with a version, `none` unless it is a whole number, and its teams, `none` unless they
-- are an array. An entry without the three texts is `none`.
pub record Body : Type 0 where
  pub version : Option ℕ
  pub entries : Option (List (Option TeamFollow))

-- `none`: the text is no JSON object.
pub record Document : Type 0 where
  pub size : ℕ
  pub body : Option Body

abbrev pub server_snapshot : Snapshot
server_snapshot = record { teams = []; notice = none }

abbrev pub failed : Notice → Snapshot
failed n = record { teams = []; notice = some n }

-- `Map.set` on the teams by id: a known id keeps its place.
unfoldable pub put : TeamFollow → List TeamFollow → List TeamFollow
put t [] = t ∷ []
put t (u ∷ teams) =
    let rest = put t teams in if str_eq u.team_id t.team_id then t ∷ teams else u ∷ rest

abbrev pub has_team : String → List TeamFollow → Bool
has_team id teams = any (λ t. str_eq t.team_id id) teams

abbrev pub is_future : Option Notice → Bool
is_future (some future) = true
is_future _ = false

-- What `validTeam` tests and what `trim` returns.
pub record Checks : Type 0 where
  pub valid_team : TeamFollow → Bool
  pub trim : String → String

module _ (checks : Checks) where
  abbrev pub clean : TeamFollow → TeamFollow
  clean t = record {
    team_id = t.team_id;
    competition_id = t.competition_id;
    name = checks.trim t.name;
  }

  abbrev pub valid_entry : Option TeamFollow → Bool
  valid_entry none = false
  valid_entry (some t) = checks.valid_team t

  unfoldable pub migrate : List (Option TeamFollow) → List TeamFollow → List TeamFollow
  unfolding put
  migrate [] teams = teams
  migrate (none ∷ entries) teams = migrate entries teams
  migrate (some t ∷ entries) teams = migrate entries (put (clean t) teams)

  abbrev pub decode_entries : Option (List (Option TeamFollow)) → Snapshot
  decode_entries none = failed corrupt
  decode_entries (some entries) =
      if ltb max_teams (length entries) || not (all valid_entry entries)
      then failed corrupt
      else record { teams = migrate entries []; notice = none }

  abbrev pub decode_version : Option ℕ → Option (List (Option TeamFollow)) → Snapshot
  decode_version none entries = failed corrupt
  decode_version (some version) entries =
      if ltb 2 version
      then failed future
      else if (version == 1) || (version == 2)
      then decode_entries entries
      else failed corrupt

  abbrev pub decode_body : Option Body → Snapshot
  decode_body none = failed corrupt
  decode_body (some b) = decode_version b.version b.entries

  unfoldable pub decode : Option Document → Snapshot
  unfolding migrate
  decode none = server_snapshot
  decode (some d) = if ltb max_document_length d.size then failed corrupt else decode_body d.body

-- The storage of the browser, and whether it throws.
pub record Storage : Type 0 where
  pub document : Option Document
  pub readable : Bool
  pub writable : Bool

pub record State : Type 0 where
  pub snapshot : Snapshot
  pub initialized : Bool
  pub dirty : Bool
  pub protected_future : Bool
  pub storage : Storage

abbrev pub initial : Storage → State
initial browser = record {
  snapshot = server_snapshot;
  initialized = false;
  dirty = false;
  protected_future = false;
  storage = browser;
}

abbrev pub too_large : Option Document → Bool
too_large none = false
too_large (some d) = ltb max_document_length d.size

pub record StorageEvent : Type 0 where
  -- Of this key, or of all keys.
  pub concerns_key : Bool
  -- `storageArea` is the local storage, and reading it did not throw.
  pub is_local : Bool
  pub new_value : Option Document

abbrev pub show : List TeamFollow → Option Notice → State → State
show teams notice s = record s { snapshot = record { teams = teams; notice = notice } }

abbrev pub or_limit : Option Notice → Option Notice
or_limit none = some limit
or_limit (some n) = some n

abbrev pub without : String → List TeamFollow → List TeamFollow
without id teams = filter (λ t. not (str_eq t.team_id id)) teams

-- What happens to the page: its own calls, an event, and the storage changed elsewhere.
pub data Event : Type 0 where
  followed : TeamFollow → Event
  unfollowed : String → Event
  noticed : StorageEvent → Event
  mounted : (first : Bool) → Event
  changed : Storage → Event

module _ (checks : Checks) where
  unfoldable pub read_storage : State → State
  unfolding decode
  read_storage s =
      if s.storage.readable
      then record s {
        snapshot = decode checks s.storage.document;
        protected_future = is_future (decode checks s.storage.document).notice;
        initialized = true;
      }
      else record s {
        snapshot = record { teams = s.snapshot.teams; notice = some storage };
        initialized = true;
      }

  abbrev pub refresh : State → State
  refresh s = if s.dirty then s else read_storage s

  unfoldable pub on_storage : StorageEvent → State → State
  unfolding decode
  on_storage e s = if s.dirty || not e.concerns_key || not e.is_local then s else record s {
    snapshot = decode checks e.new_value;
    protected_future = is_future (decode checks e.new_value).notice;
  }

  unfoldable pub get_snapshot : State → State
  unfolding read_storage
  get_snapshot s = if s.initialized then s else read_storage s

  -- `first`: no component listens yet.
  unfoldable pub subscribe : Bool → State → State
  unfolding get_snapshot
  subscribe first s = if first then refresh (get_snapshot s) else get_snapshot s

-- `size_of` is the length of the saved text.
module _ (checks : Checks) (size_of : List TeamFollow → ℕ) where
  abbrev pub encode : List TeamFollow → Document
  encode teams = record {
    size = size_of teams;
    body = some (record { version = some 2; entries = some (map some teams) });
  }

  abbrev pub write : List TeamFollow → State → State
  write teams s =
      if s.storage.writable
      then show teams none (record s {
        dirty = false;
        protected_future = false;
        storage = record s.storage { document = some (encode teams) };
      })
      else show teams (some storage) (record s { dirty = true; protected_future = false })

  unfoldable pub save : List TeamFollow → State → State
  unfolding decode
  save teams s =
      if s.protected_future
      then show teams (some future) (record s { dirty = true })
      else if not s.storage.readable || too_large s.storage.document
      then show teams (some storage) (record s { dirty = true })
      else if is_future (decode checks s.storage.document).notice
      then show teams (some future) (record s { dirty = true; protected_future = true })
      else write teams s

  abbrev pub follow_fresh : TeamFollow → State → State
  follow_fresh team s =
      if not (has_team team.team_id s.snapshot.teams) && leb max_teams (length s.snapshot.teams)
      then show s.snapshot.teams (or_limit s.snapshot.notice) s
      else save (put (clean checks team) s.snapshot.teams) s

  unfoldable pub follow_team : TeamFollow → State → State
  unfolding read_storage save put
  follow_team team s = if checks.valid_team team then follow_fresh team (refresh checks s) else s

  unfoldable pub unfollow_team : String → State → State
  unfolding read_storage save
  unfollow_team team_id s = let r = refresh checks s in save (without team_id r.snapshot.teams) r

  abbrev pub step : Event → State → State
  step (followed t) s = follow_team t s
  step (unfollowed id) s = unfollow_team id s
  step (noticed e) s = on_storage checks e s
  step (mounted first) s = subscribe checks first s
  step (changed browser) s = record s { storage = browser }
