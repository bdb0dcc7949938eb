-- ===== src/Alerts/Run.antt =====
-- The provenance of a run, and the texts that name one: `validateRun` and the patterns of
-- scripts/match-freshness-monitor.mjs.
use Prim.Native.Char.{code}
use score_arc.Prelude.{
  ℕ, zero, suc, String, Bool, true, false, ◌&&◌, ◌||◌, List, [], ◌∷◌, leb, ◌==◌, str_eq,
}

pub record Run : Type 0 where
  pub repository : String
  pub workflow : String
  pub ref : String
  pub id : ℕ
  pub number : ℕ
  pub attempt : ℕ
  pub sha : String

-- `Number.MAX_SAFE_INTEGER`.
abbrev pub max_safe : ℕ
max_safe = 9007199254740991

-- `positive`.
abbrev pub is_positive : ℕ → Bool
is_positive n = leb 1 n && leb n max_safe

-- `[a-f0-9]`.
abbrev pub is_hex : ℕ → Bool
is_hex c = (leb 48 c && leb c 57) || (leb 97 c && leb c 102)

-- The classes of a pattern's characters, one for each place of the text.
abbrev pub fits : List (ℕ → Bool) → String → Bool
fits [] String.[] = true
fits [] (String.◌∷◌ c s) = false
fits (p ∷ ps) String.[] = false
fits (p ∷ ps) (String.◌∷◌ c s) = p (code c) && fits ps s

abbrev pub times : ℕ → (ℕ → Bool) → List (ℕ → Bool) → List (ℕ → Bool)
times zero p ps = ps
times (suc n) p ps = p ∷ times n p ps

-- `/^[a-f0-9]{40}$/`.
unfoldable pub is_sha : String → Bool
is_sha s = fits (times 40 is_hex []) s

abbrev pub is_dash : ℕ → Bool
is_dash c = c == 45

abbrev pub is_four : ℕ → Bool
is_four c = c == 52

-- `[89ab]`.
abbrev pub is_variant : ℕ → Bool
is_variant c = (c == 56) || (c == 57) || (c == 97) || (c == 98)

-- `uuidPattern`.
unfoldable pub is_uuid : String → Bool
is_uuid s =
    fits
      (times 8 is_hex (
        is_dash
        ∷ times 4 is_hex (
            is_dash
            ∷ is_four
            ∷ times 3 is_hex
                (is_dash ∷ is_variant ∷ times 3 is_hex (is_dash ∷ times 12 is_hex [])))))
      s

unfoldable pub valid_run : Run → Bool
unfolding is_sha
valid_run r =
    str_eq r.repository "mcasillas17/ScoreArc"
    && str_eq r.workflow ".github/workflows/match-freshness.yml"
    && str_eq r.ref "refs/heads/main"
    && is_positive r.id
    && is_positive r.number
    && (r.attempt == 1)
    && is_sha r.sha

abbrev pub equal_run : Run → Run → Bool
equal_run a b =
    str_eq a.repository b.repository
    && str_eq a.workflow b.workflow
    && str_eq a.ref b.ref
    && (a.id == b.id)
    && (a.number == b.number)
    && (a.attempt == b.attempt)
    && str_eq a.sha b.sha
