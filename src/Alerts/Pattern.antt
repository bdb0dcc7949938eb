-- ===== src/Alerts/Pattern.antt =====
-- The regular expressions of the receiver: single characters and bounded runs of a class, each run
-- ended by a character outside it.
use Prim.Native.Char.{code}
use score_arc.Prelude.{
  ℕ, zero, suc, String, Bool, true, false, ◌&&◌, ◌||◌, List, [], ◌∷◌, leb, ◌==◌, if◌then◌else◌,
}

abbrev pub Class : Type 0
Class = ℕ → Bool

pub data Item : Type 0 where
  one : Class → Item
  upto : ℕ → Class → Item

-- Up to so many characters of a class, and what follows.
abbrev pub run_of : ℕ → Class → (String → Bool) → String → Bool
run_of zero p next s = next s
run_of (suc n) p next String.[] = next String.[]
run_of (suc n) p next (String.◌∷◌ c s) =
    let more = run_of n p next s in if p (code c) then more else next (String.◌∷◌ c s)

abbrev pub first : Class → (String → Bool) → String → Bool
first p next String.[] = false
first p next (String.◌∷◌ c s) = p (code c) && next s

abbrev pub accepts : List Item → String → Bool
accepts [] String.[] = true
accepts [] (String.◌∷◌ c s) = false
accepts (one p ∷ items) s = first p (accepts items) s
accepts (upto n p ∷ items) s = run_of n p (accepts items) s

-- `{n}` of a class.
abbrev pub repeated : ℕ → Class → List Item → List Item
repeated zero p items = items
repeated (suc n) p items = one p ∷ repeated n p items

-- The characters of a text.
abbrev pub literal : String → List Item → List Item
literal String.[] items = items
literal (String.◌∷◌ c s) items = one (λ k. k == code c) ∷ literal s items

abbrev pub digit : Class
digit c = leb 48 c && leb c 57

abbrev pub nonzero : Class
nonzero c = leb 49 c && leb c 57

abbrev pub lower_hex : Class
lower_hex c = digit c || (leb 97 c && leb c 102)

abbrev pub lower : Class
lower c = leb 97 c && leb c 122

-- `eventId`.
unfoldable pub is_event_id : String → Bool
is_event_id = accepts (
    repeated 8 lower_hex (
      literal "-" (
        repeated 4 lower_hex (
          literal "-4" (
            repeated 3 lower_hex (
              literal "-" (
                one (λ c. (c == 56) || (c == 57) || (c == 97) || (c == 98))
                ∷ repeated 3 lower_hex (
                    literal "-" (
                      repeated 12 lower_hex
                        (literal ":" (one nonzero ∷ upto 15 digit ∷ [])))))))))))

-- `slug`.
unfoldable pub is_slug : String → Bool
is_slug =
    accepts (one (λ c. lower c || digit c) ∷ upto 79 (λ c. lower c || digit c || (c == 45)) ∷ [])

abbrev pub seconds : List Item → List Item
seconds items = repeated 4 digit (
    literal "-" (
      repeated 2 digit (
        literal "-" (
          repeated 2 digit (
            literal "T" (
              repeated 2 digit
                (literal ":" (repeated 2 digit (literal ":" (repeated 2 digit items))))))))))

-- `instant`.
unfoldable pub is_instant : String → Bool
is_instant s =
    accepts (seconds (literal "Z" [])) s
    || accepts (seconds (literal "." (one digit ∷ upto 2 digit ∷ literal "Z" []))) s

-- `runUrl`.
unfoldable pub is_run_url : String → Bool
is_run_url = accepts (
    literal "https://github.com/mcasillas17/ScoreArc/actions/runs/"
      (one nonzero ∷ upto 19 digit ∷ []))

-- `http-\d{3}`.
unfoldable pub is_http_error : String → Bool
is_http_error = accepts (literal "http-" (repeated 3 digit []))
