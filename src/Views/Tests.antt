-- ===== src/Views/Tests.antt =====
-- Tests of the views, and the theorems at sample inputs.
use score_arc.Prelude.{pos, String, true, false, none, some, List, [], ◌∷◌, map, ◌≡◌, refl}
use score_arc.Model.{Standing}
use score_arc.Model.Samples.{standing}
use score_arc.Views.Cut.{split_by_cut, group_row_class}
use score_arc.Views.Calendar.{
  Calendar, CalendarEvent, shown, answered, run_calendar, IsCoherent, run_calendar-IsCoherent,
}

abbrev league : List Standing
league =
    standing "A" 1 3 2 (pos 3) (pos 7)
    ∷ standing "B" 2 3 1 (pos 0) (pos 4)
    ∷ standing "C" 3 3 0 (pos 0) (pos 1)
    ∷ []

-- A cut below the table leaves the last club out.
cut_clamped : map (λ s. s.team.id) (split_by_cut league 8).in_cut ≡ "A" ∷ "B" ∷ []
unfolding split_by_cut
cut_clamped = refl

class_second : group_row_class (standing "B" 2 3 1 (pos 0) (pos 4)) true ≡ "row-qualify"
unfolding group_row_class
class_second = refl

abbrev source : String → List String
source range = range ∷ []

abbrev august : Calendar String
august = record {
  cursor = "august";
  state = record { matches = "august" ∷ []; loading = false; error = none };
  loaded_range = some "august";
  pending = none;
}

-- September is asked for and left before its answer; the answer comes for nobody.
abbrev events : List CalendarEvent
events = answered ∷ shown "august" ∷ shown "september" ∷ []

back_in_august : (run_calendar source august events).state.matches ≡ "august" ∷ []
unfolding run_calendar
back_in_august = refl

run_calendar-IsCoherent_example : IsCoherent source (run_calendar source august events)
run_calendar-IsCoherent_example = run_calendar-IsCoherent source august events (refl, refl, refl)
