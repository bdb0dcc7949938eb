-- ===== src/Views/Calendar.antt =====
-- The loading state of the match calendar: src/components/matchCalendarState.ts, and the effect of
-- src/components/MatchCalendar.tsx that drives it. `source` is what the feed has for a range. The effect's
-- first run, for the month that the server has tried already, does nothing and is left out, and so
-- is the refresh of the current month.
use text.Mathlib.TextEquality.{eq_iff}
use score_arc.Prelude.{
  String, Bool, true, false, Option, none, some, List, [], ◌∷◌, ◌≡◌, refl, sym, ap, ◌∙◌,
  if◌then◌else◌, str_eq, Bool-cases, inl, inr, subst, some_inj,
}

pub record MonthLoadState (T : Type 0) : Type 0 where
  pub matches : List T
  pub loading : Bool
  pub error : Option String

pub record MonthLoadTransition (T : Type 0) : Type 0 where
  pub state : MonthLoadState T
  pub loaded_range : Option String

pub data NavigationAction : Type 0 where
  fetch restore : NavigationAction

abbrev pub month_navigation_action : String → Option String → NavigationAction
month_navigation_action requested none = fetch
month_navigation_action requested (some loaded) = if str_eq requested loaded then restore else fetch

module _ {T : Type 0} where
  abbrev pub month_load_started : MonthLoadState T → MonthLoadState T
  month_load_started s = record s { loading = true; error = none }

  abbrev pub returned_to_loaded_month : MonthLoadState T → MonthLoadState T
  returned_to_loaded_month s = if s.loading then record s { loading = false; error = none } else s

  abbrev pub month_load_succeeded : MonthLoadState T → List T → String → MonthLoadTransition T
  month_load_succeeded s matches loaded_range = record {
    state = record s { matches = matches; loading = false; error = none };
    loaded_range = some loaded_range;
  }

  abbrev pub month_load_failed : MonthLoadState T → String → MonthLoadTransition T
  month_load_failed s error = record {
    state = record s { matches = []; loading = false; error = some error };
    loaded_range = none;
  }

-- The calendar: the range that its cursor shows, and the request that is not aborted.
pub record Calendar (T : Type 0) : Type 0 where
  pub cursor : String
  pub state : MonthLoadState T
  pub loaded_range : Option String
  pub pending : Option String

pub data CalendarEvent : Type 0 where
  shown : (range : String) → CalendarEvent
  answered : CalendarEvent
  refused : (error : String) → CalendarEvent

module _ {T : Type 0} where
  abbrev pub navigate : String → NavigationAction → Calendar T → Calendar T
  navigate range restore c = record c {
    cursor = range;
    state = returned_to_loaded_month c.state;
    pending = none;
  }
  navigate range fetch c = record c {
    cursor = range;
    state = month_load_started c.state;
    pending = some range;
  }

  abbrev pub settle : MonthLoadTransition T → Calendar T → Calendar T
  settle t c = record c { state = t.state; loaded_range = t.loaded_range; pending = none }

  module _ (source : String → List T) where
    abbrev pub answer : Option String → Calendar T → Calendar T
    answer none c = c
    answer (some range) c = settle (month_load_succeeded c.state (source range) range) c

    abbrev pub refuse : Option String → String → Calendar T → Calendar T
    refuse none error c = c
    refuse (some range) error c = settle (month_load_failed c.state error) c

    abbrev pub calendar_step : CalendarEvent → Calendar T → Calendar T
    calendar_step (shown range) c = navigate range (month_navigation_action range c.loaded_range) c
    calendar_step answered c = answer c.pending c
    calendar_step (refused error) c = refuse c.pending error c

    unfoldable pub run_calendar : Calendar T → List CalendarEvent → Calendar T
    run_calendar c [] = c
    run_calendar c (e ∷ events) = calendar_step e (run_calendar c events)

    -- The matches held are those of the loaded range, and none where no range is loaded.
    abbrev pub Held : Option String → List T → Type 0
    Held none matches = matches ≡ []
    Held (some range) matches = matches ≡ source range

    -- Settled: the matches of the shown month and no other's. Failed: no matches. Loading: the
    -- request is for the shown month.
    abbrev pub Shows :
        Option String → Option String → String → Option String → MonthLoadState T → Type 0
    Shows none none cursor loaded s =
        (loaded ≡ some cursor) × (s.matches ≡ source cursor) × (s.loading ≡ false)
    Shows none (some error) cursor loaded s =
        (loaded ≡ none) × (s.matches ≡ []) × (s.loading ≡ false)
    Shows (some range) none cursor loaded s =
        (range ≡ cursor) × (s.loading ≡ true) × Held loaded s.matches
    Shows (some range) (some error) cursor loaded s = ⊥

    abbrev pub IsCoherent : Calendar T → Type 0
    IsCoherent c = Shows c.pending c.state.error c.cursor c.loaded_range c.state

    abbrev calendar_of :
        String → List T → Bool → Option String → Option String → Option String → Calendar T
    calendar_of cursor matches loading error loaded pending = record {
      cursor = cursor;
      state = record { matches = matches; loading = loading; error = error };
      loaded_range = loaded;
      pending = pending;
    }

    same_text : (a b : String) → str_eq a b ≡ true → a ≡ b
    same_text a b t = (eq_iff a b).0 t

    fetch-IsCoherent :
        (range cursor : String) (matches : List T) (loading : Bool)
        (error loaded pending : Option String)
        → Held loaded matches
        → IsCoherent
            (navigate range fetch (calendar_of cursor matches loading error loaded pending))
    fetch-IsCoherent range cursor matches loading error loaded pending h = (refl, refl, h)

    Shows-Held :
        (cursor : String) (matches : List T) (loading : Bool) (error loaded pending : Option String)
        → IsCoherent (calendar_of cursor matches loading error loaded pending)
        → Held loaded matches
    Shows-Held cursor matches loading none loaded none h = subst (λ l. Held l matches) (sym h.0) h.1
    Shows-Held cursor matches loading (some e) loaded none h =
        subst (λ l. Held l matches) (sym h.0) h.1
    Shows-Held cursor matches loading none loaded (some p) h = h.2
    Shows-Held cursor matches loading (some e) loaded (some p) h = absurd h

    restore-IsCoherent :
        (range cursor : String) (matches : List T) (loading : Bool) (error : Option String)
        (r : String) (pending : Option String)
        → str_eq range r ≡ true
        → IsCoherent (calendar_of cursor matches loading error (some r) pending)
        → IsCoherent
            (navigate range restore (calendar_of cursor matches loading error (some r) pending))
    restore-IsCoherent range cursor matches false none r none t h =
        let same : r ≡ range = sym (same_text range r t) in
        (ap some same, subst (λ x. matches ≡ source x) (some_inj (sym h.0) ∙ same) h.1, refl)
    restore-IsCoherent range cursor matches true none r none t h = cc (h.2)
    restore-IsCoherent range cursor matches loading (some e) r none t h = cc (h.0)
    restore-IsCoherent range cursor matches true none r (some p) t h =
        let same : r ≡ range = sym (same_text range r t) in
        (ap some same, subst (λ x. matches ≡ source x) same h.2, refl)
    restore-IsCoherent range cursor matches false none r (some p) t h = cc (h.1)
    restore-IsCoherent range cursor matches loading (some e) r (some p) t h = absurd h

    shown-IsCoherent :
        (range cursor : String) (matches : List T) (loading : Bool)
        (error loaded pending : Option String)
        → IsCoherent (calendar_of cursor matches loading error loaded pending)
        → IsCoherent
            (calendar_step (shown range) (calendar_of cursor matches loading error loaded pending))
    shown-IsCoherent range cursor matches loading error none pending h =
        fetch-IsCoherent range cursor matches loading error none pending
          (Shows-Held cursor matches loading error none pending h)
    shown-IsCoherent range cursor matches loading error (some r) pending h =
        elim (Bool-cases (str_eq range r)) [
          | inl t ↦ rw t (restore-IsCoherent range cursor matches loading error r pending t h)
          | inr t ↦ rw t (
              fetch-IsCoherent range cursor matches loading error (some r) pending
                (Shows-Held cursor matches loading error (some r) pending h))
        ]

    answered-IsCoherent :
        (cursor : String) (matches : List T) (loading : Bool) (error loaded pending : Option String)
        → IsCoherent (calendar_of cursor matches loading error loaded pending)
        → IsCoherent
            (calendar_step answered (calendar_of cursor matches loading error loaded pending))
    answered-IsCoherent cursor matches loading error loaded none h = h
    answered-IsCoherent cursor matches loading none loaded (some p) h =
        (ap some h.0, ap source h.0, refl)
    answered-IsCoherent cursor matches loading (some e) loaded (some p) h = absurd h

    refused-IsCoherent :
        (why cursor : String) (matches : List T) (loading : Bool)
        (error loaded pending : Option String)
        → IsCoherent (calendar_of cursor matches loading error loaded pending)
        → IsCoherent
            (calendar_step (refused why) (calendar_of cursor matches loading error loaded pending))
    refused-IsCoherent why cursor matches loading error loaded none h = h
    refused-IsCoherent why cursor matches loading error loaded (some p) h = (refl, refl, refl)

    -- From a calendar that shows its month, and after any navigation, answers and failures, the
    -- calendar is in one of three states: settled on the matches of the month that its cursor shows,
    -- loading that month, or failed with no matches. It never settles on another month's matches.
    pub run_calendar-IsCoherent :
        (c : Calendar T) (events : List CalendarEvent)
        → IsCoherent c
        → IsCoherent (run_calendar c events)
    unfolding run_calendar
    run_calendar-IsCoherent c [] h = h
    run_calendar-IsCoherent c (shown range ∷ events) h =
        let d = run_calendar c events in
        shown-IsCoherent range d.cursor d.state.matches d.state.loading d.state.error d.loaded_range
          d.pending (run_calendar-IsCoherent c events h)
    run_calendar-IsCoherent c (answered ∷ events) h =
        let d = run_calendar c events in
        answered-IsCoherent d.cursor d.state.matches d.state.loading d.state.error d.loaded_range
          d.pending (run_calendar-IsCoherent c events h)
    run_calendar-IsCoherent c (refused why ∷ events) h =
        let d = run_calendar c events in
        refused-IsCoherent why d.cursor d.state.matches d.state.loading d.state.error d.loaded_range
          d.pending (run_calendar-IsCoherent c events h)
