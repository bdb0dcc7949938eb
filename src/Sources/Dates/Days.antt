-- ===== src/Sources/Dates/Days.antt =====
-- Day numbers count the days of the calendar, and an accepted window is in order and short.
use score_arc.Prelude.{
  ℕ, zero, suc, subst, ◌+◌, ◌-◌, ◌*◌, ◌/◌, ◌≤◌, ◌<◌, String, Bool, true, false, not, ◌&&◌, ◌||◌,
  Option, none, some, ◌≡◌, ap, ◌∙◌, arith, ltb, leb, if◌then◌else◌, Bool-cases, inl, inr,
  ltb-false→le, ltb→lt,
}
use score_arc.Sources.Dates.{
  CivilDate, is_leap, days_in_month, is_date, leap_day, days_before, day_number, DateRange, bind,
  match_range, checked_range, parse_range,
}

-- The day after a date.
abbrev pub next_day : CivilDate → CivilDate
next_day d =
    if ltb d.day (days_in_month d.year d.month)
    then record d { day = d.day + 1 }
    else if ltb d.month 12
    then record { year = d.year; month = d.month + 1; day = 1 }
    else record { year = d.year + 1; month = 1; day = 1 }

-- The days of the years up to and including a year.
abbrev years : ℕ → ℕ
years y = 365 * y + y / 4 - y / 100 + y / 400

years-step : (y : ℕ) → years (suc y) ≡ years y + 365 + (if is_leap (suc y) then 1 else 0)
years-step y = ground arith

month-step :
    (year month : ℕ)
    → 1 ≤ month
    → month < 12
    → days_before (month + 1) + leap_day year (month + 1)
      ≡ days_before month + leap_day year month + days_in_month year month
month-step year zero h k = absurd (omega (arith, h))
month-step year (suc zero) h k = ground arith
month-step year (suc (suc zero)) h k = ground arith
month-step year (suc (suc (suc zero))) h k = ground arith
month-step year (suc (suc (suc (suc zero)))) h k = ground arith
month-step year (suc (suc (suc (suc (suc zero))))) h k = ground arith
month-step year (suc (suc (suc (suc (suc (suc zero)))))) h k = ground arith
month-step year (suc (suc (suc (suc (suc (suc (suc zero))))))) h k = ground arith
month-step year (suc (suc (suc (suc (suc (suc (suc (suc zero)))))))) h k = ground arith
month-step year (suc (suc (suc (suc (suc (suc (suc (suc (suc zero))))))))) h k = ground arith
month-step year (suc (suc (suc (suc (suc (suc (suc (suc (suc (suc zero)))))))))) h k = ground arith
month-step year (suc (suc (suc (suc (suc (suc (suc (suc (suc (suc (suc zero))))))))))) h k =
    ground arith
month-step year (suc (suc (suc (suc (suc (suc (suc (suc (suc (suc (suc (suc n)))))))))))) h k =
    absurd (omega (arith, k))

-- The day after a date of the calendar has the next number, over the ends of months, leap days and
-- the ends of years: so the difference of two numbers is a number of days.
day_number-next : (d : CivilDate) → is_date d ≡ true → day_number (next_day d) ≡ suc (day_number d)
unfolding day_number
day_number-next d valid = elim (Bool-cases (ltb d.day (days_in_month d.year d.month))) [
  | inl t ↦
      rw t (later_day (years (d.year - 1)) (days_before d.month) (leap_day d.year d.month) d.day)
  | inr t ↦
      let facts = date_facts d.year d.month d.day (days_in_month d.year d.month) valid t in
      elim (Bool-cases (ltb d.month 12)) [
        | inl u ↦
            rw (t, u)
              (new_month (years (d.year - 1)) (days_before d.month) (leap_day d.year d.month) d.day
                (days_in_month d.year d.month) (days_before (d.month + 1))
                (leap_day d.year (d.month + 1)) (month-step d.year d.month facts.1 (ltb→lt _ _ u))
                facts.2.0)
        | inr u ↦
            rw (t, u)
              (new_year d.year d.month d.day facts.0 (ltb-false→le _ _ u) facts.2.1 facts.2.0)
      ]
]
  where
    later_day : (y b l d : ℕ) → y + b + l + (d + 1) ≡ suc (y + b + l + d)
    later_day y b l d = omega arith

    date_facts :
        (y m d n : ℕ)
        → (leb 100 y && leb 1 m && leb m 12 && leb 1 d && leb d n) ≡ true
        → ltb d n ≡ false
        → (1 ≤ y) × (1 ≤ m) × ((d ≡ n) × (m ≤ 12))
    date_facts y m d n h k = ground arith

    new_month :
        (y b l d n b' l' : ℕ) → b' + l' ≡ b + l + n → d ≡ n → y + b' + l' + 1 ≡ suc (y + b + l + d)
    new_month y b l d n b' l' h k = omega (arith, h, k)

    after : (y : ℕ) → (suc y + 1) - 1 ≡ suc y
    after y = omega arith

    before : (y : ℕ) → y ≡ suc y - 1
    before y = omega arith

    december_last : (n y l : ℕ) → n ≡ y + 365 + l → n + 0 + 0 + 1 ≡ suc (y + 334 + l + 31)
    december_last n y l h = omega (arith, h)

    over_new_year :
        (y : ℕ)
        → years ((suc y + 1) - 1) + days_before 1 + leap_day (suc y + 1) 1 + 1
          ≡ suc (years (suc y - 1) + days_before 12 + leap_day (suc y) 12 + 31)
    over_new_year y =
        ap (λ n. years n + 0 + 0 + 1) (after y)
        ∙ december_last (years (suc y)) (years y) (if is_leap (suc y) then 1 else 0) (years-step y)
        ∙ ap (λ n. suc (years n + 334 + leap_day (suc y) 12 + 31)) (before y)

    new_year :
        (y m d : ℕ)
        → 1 ≤ y
        → 12 ≤ m
        → m ≤ 12
        → d ≡ days_in_month y m
        → years ((y + 1) - 1) + days_before 1 + leap_day (y + 1) 1 + 1
          ≡ suc (years (y - 1) + days_before m + leap_day y m + d)
    new_year zero m d h k l e = absurd (omega (arith, h))
    new_year (suc y) m d h k l e =
        let december : m ≡ 12 = omega (arith, k, l) in
        let last : d ≡ 31 = subst (λ x. d ≡ days_in_month (suc y) x) december e in
        rw (december, last) (over_new_year y)

-- A window from one real date to a later one or the same, no longer than a number of days.
pub record IsWindow (max_days : ℕ) (r : DateRange) : Type 0 where
  pub real : (is_date r.start ≡ true) × (is_date r.end ≡ true)
  pub ordered : day_number r.start ≤ day_number r.end
  pub short : day_number r.end - day_number r.start ≤ max_days

abbrev pub IsWindows : ℕ → Option DateRange → Type 0
IsWindows max_days none = Unit
IsWindows max_days (some r) = IsWindow max_days r

checked_range-IsWindows :
    (max_days : ℕ) (r : DateRange) → IsWindows max_days (checked_range max_days r)
checked_range-IsWindows max_days r =
    elim (Bool-cases (not (is_date r.start) || not (is_date r.end))) [
      | inl t ↦ rw t tt
      | inr t ↦ elim (Bool-cases (ltb (day_number r.end) (day_number r.start))) [
        | inl u ↦ rw (t, u) tt
        | inr u ↦ elim (Bool-cases (ltb max_days (day_number r.end - day_number r.start))) [
          | inl v ↦ rw (t, u, v) tt
          | inr v ↦
              rw (t, u, v)
                (record {
                  real = both (is_date r.start) (is_date r.end) t;
                  ordered = ltb-false→le _ _ u;
                  short = ltb-false→le _ _ v;
                })
        ]
      ]
    ]
  where
    both : (a b : Bool) → (not a || not b) ≡ false → (a ≡ true) × (b ≡ true)
    both a b h = ground arith

-- What `parse_range` accepts, of any text at all, is a window of two real dates, in order and no
-- longer than the cap.
pub parse_range-IsWindows :
    (raw : Option String) (max_days : ℕ) → IsWindows max_days (parse_range raw max_days)
unfolding parse_range
parse_range-IsWindows none max_days = tt
parse_range-IsWindows (some raw) max_days = go (match_range raw)
  where
    go : (o : Option DateRange) → IsWindows max_days (bind o (checked_range max_days))
    go none = tt
    go (some r) = checked_range-IsWindows max_days r
