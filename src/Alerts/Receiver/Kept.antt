-- ===== src/Alerts/Receiver/Kept.antt =====
-- What the receiver keeps true of its table over any requests and failures.
use score_arc.Prelude.{
  some_ne, ℕ, suc, ◌-◌, ◌≤◌, String, Bool, true, ◌&&◌, Option, none, some, List, [], ◌∷◌, length,
  filter, All, All-imp, ltb, leb, str_eq, str_eq_self, ◌≡◌, ◌≢◌, refl, sym, ap, ◌∙◌, arith, eq_iff,
  Bool-cases, Option-cases, inl, inr, some_inj, IsDistinct, IsListed,
}
use score_arc.Alerts.Monitor.Ids.{all-All}
use score_arc.Alerts.Payload.{AlertEvent, same_count, same_text, payload_checks, same_payload}
use score_arc.Alerts.Receiver.{
  AlertRow, Mailroom, select_row, accepted_since, insert_row, with_sent, inserted, day,
  max_events_per_day,
}

-- The events accepted in the day up to an instant.
abbrev pub in_day : ℕ → AlertRow → Bool
in_day t r = ltb (t - day) r.accepted_at && leb r.accepted_at t

abbrev pub accepted_in_day : ℕ → List AlertRow → ℕ
accepted_in_day t rows = length (filter (in_day t) rows)

-- A row that says it was mailed was.
abbrev pub IsMailedAt : Option ℕ → AlertEvent → List AlertEvent → Type 0
IsMailedAt none e sent = Unit
IsMailedAt (some t) e sent = IsListed sent e

abbrev pub IsMailed : List AlertEvent → AlertRow → Type 0
IsMailed sent r = IsMailedAt r.emailed_at r.payload sent

pub record IsKept (m : Mailroom) : Type 0 where
  pub distinct : IsDistinct (λ r. r.event_id) m.table
  pub keyed : All (λ r. r.payload.event_id ≡ r.event_id) m.table
  pub mailed : All (IsMailed m.sent) m.table
  pub capped : (t : ℕ) → accepted_in_day t m.table ≤ max_events_per_day

same_count→eq : (a b : Option ℕ) → same_count a b ≡ true → a ≡ b
same_count→eq none none h = refl
same_count→eq none (some b) h = cc
same_count→eq (some a) none h = cc
same_count→eq (some a) (some b) h = ground arith

same_text→eq : (a b : Option String) → same_text a b ≡ true → a ≡ b
same_text→eq none none h = refl
same_text→eq none (some b) h = cc
same_text→eq (some a) none h = cc
same_text→eq (some a) (some b) h = ap some ((eq_iff a b).0 h)

pub same_payload→eq : (a b : AlertEvent) → same_payload a b ≡ true → a ≡ b
unfolding same_payload
same_payload→eq a b h =
    let c = all-All (λ c. c) (payload_checks a b) h in
    let e0 = (eq_iff a.competition b.competition).0 c.0 in
    let e1 = same_count→eq a.count b.count c.1.0 in
    let e2 = same_text→eq a.error b.error c.1.1.0 in
    let e3 = (eq_iff a.event_id b.event_id).0 c.1.1.1.0 in
    let e4 = same_text→eq a.freshness b.freshness c.1.1.1.1.0 in
    let e5 = (eq_iff a.incident_id b.incident_id).0 c.1.1.1.1.1.0 in
    let e6 = (eq_iff a.occurred_at b.occurred_at).0 c.1.1.1.1.1.1.0 in
    let e7 = same_count→eq a.overdue b.overdue c.1.1.1.1.1.1.1.0 in
    let e8 = same_text→eq a.poll b.poll c.1.1.1.1.1.1.1.1.0 in
    let e9 = (eq_iff a.run_url b.run_url).0 c.1.1.1.1.1.1.1.1.1.0 in
    let e10 = (eq_iff a.season b.season).0 c.1.1.1.1.1.1.1.1.1.1.0 in
    let e11 = same_count→eq a.stale b.stale c.1.1.1.1.1.1.1.1.1.1.1.0 in
    let e12 = (eq_iff a.status b.status).0 c.1.1.1.1.1.1.1.1.1.1.1.1.0 in
    λ i. record {
      competition = e0 i;
      count = e1 i;
      error = e2 i;
      event_id = e3 i;
      freshness = e4 i;
      incident_id = e5 i;
      occurred_at = e6 i;
      overdue = e7 i;
      poll = e8 i;
      run_url = e9 i;
      season = e10 i;
      stale = e11 i;
      status = e12 i;
    }

same_text_self : (a : Option String) → same_text a a ≡ true
same_text_self none = refl
same_text_self (some a) = str_eq_self a

same_count_self : (a : Option ℕ) → same_count a a ≡ true
same_count_self none = refl
same_count_self (some a) = ground arith

pub same_payload_self : (a : AlertEvent) → same_payload a a ≡ true
unfolding same_payload
same_payload_self a =
    rw
      (
        str_eq_self a.competition,
        same_count_self a.count,
        same_text_self a.error,
        str_eq_self a.event_id,
        same_text_self a.freshness,
        str_eq_self a.incident_id,
        str_eq_self a.occurred_at,
        same_count_self a.overdue,
        same_text_self a.poll,
        str_eq_self a.run_url,
        str_eq_self a.season,
        same_count_self a.stale,
        str_eq_self a.status,
      )
      refl

select_row-id :
    (id : String) (rows : List AlertRow) {r : AlertRow}
    → select_row id rows ≡ some r
    → r.event_id ≡ id
select_row-id id [] e = cc
select_row-id id (x ∷ rows) {r} e = elim (Bool-cases (str_eq x.event_id id)) [
  | inl t ↦
      let same : x ≡ r = some_inj (sym (rw t refl) ∙ e) in
      ap (λ (y : AlertRow). y.event_id) (sym same) ∙ (eq_iff x.event_id id).0 t
  | inr t ↦ select_row-id id rows (rw t at e)
]

select_row-fresh :
    (id : String) (rows : List AlertRow)
    → select_row id rows ≡ none
    → All (λ r. id ≢ r.event_id) rows
select_row-fresh id [] e = tt
select_row-fresh id (x ∷ rows) e = elim (Bool-cases (str_eq x.event_id id)) [
  | inl t ↦ absurd (some_ne (rw t at e))
  | inr t ↦ (ground (arith, eq_iff x.event_id id), select_row-fresh id rows (rw t at e))
]

accepted_in_day-since :
    (t now : ℕ) (rows : List AlertRow)
    → now ≤ t
    → accepted_in_day t rows ≤ accepted_since (now - day) rows
accepted_in_day-since t now [] h = omega arith
accepted_in_day-since t now (r ∷ rows) h = ground (arith, accepted_in_day-since t now rows h)

insert_row-capped :
    (now : ℕ) (r : AlertRow) (rows : List AlertRow)
    → r.accepted_at ≡ now
    → ltb (accepted_since (now - day) rows) max_events_per_day ≡ true
    → ((t : ℕ) → accepted_in_day t rows ≤ max_events_per_day)
    → (t : ℕ) → accepted_in_day t (r ∷ rows) ≤ max_events_per_day
insert_row-capped now r rows a room h t = elim (Bool-cases (leb now t)) [
  | inl after ↦ let b = accepted_in_day-since t now rows (ground arith) in ground (arith, h t)
  | inr before ↦ ground (arith, h t)
]

pub insert_row-IsKept :
    (now : ℕ) (e : AlertEvent) (m : Mailroom) → IsKept m → IsKept (inserted now e m)
unfolding insert_row
insert_row-IsKept now e m k =
    elim (Bool-cases (ltb (accepted_since (now - day) m.table) max_events_per_day)) [
      | inl room ↦ elim (Option-cases (select_row e.event_id m.table)) [
        | inl fresh ↦
            rw (room, fresh)
              (record {
                distinct = (select_row-fresh e.event_id m.table fresh, k.distinct);
                keyed = (refl, k.keyed);
                mailed = (tt, k.mailed);
                capped = insert_row-capped now _ m.table refl room k.capped;
              })
        | inr (r, found) ↦ rw (room, found) k
      ]
      | inr full ↦ rw full k
    ]

pub IsMailed-later :
    (e : AlertEvent) (sent : List AlertEvent) (r : AlertRow)
    → IsMailed sent r
    → IsMailed (e ∷ sent) r
IsMailed-later e sent r h = by_time r.emailed_at h
  where
    by_time : (t : Option ℕ) → IsMailedAt t r.payload sent → IsMailedAt t r.payload (e ∷ sent)
    by_time none h = tt
    by_time (some t) h = (suc h.0, h.1)

pub with_sent-IsKept : (e : AlertEvent) (m : Mailroom) → IsKept m → IsKept (with_sent e m)
with_sent-IsKept e m k = record {
  distinct = k.distinct;
  keyed = k.keyed;
  mailed = All-imp (IsMailed-later e m.sent) m.table k.mailed;
  capped = k.capped;
}
