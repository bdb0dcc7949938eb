-- ===== src/Alerts/Receiver/Marked.antt =====
-- What the mark of a mailed row changes in the receiver's table.
use score_arc.Prelude.{
  ℕ, String, false, Option, some, List, [], ◌∷◌, All, All-imp, str_eq, ◌≡◌, ◌≢◌, refl, sym, ap, ◌∙◌,
  subst, arith, eq_iff, Bool-cases, inl, inr, some_inj, IsDistinct,
}
use score_arc.Alerts.Payload.{AlertEvent}
use score_arc.Alerts.Receiver.{AlertRow, select_row, mark_row, mark_emailed}
use score_arc.Alerts.Receiver.Kept.{IsMailed-later, IsMailed, accepted_in_day}

mark-unmatched :
    (now : ℕ) (id : String) (rows : List AlertRow)
    → All (λ r. id ≢ r.event_id) rows
    → mark_emailed now id rows ≡ rows
mark-unmatched now id [] h = refl
mark-unmatched now id (r ∷ rows) h =
    let other : str_eq r.event_id id ≡ false = ground (arith, eq_iff r.event_id id) in
    rw (other, mark-unmatched now id rows h.1) refl

pub mark-IsMailed :
    (now : ℕ) (e : AlertEvent) (id : String) (sent : List AlertEvent) (rows : List AlertRow)
    {r : AlertRow}
    → IsDistinct (λ r. r.event_id) rows
    → All (IsMailed sent) rows
    → select_row id rows ≡ some r
    → r.payload ≡ e
    → All (IsMailed (e ∷ sent)) (mark_emailed now id rows)
mark-IsMailed now e id sent [] d h s p = tt
mark-IsMailed now e id sent (x ∷ rows) {r} d h s p = elim (Bool-cases (str_eq x.event_id id)) [
  | inl t ↦
      let same : x ≡ r = some_inj (sym (rw t refl) ∙ s) in
      let named = (eq_iff x.event_id id).0 t in
      rw (t, mark-unmatched now id rows (subst (λ k. All (λ r. k ≢ r.event_id) rows) named d.0))
        (
          (0, ap some (sym p ∙ ap (λ (y : AlertRow). y.payload) (sym same))),
          All-imp (IsMailed-later e sent) rows h.1,
        )
  | inr t ↦
      rw t (IsMailed-later e sent x h.0, mark-IsMailed now e id sent rows d.1 h.1 (rw t at s) p)
]

module _ (now : ℕ) (id : String) where
  pub mark-All {κ} :
      (P : AlertRow → Type κ)
      → ((r : AlertRow) (t : Option ℕ) → P r → P (record r { emailed_at = t }))
      → (rows : List AlertRow) → All P rows
      → All P (mark_emailed now id rows)
  mark-All P f [] h = tt
  mark-All P f (r ∷ rows) h = elim (Bool-cases (str_eq r.event_id id)) [
    | inl t ↦ rw t (f r _ h.0, mark-All P f rows h.1)
    | inr t ↦ rw t (h.0, mark-All P f rows h.1)
  ]

  mark_row-id : (r : AlertRow) → (mark_row now id r).event_id ≡ r.event_id
  mark_row-id r = ground arith

  mark_row-accepted : (r : AlertRow) → (mark_row now id r).accepted_at ≡ r.accepted_at
  mark_row-accepted r = ground arith

  pub mark-IsDistinct :
      (rows : List AlertRow)
      → IsDistinct (λ r. r.event_id) rows
      → IsDistinct (λ r. r.event_id) (mark_emailed now id rows)
  mark-IsDistinct [] d = tt
  mark-IsDistinct (r ∷ rows) d = (
    subst (λ k. All (λ x. k ≢ x.event_id) (mark_emailed now id rows)) (sym (mark_row-id r))
        (mark-All (λ x. r.event_id ≢ x.event_id) (λ x t n. n) rows d.0),
    mark-IsDistinct rows d.1,
  )

  pub mark-accepted :
      (t : ℕ) (rows : List AlertRow)
      → accepted_in_day t (mark_emailed now id rows) ≡ accepted_in_day t rows
  mark-accepted t [] = refl
  mark-accepted t (r ∷ rows) = ground (arith, mark-accepted t rows, mark_row-accepted r)

  pub select-marked :
      (rows : List AlertRow) {r : AlertRow}
      → select_row id rows ≡ some r
      → select_row id (mark_emailed now id rows) ≡ some (record r { emailed_at = some now })
  select-marked [] e = cc
  select-marked (x ∷ rows) {r} e = elim (Bool-cases (str_eq x.event_id id)) [
    | inl t ↦
        let same : x ≡ r = some_inj (sym (rw t refl) ∙ e) in
        rw (t, t) (ap (λ (y : AlertRow). some (record y { emailed_at = some now })) same)
    | inr t ↦ rw (t, t) (select-marked rows (rw t at e))
  ]
