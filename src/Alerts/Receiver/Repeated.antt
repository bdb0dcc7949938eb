-- ===== src/Alerts/Receiver/Repeated.antt =====
-- What the receiver does with a request that comes again.
use score_arc.Prelude.{
  subst, ℕ, String, true, false, ◌&&◌, Option, ◌≡◌, refl, sym, ap, ◌∙◌, Bool-cases, inl, inr,
}
use score_arc.Alerts.Payload.{AlertEvent, is_event}
use score_arc.Alerts.Receiver.{
  AlertRow, Mailroom, Env, Request, Faults, Response, acknowledged, status, Handled, acknowledge,
  with_stored, is_mailed, select_row, store, with_body, handle, RequestBody, too_large, not_json,
  not_event, parsed, is_configured, is_token, is_key,
}
use score_arc.Alerts.Receiver.Kept.{IsKept, same_payload_self}
use score_arc.Alerts.Receiver.Settled.{Promises, store-IsSettled}

-- Another run of the request, and what it answers after an acknowledgment.
abbrev Again : Type 0
Again = Faults → ℕ → ℕ → Mailroom → Handled

abbrev Repeats : Again → Response → Mailroom → Type 0
Repeats again (status code) m = Unit
Repeats again (acknowledged id) m =
    (f : Faults) (now later : ℕ)
    → f.select ≡ false
    → again f now later m ≡ record { response = acknowledged id; mailroom = m }

module _ (e : AlertEvent) (m : Mailroom) where
  with_stored-again :
      (f : Faults) (now : ℕ) (r : AlertRow)
      → r.payload ≡ e
      → is_mailed r ≡ true
      → with_stored f now e r m ≡ acknowledge e m
  unfolding with_stored
  with_stored-again f now r p u = rw (p, same_payload_self e, u) refl

  store-again :
      (response : Response)
      → Promises e m response
      → Repeats (λ f now later m. store f now later e m) response m
  unfolding store
  store-again (status code) p = tt
  store-again (acknowledged id) p =
      let (same, (r, s, q, u, mailed)) = p in
      let found = ap (λ k. select_row k m.table) (sym same) ∙ s in
      λ f now later ok.
        simp (ok, found)
          (with_stored-again f later r q u
            ∙ ap (λ x. record { response = acknowledged x; mailroom = m }) (sym same))

with_body-again :
    (f : Faults) (now later : ℕ) (key : Option String) (b : RequestBody) (m : Mailroom)
    → IsKept m
    → Repeats
        (λ f now later m. with_body f now later key b m)
        (with_body f now later key b m).response
        (with_body f now later key b m).mailroom
with_body-again f now later key too_large m k = tt
with_body-again f now later key not_json m k = tt
with_body-again f now later key not_event m k = tt
with_body-again f now later key (parsed e) m k =
    elim (Bool-cases (is_event e && is_key key e.event_id)) [
      | inr t ↦ rw t tt
      | inl t ↦ rw t (
          store-again e (store f now later e m).mailroom (store f now later e m).response
            (store-IsSettled f later e now m k).promised)
    ]

handle-Repeats :
    (env : Env) (f : Faults) (now later : ℕ) (r : Request) (m : Mailroom)
    → IsKept m
    → Repeats
        (λ f now later m. handle env f now later r m)
        (handle env f now later r m).response
        (handle env f now later r m).mailroom
unfolding handle
handle-Repeats env f now later r m k = elim (Bool-cases (is_configured env)) [
  | inr t ↦ rw t tt
  | inl t ↦ elim (Bool-cases (is_token env r.token)) [
    | inr u ↦ rw (t, u) tt
    | inl u ↦ elim (Bool-cases r.is_post) [
      | inr v ↦ rw (t, u, v) tt
      | inl v ↦ elim (Bool-cases r.is_json) [
        | inr w ↦ rw (t, u, v, w) tt
        | inl w ↦ rw (t, u, v, w) (with_body-again f now later r.idempotency_key r.body m k)
      ]
    ]
  ]
]

-- A request that was acknowledged once is acknowledged again whenever it comes right after and its
-- first reading of the table succeeds, whatever else would fail, and no second mail is sent: the
-- table and the mails stay as they are.
pub handle-again :
    (env : Env) (f : Faults) (now later : ℕ) (r : Request) (m : Mailroom)
    → IsKept m
    → (id : String) → (handle env f now later r m).response ≡ acknowledged id
    → (g : Faults) (next_now next_later : ℕ) → g.select ≡ false
    → handle env g next_now next_later r (handle env f now later r m).mailroom
      ≡ record { response = acknowledged id; mailroom = (handle env f now later r m).mailroom }
handle-again env f now later r m k id answered g next_now next_later ok =
    let again : Again = λ h at then_at room. handle env h at then_at r room in
    subst (λ x. Repeats again x (handle env f now later r m).mailroom) answered
      (handle-Repeats env f now later r m k) g next_now next_later ok
