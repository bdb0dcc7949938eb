-- ===== src/Alerts/Receiver/Settled.antt =====
-- What the receiver's answers promise, over any history of requests and failures.
use score_arc.Prelude.{
  is_some, ℕ, String, true, not, ◌&&◌, Option, none, some, List, [], ◌∷◌, All, str_eq, ◌≡◌, refl,
  sym, ◌∙◌, subst, arith, Bool-cases, inl, inr, some_inj, IsListed, if_cases,
}
use score_arc.Alerts.Payload.{AlertEvent, same_payload, is_event}
use score_arc.Alerts.Receiver.{
  AlertRow, Mailroom, Env, Request, Faults, Response, acknowledged, status, Handled, select_row,
  answer, with_sent, email, is_mailed, with_stored, or_capped, inserted, after_insert,
  with_selected, store, with_body, handle, RequestBody, too_large, not_json, not_event, parsed,
  is_configured, is_token, is_key,
}
use score_arc.Alerts.Receiver.Marked.{
  mark-IsMailed, mark-All, mark-IsDistinct, mark-accepted, select-marked,
}
use score_arc.Alerts.Receiver.Kept.{
  IsKept, IsMailed, IsMailedAt, same_payload→eq, with_sent-IsKept, insert_row-IsKept,
}

-- What an acknowledgment promises: the event is in the table and was mailed.
abbrev pub Promises : AlertEvent → Mailroom → Response → Type 0
Promises e m (status code) = Unit
Promises e m (acknowledged id) =
    (id ≡ e.event_id)
    × ((r : AlertRow) × (select_row id m.table ≡ some r)
        × (r.payload ≡ e)
        × (is_mailed r ≡ true)
        × IsListed m.sent e)

pub record IsSettled (e : AlertEvent) (h : Handled) : Type 0 where
  pub kept : IsKept h.mailroom
  pub promised : Promises e h.mailroom h.response

refused-IsSettled :
    (e : AlertEvent) (code : ℕ) (m : Mailroom) → IsKept m → IsSettled e (answer code m)
refused-IsSettled e code m k = record { kept = k; promised = tt }

All-select {κ} :
    (P : AlertRow → Type κ) (id : String) (rows : List AlertRow) {r : AlertRow}
    → All P rows
    → select_row id rows ≡ some r
    → P r
All-select P id [] h e = cc
All-select P id (x ∷ rows) {r} h e = elim (Bool-cases (str_eq x.event_id id)) [
  | inl t ↦ subst P (some_inj (sym (rw t refl) ∙ e)) h.0
  | inr t ↦ All-select P id rows h.1 (rw t at e)
]

module _ (f : Faults) (now : ℕ) (e : AlertEvent) where
  email-IsSettled :
      (r : AlertRow) (m : Mailroom)
      → IsKept m
      → select_row e.event_id m.table ≡ some r
      → r.payload ≡ e
      → IsSettled e (email f now e m)
  unfolding email
  email-IsSettled r m k s p = elim (Bool-cases f.send) [
    | inl t ↦ rw t (refused-IsSettled e 503 m k)
    | inr t ↦ elim (Bool-cases f.update) [
      | inl u ↦ rw (t, u) (refused-IsSettled e 503 (with_sent e m) (with_sent-IsKept e m k))
      | inr u ↦
          rw (t, u)
            (record {
              kept = record {
                distinct = mark-IsDistinct now e.event_id m.table k.distinct;
                keyed = mark-All now e.event_id _ (λ r t q. q) m.table k.keyed;
                mailed = mark-IsMailed now e e.event_id m.sent m.table k.distinct k.mailed s p;
                capped = λ t. rw (mark-accepted now e.event_id t m.table) (k.capped t);
              };
              promised = (
                refl,
                (
                  record r { emailed_at = some now },
                  select-marked now e.event_id m.table s,
                  p,
                  refl,
                  (0, refl),
                ),
              );
            })
    ]
  ]

  with_stored-IsSettled :
      (r : AlertRow) (m : Mailroom)
      → IsKept m
      → select_row e.event_id m.table ≡ some r
      → IsSettled e (with_stored f now e r m)
  unfolding with_stored
  with_stored-IsSettled r m k s = elim (Bool-cases (same_payload r.payload e)) [
    | inr t ↦ rw t (refused-IsSettled e 409 m k)
    | inl t ↦
        let p = same_payload→eq r.payload e t in
        elim (Bool-cases (is_mailed r)) [
          | inr u ↦ rw (t, u) (email-IsSettled r m k s p)
          | inl u ↦
              rw (t, u)
                (record {
                  kept = k;
                  promised = (
                    refl,
                    (
                      r,
                      s,
                      p,
                      u,
                      mailed_listed r.emailed_at u p
                          (All-select (IsMailed m.sent) e.event_id m.table k.mailed s),
                    ),
                  );
                })
        ]
  ]
    where
      mailed_listed :
          (t : Option ℕ)
          → is_some t ≡ true
          → r.payload ≡ e
          → IsMailedAt t r.payload m.sent
          → IsListed m.sent e
      mailed_listed none u p h = cc
      mailed_listed (some t) u p h = subst (IsListed m.sent) p h

  or_capped-IsSettled :
      (o : Option AlertRow) (m : Mailroom)
      → IsKept m
      → select_row e.event_id m.table ≡ o
      → IsSettled e (or_capped f now e o m)
  or_capped-IsSettled none m k s = refused-IsSettled e 503 m k
  or_capped-IsSettled (some r) m k s = with_stored-IsSettled r m k s

  after_insert-IsSettled : (m : Mailroom) → IsKept m → IsSettled e (after_insert f now e m)
  after_insert-IsSettled m k =
      if_cases (IsSettled e) f.select_again _ _ (λ t. refused-IsSettled e 503 m k)
        (λ t. or_capped-IsSettled (select_row e.event_id m.table) m k refl)

  with_selected-IsSettled :
      (at : ℕ) (o : Option AlertRow) (m : Mailroom)
      → IsKept m
      → select_row e.event_id m.table ≡ o
      → IsSettled e (with_selected f at now e o m)
  with_selected-IsSettled at (some r) m k s = with_stored-IsSettled r m k s
  with_selected-IsSettled at none m k s =
      if_cases (IsSettled e) f.insert _ _ (λ t. refused-IsSettled e 503 m k)
        (λ t. after_insert-IsSettled (inserted at e m) (insert_row-IsKept at e m k))

  pub store-IsSettled : (at : ℕ) (m : Mailroom) → IsKept m → IsSettled e (store f at now e m)
  unfolding store
  store-IsSettled at m k =
      if_cases (IsSettled e) f.select _ _ (λ t. refused-IsSettled e 503 m k)
        (λ t. with_selected-IsSettled at (select_row e.event_id m.table) m k refl)

-- What an answer says of the body it answers: only a valid event is acknowledged.
abbrev pub Honours : RequestBody → Mailroom → Response → Type 0
Honours (parsed e) m response = Promises e m response
Honours _ m (status code) = Unit
Honours _ m (acknowledged id) = ⊥

pub record IsAnswered (r : Request) (h : Handled) : Type 0 where
  pub kept : IsKept h.mailroom
  pub honoured : Honours r.body h.mailroom h.response

Honours-status : (b : RequestBody) (m : Mailroom) (code : ℕ) → Honours b m (status code)
Honours-status too_large m code = tt
Honours-status not_json m code = tt
Honours-status not_event m code = tt
Honours-status (parsed e) m code = tt

answer-IsAnswered :
    (r : Request) (code : ℕ) (m : Mailroom) → IsKept m → IsAnswered r (answer code m)
answer-IsAnswered r code m k = record { kept = k; honoured = Honours-status r.body m code }

with_body-IsAnswered :
    (f : Faults) (now later : ℕ) (r : Request) (b : RequestBody) (m : Mailroom)
    → r.body ≡ b
    → IsKept m
    → IsAnswered r (with_body f now later r.idempotency_key b m)
with_body-IsAnswered f now later r too_large m e k = answer-IsAnswered r 413 m k
with_body-IsAnswered f now later r not_json m e k = answer-IsAnswered r 400 m k
with_body-IsAnswered f now later r not_event m e k = answer-IsAnswered r 400 m k
with_body-IsAnswered f now later r (parsed x) m e k =
    elim (Bool-cases (is_event x && is_key r.idempotency_key x.event_id)) [
      | inr t ↦ rw t (answer-IsAnswered r 400 m k)
      | inl t ↦
          let s = store-IsSettled f later x now m k in
          rw t (record {
            kept = s.kept;
            honoured =
                subst
                  (λ b. Honours b (store f now later x m).mailroom (store f now later x m).response)
                  (sym e) s.promised;
          })
    ]

pub handle-IsAnswered :
    (env : Env) (f : Faults) (now later : ℕ) (r : Request) (m : Mailroom)
    → IsKept m
    → IsAnswered r (handle env f now later r m)
unfolding handle
handle-IsAnswered env f now later r m k =
    if_cases (IsAnswered r) (not (is_configured env)) _ _ (λ t. answer-IsAnswered r 500 m k)
      (λ t.
        if_cases (IsAnswered r) (not (is_token env r.token)) _ _ (λ u. answer-IsAnswered r 404 m k)
          (λ u.
            if_cases (IsAnswered r) (not r.is_post) _ _ (λ v. answer-IsAnswered r 405 m k)
              (λ v.
                if_cases (IsAnswered r) (not r.is_json) _ _ (λ w. answer-IsAnswered r 415 m k)
                  (λ w. with_body-IsAnswered f now later r r.body m refl k))))

-- A request with what fails in it and the instants of its insertion and its end.
pub record Call : Type 0 where
  pub faults : Faults
  pub now : ℕ
  pub later : ℕ
  pub request : Request

-- A history of requests, the last first.
abbrev pub served : Env → List Call → Mailroom
served env [] = record { table = []; sent = [] }
served env (c ∷ calls) = (handle env c.faults c.now c.later c.request (served env calls)).mailroom

-- After any requests, whatever failed in them, the table has one row for each event id, at most 300
-- rows were accepted within any one day, and a row is marked as mailed only when its event was
-- handed to the mail service.
pub served-IsKept : (env : Env) (calls : List Call) → IsKept (served env calls)
served-IsKept env [] = record { distinct = tt; keyed = tt; mailed = tt; capped = λ t. omega arith }
served-IsKept env (c ∷ calls) =
    (handle-IsAnswered env c.faults c.now c.later c.request (served env calls)
      (served-IsKept env calls)).kept
