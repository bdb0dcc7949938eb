-- ===== src/Alerts/Mailed.antt =====
-- The monitor and the receiver together: what leaves the monitor's queue was mailed.
use score_arc.Prelude.{
  ℕ, suc, ◌≤◌, String, Bool, true, false, not, ◌&&◌, Option, none, some, List, [], ◌∷◌, ◌++◌, All,
  leb, if◌then◌else◌, ◌≡◌, sym, ap, subst, IsListed, if_cases,
}
use score_arc.Alerts.Run.{Run, equal_run}
use score_arc.Alerts.State.{Event, State, Config, keys_of, valid_config, is_final, max_state}
use score_arc.Alerts.Monitor.{saved, failed, refused_state, held}
use score_arc.Alerts.Delivery.{deliver_monitor}
use score_arc.Alerts.Monitor.Contract.{IsContract}
use score_arc.Alerts.Monitor.Delivered.{deliver_monitor-IsSent}
use score_arc.Alerts.Payload.{AlertEvent, is_event, same_payload}
use score_arc.Alerts.Receiver.{
  AlertRow, Mailroom, Env, Request, Faults, acknowledged, Handled, select_row, email, is_mailed,
  with_stored, or_capped, inserted, with_selected, store, with_body, handle, RequestBody, too_large,
  not_json, not_event, parsed, is_configured, is_token, is_key,
}
use score_arc.Alerts.Receiver.Settled.{Honours, handle-IsAnswered, Call, served, served-IsKept}
use score_arc.Alerts.Notification.{Texts, id_text, notification, post_of}

-- No mail is lost by a request.
module _ (x : AlertEvent) (f : Faults) (later : ℕ) (e : AlertEvent) where
  abbrev Has : Handled → Type 0
  Has h = IsListed h.mailroom.sent x

  email-Has : (m : Mailroom) → IsListed m.sent x → Has (email f later e m)
  unfolding email
  email-Has m l =
      if_cases Has f.send _ _ (λ t. l)
        (λ t. if_cases Has f.update _ _ (λ u. (suc l.0, l.1)) (λ u. (suc l.0, l.1)))

  with_stored-Has :
      (r : AlertRow) (m : Mailroom) → IsListed m.sent x → Has (with_stored f later e r m)
  unfolding with_stored
  with_stored-Has r m l =
      if_cases Has (not (same_payload r.payload e)) _ _ (λ t. l)
        (λ t. if_cases Has (is_mailed r) _ _ (λ u. l) (λ u. email-Has m l))

  or_capped-Has :
      (o : Option AlertRow) (m : Mailroom) → IsListed m.sent x → Has (or_capped f later e o m)
  or_capped-Has none m l = l
  or_capped-Has (some r) m l = with_stored-Has r m l

  with_selected-Has :
      (now : ℕ) (o : Option AlertRow) (m : Mailroom)
      → IsListed m.sent x
      → Has (with_selected f now later e o m)
  with_selected-Has now (some r) m l = with_stored-Has r m l
  with_selected-Has now none m l =
      if_cases Has f.insert _ _ (λ t. l)
        (λ t.
          if_cases Has f.select_again _ _ (λ u. l)
            (λ u.
              or_capped-Has (select_row e.event_id (inserted now e m).table) (inserted now e m) l))

  store-Has : (now : ℕ) (m : Mailroom) → IsListed m.sent x → Has (store f now later e m)
  unfolding store
  store-Has now m l =
      if_cases Has f.select _ _ (λ t. l)
        (λ t. with_selected-Has now (select_row e.event_id m.table) m l)

module _ (env : Env) (x : AlertEvent) where
  with_body-keeps :
      (f : Faults) (now later : ℕ) (key : Option String) (b : RequestBody) (m : Mailroom)
      → IsListed m.sent x
      → IsListed (with_body f now later key b m).mailroom.sent x
  with_body-keeps f now later key too_large m l = l
  with_body-keeps f now later key not_json m l = l
  with_body-keeps f now later key not_event m l = l
  with_body-keeps f now later key (parsed e) m l =
      if_cases (λ (h : Handled). IsListed h.mailroom.sent x) (is_event e && is_key key e.event_id) _
        _ (λ t. store-Has x f later e now m l) (λ t. l)

  handle-keeps :
      (c : Call) (m : Mailroom)
      → IsListed m.sent x
      → IsListed (handle env c.faults c.now c.later c.request m).mailroom.sent x
  unfolding handle
  handle-keeps c m l =
      let P : Handled → Type 0 = λ h. IsListed h.mailroom.sent x in
      if_cases P (not (is_configured env)) _ _ (λ t. l)
        (λ t.
          if_cases P (not (is_token env c.request.token)) _ _ (λ t. l)
            (λ t.
              if_cases P (not c.request.is_post) _ _ (λ t. l)
                (λ t.
                  if_cases P (not c.request.is_json) _ _ (λ t. l)
                    (λ t.
                      with_body-keeps c.faults c.now c.later c.request.idempotency_key
                        c.request.body m l))))

  served-keeps :
      (after before : List Call)
      → IsListed (served env before).sent x
      → IsListed (served env (after ++ before)).sent x
  served-keeps [] before l = l
  served-keeps (c ∷ after) before l =
      handle-keeps c (served env (after ++ before)) (served-keeps after before l)

-- A request in the receiver's history that sent an event and was answered with its id.
pub record IsReported (w : Texts) (env : Env) (calls : List Call) (e : Event) : Type 0 where
  pub after : List Call
  pub call : Call
  pub before : List Call
  pub history : calls ≡ after ++ (call ∷ before)
  pub posted : call.request ≡ post_of w env e
  pub answered :
      (handle env call.faults call.now call.later call.request (served env before)).response
      ≡ acknowledged (id_text w e.id)

IsReported-mailed :
    (w : Texts) (env : Env) (calls : List Call) (e : Event)
    → IsReported w env calls e
    → IsListed (served env calls).sent (notification w e)
IsReported-mailed w env calls e r =
    let done =
      handle env r.call.faults r.call.now r.call.later r.call.request (served env r.before) in
    let a =
      handle-IsAnswered env r.call.faults r.call.now r.call.later r.call.request
        (served env r.before) (served-IsKept env r.before) in
    let promise =
      subst (λ x. Honours (parsed (notification w e)) done.mailroom x) r.answered
        (subst (λ b. Honours b done.mailroom done.response) (ap (λ (q : Request). q.body) r.posted)
          a.honoured) in
    let (same, (row, found, payload, marked, mailed)) = promise in
    subst (λ cs. IsListed (served env cs).sent (notification w e)) (sym r.history)
      (served-keeps env (notification w e) r.after (r.call ∷ r.before) mailed)

All-mailed :
    (w : Texts) (env : Env) (calls : List Call) (acknowledges : Event → Bool)
    (sent rest : List Event)
    → All (λ e. acknowledges e ≡ true → IsReported w env calls e) (sent ++ rest)
    → All (λ e. acknowledges e ≡ true) sent
    → All (λ e. IsListed (served env calls).sent (notification w e)) sent
All-mailed w env calls acks [] rest h a = tt
All-mailed w env calls acks (e ∷ sent) rest h a =
    (IsReported-mailed w env calls e (h.0 a.0), All-mailed w env calls acks sent rest h.1 a.1)

-- A delivery loses no alert: where every acknowledgment that the monitor sees for an event in its
-- queue is one that the receiver gave to that event's request, whatever failed in the receiver and
-- whatever else it was asked, each event that the delivery takes from the queue was mailed as it
-- was sent, and the others stay in the queue in their order.
pub delivery-mailed :
    (w : Texts) (env : Env) (calls : List Call) (o : Config) (run : Run)
    (acknowledges : Event → Bool) (clock : ℕ) (s : State)
    → IsContract o.base (keys_of o) clock s
    → clock ≤ o.now
    → valid_config o run ≡ true
    → o.size_of s ≤ max_state
    → equal_run s.run run ≡ true
    → is_final s.phase ≡ false
    → All (λ e. acknowledges e ≡ true → IsReported w env calls e) s.pending
    → (t : State) × (sent : List Event) × (deliver_monitor o acknowledges run (held s)
        ≡ (if leb (o.size_of t) max_state then saved t else failed refused_state))
      × (s.pending ≡ sent ++ t.pending)
      × All (λ e. IsListed (served env calls).sent (notification w e)) sent
delivery-mailed w env calls o run acks clock s c after valid size same phase honest =
    let (t, k, sent, d) = deliver_monitor-IsSent o run acks clock s c after valid size same phase in
    (
      t,
      sent.sent,
      d,
      sent.split,
      All-mailed w env calls acks sent.sent t.pending
          (subst (All (λ e. acks e ≡ true → IsReported w env calls e)) sent.split honest)
          sent.acked,
    )
