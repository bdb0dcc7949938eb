-- ===== src/Alerts/Monitor/Contract.antt =====
-- The contract of a state as an invariant, and that it passes every check of `validateState`.
use score_arc.Prelude.{
  is_nil, ℕ, ◌+◌, ◌≤◌, ◌<◌, min, String, true, false, not, ◌||◌, Option, none, some, List, [], ◌∷◌,
  map, length, all, any, has, All, All-imp, if◌then◌else◌, str_eq, str_eq_self, ◌≡◌, refl, sym, ◌∙◌,
  subst, arith, eq_iff, Bool-cases, inl, inr, ◌≢◌, IsDistinct,
}
use score_arc.Alerts.Run.{max_safe, valid_run, is_uuid}
use score_arc.Alerts.State.{
  EventId, Event, State, Incidents, is_resolved, valid_event, open_in_epoch, is_open, continues,
  is_reserved, lookup, put, in_order, is_same_incident, in_sequence, max_pending, max_receipts,
  max_sends, is_final,
}
use score_arc.Alerts.Monitor.{flat}
use score_arc.Alerts.Monitor.Ids.{id_eq_self}

-- Which incident each scope has open.
abbrev pub Opened : Type 0
Opened = String → Option EventId

abbrev pub opened_after : Event → Option EventId
opened_after e = if is_resolved e.status then none else some e.incident_id

abbrev pub reopened : Opened → Event → Opened
reopened f e = λ k. if str_eq e.scope k then opened_after e else f k

-- An event opens an incident where none is, or resolves the one that is.
abbrev pub IsTurn : Option EventId → Event → Type 0
IsTurn none e = (is_resolved e.status ≡ false) × (e.incident_id ≡ e.id)
IsTurn (some i) e =
    (is_resolved e.status ≡ true) × (e.incident_id ≡ i) × (e.incident_id.number < e.id.number)

abbrev pub IsChain : Opened → List Event → Opened → Type 0
IsChain f [] g = (k : String) → f k ≡ g k
IsChain f (e ∷ events) g = IsTurn (f e.scope) e × IsChain (reopened f e) events g

abbrev pub incidents_of : Incidents → Opened
incidents_of incidents = λ k. flat (lookup k incidents)

-- What the monitor keeps true of its state; `gone` events are acknowledged, `lost` of them have no
-- receipt any more.
pub record IsContract (base : String) (keys : List String) (clock : ℕ) (s : State) : Type 0 where
  pub origin : s.origin ≡ base
  pub uuid : is_uuid s.epoch ≡ true
  pub run : valid_run s.run ≡ true
  pub bounded : s.sequence ≤ max_safe
  pub updated : s.updated_at ≤ clock
  pub filed : map (λ i. i.0) s.incidents ≡ keys
  pub incidents : All (λ i. open_in_epoch s i.1 ≡ true) s.incidents
  pub room : length s.pending ≤ max_pending
  pub events : All (λ e. valid_event s keys e ≡ true) s.pending
  pub gone : ℕ
  pub counted : s.sequence ≡ gone + length s.pending
  pub lost : ℕ
  pub kept : gone ≡ lost + length s.delivered
  pub receipts : length s.delivered ≡ min max_receipts gone
  pub receipts_run : continues s.epoch lost (map (λ r. r.id) s.delivered) ≡ true
  pub pending_run : continues s.epoch gone (map (λ e. e.id) s.pending) ≡ true
  pub acknowledged : All (λ r. r.acknowledged_at ≤ clock) s.delivered
  pub before : Opened
  pub chain : IsChain before s.pending (incidents_of s.incidents)
  pub marked : s.data_incident ≡ any is_open s.incidents
  pub taken : is_reserved s.reserved s.pending ≡ true
  pub sends : length s.reserved ≤ max_sends
  pub closed : (not (is_final s.phase) || is_nil s.reserved) ≡ true

pub lookup-put {ℓ} :
    {A : Type ℓ} (k j : String) (a : A) (m : List (String × A))
    → lookup j (put k a m) ≡ (if str_eq k j then some a else lookup j m)
lookup-put k j a [] = refl
lookup-put k j a (x ∷ m) =
    ground (arith, eq_iff x.0 k, eq_iff x.0 j, eq_iff k j, lookup-put k j a m)

IsTurn-in_order :
    (i : Option EventId) (p : Option Event) (e : Event)
    → IsTurn i e
    → ((q : Event) → p ≡ some q → i ≡ opened_after q)
    → in_order p e ≡ true
IsTurn-in_order i none e t h = by_opened i t
  where
    by_opened : (i : Option EventId) → IsTurn i e → in_order none e ≡ true
    by_opened none t = ground arith
    by_opened (some i) t = ground arith
IsTurn-in_order i (some q) e t h = by_opened i t (h q refl)
  where
    by_opened : (i : Option EventId) → IsTurn i e → i ≡ opened_after q → in_order (some q) e ≡ true
    by_opened none t h = ground arith
    by_opened (some i) t h =
        ground (arith, id_eq_self e.incident_id, eq_iff e.incident_id.epoch q.incident_id.epoch)

pub All-zip {ℓ κ μ ν} :
    {A : Type ℓ} {P : A → Type κ} {Q : A → Type μ} {R : A → Type ν}
    → ((x : A) → P x → Q x → R x)
    → (xs : List A) → All P xs
    → All Q xs
    → All R xs
All-zip f [] p q = tt
All-zip f (x ∷ xs) p q = (f x p.0 q.0, All-zip f xs p.1 q.1)

-- The last event of each scope tells what is open there.
module _ (keys : List String) where
  abbrev pub IsLast : Opened → List (String × Event) → Type 0
  IsLast f last =
      All (λ l. (f l.0 ≡ opened_after l.1) × (has l.0 keys ≡ true)) last
      × IsDistinct (λ l. l.0) last

  IsLast-lookup :
      (f : Opened) (k : String) (last : List (String × Event)) {e : Event}
      → IsLast f last
      → lookup k last ≡ some e
      → f k ≡ opened_after e
  IsLast-lookup f k [] h l = cc
  IsLast-lookup f k (x ∷ last) h l = elim (Bool-cases (str_eq x.0 k)) [
    | inl t ↦ ground (arith, eq_iff x.0 k, h.0.0.0)
    | inr t ↦ IsLast-lookup f k last (h.0.1, h.1.1) (rw t at l)
  ]

  put-ne :
      (j k : String) (e : Event) (last : List (String × Event))
      → j ≢ k
      → All (λ l. j ≢ l.0) last
      → All (λ l. j ≢ l.0) (put k e last)
  put-ne j k e [] n h = (n, tt)
  put-ne j k e (x ∷ last) n h = elim (Bool-cases (str_eq x.0 k)) [
    | inl t ↦ rw t h
    | inr t ↦ rw t (h.0, put-ne j k e last n h.1)
  ]

  reopened-ne : (f : Opened) (e : Event) (k : String) → e.scope ≢ k → reopened f e k ≡ f k
  reopened-ne f e k n = ground (arith, eq_iff e.scope k)

  IsLast-put :
      (f : Opened) (last : List (String × Event)) (e : Event)
      → IsLast f last
      → has e.scope keys ≡ true
      → IsLast (reopened f e) (put e.scope e last)
  IsLast-put f [] e h k = (((rw (str_eq_self e.scope) refl, k), tt), (tt, tt))
  IsLast-put f (x ∷ last) e h k = elim (Bool-cases (str_eq x.0 e.scope)) [
    | inl t ↦
        let same = (eq_iff x.0 e.scope).0 t in
        rw t (
          (
            (
              subst (λ j. reopened f e j ≡ opened_after e) (sym same)
                  (rw (str_eq_self e.scope) refl),
              h.0.0.1,
            ),
            All-zip (λ l n o. (reopened-ne f e l.0 (λ q. n (same ∙ q)) ∙ o.0, o.1)) last h.1.0
                h.0.1,
          ),
          h.1,
        )
    | inr t ↦
        let ne : e.scope ≢ x.0 = λ q. absurd_test (sym t ∙ (eq_iff x.0 e.scope).1 (sym q)) in
        let rest = IsLast-put f last e (h.0.1, h.1.1) k in
        rw t (
          ((reopened-ne f e x.0 ne ∙ h.0.0.0, h.0.0.1), rest.0),
          (put-ne x.0 e.scope e last (λ q. ne (sym q)) h.1.0, rest.1),
        )
  ]
    where
      absurd_test : false ≡ true → ⊥
      absurd_test e = cc

  IsLast-all :
      (incidents : Incidents) (last : List (String × Event))
      → ((k : String) → has k keys ≡ true → (i : Option EventId) × (lookup k incidents ≡ some i))
      → IsLast (incidents_of incidents) last
      → all (λ l. is_same_incident (lookup l.0 incidents) l.1) last ≡ true
  IsLast-all incidents [] d h = refl
  IsLast-all incidents (l ∷ last) d h =
      let (i, found) = d l.0 h.0.0.1 in
      let here = same_incident (lookup l.0 incidents) i l.1 found h.0.0.0 in
      rw (here, IsLast-all incidents last d (h.0.1, h.1.1)) refl
    where
      same_incident :
          (o : Option (Option EventId)) (i : Option EventId) (e : Event)
          → o ≡ some i
          → flat o ≡ opened_after e
          → is_same_incident o e ≡ true
      same_incident none i e f h = cc
      same_incident (some none) i e f h = ground arith
      same_incident (some (some j)) i e f h = ground (arith, id_eq_self j)

  -- The walk of the check follows a chain.
  pub IsChain-in_sequence :
      (incidents : Incidents)
      → ((k : String) → has k keys ≡ true → (i : Option EventId) × (lookup k incidents ≡ some i))
      → (f : Opened) (last : List (String × Event)) (events : List Event) → IsLast f last
      → All (λ e. has e.scope keys ≡ true) events
      → IsChain f events (incidents_of incidents)
      → in_sequence last events incidents ≡ true
  unfolding in_sequence
  IsChain-in_sequence incidents d f last [] h k c =
      IsLast-all incidents last d (All-imp (λ l o. (sym (c l.0) ∙ o.0, o.1)) last h.0, h.1)
  IsChain-in_sequence incidents d f last (e ∷ events) h k c =
      rw
        (
          IsTurn-in_order (f e.scope) (lookup e.scope last) e c.0
              (λ q l. IsLast-lookup f e.scope last h l),
          IsChain-in_sequence incidents d (reopened f e) (put e.scope e last) events
              (IsLast-put f last e h k.0) k.1 c.1,
        )
        refl
