-- ===== src/Alerts/Monitor/Passes.antt =====
-- A state that keeps the contract passes `validateState`.
use score_arc.Prelude.{
  ℕ, ◌-◌, ◌≤◌, String, Bool, true, ◌&&◌, Option, some, List, [], ◌∷◌, map, length, length-map, has,
  All, All-imp, leb, str_eq, ◌≡◌, refl, ap, arith, eq_iff, Bool-cases, inl, inr, le→leb,
}
use score_arc.Prelude.Sort.{sort, sort-sorted, sort-IsSorted}
use score_arc.Alerts.State.{
  EventId, Event, Receipt, State, Incidents, Config, keys_of, valid_event, in_epoch, lookup,
  contract_checks, valid_contract, join_comma,
}
use score_arc.Alerts.Monitor.{same}
use score_arc.Alerts.Monitor.Ids.{All-all, continues-ascends, continues-bounds, distinct-append}
use score_arc.Alerts.Monitor.Contract.{IsContract, IsChain-in_sequence, All-zip}

keys_of-sorted : (o : Config) → sort o.order.compare_text (keys_of o) ≡ keys_of o
unfolding keys_of
keys_of-sorted o =
    sort-sorted o.order.compare_text _
      (sort-IsSorted o.order.compare_text o.order.is_order o.scopes)

filed_lookup :
    (incidents : Incidents) (k : String)
    → has k (map (λ i. i.0) incidents) ≡ true
    → (i : Option EventId) × (lookup k incidents ≡ some i)
filed_lookup [] k h = cc
filed_lookup (x ∷ incidents) k h = elim (Bool-cases (str_eq x.0 k)) [
  | inl t ↦ (x.1, rw t refl)
  | inr t ↦ let r = filed_lookup incidents k (rw t at h) in (r.0, rw t r.1)
]

valid_event-scope :
    (s : State) (keys : List String) (e : Event)
    → valid_event s keys e ≡ true
    → has e.scope keys ≡ true
unfolding valid_event
valid_event-scope s keys e h = ground arith

All-map {ℓ κ μ} :
    {A : Type ℓ} {B : Type κ} (P : B → Type μ) (f : A → B) (xs : List A)
    → All P (map f xs)
    → All (λ x. P (f x)) xs
All-map P f [] h = tt
All-map P f (x ∷ xs) h = (h.0, All-map P f xs h.1)

same_self : (a b : Bool) → a ≡ b → same a b ≡ true
same_self a b e = ground arith

module _ (o : Config) (clock : ℕ) (s : State) (c : IsContract o.base (keys_of o) clock s)
    (after : clock ≤ o.now) where
  receipts-valid : All (λ r. (in_epoch s r.id && leb r.acknowledged_at o.now) ≡ true) s.delivered
  receipts-valid =
      All-zip
        (λ r b a.
          let up : r.id.number ≤ s.sequence =
            omega (arith, b.2, c.counted, c.kept, length-map (λ (r : Receipt). r.id) s.delivered) in
          let same = (eq_iff r.id.epoch s.epoch).1 b.0 in let first = b.1 in rw same (ground arith))
        s.delivered
        (All-map _ (λ r. r.id) s.delivered
          (continues-bounds s.epoch c.lost (map (λ r. r.id) s.delivered) c.receipts_run))
        c.acknowledged

  pub IsContract-valid : valid_contract o s ≡ true
  unfolding valid_contract
  IsContract-valid =
      let start : s.sequence - length s.pending ≡ c.gone = omega (arith, c.counted) in
      let first : s.sequence - length s.pending - length s.delivered ≡ c.lost =
        omega (arith, c.counted, c.kept) in
      let keys : sort o.order.compare_text (map (λ i. i.0) s.incidents) ≡ keys_of o =
        rw c.filed (keys_of-sorted o) in
      All-all (λ b. b) (contract_checks o s)
        (
          (eq_iff s.origin o.base).1 c.origin,
          (
            c.uuid,
            (
              le→leb _ _ c.bounded,
              (
                le→leb _ _ (omega (arith, c.updated, after)),
                (
                  (eq_iff _ _).1 (ap join_comma keys),
                  (
                    All-all _ _ c.incidents,
                    (
                      le→leb _ _ c.room,
                      (
                        All-all _ _ c.events,
                        (
                          continues-ascends s.epoch (λ e. e.id) c.gone s.pending c.pending_run,
                          (
                            le→leb _ _ (omega (arith, c.receipts)),
                            (
                              All-all _ _ receipts-valid,
                              (
                                le→leb _ _ c.sends,
                                (
                                  c.taken,
                                  (
                                    distinct-append s.epoch c.lost (map (λ r. r.id) s.delivered)
                                        c.receipts_run c.gone (map (λ e. e.id) s.pending)
                                        c.pending_run
                                        (omega (
                                          arith,
                                          c.kept,
                                          length-map (λ (r : Receipt). r.id) s.delivered,
                                        )),
                                    (
                                      same_self _ _ c.marked,
                                      (
                                        le→leb _ _ (omega (arith, c.counted)),
                                        (
                                          rw start (ground (arith, c.receipts)),
                                          (
                                            rw first c.receipts_run,
                                            (
                                              rw start c.pending_run,
                                              (
                                                c.run,
                                                (
                                                  IsChain-in_sequence (keys_of o) s.incidents
                                                      (λ k h.
                                                        filed_lookup s.incidents k (rw c.filed h))
                                                      c.before [] s.pending (tt, tt)
                                                      (All-imp (valid_event-scope s (keys_of o))
                                                        s.pending c.events)
                                                      c.chain,
                                                  (
                                                    c.closed,
                                                    (
                                                      continues-ascends s.epoch (λ r. r.id) c.lost
                                                          s.delivered c.receipts_run,
                                                      tt,
                                                    ),
                                                  ),
                                                ),
                                              ),
                                            ),
                                          ),
                                        ),
                                      ),
                                    ),
                                  ),
                                ),
                              ),
                            ),
                          ),
                        ),
                      ),
                    ),
                  ),
                ),
              ),
            ),
          ),
        )
