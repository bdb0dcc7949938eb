-- ===== src/Alerts/Monitor/Prepared.antt =====
-- A run of `prepareMonitor` on a state that keeps the contract, and on a new history.
use score_arc.Prelude.{
  ℕ, ◌+◌, ◌≤◌, ◌<◌, String, Bool, true, false, not, ◌||◌, none, some, List, [], ◌∷◌, map, length,
  any, has, All, All-imp, leb, if◌then◌else◌, ◌≡◌, refl, sym, ap, ◌∙◌, arith, eq_iff, IsDistinct,
  length-map, ne_of_not_has, str_eq_self, and_split, ltb-false→le, le→leb,
}
use score_arc.Prelude.Sort.{length-sort, has-sort}
use score_arc.Alerts.Run.{Run, max_safe, valid_run, equal_run, is_uuid}
use score_arc.Alerts.Observed.{CheckResult, valid_result, is_none, is_distinct}
use score_arc.Alerts.State.{
  State, Incidents, Config, valid_config, keys_of, max_state, queue_full, valid_state,
  open_in_epoch, is_open,
}
use score_arc.Alerts.Monitor.{
  incident_of, Checks, observed, noted, started, prepared, is_full, observe_all, reserved_for,
  saved, failed, refused_state, save, restore, initialize, absent, held, prepare_monitor, initial,
}
use score_arc.Alerts.Monitor.Contract.{IsContract, incidents_of}
use score_arc.Alerts.Monitor.Passes.{IsContract-valid}
use score_arc.Alerts.Monitor.Observing.{marked}
use score_arc.Alerts.Monitor.Turns.{IsStep, observe-IsRun}
use score_arc.Alerts.Monitor.Preparing.{
  reserved_for-IsContract, started-IsContract, failure-IsContract,
}

-- With room for one turn of each scope the incidents are the verdicts of the checks; without, they
-- are left.
abbrev pub Shows : Bool → Checks → State → State → Type 0
Shows true checks s t = t.incidents ≡ s.incidents
Shows false checks s t = All (λ c. is_none (incident_of t c.0) ≡ c.1.ok) checks

length-keys_of : (o : Config) → length (keys_of o) ≡ length o.scopes
unfolding keys_of
length-keys_of o = length-sort o.order.compare_text o.scopes

has-keys_of : (o : Config) (k : String) → has k (keys_of o) ≡ has k o.scopes
unfolding keys_of
has-keys_of o k = has-sort o.order.compare_text k o.scopes

is_distinct-IsDistinct :
    (checks : Checks) → is_distinct (map (λ c. c.0) checks) ≡ true → IsDistinct (λ c. c.0) checks
is_distinct-IsDistinct [] h = tt
is_distinct-IsDistinct (c ∷ checks) h =
    let (new, rest) = and_split (not (has c.0 (map (λ c. c.0) checks))) _ h in
    (ne_of_not_has (λ c. c.0) c.0 checks (ground arith), is_distinct-IsDistinct checks rest)

All-has : (checks : Checks) → All (λ c. has c.0 (map (λ c. c.0) checks) ≡ true) checks
All-has [] = tt
All-has (c ∷ checks) =
    (rw (str_eq_self c.0) refl, All-imp (λ x h. rw h (ground arith)) checks (All-has checks))

equal_run_self : (r : Run) → equal_run r r ≡ true
equal_run_self r = ground (
  arith,
  eq_iff r.repository r.repository,
  eq_iff r.workflow r.workflow,
  eq_iff r.ref r.ref,
  eq_iff r.sha r.sha,
)

abbrev fresh : List String → Incidents
fresh keys = map (λ k. (k, none)) keys

module _ (o : Config) (run : Run) (valid : valid_config o run ≡ true) where
  config_facts : (valid_run run ≡ true) × (length o.scopes ≤ 32) × (is_distinct o.scopes ≡ true)
  unfolding valid_config
  config_facts = ground arith

  module _ (checks : Checks) (scopes : map (λ c. c.0) checks ≡ o.scopes)
      (results : All (λ c. valid_result c.1 ≡ true) checks) (delivery : Bool) (clock : ℕ)
      (s : State) (c : IsContract o.base (keys_of o) clock s) (after : clock ≤ o.now)
      (numbers : length checks + s.sequence ≤ max_safe) where
    observe_all-IsRun :
        (full : Bool)
        → is_full o s ≡ full
        → (t : State) × (observe_all o checks (started o run s) ≡ observed t)
          × IsContract o.base (keys_of o) o.now (marked t)
          × IsStep (started o run s) t (length checks)
          × Shows full checks s t
    unfolding observe_all
    observe_all-IsRun true e = (
      record (started o run s) { monitor_failure = some queue_full },
      rw e refl,
      failure-IsContract o.base (keys_of o) o.now (marked (started o run s)) (some queue_full)
          (started-IsContract o.base (keys_of o) o run clock s c after config_facts.0),
      record {
        numbers = omega arith;
        queue = omega arith;
        run = refl;
        phase = refl;
        reserved = refl;
        clock = refl;
      },
      refl,
    )
    observe_all-IsRun false e =
        let known : All (λ c. has c.0 (keys_of o) ≡ true) checks =
          All-imp (λ x h. has-keys_of o x.0 ∙ rw (sym scopes) h) checks (All-has checks) in
        let size : length checks ≡ length (keys_of o) =
          sym (length-map (λ c. c.0) checks) ∙ ap length scopes ∙ sym (length-keys_of o) in
        let (t, same, ran) =
          observe-IsRun o.base (keys_of o) o.now checks (started o run s)
            (started-IsContract o.base (keys_of o) o run clock s c after config_facts.0) known
            results (is_distinct-IsDistinct checks (rw scopes config_facts.2)) numbers
            (omega (arith, ltb-false→le _ _ e, size, length-keys_of o, config_facts.1)) in
        (t, rw e same, ran.contract, ran.step, ran.shown)

    prepared-IsContract :
        (t : State) × (prepared o delivery checks run s ≡ observed t)
        × IsContract o.base (keys_of o) o.now t
        × Shows (is_full o s) checks s t
    unfolding prepared reserved_for
    prepared-IsContract =
        let (t, same, c', step, shown) = observe_all-IsRun (is_full o s) refl in
        let n = noted t in
        let k : IsContract o.base (keys_of o) o.now n =
          failure-IsContract o.base (keys_of o) o.now (marked t) n.monitor_failure c' in
        (
          reserved_for delivery o.now n,
          rw same refl,
          reserved_for-IsContract o.base (keys_of o) delivery o.now n step.clock k step.reserved
              step.phase,
          shows (is_full o s) delivery t shown,
        )
      where
        shows :
            (full delivery : Bool) (t : State)
            → Shows full checks s t
            → Shows full checks s (reserved_for delivery o.now (noted t))
        shows true true t h = h
        shows true false t h = h
        shows false true t h = h
        shows false false t h = h

    -- From any state that keeps the contract, a later run whose checks answered soundly writes a state
    -- that keeps it, unless its text is too long: where the queue has room for one turn of each scope,
    -- a scope has an incident open exactly when its check was unhealthy, and else the incidents are
    -- left as they are.
    pub prepare_monitor-IsPrepared :
        o.size_of s ≤ max_state
        → s.run.number < run.number
        → s.run.id < run.id
        → (t : State) × IsContract o.base (keys_of o) o.now t
          × Shows (is_full o s) checks s t
          × (prepare_monitor o delivery checks run (restore s.run) (held s)
              ≡ (if leb (o.size_of t) max_state then saved t else failed refused_state))
    unfolding prepare_monitor save valid_state
    prepare_monitor-IsPrepared size number id =
        let (t, same, k, shown) = prepared-IsContract in
        (
          t,
          k,
          shown,
          rw
              (
                valid,
                IsContract-valid o clock s c after,
                le→leb _ _ size,
                equal_run_self s.run,
                later,
                same,
                IsContract-valid o o.now t k (omega arith),
              )
              refl,
        )
      where
        later : (leb run.number s.run.number || leb run.id s.run.id) ≡ false
        later = ground arith

  -- A new history.
  pub initial-IsContract :
      (epoch : String)
      → is_uuid epoch ≡ true
      → IsContract o.base (keys_of o) o.now (initial o epoch run)
  initial-IsContract epoch uuid = record {
    origin = refl;
    uuid = uuid;
    run = config_facts.0;
    bounded = omega arith;
    updated = omega arith;
    filed = keys-filed (keys_of o);
    incidents = none_open (initial o epoch run) (keys_of o);
    room = omega arith;
    events = tt;
    gone = 0;
    counted = refl;
    lost = 0;
    kept = refl;
    receipts = refl;
    receipts_run = refl;
    pending_run = refl;
    acknowledged = tt;
    before = incidents_of (initial o epoch run).incidents;
    chain = λ k. refl;
    marked = sym (none_marked (keys_of o));
    taken = refl;
    sends = omega arith;
    closed = refl;
  }
    where
      keys-filed : (keys : List String) → map (λ i. i.0) (fresh keys) ≡ keys
      keys-filed [] = refl
      keys-filed (k ∷ keys) = ap (λ ks. k ∷ ks) (keys-filed keys)

      none_open :
          (s : State) (keys : List String) → All (λ i. open_in_epoch s i.1 ≡ true) (fresh keys)
      none_open s [] = tt
      none_open s (k ∷ keys) = (refl, none_open s keys)

      none_marked : (keys : List String) → any is_open (fresh keys) ≡ false
      none_marked [] = refl
      none_marked (k ∷ keys) = none_marked keys

  pub prepare_monitor-IsPrepared_new :
      (checks : Checks)
      → map (λ c. c.0) checks ≡ o.scopes
      → All (λ c. valid_result c.1 ≡ true) checks
      → (delivery : Bool) (epoch : String) → is_uuid epoch ≡ true
      → (t : State) × IsContract o.base (keys_of o) o.now t
        × (prepare_monitor o delivery checks run (initialize epoch) absent
            ≡ (if leb (o.size_of t) max_state then saved t else failed refused_state))
  unfolding prepare_monitor save valid_state
  prepare_monitor-IsPrepared_new checks scopes results delivery epoch uuid =
      let few : length checks ≤ 32 = omega (
        arith,
        ap (λ (ks : List String). length ks) scopes,
        length-map (λ (c : String × CheckResult). c.0) checks,
        config_facts.1,
      ) in
      let (t, same, k, shown) =
        prepared-IsContract checks scopes results delivery o.now (initial o epoch run)
          (initial-IsContract epoch uuid) (omega arith) (omega (arith, few)) in
      (t, k, rw (valid, same, IsContract-valid o o.now t k (omega arith)) refl)
