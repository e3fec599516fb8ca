-- ===== src/Mail/Window.antt =====
-- circuit.go: when a delivery failure opens the circuit.
use nyauth.Common.{
  ℕ, ◌+◌, ◌≤◌, ◌<◌, ◌≡◌, ◌⊎◌, inl, inr, refl, Bool, true, false, none, some, arith, String,
  Bool-cases, ◌∙◌, lt→leb_false, le→leb, leb, if◌then◌else◌,
}
use nyauth.Common.Text.{Text, text_eq, text_eq→eq}
use nyauth.Mail.Outcome.{
  transport, validate_source, source_matches_state, normalize_delivery_outcome,
  normalize_delivery_outcome_failure,
}
use nyauth.Mail.{
  Result, ok, State, DeliveryOutcome, Transition, Db, Faults, no_faults, is_open,
  transport_failure_window, or_error,
}
use nyauth.Mail.Circuit.{
  next_count, window_start, transport_open_row, transport_count_row, record_delivery_outcome,
}
use nyauth.Mail.Cases.{delivery_cases}
use nyauth.Mail.Constraints.{is_permanent, delivery_category_permanent}

-- A delivery that failed for the category transport.
abbrev pub TransportFailure : DeliveryOutcome → Type 0
TransportFailure o =
    (o.success ≡ false) × ((r : Text) × (normalize_delivery_outcome o ≡ ok (transport, r)))

-- A delivery that failed for a category that opens the circuit at once.
abbrev pub PermanentFailure : DeliveryOutcome → Text → Type 0
PermanentFailure o c =
    (o.success ≡ false)
    × (is_permanent c ≡ true)
    × ((r : Text) × (normalize_delivery_outcome o ≡ ok (c, r)))

-- Why a row is open: the category that it shows.
abbrev pub MayOpen : ℕ → Db → DeliveryOutcome → State → Type 0
MayOpen now db o row =
    ((c : Text) × PermanentFailure o c × (row.open_category ≡ some c))
    ⊎ (TransportFailure o × (3 ≤ next_count db.state now) × (row.open_category ≡ some transport))

-- What a delivery outcome does to the row, whatever it returns.
record Effects (now : ℕ) (db : Db) (o : DeliveryOutcome) (row : State) : Type 0 where
  opens : is_open db.state.circuit ≡ false → is_open row.circuit ≡ true → MayOpen now db o row
  counts : db.state.failure_count < row.failure_count → TransportFailure o

module _ (uuid_text : String → Text) (f : Faults) (now : ℕ) (db : Db) (o : DeliveryOutcome) where
  abbrev EffectsOf : Db × Result Transition → Type 0
  EffectsOf r = Effects now db o r.0.state

  untouched : Effects now db o db.state
  untouched = record { opens = λ c p. absurd (cc); counts = λ p. absurd (omega arith) }

  transport_failure :
      (c r : Text)
      → o.success ≡ false
      → normalize_delivery_outcome o ≡ ok (c, r)
      → text_eq c transport ≡ true
      → TransportFailure o
  transport_failure c r failure normal same =
      let is_transport : c ≡ transport = text_eq→eq c transport same in
      (failure, (r, rw is_transport at normal))

  effects_of :
      (available : Bool) → EffectsOf (record_delivery_outcome uuid_text f now db available o)
  effects_of = delivery_cases uuid_text f now db EffectsOf o (record {
    faulty = record { refused = λ e. untouched; unheard = λ db' t lost kept. kept };
    ignored = untouched;
    reset = λ closed s n. record { opens = λ c p. absurd (cc); counts = λ p. absurd (omega arith) };
    opened_permanent = λ c r closed s n not_recipient not_transport. record {
      opens = λ _ _. inl (
        c,
        (
          s,
          delivery_category_permanent c (normalize_delivery_outcome_failure o s n).0 not_recipient
              not_transport,
          (r, n),
        ),
        refl,
      );
      counts = λ p. absurd (omega arith);
    };
    opened_transport = λ c r closed s n same enough. record {
      opens = λ _ _. inr (transport_failure c r s n same, enough, refl);
      counts = λ _. transport_failure c r s n same;
    };
    counted = λ c r closed s n same few. record {
      opens = λ _ p. absurd (cc);
      counts = λ _. transport_failure c r s n same;
    };
  })

-- A delivery outcome leaves the row of a closed circuit open. Then it reports a failure, and either its
-- category is configuration, authentication or TLS, or it is transport and this is at least the
-- third transport failure counted in the window; the row shows that category. It holds whatever is
-- returned.
pub record_delivery_outcome-opened :
    (uuid_text : String → Text) (f : Faults) (now : ℕ) (db : Db) (o : DeliveryOutcome)
    (available : Bool) {db' : Db} {t : Result Transition}
    → record_delivery_outcome uuid_text f now db available o ≡ (db', t)
    → is_open db.state.circuit ≡ false
    → is_open db'.state.circuit ≡ true
    → MayOpen now db o db'.state
record_delivery_outcome-opened uuid_text f now db o available {db'} {t} e closed opened =
    let effects : Effects now db o db'.state =
      rw e at (effects_of uuid_text f now db o available) in
    effects.opens closed opened

-- A delivery outcome raises the failure count of the row. Then it reports a failure of the category
-- transport: no other outcome counts towards the limit.
pub record_delivery_outcome-counted :
    (uuid_text : String → Text) (f : Faults) (now : ℕ) (db : Db) (o : DeliveryOutcome)
    (available : Bool) {db' : Db} {t : Result Transition}
    → record_delivery_outcome uuid_text f now db available o ≡ (db', t)
    → db.state.failure_count < db'.state.failure_count
    → TransportFailure o
record_delivery_outcome-counted uuid_text f now db o available {db'} {t} e more =
    let effects : Effects now db o db'.state =
      rw e at (effects_of uuid_text f now db o available) in
    effects.counts more

-- A well-formed transport failure from the configuration that is in effect.
pub record IsTransportFailure (s : State) (o : DeliveryOutcome) : Type 0 where
  pub failed_delivery : o.success ≡ false
  pub source_valid : validate_source o.source ≡ true
  pub source_current : source_matches_state o.source s ≡ true
  pub reason : Text
  pub normal : normalize_delivery_outcome o ≡ ok (transport, reason)

module _ (uuid_text : String → Text) where
  abbrev pub deliver : ℕ → Db → DeliveryOutcome → Db
  deliver now db o = (record_delivery_outcome uuid_text no_faults now db true o).0

  -- What a transport failure does to the row of a closed circuit.
  deliver_lem :
      (now : ℕ) (db : Db) (o : DeliveryOutcome) (h : IsTransportFailure db.state o)
      → is_open db.state.circuit ≡ false
      → (deliver now db o).state ≡ (
          if leb 3 (next_count db.state now)
          then transport_open_row now h.reason
              (window_start db.state.window_started now)
              (next_count db.state now)
              db.state
          else transport_count_row now
              (window_start db.state.window_started now)
              (next_count db.state now)
              db.state)
  unfolding record_delivery_outcome
  deliver_lem now db o h closed =
      rw (h.source_valid, deliver, record_delivery_outcome)
        (rw (h.normal, or_error)
          (rw (h.source_current, closed, h.failed_delivery)
            (elim (Bool-cases (leb 3 (next_count db.state now))) [ inl e ↦ rw e | inr e ↦ rw e ])))

  -- What a failure that is counted leaves of the row.
  record Counts (now : ℕ) (s t : State) : Type 0 where
    closed : is_open t.circuit ≡ false
    count : t.failure_count ≡ next_count s now
    window : t.window_started ≡ some (window_start s.window_started now)
    same_mode : t.mode ≡ s.mode
    same_version : t.active_version ≡ s.active_version

  deliver-Counts :
      (now : ℕ) (db : Db) (o : DeliveryOutcome)
      → IsTransportFailure db.state o
      → is_open db.state.circuit ≡ false
      → next_count db.state now < 3
      → Counts now db.state (deliver now db o).state
  deliver-Counts now db o h closed few = rw (deliver_lem now db o h closed) (
      rw (lt→leb_false 3 (next_count db.state now) few) (record {
        closed = closed;
        count = refl;
        window = refl;
        same_mode = refl;
        same_version = refl;
      }))

  deliver_opens :
      (now : ℕ) (db : Db) (o : DeliveryOutcome)
      → IsTransportFailure db.state o
      → is_open db.state.circuit ≡ false
      → 3 ≤ next_count db.state now
      → let s = (deliver now db o).state in
        (is_open s.circuit ≡ true)
        × (s.open_category ≡ some transport)
        × (s.failure_count ≡ next_count db.state now)
  deliver_opens now db o h closed enough =
      rw (deliver_lem now db o h closed)
        (rw (le→leb 3 (next_count db.state now) enough) (refl, refl, refl))

  carry :
      (now : ℕ) (s t : State) (o : DeliveryOutcome)
      → Counts now s t
      → IsTransportFailure s o
      → IsTransportFailure t o
  unfolding source_matches_state
  carry now s t o c h = record {
    failed_delivery = h.failed_delivery;
    source_valid = h.source_valid;
    source_current = rw (c.same_mode, c.same_version) h.source_current;
    reason = h.reason;
    normal = h.normal;
  }

  -- Three transport failures in a row, within two minutes, from a closed circuit that has counted
  -- none, reported by the configuration in effect and with a database that refuses nothing: the first
  -- two leave the circuit closed, the third opens it for the category transport with a count of 3.
  pub three_failures :
      (t1 t2 t3 : ℕ) (db : Db) (o1 o2 o3 : DeliveryOutcome)
      → IsTransportFailure db.state o1
      → IsTransportFailure db.state o2
      → IsTransportFailure db.state o3
      → is_open db.state.circuit ≡ false
      → db.state.failure_count ≡ 0
      → db.state.window_started ≡ none
      → t1 ≤ t2
      → t2 ≤ t3
      → t3 ≤ t1 + transport_failure_window
      → let db1 = deliver t1 db o1 in
        let db2 = deliver t2 db1 o2 in
        let db3 = deliver t3 db2 o3 in
        (is_open db1.state.circuit ≡ false)
        × (is_open db2.state.circuit ≡ false)
        × (is_open db3.state.circuit ≡ true)
        × (db3.state.open_category ≡ some transport)
        × (db3.state.failure_count ≡ 3)
  three_failures t1 t2 t3 db o1 o2 o3 h1 h2 h3 closed zero_count no_window a b c =
      let db1 = deliver t1 db o1 in
      let db2 = deliver t2 db1 o2 in
      let n1 : next_count db.state t1 ≡ 1 = ground arith in
      let c1 = deliver-Counts t1 db o1 h1 closed (omega (arith, n1)) in
      let w1 : db1.state.window_started ≡ some t1 = ground (arith, c1.window) in
      let n2 : next_count db1.state t2 ≡ 2 = ground (arith, c1.count, w1, n1) in
      let c2 =
        deliver-Counts t2 db1 o2 (carry t1 db.state db1.state o2 c1 h2) c1.closed
          (omega (arith, n2)) in
      let w2 : db2.state.window_started ≡ some t1 = ground (arith, c2.window, w1) in
      let n3 : next_count db2.state t3 ≡ 3 = ground (arith, c2.count, w2, n2) in
      let h3' = carry t2 db1.state db2.state o3 c2 (carry t1 db.state db1.state o3 c1 h3) in
      let (opened, category, count) = deliver_opens t3 db2 o3 h3' c2.closed (omega (arith, n3)) in
      (c1.closed, c2.closed, opened, category, count ∙ n3)
