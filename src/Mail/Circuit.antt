-- ===== src/Mail/Circuit.antt =====
-- circuit.go: RecordDeliveryOutcome, ClaimProbe and RecordProbeOutcome.
use nyauth.Common.{
  ℕ, ◌+◌, ◌-◌, Bool, true, false, not, ◌||◌, Option, none, some, ltb, leb, ◌==◌, if◌then◌else◌,
  String,
}
use nyauth.Common.Text.{Text, codes, text_eq}
use nyauth.Mail.Outcome.{
  transport, recipient, validate_source, source_matches_state, normalize_delivery_outcome,
  normalize_probe_outcome,
}
use nyauth.Mail.{
  Mode, active, circuit_closed, circuit_open, store_unavailable, invalid_outcome, already_closed,
  probe_not_due, stale_effective_config, state_conflict, database, Result, err, State,
  EffectiveSource, DeliveryOutcome, ProbeOutcome, Transition, ProbeClaim, circuit_opened_event,
  circuit_recovered_event, circuit_reset, circuit_opened, circuit_failure, probe_claimed,
  probe_failed, circuit_recovered, Db, Faults, Step, returned, failed, settle, or_error, publish,
  enqueue, update, is_open, transport_failure_window, transport_failure_limit,
  circuit_probe_interval,
}

-- A uuid as text: `uuid.String()`.
module _ (uuid_text : String → Text) where
  -- sourceTargetID.
  unfoldable pub source_target : Mode → Option String → Text
  source_target active (some v) = uuid_text v
  source_target m v = codes "environment-fallback"

  unfoldable pub source_target_id : EffectiveSource → Text
  unfolding source_target
  source_target_id s = source_target s.mode s.version

abbrev pub unchanged : State → Transition
unchanged st = record { state = st; changed = false; opened = false; recovered = false }

abbrev pub moved : State → Bool → Transition
moved st opened = record { state = st; changed = true; opened = opened; recovered = false }

-- The row that the UPDATE of a success writes.
abbrev pub reset_row : ℕ → State → State
reset_row now st = record st {
  window_started = none;
  failure_count = 0;
  revision = st.revision + 1;
  updated_at = now;
}

-- The row that a failure which is neither of the recipient nor of the transport writes.
abbrev pub permanent_row : ℕ → Text → Text → State → State
permanent_row now category reason st = record st {
  circuit = circuit_open;
  open_reason = some reason;
  open_category = some category;
  opened_at = some now;
  window_started = none;
  failure_count = 0;
  next_probe_at = some (now + circuit_probe_interval);
  revision = st.revision + 1;
  updated_at = now;
}

abbrev pub transport_open_row : ℕ → Text → ℕ → ℕ → State → State
transport_open_row now reason started count st = record st {
  circuit = circuit_open;
  open_reason = some reason;
  open_category = some transport;
  opened_at = some now;
  window_started = some started;
  failure_count = count;
  next_probe_at = some (now + circuit_probe_interval);
  revision = st.revision + 1;
  updated_at = now;
}

abbrev pub transport_count_row : ℕ → ℕ → ℕ → State → State
transport_count_row now started count st = record st {
  window_started = some started;
  failure_count = count;
  revision = st.revision + 1;
  updated_at = now;
}

-- Whether the stored window no longer covers `now`.
abbrev pub window_expired : Option ℕ → ℕ → Bool
window_expired none now = true
window_expired (some w) now = ltb now w || ltb transport_failure_window (now - w)

abbrev pub window_start : Option ℕ → ℕ → ℕ
window_start none now = now
window_start (some w) now = if window_expired (some w) now then now else w

abbrev pub next_count : State → ℕ → ℕ
next_count st now = (if window_expired st.window_started now then 0 else st.failure_count) + 1

module _ (uuid_text : String → Text) (f : Faults) (now : ℕ) (db : Db) where
  unfoldable pub record_success : Step Transition
  unfolding publish
  record_success =
      if db.state.failure_count == 0
      then returned (unchanged db.state)
      else update f (reset_row now db.state) db
          λ db'. publish f circuit_reset db' (moved db'.state false)

  unfoldable pub record_permanent : EffectiveSource → Text → Text → Step Transition
  unfolding publish
  record_permanent source category reason =
      update f (permanent_row now category reason db.state) db λ db'.
        enqueue f (circuit_opened_event (source_target_id uuid_text source) category reason) db'
          λ db''. publish f circuit_opened db'' (moved db''.state true)

  unfoldable pub open_transport : EffectiveSource → Text → ℕ → ℕ → Step Transition
  unfolding publish
  open_transport source reason started count =
      update f (transport_open_row now reason started count db.state) db λ db'.
        enqueue f (circuit_opened_event (source_target_id uuid_text source) transport reason) db'
          λ db''. publish f circuit_opened db'' (moved db''.state true)

  unfoldable pub count_transport : ℕ → ℕ → Step Transition
  unfolding publish
  count_transport started count =
      update f (transport_count_row now started count db.state) db
        λ db'. publish f circuit_failure db' (moved db'.state false)

  unfoldable pub record_transport : EffectiveSource → Text → Step Transition
  unfolding open_transport count_transport
  record_transport source reason =
      let started = window_start db.state.window_started now in
      let count = next_count db.state now in
      if leb transport_failure_limit count
      then open_transport source reason started count
      else count_transport started count

  unfoldable pub delivery_body : DeliveryOutcome → Text → Text → Step Transition
  unfolding record_success record_permanent record_transport
  delivery_body o category reason =
      if f.begin_tx
      then failed database
      else if f.lock_row
      then failed database
      else if not (source_matches_state o.source db.state)
      then failed stale_effective_config
      else if is_open db.state.circuit || text_eq category recipient
      then returned (unchanged db.state)
      else if o.success
      then record_success
      else if not (text_eq category transport)
      then record_permanent o.source category reason
      else record_transport o.source reason

  -- RecordDeliveryOutcome. `available` says that the store and its pool are not nil.
  unfoldable pub record_delivery_outcome : Bool → DeliveryOutcome → Db × Result Transition
  unfolding delivery_body
  record_delivery_outcome available o =
      if not available
      then (db, err store_unavailable)
      else if not (validate_source o.source)
      then (db, err invalid_outcome)
      else or_error db (normalize_delivery_outcome o) λ c. settle db (delivery_body o c.0 c.1)

-- The row that both probe calls write when the circuit stays open.
abbrev pub probe_row : ℕ → State → State
probe_row now st = record st {
  next_probe_at = some (now + circuit_probe_interval);
  revision = st.revision + 1;
  updated_at = now;
}

-- The row that closes the circuit.
abbrev pub recovered_row : ℕ → State → State
recovered_row now st = record st {
  circuit = circuit_closed;
  open_reason = none;
  open_category = none;
  opened_at = none;
  window_started = none;
  failure_count = 0;
  next_probe_at = none;
  revision = st.revision + 1;
  updated_at = now;
}

-- `state.NextProbeAt == nil || now.Before(*state.NextProbeAt)`.
abbrev pub not_due : Option ℕ → ℕ → Bool
not_due none now = true
not_due (some t) now = ltb now t

module _ (f : Faults) (now : ℕ) (db : Db) where
  unfoldable pub claim_body : EffectiveSource → Step ProbeClaim
  unfolding publish
  claim_body source =
      if f.begin_tx
      then failed database
      else if f.lock_row
      then failed database
      else if not (source_matches_state source db.state)
      then failed stale_effective_config
      else if not (is_open db.state.circuit)
      then failed already_closed
      else if not_due db.state.next_probe_at now
      then failed probe_not_due
      else update f (probe_row now db.state) db λ db'.
        publish f probe_claimed db'
          (record { acquired = true; expected_revision = db'.state.revision; state = db'.state })

  -- ClaimProbe. (The state that comes with ErrCircuitClosed and ErrProbeNotDue is left out.)
  unfoldable pub claim_probe : Bool → EffectiveSource → Db × Result ProbeClaim
  unfolding claim_body
  claim_probe available source =
      if not available
      then (db, err store_unavailable)
      else if not (validate_source source)
      then (db, err invalid_outcome)
      else settle db (claim_body source)

module _ (uuid_text : String → Text) (f : Faults) (now : ℕ) (db : Db) where
  unfoldable pub close_circuit : EffectiveSource → Step Transition
  unfolding publish
  close_circuit source = update f (recovered_row now db.state) db λ db'.
      enqueue f
        (circuit_recovered_event (source_target_id uuid_text source) (codes "probe_succeeded")) db'
        λ db''.
          publish f circuit_recovered db''
            (record { state = db''.state; changed = true; opened = false; recovered = true })

  unfoldable pub keep_open : Step Transition
  unfolding publish
  keep_open =
      update f (probe_row now db.state) db λ db'. publish f probe_failed db' (moved db'.state false)

  unfoldable pub probe_body : ProbeOutcome → Step Transition
  unfolding close_circuit keep_open
  probe_body o =
      if f.begin_tx
      then failed database
      else if f.lock_row
      then failed database
      else if not (db.state.revision == o.expected_revision)
      then failed state_conflict
      else if not (source_matches_state o.source db.state)
      then failed stale_effective_config
      else if not (is_open db.state.circuit)
      then failed already_closed
      else if o.success
      then close_circuit o.source
      else keep_open

  -- RecordProbeOutcome. An expected revision is a natural number: a negative one is refused first.
  unfoldable pub record_probe_outcome : Bool → ProbeOutcome → Db × Result Transition
  unfolding probe_body
  record_probe_outcome available o =
      if not available
      then (db, err store_unavailable)
      else if not (validate_source o.source)
      then (db, err invalid_outcome)
      else or_error db (normalize_probe_outcome o) λ _. settle db (probe_body o)
