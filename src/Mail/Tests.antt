-- ===== src/Mail/Tests.antt =====
-- The mail runtime on concrete rows.
use nyauth.Common.{
  ℕ, ◌<◌, ◌+◌, ◌*◌, ◌≡◌, refl, true, false, List, [], ◌∷◌, none, some, arith, String, str_eq,
  str_eq_iff, ap,
}
use nyauth.Common.Time.{second}
use nyauth.Common.Text.{Text, codes}
use nyauth.Mail.Outcome.{
  transport, authentication, normalize_delivery_outcome, normalize_probe_outcome, validate_source,
  source_matches_state,
}
use nyauth.Mail.{
  active, circuit_closed, circuit_open, ok, State, EffectiveSource, DeliveryOutcome, ProbeOutcome,
  ProbeClaim, Db, no_faults, is_open, TestRecord, probe_claimed,
}
use nyauth.Mail.Circuit.{record_delivery_outcome, claim_probe, record_probe_outcome}
use nyauth.Mail.Versions.{activate, success}
use nyauth.Mail.Calls.{Event, delivers, probes, claims, perform, run}
use nyauth.Mail.Audit.{Atomic, perform-Atomic}
use nyauth.Mail.Constraints.{IsConsistent}
use nyauth.Mail.Preserve.{perform-IsConsistent}
use nyauth.Mail.Window.{
  IsTransportFailure, record_delivery_outcome-opened, MayOpen, deliver, three_failures,
  TransportFailure, record_delivery_outcome-counted,
}
use nyauth.Mail.Claims.{claim_exclusive}
use nyauth.Mail.Probes.{Refused, stale_probe, ActivatedAfterTest, activate-ActivatedAfterTest}

abbrev quiet : State
quiet = record {
  mode = active;
  active_version = some "v1";
  candidate_version = some "v2";
  previous_version = none;
  revision = 5;
  circuit = circuit_closed;
  open_reason = none;
  open_category = none;
  opened_at = none;
  window_started = none;
  failure_count = 0;
  next_probe_at = none;
  updated_at = 0;
}

abbrev passed : TestRecord
passed = record {
  version = "v2";
  result = success;
  error_category = none;
  created_at = 90 * second;
}

abbrev start : Db
start = record { state = quiet; tests = passed ∷ []; outbox = []; notices = [] }

abbrev current : EffectiveSource
current = record { mode = active; version = some "v1" }

abbrev timeout : DeliveryOutcome
timeout = record {
  source = current;
  success = false;
  category = codes " Transport";
  reason = codes "smtp.timeout ";
}

abbrev rejected : DeliveryOutcome
rejected = record {
  source = current;
  success = false;
  category = codes "authentication";
  reason = codes "smtp_535";
}

abbrev uuid_text : String → Text
uuid_text = codes

quiet-IsConsistent : IsConsistent quiet
unfolding str_eq
quiet-IsConsistent = record {
  modes = λ e. cc;
  candidate_active = λ e. absurd (v2_not_v1 e);
  candidate_previous = tt;
  active_previous = tt;
  window_empty = λ _. refl;
  window_used = λ h. absurd (h refl);
  circuit_fields = (refl, refl, refl, refl);
}
  where
    v2_not_v1 : ◌≡◌ {A = String} "v2" "v1" → ⊥
    v2_not_v1 e = cc ((str_eq_iff "v2" "v1").1 e)

timeout-IsTransportFailure : IsTransportFailure quiet timeout
unfolding validate_source source_matches_state normalize_delivery_outcome str_eq
timeout-IsTransportFailure = record {
  failed_delivery = refl;
  source_valid = refl;
  source_current = refl;
  reason = codes "smtp.timeout";
  normal = refl;
}

abbrev delivered : ℕ → DeliveryOutcome → Event
delivered now o = record { available = true; faults = no_faults; now = now; call = delivers o }

perform-Atomic_example : Atomic no_faults start (perform uuid_text (delivered 100 timeout) start)
perform-Atomic_example = perform-Atomic uuid_text (delivered 100 timeout) start

perform-IsConsistent_example :
    IsConsistent (perform uuid_text (delivered 100 timeout) start).0.state
perform-IsConsistent_example =
    perform-IsConsistent uuid_text (delivered 100 timeout) start tt quiet-IsConsistent

abbrev after_rejection : Db
after_rejection = (record_delivery_outcome uuid_text no_faults 100 start true rejected).0

rejection_opens : is_open after_rejection.state.circuit ≡ true
unfolding record_delivery_outcome validate_source normalize_delivery_outcome source_matches_state
    str_eq
rejection_opens = refl

record_delivery_outcome-opened_example : MayOpen 100 start rejected after_rejection.state
record_delivery_outcome-opened_example =
    record_delivery_outcome-opened uuid_text no_faults 100 start rejected true refl refl
      rejection_opens

abbrev after_timeout : Db
after_timeout = deliver uuid_text 100 start timeout

timeout_counts : start.state.failure_count < after_timeout.state.failure_count
unfolding record_delivery_outcome validate_source normalize_delivery_outcome source_matches_state
    str_eq
timeout_counts = omega arith

record_delivery_outcome-counted_example : TransportFailure timeout
record_delivery_outcome-counted_example =
    record_delivery_outcome-counted uuid_text no_faults 100 start timeout true refl timeout_counts

three_failures_example :
    let db1 = deliver uuid_text 100 start timeout in
    let db2 = deliver uuid_text 200 db1 timeout in
    let db3 = deliver uuid_text (100 + 120 * second) db2 timeout in
    (is_open db1.state.circuit ≡ false)
    × (is_open db2.state.circuit ≡ false)
    × (is_open db3.state.circuit ≡ true)
    × (db3.state.open_category ≡ some transport)
    × (db3.state.failure_count ≡ 3)
three_failures_example =
    three_failures uuid_text 100 200 (100 + 120 * second) start timeout timeout timeout
      timeout-IsTransportFailure timeout-IsTransportFailure timeout-IsTransportFailure refl refl
      refl (omega arith) (omega arith) (omega arith)

abbrev broken : Db
broken = record {
  state = record quiet {
    circuit = circuit_open;
    open_reason = some (codes "smtp_535");
    open_category = some authentication;
    opened_at = some 100;
    next_probe_at = some (100 + 30 * second);
  };
  tests = passed ∷ [];
  outbox = [];
  notices = [];
}

abbrev claimed_row : Db
claimed_row = record broken {
  state = record (broken.state) {
    next_probe_at = some (70 * second);
    revision = 6;
    updated_at = 40 * second;
  };
  notices = (probe_claimed, 6) ∷ [];
}

abbrev claim : ProbeClaim
claim = record { acquired = true; expected_revision = 6; state = claimed_row.state }

claim_succeeds : claim_probe no_faults (40 * second) broken true current ≡ (claimed_row, ok claim)
unfolding claim_probe validate_source source_matches_state str_eq
claim_succeeds = refl

-- Meanwhile a message times out, and another instance tries to claim the probe too early.
abbrev busy : List Event
busy =
    delivered (41 * second) timeout
    ∷ record { available = true; faults = no_faults; now = 42 * second; call = claims current }
    ∷ []

claim_exclusive_example :
    let db = run uuid_text busy claimed_row in
    Refused db (claim_probe no_faults (69 * second) db true current)
claim_exclusive_example =
    claim_exclusive uuid_text no_faults (40 * second) broken current true busy no_faults
      (69 * second) current true claim_succeeds (tt, (tt, tt)) (omega arith)

abbrev answer : ProbeOutcome
answer = record {
  source = current;
  expected_revision = 6;
  success = true;
  category = [];
  reason = [];
}

-- Between the claim and its outcome another instance records the same probe.
abbrev meanwhile : List Event
meanwhile =
    record { available = true; faults = no_faults; now = 41 * second; call = probes answer } ∷ []

stale_probe_example :
    let db = run uuid_text meanwhile claimed_row in
    Refused db (record_probe_outcome uuid_text no_faults (42 * second) db true answer)
unfolding run record_probe_outcome normalize_probe_outcome validate_source source_matches_state
    str_eq
stale_probe_example =
    stale_probe uuid_text no_faults (40 * second) broken current true meanwhile no_faults
      (42 * second) answer true claim_succeeds (λ e. cc (ap (λ d. is_open d.state.circuit) e)) refl

activate-ActivatedAfterTest_example :
    ActivatedAfterTest no_faults
      (100 * second)
      "v2"
      start
      (activate uuid_text no_faults (100 * second) start true true 5 "v2")
activate-ActivatedAfterTest_example =
    activate-ActivatedAfterTest uuid_text no_faults (100 * second) start true true 5 "v2"
