-- ===== src/Mail.antt =====
-- internal/mailruntime: the singleton row `mail_runtime_state` and its transactions.
-- Here: types.go, and the transaction skeleton that the methods of store.go and circuit.go share.
pub mod Outcome
pub mod Circuit
pub mod Versions
pub mod Calls
pub mod VersionCases
pub mod Cases
pub mod ProbeCases
pub mod Constraints
pub mod Preserve
pub mod Audit
pub mod Window
pub mod Probes
pub mod Claims
mod Tests
use nyauth.Common.{
  ℕ, ◌+◌, ◌*◌, ◌≡◌, Bool, true, false, List, ◌∷◌, Option, none, some, if◌then◌else◌, str_eq, String,
}
use nyauth.Common.Text.{Text}
use nyauth.Common.Time.{second, minute}

-- ModeFallback, ModeActive, ModeDisabled: what the row's CHECK constraint allows.
pub data Mode : Type 0 where
  fallback active disabled : Mode

pub data CircuitState : Type 0 where
  circuit_closed circuit_open : CircuitState

pub data Error : Type 0 where
  store_unavailable invalid_config invalid_outcome candidate_not_found candidate_changed : Error
  state_conflict candidate_test_required candidate_test_expired no_previous_version : Error
  already_disabled registration_open already_closed probe_not_due stale_effective_config : Error
  database invalid_audit : Error

pub data Result {ℓ} (A : Type ℓ) : Type ℓ where
  ok : A → Result A
  err : Error → Result A

-- A uuid is a string; times are nanoseconds; a nil pointer is `none`.
pub record State : Type 0 where
  pub mode : Mode
  pub active_version : Option String
  pub candidate_version : Option String
  pub previous_version : Option String
  pub revision : ℕ
  pub circuit : CircuitState
  pub open_reason : Option Text
  pub open_category : Option Text
  pub opened_at : Option ℕ
  pub window_started : Option ℕ
  pub failure_count : ℕ
  pub next_probe_at : Option ℕ
  pub updated_at : ℕ

abbrev pub candidate_test_validity : ℕ
candidate_test_validity = 10 * minute

abbrev pub transport_failure_window : ℕ
transport_failure_window = 2 * minute

abbrev pub transport_failure_limit : ℕ
transport_failure_limit = 3

abbrev pub circuit_probe_interval : ℕ
circuit_probe_interval = 30 * second

pub record EffectiveSource : Type 0 where
  pub mode : Mode
  pub version : Option String

pub record DeliveryOutcome : Type 0 where
  pub source : EffectiveSource
  pub success : Bool
  pub category : Text
  pub reason : Text

pub record ProbeOutcome : Type 0 where
  pub source : EffectiveSource
  pub expected_revision : ℕ
  pub success : Bool
  pub category : Text
  pub reason : Text

pub record Transition : Type 0 where
  pub state : State
  pub changed : Bool
  pub opened : Bool
  pub recovered : Bool

pub record ProbeClaim : Type 0 where
  pub acquired : Bool
  pub expected_revision : ℕ
  pub state : State

pub data AuditEvent : Type 0 where
  circuit_opened_event : (target category reason : Text) → AuditEvent
  circuit_recovered_event : (target reason : Text) → AuditEvent
  tested_event activated_event rolled_back_event : (target : String) → AuditEvent
  disabled_event : AuditEvent

pub data NoticeKind : Type 0 where
  circuit_reset circuit_opened circuit_failure probe_claimed probe_failed : NoticeKind
  circuit_recovered tested activated rolled_back disabled_notice : NoticeKind

pub record TestRecord : Type 0 where
  pub version : String
  pub result : Text
  pub error_category : Option Text
  pub created_at : ℕ

-- What the transactions read and write: the row, the rows of `mail_config_tests` (newest first), the
-- audit outbox and the notifications.
pub record Db : Type 0 where
  pub state : State
  pub tests : List TestRecord
  pub outbox : List AuditEvent
  pub notices : List (NoticeKind × ℕ)

-- Which statement of a transaction PostgreSQL refuses, and whether the reply to a Commit that it made
-- is lost.
pub record Faults : Type 0 where
  pub begin_tx : Bool
  pub lock_row : Bool
  pub query : Bool
  pub insert : Bool
  pub update : Bool
  pub audit : Bool
  pub notify : Bool
  pub commit : Bool
  pub commit_lost : Bool

abbrev pub no_faults : Faults
no_faults = record {
  begin_tx = false;
  lock_row = false;
  query = false;
  insert = false;
  update = false;
  audit = false;
  notify = false;
  commit = false;
  commit_lost = false;
}

-- How a transaction's body ends: by a commit, by a return that the deferred Rollback follows, or by
-- an error that it follows. Commit returns an error too where its reply is lost.
pub data Step {ℓ} (A : Type ℓ) : Type ℓ where
  committed : A → Db → Step A
  lost : Db → Step A
  returned : A → Step A
  failed : Error → Step A

abbrev pub settle {ℓ} : {A : Type ℓ} → Db → Step A → Db × Result A
settle db (committed a db') = (db', ok a)
settle db (lost db') = (db', err database)
settle db (returned a) = (db, ok a)
settle db (failed e) = (db, err e)

-- `if err != nil { return ..., err }` before a transaction begins.
abbrev pub or_error : {A B : Type 0} → Db → Result A → (A → Db × Result B) → Db × Result B
or_error db (err e) rest = (db, err e)
or_error db (ok a) rest = rest a

-- notifyTx and Commit, which end every transaction that writes.
unfoldable pub publish {ℓ} : {A : Type ℓ} → Faults → NoticeKind → Db → A → Step A
publish f kind db a =
    let db' = record db { notices = (kind, db.state.revision) ∷ db.notices } in
    if f.notify
    then failed database
    else if f.commit
    then failed database
    else if f.commit_lost
    then lost db'
    else committed a db'

-- audit.EnqueueTargetResultTx and audit.EnqueueMutationTx.
abbrev pub enqueue {ℓ} : {A : Type ℓ} → Faults → AuditEvent → Db → (Db → Step A) → Step A
enqueue f event db rest =
    let next = rest (record db { outbox = event ∷ db.outbox }) in
    if f.audit then failed database else next

-- UPDATE mail_runtime_state ... RETURNING.
abbrev pub update {ℓ} : {A : Type ℓ} → Faults → State → Db → (Db → Step A) → Step A
update f row db rest =
    let next = rest (record db { state = row }) in if f.update then failed database else next

abbrev pub is_open : CircuitState → Bool
is_open circuit_open = true
is_open circuit_closed = false

abbrev pub version_eq : Option String → Option String → Bool
version_eq (some a) (some b) = str_eq a b
version_eq (some a) none = false
version_eq none b = false
