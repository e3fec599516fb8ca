-- ===== src/Device/Decisions.antt =====
-- internal/deviceauthorization/store.go: the methods of Store that decide, poll and consume.
use nyauth.Common.{ℕ, Bool, List, [], ◌∷◌, if◌then◌else◌, str_eq, String, leb, ◌||◌}
use nyauth.Redis.{Redis, Network, Reply, replied, no_reply, send}
use nyauth.Device.{
  approved, denied, Record, Key, record_key, user_code_key, Value, PollReply, poll_missing,
  poll_mismatch, poll_denied, poll_error, poll_wait, poll_slower, poll_granted, ScriptReply,
  script_missing, script_mismatch, script_done, script_error, poll_script, decide_script,
  consume_script,
}
use nyauth.Device.Store.{
  Error, Result, ok, err, not_found, value_mismatch, authorization_pending, slow_down,
  access_denied, invalid_input, unavailable, slow_down_step, CreateInput, Attempt, Digests, create,
}

-- The arguments of ApproveWithAuthentication; Approve passes "", none and 0 as the last three.
pub record Approval : Type 0 where
  pub user_id : String
  pub auth_version : ℕ
  pub scopes : List String
  pub claims : List String
  pub authorization_issued_at : ℕ
  pub authentication_context : String
  pub authentication_methods : List String
  pub authentication_time : ℕ

abbrev pub approved_record : Record → Approval → Record
approved_record r a = record r {
  status = approved;
  user_id = a.user_id;
  auth_version = a.auth_version;
  granted_scopes = a.scopes;
  allowed_claims = a.claims;
  authorization_issued_at = a.authorization_issued_at;
  authentication_context = a.authentication_context;
  authentication_methods = a.authentication_methods;
  authentication_time = a.authentication_time;
}

abbrev pub denied_record : Record → Record
denied_record r = record r { status = denied }

abbrev pub decision_result : {Db : Type 0} → Db × Reply ScriptReply → Db × Result Unit
decision_result (db, no_reply) = (db, err unavailable)
decision_result (db, replied script_done) = (db, ok tt)
decision_result (db, replied script_missing) = (db, err not_found)
decision_result (db, replied script_mismatch) = (db, err value_mismatch)
decision_result (db, replied script_error) = (db, err unavailable)

-- Poll's result on each reply of pollScript: the record and the interval in seconds, or the interval
-- with an error.
pub data Polled : Type 0 where
  poll_failed : Error → (seconds : ℕ) → Polled
  poll_ok : Record → (seconds : ℕ) → Polled

abbrev pub polled : Reply PollReply → Polled
polled no_reply = poll_failed unavailable 0
polled (replied poll_missing) = poll_failed not_found 0
polled (replied poll_mismatch) = poll_failed not_found 0
polled (replied (poll_wait n)) = poll_failed authorization_pending n
polled (replied (poll_slower n)) = poll_failed slow_down n
polled (replied poll_denied) = poll_failed access_denied 0
polled (replied (poll_granted r)) = poll_ok r r.interval_seconds
polled (replied poll_error) = poll_failed unavailable 0

module _ {Db : Type 0} (redis : Redis Key Value Db) where
  unfoldable pub run_decision : Network → Record → Record → Db → Db × Result Unit
  run_decision n r new db = decision_result (
      send n db (
        decide_script redis (record_key r.device_id) (user_code_key r.user_code_digest)
          r.record_version new db))

  unfoldable pub approve : Network → Record → Approval → Db → Db × Result Unit
  unfolding run_decision
  approve n r a db =
      let decided = run_decision n r (approved_record r a) db in
      if str_eq a.user_id "" || (leb a.auth_version 0 || leb a.authorization_issued_at 0)
      then (db, err invalid_input)
      else decided

  unfoldable pub deny : Network → Record → Db → Db × Result Unit
  unfolding run_decision
  deny n r db = run_decision n r (denied_record r) db

  unfoldable pub consume_approved : Network → Record → Db → Db × Result Unit
  consume_approved n r db = decision_result (
      send n db (
        consume_script redis (record_key r.device_id) (user_code_key r.user_code_digest)
          r.record_version db))

module _ {Db : Type 0} (redis : Redis Key Value Db) (ds : Digests) where
  abbrev pub poll_request : Network → String → String → ℕ → Db → Db × Reply PollReply
  poll_request n device_code client now db =
      send n db
        (poll_script redis (record_key (ds.code_digest device_code)) client now slow_down_step db)

  unfoldable pub poll : Network → String → String → ℕ → Db → Db × Polled
  poll n device_code client now db =
      let r = poll_request n device_code client now db in (r.0, polled r.1)

-- What may happen to the records, in the order in which Redis runs it.
pub data Event : Type 0 where
  creates : CreateInput → (blank_client : Bool) → (ℕ → Attempt) → Event
  approves : Network → Record → Approval → Event
  denies : Network → Record → Event
  polls : Network → (device_code client : String) → (now : ℕ) → Event
  consumes : Network → Record → Event
  passes : (milliseconds : ℕ) → Event

module _ {Db : Type 0} (redis : Redis Key Value Db) (ds : Digests) where
  unfoldable pub step : Event → Db → Db
  unfolding create approve deny poll consume_approved
  step (creates input blank draw) db = (create redis ds input blank draw db).0
  step (approves n r a) db = (approve redis n r a db).0
  step (denies n r) db = (deny redis n r db).0
  step (polls n code client now) db = (poll redis ds n code client now db).0
  step (consumes n r) db = (consume_approved redis n r db).0
  step (passes t) db = redis.elapse t db

  unfoldable pub run : List Event → Db → Db
  unfolding step
  run [] db = db
  run (e ∷ es) db = run es (step e db)
