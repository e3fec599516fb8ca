-- ===== src/Device.antt =====
-- internal/deviceauthorization/store.go: the records of the device authorization grant in Redis.
-- Here: the stored data and the Lua scripts.
pub mod Codes
pub mod Store
pub mod Cases
pub mod Frozen
pub mod Grants
pub mod Pace
pub mod Found
pub mod Tests
pub mod Decisions
use nyauth.Common.{
  ℕ, ◌+◌, ◌*◌, ◌≡◌, Bool, true, false, List, Option, none, some, if◌then◌else◌, str_eq, String, ltb,
  leb, not, ◌&&◌, ◌||◌,
}
use nyauth.Redis.{Redis}

-- A Status string; any other string is `unknown_status`.
pub data Status : Type 0 where
  pending approved denied unknown_status : Status

-- Times are Unix milliseconds.
pub record Record : Type 0 where
  pub record_version : String
  pub device_id : String
  pub user_code_digest : String
  pub client_id : String
  pub scopes : List String
  pub optional_scopes : List String
  pub scope_claims : List (String × List String)
  pub client_identity_revision : ℕ
  pub client_authorization_revision : ℕ
  pub status : Status
  pub created_at : ℕ
  pub expires_at : ℕ
  pub interval_seconds : ℕ
  pub next_poll_at : ℕ
  pub user_id : String
  pub auth_version : ℕ
  pub granted_scopes : List String
  pub allowed_claims : List String
  pub authorization_issued_at : ℕ
  pub authentication_context : String
  pub authentication_methods : List String
  pub authentication_time : ℕ

-- recordKey and userCodeKey.
pub data Key : Type 0 where
  record_key user_code_key : String → Key

-- What stands under a key: a record as JSON, or a device id.
pub data Value : Type 0 where
  record_value : Record → Value
  device_value : String → Value

abbrev pub is_pending : Status → Bool
is_pending pending = true
is_pending approved = false
is_pending denied = false
is_pending unknown_status = false

abbrev pub is_approved : Status → Bool
is_approved pending = false
is_approved approved = true
is_approved denied = false
is_approved unknown_status = false

abbrev pub is_denied : Status → Bool
is_denied pending = false
is_denied approved = false
is_denied denied = true
is_denied unknown_status = false

-- The replies of pollScript: {0}, {-1}, {1, interval}, {2, interval}, {3}, {4, raw}, or an error of
-- cjson.decode.
pub data PollReply : Type 0 where
  poll_missing poll_mismatch poll_denied poll_error : PollReply
  poll_wait poll_slower : ℕ → PollReply
  poll_granted : Record → PollReply

-- The replies 0, -1, 1 of the other scripts, or an error of cjson.decode.
pub data ScriptReply : Type 0 where
  script_missing script_mismatch script_done script_error : ScriptReply

abbrev pub waited : ℕ → Record → Record
waited now r = record r { next_poll_at = now + r.interval_seconds * 1000 }

abbrev pub slowed : ℕ → ℕ → Record → Record
slowed now step r = record r {
  interval_seconds = r.interval_seconds + step;
  next_poll_at = now + (r.interval_seconds + step) * 1000;
}

-- decideScript's test of the replacement.
unfoldable pub allowed_replacement : Record → Record → Bool
allowed_replacement r new =
    str_eq new.record_version r.record_version
    && (str_eq new.device_id r.device_id
        && (str_eq new.user_code_digest r.user_code_digest
            && (is_approved new.status || is_denied new.status)))

module _ {Db : Type 0} (redis : Redis Key Value Db) where
  -- createScript, with what stands under the two keys.
  unfoldable pub create_values :
      Key → Key → Record → ℕ → String → Option Value → Option Value → Db → Db × ScriptReply
  create_values key code_key r ttl device_id (some v) found db = (db, script_missing)
  create_values key code_key r ttl device_id none (some v) db = (db, script_missing)
  create_values key code_key r ttl device_id none none db =
      let db' = redis.set key (record_value r) ttl db in
      (redis.set code_key (device_value device_id) ttl db', script_done)

  unfoldable pub create_script : Key → Key → Record → ℕ → String → Db → Db × ScriptReply
  create_script key code_key r ttl device_id db =
      create_values key code_key r ttl device_id (redis.get key db) (redis.get code_key db) db

  -- The PTTL test and the SET that end both pending branches of pollScript.
  unfoldable pub store_polled : Key → Record → PollReply → Db → Db × PollReply
  store_polled key r reply db =
      let ttl = redis.pttl key db in
      if leb ttl 0
      then (redis.del key db, poll_missing)
      else (redis.set key (record_value r) ttl db, reply)

  unfoldable pub poll_pending : Key → ℕ → ℕ → Record → Db → Db × PollReply
  poll_pending key now step r db =
      if ltb now r.next_poll_at
      then store_polled key (slowed now step r) (poll_slower (r.interval_seconds + step)) db
      else store_polled key (waited now r) (poll_wait r.interval_seconds) db

  -- pollScript, after the client's test.
  unfoldable pub poll_status : Key → ℕ → ℕ → Status → Record → Db → Db × PollReply
  poll_status key now step denied r db = (redis.del key db, poll_denied)
  poll_status key now step approved r db = (db, poll_granted r)
  poll_status key now step pending r db = poll_pending key now step r db
  poll_status key now step unknown_status r db = (db, poll_mismatch)

  unfoldable pub poll_value : Key → String → ℕ → ℕ → Option Value → Db → Db × PollReply
  poll_value key client now step none db = (db, poll_missing)
  poll_value key client now step (some (device_value d)) db = (db, poll_error)
  poll_value key client now step (some (record_value r)) db =
      if str_eq r.client_id client
      then poll_status key now step r.status r db
      else (db, poll_mismatch)

  unfoldable pub poll_script : Key → String → ℕ → ℕ → Db → Db × PollReply
  poll_script key client now step db = poll_value key client now step (redis.get key db) db

  -- decideScript, with the replacement decoded.
  unfoldable pub decide_stored : Key → Key → Record → Db → Db × ScriptReply
  decide_stored key code_key new db =
      let ttl = redis.pttl key db in
      if leb ttl 0
      then (redis.del code_key (redis.del key db), script_missing)
      else (redis.del code_key (redis.set key (record_value new) ttl db), script_done)

  unfoldable pub decide_value : Key → Key → String → Record → Option Value → Db → Db × ScriptReply
  decide_value key code_key version new none db = (db, script_missing)
  decide_value key code_key version new (some (device_value d)) db = (db, script_error)
  decide_value key code_key version new (some (record_value r)) db =
      let stored = decide_stored key code_key new db in
      if str_eq r.record_version version && (is_pending r.status && allowed_replacement r new)
      then stored
      else (db, script_mismatch)

  unfoldable pub decide_script : Key → Key → String → Record → Db → Db × ScriptReply
  decide_script key code_key version new db =
      decide_value key code_key version new (redis.get key db) db

  -- consumeScript.
  unfoldable pub consume_value : Key → Key → String → Option Value → Db → Db × ScriptReply
  consume_value key code_key version none db = (db, script_missing)
  consume_value key code_key version (some (device_value d)) db = (db, script_error)
  consume_value key code_key version (some (record_value r)) db =
      if str_eq r.record_version version && is_approved r.status
      then (redis.del code_key (redis.del key db), script_done)
      else (db, script_mismatch)

  unfoldable pub consume_script : Key → Key → String → Db → Db × ScriptReply
  consume_script key code_key version db = consume_value key code_key version (redis.get key db) db
