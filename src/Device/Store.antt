-- ===== src/Device/Store.antt =====
-- internal/deviceauthorization/store.go: the methods of Store.
use nyauth.Common.{
  ℕ, zero, suc, ◌+◌, ◌/◌, max, Bool, List, Option, none, some, if◌then◌else◌, str_eq, String, leb,
  ◌==◌, not, ◌&&◌, ◌||◌,
}
use nyauth.Common.Text.{Text, len}
use nyauth.Redis.{
  Redis, Network, delivered, unreachable, reply_lost, Reply, replied, no_reply, send,
}
use nyauth.Device.{
  pending, Record, Key, record_key, user_code_key, Value, record_value, device_value, ScriptReply,
  script_missing, script_mismatch, script_done, script_error, is_pending, create_script,
}
use nyauth.Device.Codes.{random_user_code, normalize_user_code}

pub data Error : Type 0 where
  not_found value_mismatch authorization_pending slow_down access_denied : Error
  invalid_input unavailable exhausted : Error

pub data Result (A : Type 0) : Type 0 where
  ok : A → Result A
  err : Error → Result A

abbrev pub default_ttl : ℕ
default_ttl = 600000

abbrev pub default_interval : ℕ
default_interval = 5000

abbrev pub slow_down_step : ℕ
slow_down_step = 5

-- Durations are whole milliseconds.
pub record CreateInput : Type 0 where
  pub client_id : String
  pub scopes : List String
  pub optional_scopes : List String
  pub scope_claims : List (String × List String)
  pub client_identity_revision : ℕ
  pub client_authorization_revision : ℕ
  pub ttl : ℕ
  pub interval : ℕ

-- What crypto/rand, the clock and the connection give to one attempt of Create.
pub record Attempt : Type 0 where
  pub device_code : String
  pub left : List ℕ
  pub right : List ℕ
  pub version : String
  pub random_failed : Bool
  pub now : ℕ
  pub network : Network

pub record Created : Type 0 where
  pub device_code : String
  pub user_code : Text
  pub stored : Record

abbrev pub effective_ttl : ℕ → ℕ
effective_ttl ttl = if ttl == 0 then default_ttl else ttl

abbrev pub effective_interval : ℕ → ℕ
effective_interval i = max 1000 (if i == 0 then default_interval else i)

-- sha256 and the Unicode tables are parameters: a digest of a code that the server drew, and one of a
-- code that the user typed.
pub record Digests : Type 0 where
  pub code_digest : String → String
  pub text_digest : Text → String
  pub unicode_upper : ℕ → ℕ

module _ {Db : Type 0} (redis : Redis Key Value Db) (ds : Digests) where
  abbrev pub user_digest : Text → String
  user_digest s = ds.text_digest (normalize_user_code ds.unicode_upper s)

  -- The record that Create stores; Round and the division give whole seconds.
  abbrev pub new_record : CreateInput → Attempt → Record
  new_record input a = record {
    record_version = a.version;
    device_id = ds.code_digest a.device_code;
    user_code_digest = user_digest (random_user_code a.left a.right);
    client_id = input.client_id;
    scopes = input.scopes;
    optional_scopes = input.optional_scopes;
    scope_claims = input.scope_claims;
    client_identity_revision = input.client_identity_revision;
    client_authorization_revision = input.client_authorization_revision;
    status = pending;
    created_at = a.now;
    expires_at = a.now + effective_ttl input.ttl;
    interval_seconds = (effective_interval input.interval + 500) / 1000;
    next_poll_at = a.now + effective_interval input.interval;
    user_id = "";
    auth_version = 0;
    granted_scopes = List.[];
    allowed_claims = List.[];
    authorization_issued_at = 0;
    authentication_context = "";
    authentication_methods = List.[];
    authentication_time = 0;
  }

  abbrev pub attempt : CreateInput → Attempt → Db → Db × Reply ScriptReply
  attempt input a db =
      let r = new_record input a in
      let key = record_key r.device_id in
      let code_key = user_code_key r.user_code_digest in
      let ttl = effective_ttl input.ttl in
      let sent = send a.network db (create_script redis key code_key r ttl r.device_id db) in
      if a.random_failed then (db, no_reply) else sent

  -- One attempt failed with an error, stored the record, or met a code that is in use.
  abbrev pub create_ends :
      CreateInput
      → Attempt
      → Db × Reply ScriptReply
      → (Db → Db × Result Created)
      → Db × Result Created
  create_ends input a (db, no_reply) again = (db, err unavailable)
  create_ends input a (db, replied script_done) again = (
    db,
    ok (record {
      device_code = a.device_code;
      user_code = random_user_code a.left a.right;
      stored = new_record input a;
    }),
  )
  create_ends input a (db, replied script_missing) again = again db
  create_ends input a (db, replied script_mismatch) again = again db
  create_ends input a (db, replied script_error) again = (db, err unavailable)

  unfoldable pub create_loop : ℕ → CreateInput → (ℕ → Attempt) → Db → Db × Result Created
  create_loop zero input draw db = (db, err exhausted)
  create_loop (suc n) input draw db =
      create_ends input (draw 0) (attempt input (draw 0) db)
        (create_loop n input (λ i. draw (suc i)))

  -- Create; `blank_client` is whether the client id has nothing but spaces.
  unfoldable pub create : CreateInput → Bool → (ℕ → Attempt) → Db → Db × Result Created
  unfolding create_loop
  create input blank_client draw db =
      if blank_client then (db, err invalid_input) else create_loop 8 input draw db

  -- getByID's tests on the record it decoded.
  unfoldable pub checked_record : String → ℕ → Record → Result Record
  checked_record device_id now r =
      if not (str_eq r.device_id device_id) || (str_eq r.record_version "" || leb r.expires_at now)
      then err not_found
      else ok r

  unfoldable pub read_record : String → ℕ → Option Value → Result Record
  unfolding checked_record
  read_record device_id now none = err not_found
  read_record device_id now (some (device_value d)) = err unavailable
  read_record device_id now (some (record_value r)) = checked_record device_id now r

  unfoldable pub get_by_id : Network → String → ℕ → Db → Result Record
  unfolding read_record
  get_by_id delivered device_id now db =
      read_record device_id now (redis.get (record_key device_id) db)
  get_by_id unreachable device_id now db = err unavailable
  get_by_id reply_lost device_id now db = err unavailable

  unfoldable pub pending_with : String → Result Record → Result Record
  pending_with user_digest' (err e) = err e
  pending_with user_digest' (ok r) =
      if is_pending r.status && str_eq r.user_code_digest user_digest' then ok r else err not_found

  -- What stands under the digest of the code; the second request reads the record.
  unfoldable pub resolve_code : Network → String → ℕ → Option Value → Db → Result Record
  unfolding pending_with get_by_id
  resolve_code n digest now none db = err not_found
  resolve_code n digest now (some (record_value r)) db = err not_found
  resolve_code n digest now (some (device_value id)) db =
      pending_with digest (get_by_id n id now db)

  unfoldable pub resolve_request : Network → Network → String → ℕ → Db → Result Record
  unfolding resolve_code
  resolve_request delivered n' digest now db =
      resolve_code n' digest now (redis.get (user_code_key digest) db) db
  resolve_request unreachable n' digest now db = err unavailable
  resolve_request reply_lost n' digest now db = err unavailable

  unfoldable pub find_pending_by_user_code : Network → Network → Text → ℕ → Db → Result Record
  unfolding resolve_request
  find_pending_by_user_code n n' user_code now db =
      let found = resolve_request n n' (user_digest user_code) now db in
      if len (normalize_user_code ds.unicode_upper user_code) == 8 then found else err not_found

  unfoldable pub pending_version : String → Result Record → Result Record
  pending_version version (err e) = err e
  pending_version version (ok r) =
      if is_pending r.status && str_eq r.record_version version then ok r else err value_mismatch

  unfoldable pub get_pending : Network → String → String → ℕ → Db → Result Record
  unfolding pending_version get_by_id
  get_pending n device_id version now db = pending_version version (get_by_id n device_id now db)
