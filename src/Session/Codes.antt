-- ===== src/Session/Codes.antt =====
-- internal/session/store.go: the methods of Store on authorization codes.
use nyauth.Common.{ℕ, Option, none, some, if◌then◌else◌, str_eq, String, ◌==◌}
use nyauth.Redis.{
  Redis, Network, delivered, unreachable, reply_lost, Reply, replied, no_reply, send,
}
use nyauth.Session.{
  AuthorizationData, Key, code_key, code_used_key, Value, authorization_value, consent_value,
  Consumption, missing, mismatched, used, undecodable, taken, consume_matching_script,
}

pub data Error : Type 0 where
  not_found value_mismatch authorization_code_reuse consent_user_mismatch : Error
  invalid_token_data invalid_ttl unavailable : Error

pub data Result (A : Type 0) : Type 0 where
  ok : A → Result A
  err : Error → Result A

abbrev pub answered : {Db : Type 0} → Db × Reply Unit → Db × Result Unit
answered (db, replied u) = (db, ok tt)
answered (db, no_reply) = (db, err unavailable)

-- The switch on the script's status.
abbrev pub consumed_code :
    {Db : Type 0} → Db × Reply (Consumption AuthorizationData) → Db × Result AuthorizationData
consumed_code (db, no_reply) = (db, err unavailable)
consumed_code (db, replied missing) = (db, err not_found)
consumed_code (db, replied mismatched) = (db, err value_mismatch)
consumed_code (db, replied used) = (db, err authorization_code_reuse)
consumed_code (db, replied undecodable) = (db, err unavailable)
consumed_code (db, replied (taken d)) = (db, ok d)

-- What GetAuthorizationCode returns: a record, the record of a code that was used with
-- ErrAuthorizationCodeReuse, or an error alone.
pub data Lookup : Type 0 where
  live reused : AuthorizationData → Lookup
  lookup_failed : Error → Lookup

abbrev pub used_lookup : Result AuthorizationData → Lookup
used_lookup (ok d) = reused d
used_lookup (err e) = lookup_failed e

abbrev pub live_lookup : Result AuthorizationData → Lookup → Lookup
live_lookup (ok d) otherwise = live d
live_lookup (err not_found) otherwise = otherwise
live_lookup (err value_mismatch) otherwise = lookup_failed value_mismatch
live_lookup (err authorization_code_reuse) otherwise = lookup_failed authorization_code_reuse
live_lookup (err consent_user_mismatch) otherwise = lookup_failed consent_user_mismatch
live_lookup (err invalid_token_data) otherwise = lookup_failed invalid_token_data
live_lookup (err invalid_ttl) otherwise = lookup_failed invalid_ttl
live_lookup (err unavailable) otherwise = lookup_failed unavailable

module _ {Db : Type 0} (redis : Redis Key Value Db) where
  -- setJSON, with the time to live in milliseconds.
  unfoldable pub set_json : Network → Key → Value → ℕ → Db → Db × Result Unit
  set_json n key v ttl db =
      if ttl == 0 then (db, err invalid_ttl) else answered (send n db (redis.set key v ttl db, tt))

  -- getJSON on an authorization code. A refused request is an error.
  unfoldable pub decode_code : Option Value → Result AuthorizationData
  decode_code none = err not_found
  decode_code (some (authorization_value d)) = ok d
  decode_code (some (consent_value c)) = err unavailable

  unfoldable pub get_code_json : Network → Key → Db → Result AuthorizationData
  unfolding decode_code
  get_code_json delivered key db = decode_code (redis.get key db)
  get_code_json unreachable key db = err unavailable
  get_code_json reply_lost key db = err unavailable

abbrev pub consumed_any : {Db : Type 0} → Db × Reply (Option Value) → Db × Result AuthorizationData
consumed_any (db, no_reply) = (db, err unavailable)
consumed_any (db, replied none) = (db, err not_found)
consumed_any (db, replied (some (consent_value c))) = (db, err unavailable)
consumed_any (db, replied (some (authorization_value d))) = (db, ok d)

module _ {Db : Type 0} (redis : Redis Key Value Db) (digest : String → String) where
  -- SaveAuthorizationCode: randomSecret gives the version.
  unfoldable pub save_authorization_code :
      Network → Option String → String → AuthorizationData → ℕ → Db → Db × Result Unit
  unfolding set_json
  save_authorization_code n none code data_ ttl db = (db, err unavailable)
  save_authorization_code n (some version) code data_ ttl db =
      set_json redis n (code_key (digest code))
        (authorization_value (record data_ { record_version = version })) ttl db

  -- GetAuthorizationCode, whose two requests may fail apart.
  unfoldable pub get_authorization_code : Network → Network → String → Db → Lookup
  unfolding get_code_json
  get_authorization_code n n' code db =
      live_lookup (get_code_json redis n (code_key (digest code)) db)
        (used_lookup (get_code_json redis n' (code_used_key (digest code)) db))

  -- ConsumeAuthorizationCodeIfMatch, with the version of the expected record.
  unfoldable pub consume_authorization_code_if_match :
      Network → String → String → ℕ → Db → Db × Result AuthorizationData
  consume_authorization_code_if_match n code version used_ttl db =
      let consumed = consumed_code (
        send n db (
          consume_matching_script redis (code_key (digest code)) (code_used_key (digest code))
            version used_ttl db)) in
      if str_eq version ""
      then (db, err invalid_token_data)
      else if used_ttl == 0
      then (db, err invalid_ttl)
      else consumed

  -- ConsumeAuthorizationCode, by GETDEL.
  unfoldable pub consume_authorization_code : Network → String → Db → Db × Result AuthorizationData
  consume_authorization_code n code db =
      let key = code_key (digest code) in
      consumed_any (send n db (redis.del key db, redis.get key db))
