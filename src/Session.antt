-- ===== src/Session.antt =====
-- internal/session/store.go: one-time values in Redis, the authorization codes and the consents.
-- Here: the stored data, the keys and the Lua scripts.
pub mod Codes
pub mod Consents
pub mod Events
pub mod Spent
pub mod Once
pub mod Owners
pub mod Clock
pub mod Revocation
pub mod Revoked
pub mod Contained
pub mod Tests
pub mod ClockTests
use nyauth.Common.{ℕ, Bool, List, Option, none, some, if◌then◌else◌, str_eq, String}
use nyauth.Redis.{Redis}

pub record AuthorizationData : Type 0 where
  pub record_version : String
  pub client_id : String
  pub user_id : String
  pub redirect_uri : String
  pub scopes : List String
  pub allowed_claims : List String
  pub claim_names_set : Bool
  pub code_challenge : String
  pub challenge_method : String
  pub nonce : String
  pub auth_version : ℕ
  pub authentication_context : String
  pub authentication_methods : List String
  pub authentication_time : ℕ
  pub authorization_issued_at : ℕ
  pub client_authorization_revision : ℕ

pub record ConsentScopeDetails : Type 0 where
  pub display_name : String
  pub description : String
  pub risk_level : String

pub record ConsentData : Type 0 where
  pub flow : String
  pub client_id : String
  pub user_id : String
  pub redirect_uri : String
  pub scopes : List String
  pub optional_scopes : List String
  pub scope_claims : List (String × List String)
  pub scope_details : List (String × ConsentScopeDetails)
  pub state : String
  pub code_challenge : String
  pub challenge_method : String
  pub nonce : String
  pub auth_version : ℕ
  pub client_identity_revision : ℕ
  pub client_authorization_revision : ℕ
  pub required_auth_context : String
  pub max_age_seconds : Option ℕ
  pub max_age_satisfied : Bool
  pub device_id : String
  pub device_record_version : String

-- codePrefix, codeUsedPrefix and consentPrefix, over the digest of the secret.
pub data Key : Type 0 where
  code_key code_used_key consent_key : String → Key

pub data Value : Type 0 where
  authorization_value : AuthorizationData → Value
  consent_value : ConsentData → Value

-- The replies 0, -1, -2 and 1 of the scripts, or an error of cjson.decode.
pub data Consumption (A : Type 0) : Type 0 where
  missing mismatched used undecodable : Consumption A
  taken : A → Consumption A

-- consumeMatchingScript, where the code is gone.
unfoldable pub match_used : String → Option Value → Consumption AuthorizationData
match_used version none = missing
match_used version (some (consent_value c)) = undecodable
match_used version (some (authorization_value d)) =
    if str_eq d.record_version version then used else mismatched

module _ {Db : Type 0} (redis : Redis Key Value Db) where
  unfoldable pub consume_matching_value :
      Key → Key → String → ℕ → Option Value → Db → Db × Consumption AuthorizationData
  consume_matching_value key used_key version ttl none db =
      (db, match_used version (redis.get used_key db))
  consume_matching_value key used_key version ttl (some (consent_value c)) db = (db, undecodable)
  consume_matching_value key used_key version ttl (some (authorization_value d)) db =
      if str_eq d.record_version version
      then (redis.del key (redis.set used_key (authorization_value d) ttl db), taken d)
      else (db, mismatched)

  unfoldable pub consume_matching_script :
      Key → Key → String → ℕ → Db → Db × Consumption AuthorizationData
  consume_matching_script key used_key version ttl db =
      consume_matching_value key used_key version ttl (redis.get key db) db

  unfoldable pub consume_consent_value :
      Key → String → Option Value → Db → Db × Consumption ConsentData
  consume_consent_value key user none db = (db, missing)
  consume_consent_value key user (some (authorization_value d)) db = (db, undecodable)
  consume_consent_value key user (some (consent_value c)) db =
      if str_eq c.user_id user then (redis.del key db, taken c) else (db, mismatched)

  unfoldable pub consume_consent_script : Key → String → Db → Db × Consumption ConsentData
  consume_consent_script key user db = consume_consent_value key user (redis.get key db) db
