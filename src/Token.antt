-- ===== src/Token.antt =====
-- internal/auth/token.go and handler.go: the token endpoint, which exchanges codes and refresh tokens
-- for tokens, and the validation and revocation of tokens.
-- Here: the records of clients, users, claims and requests, and what surrounds the server.
pub mod Exec
pub mod Clients
pub mod ClaimNames
pub mod Validate
pub mod Issue
pub mod Replies
pub mod Revoked
pub mod CodeGrant
pub mod RefreshGrant
pub mod Grants
pub mod Access
pub mod Inspect
pub mod Disclosed
pub mod UserInfo
pub mod Keeps
pub mod Changes
pub mod Exchanged
pub mod Redeemed
pub mod Replayed
pub mod Rotations
pub mod Refreshed
pub mod Unbound
pub mod Allowed
pub mod Confidential
pub mod Machine
pub mod Devices
pub mod DeviceGrant
pub mod Valid
pub mod Fresh
pub mod Tests
mod GrantTests
mod AccessTests
pub mod Issued
use nyauth.Common.{ℕ, Bool, List, Option, String}
use nyauth.Common.Text.{Text}
use nyauth.Redis.{Redis, Network}
use nyauth.Redis.Sets.{RedisSets}
use nyauth.Session.{Key as CodeKey, Value as CodeValue}
use nyauth.Session.Clock.{ClockKey}
use nyauth.Refresh.{Key as TokenKey, Member, Value as TokenValue}
use nyauth.Device.{Key as DeviceKey, Value as DeviceValue}
use nyauth.Device.Store.{Digests}

-- models.OAuthClient, as far as this endpoint reads it. A nil slice of claims is `none`.
pub record OauthClient : Type 0 where
  pub id : String
  pub identity_revision : ℕ
  pub authorization_revision : ℕ
  pub redirect_uris : List String
  pub grants : List String
  pub scopes : List String
  pub allowed_claims : Option (List String)
  pub is_public : Bool

pub record User : Type 0 where
  pub username : String
  pub display_name : Option String
  pub avatar_url : Option String
  pub email : Option String
  pub email_verified : Bool
  pub role : String
  pub status : String
  pub auth_version : ℕ

-- What userService.GetByID returns.
pub data UserAnswer : Type 0 where
  found_user : User → UserAnswer
  no_user user_unavailable : UserAnswer

-- IssuanceAuthentication.
pub record IssuanceAuthentication : Type 0 where
  pub context : String
  pub methods : List String
  pub auth_time : ℕ

-- Claims. Times are Unix milliseconds.
pub record Claims : Type 0 where
  pub issuer : String
  pub subject : String
  pub audience : List String
  pub expires_at : ℕ
  pub issued_at : ℕ
  pub id : String
  pub scope : String
  pub allowed_claims : List String
  pub claim_names_set : Bool
  pub token_use : String
  pub auth_version : ℕ
  pub authentication_context : Text
  pub authentication_methods : List String
  pub authentication_time : ℕ

-- The header of a JWT; its key id is there when it is a string.
pub record TokenHeader : Type 0 where
  pub algorithm : String
  pub kid : Option String

-- models.JWK, with its public key as PEM text.
pub record PublicJwk : Type 0 where
  pub kid : String
  pub algorithm : String
  pub key_type : String
  pub usage : String
  pub public_key : String

-- What a claim of an ID token says of its user.
pub data ClaimValue : Type 0 where
  text : String → ClaimValue
  flag : Bool → ClaimValue

-- The claims that GenerateIDToken signs.
pub record IdClaims : Type 0 where
  pub subject : String
  pub audience : String
  pub expires_at : ℕ
  pub issued_at : ℕ
  pub id : String
  pub auth_version : ℕ
  pub nonce : String
  pub authentication_context : Text
  pub authentication_methods : List String
  pub authentication_time : ℕ
  pub user_info : List (String × ClaimValue)

pub record TokenPair : Type 0 where
  pub access_token : String
  pub expires_in : ℕ
  pub refresh_token : String
  pub scope : String
  pub id_token : String

-- The form of a request, with its Basic credentials.
pub record Form : Type 0 where
  pub grant_type : String
  pub code : String
  pub redirect_uri : String
  pub code_verifier : String
  pub device_code : String
  pub refresh_token : String
  pub token : String
  pub scope : String
  pub client_id : String
  pub client_secret : String
  pub basic : Option (String × String)

-- TokenLifetimes, in milliseconds.
pub record TokenLifetimes : Type 0 where
  pub access_token : ℕ
  pub refresh_token : ℕ
  pub authorization_code : ℕ

-- The claims of a scope and the assignment policy of a claim, where settings.OAuthPolicy has them.
pub record OauthPolicy : Type 0 where
  pub definition_claims : String → Option (List String)
  pub assignment_policy : String → Option String

-- The connection in each request to Redis.
pub record Networks : Type 0 where
  pub read_code : Network
  pub read_used_code : Network
  pub consume_code : Network
  pub revoke_grant : Network
  pub read_revocation : Network
  pub save_refresh : Network
  pub save_access : Network
  pub read_refresh : Network
  pub read_used_refresh : Network
  pub rotate : Network
  pub revoke_refresh : Network
  pub read_access : Network
  pub revoke_access : Network
  pub poll_device : Network
  pub consume_device : Network

-- What surrounds the server during one request: the tables of PostgreSQL, the signing library, random
-- values, clocks and connections. A table that one request reads more than once takes the number of
-- the read, as another instance may change it between.
pub record Env : Type 0 where
  pub digest : String → String
  pub pair_digest : String → String → String
  pub device_digests : Digests
  pub s256 : Text → Text
  pub get_client : String → Option OauthClient
  pub authenticate_client : String → String → Option OauthClient
  pub client_revision : (read : ℕ) → String → Option ℕ
  pub user_may_access : String → String → Option Bool
  pub parse_uuid : String → Option String
  pub get_user : (read : ℕ) → String → UserAnswer
  pub revoke_authorization : String → String → ℕ → Bool
  pub policy : OauthPolicy
  pub issuer : String
  pub lifetimes : TokenLifetimes
  pub revocation_ttl : ℕ
  pub code_retention : ℕ
  pub sign : Claims → Option String
  pub sign_id : IdClaims → Option String
  pub parse_header : String → Option TokenHeader
  pub active_keys : Option (List PublicJwk)
  pub is_rsa_key : String → Bool
  pub parse_with_claims : (key : String) → String → Option Claims
  pub jti : String
  pub id_jti : String
  pub refresh_secret : Option String
  pub family_secret : Option String
  pub now : ℕ
  pub micros : ℕ
  pub networks : Networks

-- The keyspaces of Redis, one for each store.
pub record Backends (C G R D : Type 0) : Type 0 where
  pub codes : Redis CodeKey CodeValue C
  pub clock : Redis ClockKey ℕ G
  pub tokens : RedisSets TokenKey Member TokenValue R
  pub devices : Redis DeviceKey DeviceValue D

pub record World (C G R D : Type 0) : Type 0 where
  pub codes : C
  pub clock : G
  pub tokens : R
  pub devices : D
