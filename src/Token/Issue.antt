-- ===== src/Token/Issue.antt =====
-- internal/auth/token.go: how TokenService signs and stores a pair of tokens.
use nyauth.Common.{
  ℕ, ◌+◌, ◌/◌, Bool, true, false, List, [], ◌∷◌, Option, none, some, if◌then◌else◌, ◌==◌, not, ◌||◌,
  String,
}
use nyauth.Common.Text.{Text, codes, is_empty, trim_space}
use nyauth.Auth.ScopeText.{join_scopes}
use nyauth.Auth.StepUp.{normalize_context}
use nyauth.Refresh.{TokenData}
use nyauth.Refresh.Store.{
  Result, ok, err, complete_family, save_refresh_token, save_token_for_refresh_family,
}
use nyauth.Refresh.Tokens.{save_token, revoke_refresh_token_for_client}
use nyauth.Token.{
  IssuanceAuthentication, Claims, ClaimValue, IdClaims, TokenPair, UserAnswer, found_user, no_user,
  user_unavailable, Env, Backends, World,
}
use nyauth.Token.ClaimNames.{claim_limited_user_info}
use nyauth.Token.Clients.{is_blank}
use nyauth.Token.Exec.{Outcome, finished, failed, Exec, give, lift, require, ◌>>=◌, ◌>>◌}
use nyauth.Token.Validate.{
  TokenError, invalid_token, other_error, is_active, normalized_client_revision,
  current_client_authorization_revision, validate_authorization,
}

-- The arguments of generateTokenPair.
pub record Issuance : Type 0 where
  pub client_id : String
  pub subject : String
  pub scopes : List String
  pub allowed_claims : Option (List String)
  pub auth_version : ℕ
  pub issue_refresh : Bool
  pub authorization_issued_at : ℕ
  pub client_authorization_revision : ℕ
  pub authentication : IssuanceAuthentication

abbrev pub listed_claims : Option (List String) → List String
listed_claims none = []
listed_claims (some claims) = claims

abbrev pub claims_set : Option (List String) → Bool
claims_set none = false
claims_set (some claims) = true

-- A slice that was stored: JSON leaves an empty one out.
abbrev pub stored_slice : List String → Option (List String)
stored_slice [] = none
stored_slice (c ∷ cs) = some (c ∷ cs)

-- Both forms of TokenData in generateTokenPair.
abbrev pub token_data : Issuance → String → String → TokenData
token_data g token_use family_key = record {
  client_id = g.client_id;
  user_id = g.subject;
  scopes = g.scopes;
  allowed_claims = listed_claims g.allowed_claims;
  claim_names_set = claims_set g.allowed_claims;
  token_use = token_use;
  auth_version = g.auth_version;
  authentication_context = g.authentication.context;
  authentication_methods = g.authentication.methods;
  authentication_time = g.authentication.auth_time;
  family_id = "";
  family_key = family_key;
  user_key = "";
  authorization_issued_at = g.authorization_issued_at;
  client_authorization_revision = g.client_authorization_revision;
}

-- Whether applyAuthenticationClaims and applyAuthenticationMapClaims write claims, and the context and
-- the time that they write.
abbrev pub has_context : IssuanceAuthentication → Bool
has_context a = not (is_empty (trim_space (codes a.context)))

abbrev pub claimed_context : IssuanceAuthentication → Text
claimed_context a = if has_context a then normalize_context (codes a.context) else []

abbrev pub claimed_methods : IssuanceAuthentication → List String
claimed_methods a = if has_context a then a.methods else []

abbrev pub claimed_time : ℕ → IssuanceAuthentication → ℕ
claimed_time now a =
    if not (has_context a) then 0 else if a.auth_time == 0 then now / 1000 else a.auth_time

module _ (env : Env) where
  unfoldable pub access_claims : Issuance → Claims
  unfolding join_scopes trim_space normalize_context
  access_claims g = record {
    issuer = env.issuer;
    subject = g.subject;
    audience = g.client_id ∷ [];
    expires_at = env.now + env.lifetimes.access_token;
    issued_at = env.now;
    id = env.jti;
    scope = join_scopes g.scopes;
    allowed_claims = listed_claims g.allowed_claims;
    claim_names_set = claims_set g.allowed_claims;
    token_use = "access";
    auth_version = g.auth_version;
    authentication_context = claimed_context g.authentication;
    authentication_methods = claimed_methods g.authentication;
    authentication_time = claimed_time env.now g.authentication;
  }

  abbrev pub signed : Option String → Outcome TokenError String
  signed none = failed other_error
  signed (some token) = finished token

  -- signAccessToken.
  unfoldable pub sign_access_token : Issuance → Outcome TokenError String
  unfolding access_claims
  sign_access_token g = signed (env.sign (access_claims g))

  abbrev pub active_version : UserAnswer → Outcome TokenError ℕ
  active_version no_user = failed invalid_token
  active_version user_unavailable = failed invalid_token
  active_version (found_user u) =
      if is_active u then finished u.auth_version else failed invalid_token

  abbrev pub subject_version : ℕ → Option String → Outcome TokenError ℕ
  subject_version read none = finished 0
  subject_version read (some id) = active_version (env.get_user read id)

  abbrev pub id_claims :
      String
      → String
      → List String
      → String
      → List (String × ClaimValue)
      → IssuanceAuthentication
      → ℕ
      → IdClaims
  id_claims client_id user_id allowed nonce info a version = record {
    subject = user_id;
    audience = client_id;
    expires_at = env.now + env.lifetimes.access_token;
    issued_at = env.now;
    id = env.id_jti;
    auth_version = version;
    nonce = nonce;
    authentication_context = claimed_context a;
    authentication_methods = claimed_methods a;
    authentication_time = claimed_time env.now a;
    user_info = claim_limited_user_info allowed info;
  }

  abbrev pub sign_for : (ℕ → IdClaims) → Outcome TokenError ℕ → Outcome TokenError String
  sign_for claims (failed e) = failed e
  sign_for claims (finished version) = signed (env.sign_id (claims version))

  -- GenerateIDTokenWithClaimsAndAuthentication.
  unfoldable pub generate_id_token :
      ℕ
      → String
      → String
      → List String
      → String
      → List (String × ClaimValue)
      → IssuanceAuthentication
      → Outcome TokenError String
  unfolding claim_limited_user_info trim_space normalize_context
  generate_id_token read client_id user_id allowed nonce info a =
      sign_for (id_claims client_id user_id allowed nonce info a)
        (subject_version read (env.parse_uuid user_id))

-- A refresh token that was stored, with the key of its family; "" and "" where none was asked for.
pub record NewRefresh : Type 0 where
  pub token : String
  pub family : String

abbrev pub family_of : Option TokenData → String
family_of none = ""
family_of (some d) = d.family_key

module _ {C G R D : Type 0} (b : Backends C G R D) (env : Env) where
  abbrev pub saved_refresh :
      World C G R D
      → String
      → String
      → R × Result Unit
      → World C G R D × Outcome TokenError NewRefresh
  saved_refresh w token family (db, ok u) =
      (record w { tokens = db }, finished (record { token = token; family = family }))
  saved_refresh w token family (db, err e) = (record w { tokens = db }, failed other_error)

  abbrev pub save_drawn : Issuance → Option String → Exec (World C G R D) TokenError NewRefresh
  save_drawn g none w = (w, failed other_error)
  save_drawn g (some token) w =
      let d = token_data g "refresh" "" in
      saved_refresh w token (family_of (complete_family b.tokens env.digest env.family_secret d)) (
        save_refresh_token b.tokens env.digest env.networks.save_refresh env.family_secret token d
          env.lifetimes.refresh_token w.tokens)

  -- The part of generateTokenPair that stores the refresh token.
  unfoldable pub store_refresh : Issuance → Exec (World C G R D) TokenError NewRefresh
  unfolding complete_family save_refresh_token
  store_refresh g =
      if g.issue_refresh
      then save_drawn g env.refresh_secret
      else give (record { token = ""; family = "" })

  -- What follows the request that stores the access token: where it failed, the new refresh token is
  -- revoked.
  abbrev pub saved_access :
      World C G R D → String → String → R × Result Unit → World C G R D × Outcome TokenError Unit
  saved_access w token client_id (db, ok u) = (record w { tokens = db }, finished tt)
  saved_access w token client_id (db, err e) =
      let undone =
        revoke_refresh_token_for_client b.tokens env.digest env.networks.revoke_refresh token
          client_id env.revocation_ttl db in
      (record w { tokens = if is_blank token then db else undone.0 }, failed other_error)

  -- The part that stores the access token.
  unfoldable pub store_access : Issuance → NewRefresh → Exec (World C G R D) TokenError Unit
  unfolding save_token save_token_for_refresh_family revoke_refresh_token_for_client
  store_access g new w =
      let d = token_data g "access" new.family in
      let n = env.networks.save_access in
      let ttl = env.lifetimes.access_token in
      let alone = save_token b.tokens env.digest n env.jti d ttl w.tokens in
      let in_family =
        save_token_for_refresh_family b.tokens env.digest n env.jti d new.family ttl w.tokens in
      saved_access w new.token g.client_id (if is_blank new.family then alone else in_family)

  abbrev pub token_pair : Issuance → String → String → TokenPair
  token_pair g access refresh = record {
    access_token = access;
    expires_in = env.lifetimes.access_token / 1000;
    refresh_token = refresh;
    scope = join_scopes g.scopes;
    id_token = "";
  }

  -- generateTokenPair, without the sink of usage.
  unfoldable pub generate_token_pair : Issuance → Exec (World C G R D) TokenError TokenPair
  unfolding sign_access_token store_refresh store_access join_scopes
  generate_token_pair g = do
    access ← lift (sign_access_token env g)
    new ← store_refresh g
    store_access g new
    give (token_pair g access new.token)

  abbrev pub expects : ℕ → ℕ → Bool
  expects expected current = expected == 0 || current == normalized_client_revision expected

  -- GenerateAuthorizationCodeTokenPairAtRevisionWithClaimsAndAuthentication; the revision in the
  -- issuance is the one expected.
  unfoldable pub generate_authorization_code_token_pair :
      Issuance → Exec (World C G R D) TokenError TokenPair
  unfolding current_client_authorization_revision validate_authorization generate_token_pair
  generate_authorization_code_token_pair g = do
    require (not (g.auth_version == 0 || g.authorization_issued_at == 0)) other_error
    revision ← lift (current_client_authorization_revision env 0 g.client_id)
    require (expects g.client_authorization_revision revision) invalid_token
    let current = record g { client_authorization_revision = revision }
    validate_authorization b env 1 (token_data current "" "")
    generate_token_pair current

  abbrev pub machine_issuance : String → List String → Issuance
  machine_issuance client_id scopes = record {
    client_id = client_id;
    subject = client_id;
    scopes = scopes;
    allowed_claims = none;
    auth_version = 0;
    issue_refresh = false;
    authorization_issued_at = 0;
    client_authorization_revision = 0;
    authentication = record { context = ""; methods = []; auth_time = 0 };
  }

  -- GenerateClientTokenPair.
  unfoldable pub generate_client_token_pair :
      String → List String → Exec (World C G R D) TokenError TokenPair
  unfolding generate_token_pair
  generate_client_token_pair client_id scopes =
      generate_token_pair (machine_issuance client_id scopes)
