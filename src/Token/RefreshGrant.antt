-- ===== src/Token/RefreshGrant.antt =====
-- internal/auth/token.go: RefreshTokenWithClaimPolicy, and internal/auth/handler.go:
-- handleRefreshTokenGrant.
use nyauth.Common.{
  ◌/◌, Bool, true, false, List, Option, none, some, if◌then◌else◌, not, ◌&&◌, String, str_eq,
}
use nyauth.Auth.Scopes.{scopes_are_subset}
use nyauth.Auth.ScopeText.{join_scopes}
use nyauth.Refresh.{TokenData}
use nyauth.Refresh.Store.{
  Result, ok, err, not_found, refresh_token_reuse as store_reuse, refresh_family_revoked,
  token_binding_mismatch, invalid_token_data, invalid_ttl, unavailable, RotationInput,
  rotate_refresh_token_and_store_access,
}
use nyauth.Refresh.Tokens.{
  TokenState, current, used, no_state, get_refresh_token_state, revoke_refresh_token_for_client,
}
use nyauth.Token.{TokenPair, Form, Env, Backends, World}
use nyauth.Token.ClaimNames.{
  effective_claim_names, claims_for_granted_scopes, scope_claims_for_client,
}
use nyauth.Token.Clients.{authenticate_token_client, has_grant, is_blank}
use nyauth.Token.Exec.{
  Outcome, finished, failed, Exec, give, lift, reading, require, ◌>>=◌, ◌>>◌, with_error,
}
use nyauth.Token.Issue.{Issuance, token_data, sign_access_token}
use nyauth.Token.Replies.{Refusal, refresh_reuse, refusal, invalid_client, client_or}
use nyauth.Token.Validate.{
  TokenError, invalid_token, client_mismatch, refresh_token_reuse, validation_unavailable,
  other_error, validate_user, validate_access_policy, validate_authorization,
}

-- The data of a refresh token, and whether the token was used.
pub record StoredRefresh : Type 0 where
  pub data_ : TokenData
  pub was_used : Bool

abbrev pub refresh_or_error : TokenState → Outcome TokenError StoredRefresh
refresh_or_error (current d) = finished (record { data_ = d; was_used = false })
refresh_or_error (used d) = finished (record { data_ = d; was_used = true })
refresh_or_error (no_state e) = failed invalid_token

abbrev pub drawn : Option String → Outcome TokenError String
drawn none = failed other_error
drawn (some secret) = finished secret

-- The error of a use again, by that of the revocation.
abbrev pub reuse_error : Result Unit → TokenError
reuse_error (ok u) = refresh_token_reuse
reuse_error (err not_found) = refresh_token_reuse
reuse_error (err store_reuse) = other_error
reuse_error (err refresh_family_revoked) = other_error
reuse_error (err token_binding_mismatch) = other_error
reuse_error (err invalid_token_data) = other_error
reuse_error (err invalid_ttl) = other_error
reuse_error (err unavailable) = other_error

abbrev pub rotation_outcome : Result TokenData → Outcome TokenError Unit
rotation_outcome (ok d) = finished tt
rotation_outcome (err store_reuse) = failed refresh_token_reuse
rotation_outcome (err not_found) = failed invalid_token
rotation_outcome (err refresh_family_revoked) = failed invalid_token
rotation_outcome (err token_binding_mismatch) = failed invalid_token
rotation_outcome (err invalid_token_data) = failed invalid_token
rotation_outcome (err invalid_ttl) = failed invalid_token
rotation_outcome (err unavailable) = failed invalid_token

unfoldable pub token_claims : TokenData → List String
unfolding effective_claim_names
token_claims d = effective_claim_names d.scopes d.allowed_claims d.claim_names_set

-- The token that is signed and stored beside the new refresh token.
abbrev pub refreshed : TokenData → Issuance
refreshed d = record {
  client_id = d.client_id;
  subject = d.user_id;
  scopes = d.scopes;
  allowed_claims = some (token_claims d);
  auth_version = d.auth_version;
  issue_refresh = true;
  authorization_issued_at = d.authorization_issued_at;
  client_authorization_revision = d.client_authorization_revision;
  authentication = record {
    context = d.authentication_context;
    methods = d.authentication_methods;
    auth_time = d.authentication_time;
  };
}

abbrev pub rotation_input : Env → String → String → TokenData → RotationInput
rotation_input env token new d = record {
  old_token = token;
  new_token = new;
  access_token_id = env.jti;
  expected = d;
  access = token_data (refreshed d) "access" d.family_key;
  refresh_ttl = env.lifetimes.refresh_token;
  access_ttl = env.lifetimes.access_token;
}

module _ {C G R D : Type 0} (b : Backends C G R D) (env : Env) where
  abbrev pub revoke_presented : String → String → World C G R D → R × Result Unit
  revoke_presented token client_id w =
      revoke_refresh_token_for_client b.tokens env.digest env.networks.revoke_refresh token
        client_id env.revocation_ttl w.tokens

  abbrev pub undo_failed :
      {A : Type 0}
      → String
      → String
      → World C G R D × Outcome TokenError A
      → World C G R D × Outcome TokenError A
  undo_failed token client_id (w, finished a) = (w, finished a)
  undo_failed token client_id (w, failed e) =
      (record w { tokens = (revoke_presented token client_id w).0 }, failed e)

  -- A check that revokes the family of the token where it fails.
  unfoldable pub or_revoke :
      {A : Type 0}
      → String
      → String
      → Exec (World C G R D) TokenError A
      → Exec (World C G R D) TokenError A
  unfolding revoke_refresh_token_for_client
  or_revoke token client_id m w = undo_failed token client_id (m w)

  -- A used token: its family is revoked.
  unfoldable pub refuse_reuse : String → String → Exec (World C G R D) TokenError TokenPair
  unfolding revoke_refresh_token_for_client
  refuse_reuse token client_id w =
      let r = revoke_presented token client_id w in
      (record w { tokens = r.0 }, failed (reuse_error r.1))

  abbrev pub rotated_world :
      World C G R D → R × Result TokenData → World C G R D × Outcome TokenError Unit
  rotated_world w (db, r) = (record w { tokens = db }, rotation_outcome r)

  unfoldable pub rotate_presented :
      String → String → TokenData → Exec (World C G R D) TokenError Unit
  unfolding rotate_refresh_token_and_store_access token_claims
  rotate_presented token new d w = rotated_world w (
      rotate_refresh_token_and_store_access b.tokens env.digest env.networks.rotate
        (rotation_input env token new d) w.tokens)

  abbrev pub refreshed_pair : TokenData → String → String → TokenPair
  refreshed_pair d access new = record {
    access_token = access;
    expires_in = env.lifetimes.access_token / 1000;
    refresh_token = new;
    scope = join_scopes d.scopes;
    id_token = "";
  }

  -- The checks of the user and the grant, and the rotation.
  unfoldable pub refresh_current :
      String → String → TokenData → Exec (World C G R D) TokenError TokenPair
  unfolding validate_user validate_authorization validate_access_policy sign_access_token or_revoke
      rotate_presented join_scopes token_claims
  refresh_current token client_id d = do
    or_revoke token client_id (lift (validate_user env 0 d.user_id d.auth_version))
    or_revoke token client_id (validate_authorization b env 0 d)
    or_revoke token client_id (lift (validate_access_policy env d))
    new ← lift (drawn env.refresh_secret)
    access ← lift (sign_access_token env (refreshed d))
    rotate_presented token new d
    give (refreshed_pair d access new)

  abbrev pub refresh_found :
      String → String → StoredRefresh → Exec (World C G R D) TokenError TokenPair
  refresh_found token client_id stored =
      if stored.was_used
      then refuse_reuse token client_id
      else refresh_current token client_id stored.data_

  abbrev pub read_refresh : String → World C G R D → Outcome TokenError StoredRefresh
  read_refresh token w = refresh_or_error (
      get_refresh_token_state b.tokens env.digest env.networks.read_refresh
        env.networks.read_used_refresh token w.tokens)

  -- RefreshTokenWithClaimPolicy, with a map of claims that is not nil.
  unfoldable pub refresh_token_with_claim_policy :
      String
      → String
      → List String
      → List (String × List String)
      → Exec (World C G R D) TokenError TokenPair
  unfolding get_refresh_token_state scopes_are_subset claims_for_granted_scopes token_claims
      or_revoke refuse_reuse refresh_current
  refresh_token_with_claim_policy token client_id allowed_scopes scope_claims = do
    stored ← reading (read_refresh token)
    let d = stored.data_
    require (str_eq d.client_id client_id && str_eq d.token_use "refresh") client_mismatch
    or_revoke token client_id (require (scopes_are_subset d.scopes allowed_scopes) invalid_token)
    or_revoke token client_id (
        require
          (scopes_are_subset (token_claims d) (claims_for_granted_scopes d.scopes scope_claims))
          invalid_token)
    refresh_found token client_id stored

-- The audit event and the reply for each error.
abbrev pub refresh_refusal : String → TokenError → Refusal
refresh_refusal client_id refresh_token_reuse = record {
  audit = some (record {
    event = refresh_reuse;
    client_id = client_id;
    risk = "critical";
    reason = "refresh_reuse";
  });
  status = 400;
  error = "invalid_grant";
}
refresh_refusal client_id invalid_token =
    refusal client_id "high" "invalid_refresh" 400 "invalid_grant"
refresh_refusal client_id client_mismatch =
    refusal client_id "high" "invalid_refresh" 400 "invalid_grant"
refresh_refusal client_id validation_unavailable =
    refusal client_id "high" "invalid_refresh" 400 "invalid_grant"
refresh_refusal client_id other_error =
    refusal client_id "high" "invalid_refresh" 400 "invalid_grant"

module _ {C G R D : Type 0} (b : Backends C G R D) (env : Env) where
  -- handleRefreshTokenGrant.
  unfoldable pub handle_refresh_token_grant : Form → Exec (World C G R D) Refusal TokenPair
  unfolding authenticate_token_client has_grant refresh_token_with_claim_policy
      scope_claims_for_client
  handle_refresh_token_grant form = do
    require (not (is_blank form.refresh_token) && is_blank form.scope)
        (refusal "" "medium" "invalid_request" 400 "invalid_request")
    who ← lift (client_or (invalid_client "" "medium") (authenticate_token_client env form "" true))
    let cl = who.client
    require (has_grant cl "refresh_token")
        (refusal cl.id "high" "grant_not_allowed" 400 "invalid_grant")
    with_error (refresh_refusal cl.id) (
        refresh_token_with_claim_policy b env form.refresh_token who.client_id cl.scopes
          (scope_claims_for_client env.policy cl.scopes cl))
