-- ===== src/Token/Grants.antt =====
-- internal/auth/handler.go: handleClientCredentialsGrant and Token, and
-- internal/auth/device_authorization.go: handleDeviceCodeGrant.
use nyauth.Common.{
  Bool, true, false, List, Option, none, some, if◌then◌else◌, ◌==◌, not, ◌&&◌, String, str_eq,
  contains,
}
use nyauth.Auth.Scopes.{scopes_are_subset, without_scope}
use nyauth.Auth.ScopeText.{join_scopes, parse_and_validate_scopes}
use nyauth.Device.{Record}
use nyauth.Device.Store.{
  Error, Result, ok, err, not_found, value_mismatch, authorization_pending, slow_down,
  access_denied, invalid_input, unavailable, exhausted,
}
use nyauth.Device.Decisions.{Polled, poll_failed, poll_ok, poll, consume_approved}
use nyauth.Token.{OauthClient, User, TokenPair, Form, Env, Backends, World, IssuanceAuthentication}
use nyauth.Token.ClaimNames.{user_claims_for_allowed}
use nyauth.Token.Clients.{authenticate_token_client, named_client, has_grant, is_blank}
use nyauth.Token.CodeGrant.{
  is_some, parsed_or, active_or, issue_error, id_token_error, with_id, current_claims,
  handle_authorization_code_grant,
}
use nyauth.Token.Exec.{
  Outcome, finished, failed, Exec, give, fail, lift, require, ◌>>=◌, ◌>>◌, with_error, relabel,
}
use nyauth.Token.Issue.{
  Issuance, stored_slice, generate_authorization_code_token_pair, generate_client_token_pair,
  generate_id_token,
}
use nyauth.Token.RefreshGrant.{handle_refresh_token_grant}
use nyauth.Token.Replies.{Refusal, refusal, quiet, invalid_client, client_or}
use nyauth.Token.Validate.{TokenError, normalized_client_revision}

abbrev pub scopes_or : Refusal → Option (List String) → Outcome Refusal (List String)
scopes_or e none = failed e
scopes_or e (some scopes) = finished scopes

-- Scopes that were asked for, or all of the client's.
abbrev pub asked_or_all : Form → OauthClient → List String → List String
asked_or_all form cl asked = if is_blank form.scope then cl.scopes else asked

-- The reply to each error of Poll. A pending device is not audited.
abbrev pub poll_refusal : String → Error → Refusal
poll_refusal client_id authorization_pending = quiet 400 "authorization_pending"
poll_refusal client_id slow_down = quiet 400 "slow_down"
poll_refusal client_id access_denied =
    refusal client_id "medium" "access_denied" 400 "access_denied"
poll_refusal client_id not_found = refusal client_id "medium" "expired_token" 400 "expired_token"
poll_refusal client_id value_mismatch =
    refusal client_id "high" "temporarily_unavailable" 503 "temporarily_unavailable"
poll_refusal client_id invalid_input =
    refusal client_id "high" "temporarily_unavailable" 503 "temporarily_unavailable"
poll_refusal client_id unavailable =
    refusal client_id "high" "temporarily_unavailable" 503 "temporarily_unavailable"
poll_refusal client_id exhausted =
    refusal client_id "high" "temporarily_unavailable" 503 "temporarily_unavailable"

abbrev pub polled_or : String → Polled → Outcome Refusal Record
polled_or client_id (poll_failed e seconds) = failed (poll_refusal client_id e)
polled_or client_id (poll_ok r seconds) = finished r

abbrev pub approval_or : Refusal → Result Unit → Outcome Refusal Unit
approval_or e (err cause) = failed e
approval_or e (ok u) = finished tt

-- Both tests on the revisions of the client.
abbrev pub same_client_revisions : OauthClient → Record → Bool
same_client_revisions cl r =
    normalized_client_revision r.client_identity_revision == cl.identity_revision
    && normalized_client_revision r.client_authorization_revision == cl.authorization_revision

abbrev pub device_authentication : Record → IssuanceAuthentication
device_authentication r = record {
  context = r.authentication_context;
  methods = r.authentication_methods;
  auth_time = r.authentication_time;
}

-- The record's claims are those that JSON gave back, with no slice in place of an empty one.
unfoldable pub device_issuance : OauthClient → Record → Issuance
unfolding has_grant contains
device_issuance cl r = record {
  client_id = cl.id;
  subject = r.user_id;
  scopes = r.granted_scopes;
  allowed_claims = stored_slice r.allowed_claims;
  auth_version = r.auth_version;
  issue_refresh = contains r.granted_scopes "offline_access" && has_grant cl "refresh_token";
  authorization_issued_at = r.authorization_issued_at;
  client_authorization_revision = r.client_authorization_revision;
  authentication = device_authentication r;
}

abbrev pub device_grant : String
device_grant = "urn:ietf:params:oauth:grant-type:device_code"

module _ {C G R D : Type 0} (b : Backends C G R D) (env : Env) where
  -- handleClientCredentialsGrant.
  unfoldable pub handle_client_credentials_grant : Form → Exec (World C G R D) Refusal TokenPair
  unfolding authenticate_token_client has_grant parse_and_validate_scopes without_scope
      generate_client_token_pair
  handle_client_credentials_grant form = do
    who ←
        lift (client_or (invalid_client "" "medium") (authenticate_token_client env form "" false))
    let cl = who.client
    require (not cl.is_public) (invalid_client "" "medium")
    require (has_grant cl "client_credentials")
        (refusal cl.id "medium" "grant_not_allowed" 400 "unauthorized_client")
    asked ← lift (
        scopes_or (refusal cl.id "medium" "invalid_scope" 400 "invalid_scope")
          (parse_and_validate_scopes form.scope cl.scopes))
    with_error (λ e. refusal cl.id "high" "token_issuance_failed" 500 "server_error")
        (generate_client_token_pair b env cl.id
          (without_scope (asked_or_all form cl asked) "offline_access"))

  abbrev pub polled_world :
      String → World C G R D → D × Polled → World C G R D × Outcome Refusal Record
  polled_world client_id w (db, r) = (record w { devices = db }, polled_or client_id r)

  -- Poll, and the replies to its errors.
  unfoldable pub poll_device : Form → String → String → Exec (World C G R D) Refusal Record
  unfolding poll
  poll_device form named client_id w = polled_world client_id w (
      poll b.devices env.device_digests env.networks.poll_device form.device_code named env.now
        w.devices)

  abbrev pub consumed_world :
      Refusal → World C G R D → D × Result Unit → World C G R D × Outcome Refusal Unit
  consumed_world e w (db, r) = (record w { devices = db }, approval_or e r)

  unfoldable pub consume_device : OauthClient → Record → Exec (World C G R D) Refusal Unit
  unfolding consume_approved
  consume_device cl r w =
      consumed_world (refusal cl.id "high" "expired_token" 400 "expired_token") w
        (consume_approved b.devices env.networks.consume_device r w.devices)

  abbrev pub device_id_token : OauthClient → Record → User → Outcome TokenError String
  device_id_token cl r u =
      generate_id_token env 1 cl.id r.user_id r.allowed_claims ""
        (user_claims_for_allowed env.issuer u r.allowed_claims) (device_authentication r)

  -- The tokens of an approval that was consumed.
  unfoldable pub issue_for_device :
      OauthClient → Record → User → Exec (World C G R D) Refusal TokenPair
  unfolding device_issuance generate_authorization_code_token_pair generate_id_token contains
      user_claims_for_allowed
  issue_for_device cl r u = do
    pair ←
        with_error (issue_error cl.id "expired_token")
          (generate_authorization_code_token_pair b env (device_issuance cl r))
    id_token ←
        if contains r.granted_scopes "openid"
        then lift (relabel (id_token_error cl.id) (device_id_token cl r u))
        else give ""
    give (with_id env pair id_token)

  -- The handler from the check of the revisions on.
  unfoldable pub exchange_device : OauthClient → Record → Exec (World C G R D) Refusal TokenPair
  unfolding parse_and_validate_scopes join_scopes scopes_are_subset current_claims consume_device
      issue_for_device
  exchange_device cl r = do
    require (same_client_revisions cl r) (refusal cl.id "high" "expired_token" 400 "expired_token")
    require (is_some (parse_and_validate_scopes (join_scopes r.granted_scopes) cl.scopes))
        (refusal cl.id "high" "scope_no_longer_allowed" 400 "expired_token")
    require (scopes_are_subset r.allowed_claims (current_claims env cl r.granted_scopes))
        (refusal cl.id "high" "claim_no_longer_allowed" 400 "expired_token")
    user_id ← lift (
        parsed_or (refusal cl.id "high" "invalid_subject" 400 "expired_token")
          (env.parse_uuid r.user_id))
    u ← lift (
        active_or (refusal cl.id "high" "inactive_subject" 400 "expired_token") r.auth_version
          (env.get_user 0 user_id))
    consume_device cl r
    issue_for_device cl r u

  -- handleDeviceCodeGrant.
  unfoldable pub handle_device_code_grant : Form → Exec (World C G R D) Refusal TokenPair
  unfolding authenticate_token_client named_client has_grant poll_device exchange_device
  handle_device_code_grant form = do
    require (not (is_blank form.device_code) && is_blank form.scope)
        (refusal "" "medium" "invalid_request" 400 "invalid_request")
    who ← lift (
        client_or (invalid_client (named_client form) "medium")
          (authenticate_token_client env form "" true))
    let cl = who.client
    require (has_grant cl device_grant)
        (refusal cl.id "medium" "grant_not_allowed" 400 "unauthorized_client")
    r ← poll_device form who.client_id cl.id
    exchange_device cl r

  -- Token's switch on the grant type.
  unfoldable pub grant_by_type : Form → Exec (World C G R D) Refusal TokenPair
  unfolding handle_authorization_code_grant handle_client_credentials_grant
      handle_refresh_token_grant handle_device_code_grant
  grant_by_type form =
      if str_eq form.grant_type "authorization_code"
      then handle_authorization_code_grant b env form
      else if str_eq form.grant_type "client_credentials"
      then handle_client_credentials_grant form
      else if str_eq form.grant_type "refresh_token"
      then handle_refresh_token_grant b env form
      else if str_eq form.grant_type device_grant
      then handle_device_code_grant form
      else fail (refusal "" "medium" "unsupported_grant_type" 400 "unsupported_grant_type")

  -- Token, with the form that parseOAuthForm gave.
  unfoldable pub token : Option Form → Exec (World C G R D) Refusal TokenPair
  unfolding grant_by_type
  token none = fail (refusal "" "medium" "invalid_form" 400 "invalid_request")
  token (some form) = grant_by_type form
