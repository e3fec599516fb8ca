-- ===== src/Token/CodeGrant.antt =====
-- internal/auth/handler.go: handleAuthorizationCodeGrant.
use nyauth.Common.{
  ℕ, ◌+◌, Bool, true, false, List, Option, none, some, if◌then◌else◌, ◌==◌, not, ◌&&◌, String,
  str_eq, contains,
}
use nyauth.Common.Text.{codes}
use nyauth.Auth.Pkce.{valid_pkce_verifier, validate_pkce}
use nyauth.Auth.Scopes.{scopes_are_subset}
use nyauth.Auth.ScopeText.{join_scopes, parse_and_validate_scopes}
use nyauth.Session.{AuthorizationData}
use nyauth.Session.Codes.{
  Result, ok, err, not_found, value_mismatch, authorization_code_reuse, consent_user_mismatch,
  invalid_token_data, invalid_ttl, unavailable, Lookup, live, reused, lookup_failed,
  get_authorization_code, consume_authorization_code_if_match,
}
use nyauth.Session.Clock.{revoke_user_client_authorization}
use nyauth.Token.{
  OauthClient, User, UserAnswer, found_user, no_user, user_unavailable, TokenPair, Form, Env,
  Backends, World, IssuanceAuthentication,
}
use nyauth.Token.ClaimNames.{
  effective_claim_names, claims_for_granted_scopes, scope_claims_for_client,
  user_claims_for_allowed,
}
use nyauth.Token.Clients.{
  Authenticated, authenticate_token_client, has_grant, has_redirect_uri, is_blank,
}
use nyauth.Token.Exec.{
  Outcome, finished, failed, Exec, give, lift, reading, require, ◌>>=◌, ◌>>◌, with_error, relabel,
}
use nyauth.Token.Issue.{Issuance, generate_authorization_code_token_pair, generate_id_token}
use nyauth.Token.Replies.{Refusal, refusal, invalid_client, client_or}
use nyauth.Token.Validate.{
  TokenError, invalid_token, client_mismatch, refresh_token_reuse, validation_unavailable,
  other_error, is_active, normalized_client_revision,
}

-- The record of a code, and whether the code was used.
pub record StoredCode : Type 0 where
  pub data_ : AuthorizationData
  pub was_used : Bool

abbrev pub code_or_refusal : Lookup → Outcome Refusal StoredCode
code_or_refusal (live d) = finished (record { data_ = d; was_used = false })
code_or_refusal (reused d) = finished (record { data_ = d; was_used = true })
code_or_refusal (lookup_failed e) =
    failed (refusal "" "high" "invalid_or_expired_code" 400 "invalid_grant")

abbrev pub is_some : {A : Type 0} → Option A → Bool
is_some none = false
is_some (some a) = true

abbrev pub parsed_or : Refusal → Option String → Outcome Refusal String
parsed_or e none = failed e
parsed_or e (some id) = finished id

-- The tests on the user that `GetByID` returned.
abbrev pub active_or : Refusal → ℕ → UserAnswer → Outcome Refusal User
active_or e version no_user = failed e
active_or e version user_unavailable = failed e
active_or e version (found_user u) =
    if is_active u && u.auth_version == version then finished u else failed e

-- The error of issuing a pair as a reply; `inactive` is that of ErrInvalidToken.
abbrev pub issue_error : String → String → TokenError → Refusal
issue_error client_id inactive invalid_token =
    refusal client_id "high" "authorization_inactive" 400 inactive
issue_error client_id inactive client_mismatch =
    refusal client_id "high" "token_issuance_failed" 500 "server_error"
issue_error client_id inactive refresh_token_reuse =
    refusal client_id "high" "token_issuance_failed" 500 "server_error"
issue_error client_id inactive validation_unavailable =
    refusal client_id "high" "token_issuance_failed" 500 "server_error"
issue_error client_id inactive other_error =
    refusal client_id "high" "token_issuance_failed" 500 "server_error"

abbrev pub id_token_error : String → TokenError → Refusal
id_token_error client_id e = refusal client_id "high" "id_token_issuance_failed" 500 "server_error"

module _ (env : Env) where
  -- The first test.
  unfoldable pub well_formed_code_request : Form → Bool
  unfolding valid_pkce_verifier
  well_formed_code_request form =
      not (is_blank form.code)
      && (not (is_blank form.redirect_uri) && valid_pkce_verifier (codes form.code_verifier))

  -- The binding of the code to its client, its redirect URI and its verifier.
  unfoldable pub code_binding : Form → Authenticated → AuthorizationData → Bool
  unfolding has_grant has_redirect_uri validate_pkce
  code_binding form who d =
      str_eq who.client_id d.client_id
      && (has_grant who.client "authorization_code"
          && (str_eq form.redirect_uri d.redirect_uri
              && (has_redirect_uri who.client d.redirect_uri
                  && (normalized_client_revision d.client_authorization_revision
                        == who.client.authorization_revision
                      && (str_eq d.challenge_method "S256"
                          && validate_pkce env.s256 (codes form.code_verifier)
                              (codes d.code_challenge) (codes d.challenge_method))))))

  unfoldable pub code_claims : AuthorizationData → List String
  unfolding effective_claim_names
  code_claims d = effective_claim_names d.scopes d.allowed_claims d.claim_names_set

  -- The claims that the client and the policy allow now for the scopes.
  unfoldable pub current_claims : OauthClient → List String → List String
  unfolding claims_for_granted_scopes scope_claims_for_client
  current_claims cl scopes =
      claims_for_granted_scopes scopes (scope_claims_for_client env.policy scopes cl)

  abbrev pub code_authentication : AuthorizationData → IssuanceAuthentication
  code_authentication d = record {
    context = d.authentication_context;
    methods = d.authentication_methods;
    auth_time = d.authentication_time;
  }

  unfoldable pub code_issuance : OauthClient → AuthorizationData → Issuance
  unfolding code_claims has_grant contains
  code_issuance cl d = record {
    client_id = cl.id;
    subject = d.user_id;
    scopes = d.scopes;
    allowed_claims = some (code_claims d);
    auth_version = d.auth_version;
    issue_refresh = contains d.scopes "offline_access" && has_grant cl "refresh_token";
    authorization_issued_at = d.authorization_issued_at;
    client_authorization_revision = d.client_authorization_revision;
    authentication = code_authentication d;
  }

  abbrev pub with_id : TokenPair → String → TokenPair
  with_id pair token = record pair { id_token = token }

  abbrev pub code_id_token : OauthClient → AuthorizationData → User → Outcome TokenError String
  code_id_token cl d u =
      generate_id_token env 1 cl.id d.user_id (code_claims d) d.nonce
        (user_claims_for_allowed env.issuer u (code_claims d)) (code_authentication d)

module _ {C G R D : Type 0} (b : Backends C G R D) (env : Env) where
  abbrev pub reuse_failed : AuthorizationData → Refusal
  reuse_failed d = refusal d.client_id "critical" "code_reuse_revocation_failed" 500 "server_error"

  abbrev pub reuse_recorded : AuthorizationData → ℕ → Option String → Refusal
  reuse_recorded d revoked_at none = reuse_failed d
  reuse_recorded d revoked_at (some user_id) =
      if env.revoke_authorization user_id d.client_id revoked_at
      then refusal d.client_id "critical" "code_reuse" 400 "invalid_grant"
      else reuse_failed d

  abbrev pub reuse_reply : AuthorizationData → Result ℕ → Refusal
  reuse_reply d (err e) = reuse_failed d
  reuse_reply d (ok revoked_at) = reuse_recorded d revoked_at (env.parse_uuid d.user_id)

  -- rejectAuthorizationCodeReuse, whose revocation lives five minutes longer.
  unfoldable pub reject_authorization_code_reuse :
      {A : Type 0} → AuthorizationData → Exec (World C G R D) Refusal A
  unfolding revoke_user_client_authorization
  reject_authorization_code_reuse d w =
      let r =
        revoke_user_client_authorization b.clock env.pair_digest env.networks.revoke_grant d.user_id
          d.client_id (env.revocation_ttl + 300000) env.micros w.clock in
      (record w { clock = r.0 }, failed (reuse_reply d r.1))

  abbrev pub expired_code : OauthClient → Refusal
  expired_code cl = refusal cl.id "high" "invalid_or_expired_code" 400 "invalid_grant"

  abbrev pub code_store_failed : OauthClient → Refusal
  code_store_failed cl =
      refusal cl.id "high" "authorization_code_store_unavailable" 500 "server_error"

  abbrev pub consumed_reply :
      OauthClient → AuthorizationData → Result AuthorizationData → Exec (World C G R D) Refusal Unit
  consumed_reply cl d (ok d') w = (w, finished tt)
  consumed_reply cl d (err authorization_code_reuse) w = reject_authorization_code_reuse d w
  consumed_reply cl d (err not_found) w = (w, failed (expired_code cl))
  consumed_reply cl d (err value_mismatch) w = (w, failed (expired_code cl))
  consumed_reply cl d (err consent_user_mismatch) w = (w, failed (code_store_failed cl))
  consumed_reply cl d (err invalid_token_data) w = (w, failed (code_store_failed cl))
  consumed_reply cl d (err invalid_ttl) w = (w, failed (code_store_failed cl))
  consumed_reply cl d (err unavailable) w = (w, failed (code_store_failed cl))

  -- ConsumeAuthorizationCodeIfMatch and the replies to its errors.
  unfoldable pub consume_code :
      Form → OauthClient → AuthorizationData → Exec (World C G R D) Refusal Unit
  unfolding consume_authorization_code_if_match reject_authorization_code_reuse
  consume_code form cl d w =
      let r =
        consume_authorization_code_if_match b.codes env.digest env.networks.consume_code form.code
          d.record_version env.code_retention w.codes in
      consumed_reply cl d r.1 (record w { codes = r.0 })

  -- The tokens of a code that was consumed.
  unfoldable pub issue_for_code :
      OauthClient → AuthorizationData → User → Exec (World C G R D) Refusal TokenPair
  unfolding code_issuance generate_authorization_code_token_pair generate_id_token code_claims
      user_claims_for_allowed contains
  issue_for_code cl d u = do
    pair ←
        with_error (issue_error cl.id "invalid_grant")
          (generate_authorization_code_token_pair b env (code_issuance env cl d))
    id_token ←
        if contains d.scopes "openid"
        then lift (relabel (id_token_error cl.id) (code_id_token env cl d u))
        else give ""
    give (with_id env pair id_token)

  -- The handler from the check of the scopes on.
  unfoldable pub exchange_code :
      Form → OauthClient → AuthorizationData → Exec (World C G R D) Refusal TokenPair
  unfolding parse_and_validate_scopes join_scopes scopes_are_subset code_claims current_claims
      consume_code issue_for_code
  exchange_code form cl d = do
    require (is_some (parse_and_validate_scopes (join_scopes d.scopes) cl.scopes))
        (refusal cl.id "high" "scope_no_longer_allowed" 400 "invalid_grant")
    require (scopes_are_subset (code_claims env d) (current_claims env cl d.scopes))
        (refusal cl.id "high" "claim_no_longer_allowed" 400 "invalid_grant")
    user_id ← lift (
        parsed_or (refusal cl.id "high" "invalid_subject" 400 "invalid_grant")
          (env.parse_uuid d.user_id))
    u ← lift (
        active_or (refusal cl.id "high" "inactive_subject" 400 "invalid_grant") d.auth_version
          (env.get_user 0 user_id))
    consume_code form cl d
    issue_for_code cl d u

  abbrev pub read_code : String → World C G R D → Outcome Refusal StoredCode
  read_code code w = code_or_refusal (
      get_authorization_code b.codes env.digest env.networks.read_code env.networks.read_used_code
        code w.codes)

  unfoldable pub answer_code :
      Form → OauthClient → StoredCode → Exec (World C G R D) Refusal TokenPair
  unfolding reject_authorization_code_reuse exchange_code
  answer_code form cl stored =
      if stored.was_used
      then reject_authorization_code_reuse stored.data_
      else exchange_code form cl stored.data_

  -- handleAuthorizationCodeGrant.
  unfoldable pub handle_authorization_code_grant : Form → Exec (World C G R D) Refusal TokenPair
  unfolding well_formed_code_request get_authorization_code authenticate_token_client code_binding
      answer_code
  handle_authorization_code_grant form = do
    require (well_formed_code_request env form)
        (refusal "" "medium" "invalid_request" 400 "invalid_request")
    stored ← reading (read_code form.code)
    who ← lift (
        client_or (invalid_client stored.data_.client_id "high")
          (authenticate_token_client env form stored.data_.client_id true))
    require (code_binding env form who stored.data_)
        (refusal stored.data_.client_id "high" "code_binding_validation" 400 "invalid_grant")
    answer_code form who.client stored
