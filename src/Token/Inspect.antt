-- ===== src/Token/Inspect.antt =====
-- internal/auth/token.go and handler.go: introspection of tokens, and the handlers Revoke, Introspect and
-- UserInfo.
use nyauth.Common.{
  ℕ, true, false, List, Option, none, some, if◌then◌else◌, ◌==◌, ◌&&◌, String, str_eq, contains,
}
use nyauth.Auth.Scopes.{scopes_are_subset}
use nyauth.Auth.ScopeText.{words}
use nyauth.Refresh.{TokenData}
use nyauth.Refresh.Store.{Result, ok, err}
use nyauth.Refresh.Tokens.{get_refresh_token}
use nyauth.Token.{
  Claims, ClaimValue, UserAnswer, found_user, no_user, user_unavailable, Form, Env, Backends, World,
}
use nyauth.Token.ClaimNames.{effective_claim_names, user_claims_for_allowed}
use nyauth.Token.Clients.{Authenticated, authenticate_token_client, is_blank}
use nyauth.Token.Exec.{Outcome, finished, failed, Exec, give, lift, reading, require, ◌>>=◌, ◌>>◌}
use nyauth.Token.Validate.{
  TokenError, invalid_token, client_mismatch, refresh_token_reuse, validation_unavailable,
  other_error, validate_user, validate_access_policy, validate_authorization,
}
use nyauth.Token.Access.{single, first_or_blank, validate_access_token, revoke_token_for_client}

-- What an introspection says of a token: an access token's claims, or a refresh token's data.
pub data Introspection : Type 0 where
  inactive : Introspection
  active_access : Claims → Introspection
  active_refresh : TokenData → Introspection

abbrev pub refresh_data : Result TokenData → Outcome TokenError TokenData
refresh_data (ok d) = finished d
refresh_data (err e) = failed invalid_token

abbrev pub or_inactive : Outcome TokenError TokenData → Introspection
or_inactive (finished d) = active_refresh d
or_inactive (failed e) = inactive

module _ {C G R D : Type 0} (b : Backends C G R D) (env : Env) where
  unfoldable pub introspect_refresh :
      String → String → List String → Exec (World C G R D) TokenError TokenData
  unfolding get_refresh_token scopes_are_subset validate_user validate_authorization
      validate_access_policy
  introspect_refresh token client_id allowed = do
    d ← reading (λ w.
        refresh_data
          (get_refresh_token b.tokens env.digest env.networks.read_refresh token w.tokens))
    require
        (str_eq d.client_id client_id
          && (str_eq d.token_use "refresh" && scopes_are_subset d.scopes allowed))
        invalid_token
    lift (validate_user env 1 d.user_id d.auth_version)
    validate_authorization b env 1 d
    lift (validate_access_policy env d)
    give d

  abbrev pub introspect_validated :
      String → String → List String → World C G R D → Outcome TokenError Claims → Introspection
  introspect_validated token client_id allowed w (failed e) =
      or_inactive (introspect_refresh token client_id allowed w).1
  introspect_validated token client_id allowed w (finished c) =
      if single c.audience && str_eq (first_or_blank c.audience) client_id
      then active_access c
      else or_inactive (introspect_refresh token client_id allowed w).1

  -- IntrospectTokenForClient.
  unfoldable pub introspect_token_for_client :
      String → String → List String → World C G R D → Introspection
  unfolding validate_access_token introspect_refresh
  introspect_token_for_client token client_id allowed w =
      introspect_validated token client_id allowed w (validate_access_token b env token w).1

-- A status and whether a body with an error was written.
pub data RevokeReply : Type 0 where
  revoke_done : RevokeReply
  revoke_refused : ℕ → String → RevokeReply

abbrev pub revoke_reply : Outcome TokenError Unit → RevokeReply
revoke_reply (finished u) = revoke_done
revoke_reply (failed client_mismatch) = revoke_done
revoke_reply (failed invalid_token) = revoke_refused 503 "server_error"
revoke_reply (failed refresh_token_reuse) = revoke_refused 503 "server_error"
revoke_reply (failed validation_unavailable) = revoke_refused 503 "server_error"
revoke_reply (failed other_error) = revoke_refused 503 "server_error"

-- What UserInfo writes.
pub data UserInfoReply : Type 0 where
  user_info_refused : ℕ → String → UserInfoReply
  user_info : (sub : String) → List (String × ClaimValue) → UserInfoReply

-- The names of the claims that a token grants.
unfoldable pub claims_of_token : Claims → List String
unfolding effective_claim_names words
claims_of_token c = effective_claim_names (words c.scope) c.allowed_claims c.claim_names_set

module _ {C G R D : Type 0} (b : Backends C G R D) (env : Env) where
  abbrev pub revoke_for :
      Form → Outcome Unit Authenticated → World C G R D → World C G R D × RevokeReply
  revoke_for form (failed u) w = (w, revoke_refused 401 "invalid_client")
  revoke_for form (finished who) w =
      let r = revoke_token_for_client b env form.token who.client.id w in (r.0, revoke_reply r.1)

  -- Revoke, with the form that parseOAuthForm gave.
  unfoldable pub revoke : Option Form → World C G R D → World C G R D × RevokeReply
  unfolding authenticate_token_client revoke_token_for_client
  revoke none w = (w, revoke_refused 400 "invalid_request")
  revoke (some form) w =
      let r = revoke_for form (authenticate_token_client env form "" true) w in
      if is_blank form.token then (w, revoke_refused 400 "invalid_request") else r

  abbrev pub introspect_for :
      Form → Outcome Unit Authenticated → World C G R D → Option Introspection
  introspect_for form (failed u) w = none
  introspect_for form (finished who) w =
      if who.client.is_public
      then none
      else some (introspect_token_for_client b env form.token who.client.id who.client.scopes w)

  -- Introspect: `none` is the reply of writeInvalidClient.
  unfoldable pub introspect : Option Form → World C G R D → Option Introspection
  unfolding authenticate_token_client introspect_token_for_client
  introspect none w = some inactive
  introspect (some form) w = introspect_for form (authenticate_token_client env form "" false) w

  abbrev pub shown_claims : Claims → List String → UserAnswer → UserInfoReply
  shown_claims c allowed no_user = user_info_refused 401 "invalid_token"
  shown_claims c allowed user_unavailable = user_info_refused 401 "invalid_token"
  shown_claims c allowed (found_user u) =
      user_info c.subject (user_claims_for_allowed env.issuer u allowed)

  abbrev pub shown_to : Claims → List String → Option String → UserInfoReply
  shown_to c allowed none = user_info_refused 401 "invalid_token"
  shown_to c allowed (some id) = shown_claims c allowed (env.get_user 1 id)

  unfoldable pub user_info_of : Outcome TokenError Claims → UserInfoReply
  unfolding claims_of_token user_claims_for_allowed contains
  user_info_of (failed e) = user_info_refused 401 "invalid_token"
  user_info_of (finished c) =
      let allowed = claims_of_token c in
      if c.auth_version == 0
      then user_info_refused 401 "invalid_token"
      else if contains allowed "sub"
      then shown_to c allowed (env.parse_uuid c.subject)
      else user_info_refused 403 "insufficient_scope"

  -- UserInfo, with the bearer token of the request.
  unfoldable pub user_info_handler : String → World C G R D → UserInfoReply
  unfolding validate_access_token user_info_of
  user_info_handler bearer w = user_info_of (validate_access_token b env bearer w).1
