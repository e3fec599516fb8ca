-- ===== src/Token/Validate.antt =====
-- internal/auth/token.go: the checks on a token's user and grant.
use nyauth.Common.{
  ℕ, Bool, true, false, Option, none, some, if◌then◌else◌, ltb, ◌==◌, not, ◌&&◌, ◌||◌, String,
  str_eq,
}
use nyauth.Session.Codes.{Result as SessionResult, ok as session_ok, err as session_err}
use nyauth.Session.Clock.{is_user_client_authorization_revoked}
use nyauth.Refresh.{TokenData}
use nyauth.Token.{User, UserAnswer, found_user, no_user, user_unavailable, Env, Backends, World}
use nyauth.Token.Clients.{is_blank}
use nyauth.Token.Exec.{Outcome, finished, failed, Exec, give, lift, reading, require, ◌>>=◌, ◌>>◌}

-- ErrInvalidToken, ErrClientMismatch, ErrRefreshTokenReuse, ErrTokenValidationUnavailable, and any
-- other error.
pub data TokenError : Type 0 where
  invalid_token client_mismatch refresh_token_reuse : TokenError
  validation_unavailable other_error : TokenError

abbrev pub is_active : User → Bool
is_active u = str_eq u.status "active"

abbrev pub check_user : ℕ → UserAnswer → Outcome TokenError Unit
check_user auth_version no_user = failed invalid_token
check_user auth_version user_unavailable = failed validation_unavailable
check_user auth_version (found_user u) =
    if not (is_active u) || not (u.auth_version == auth_version)
    then failed invalid_token
    else finished tt

-- normalizedClientRevision.
abbrev pub normalized_client_revision : ℕ → ℕ
normalized_client_revision revision = if revision == 0 then 1 else revision

abbrev pub check_revision : Option ℕ → Outcome TokenError ℕ
check_revision none = failed validation_unavailable
check_revision (some revision) = if ltb revision 1 then failed invalid_token else finished revision

abbrev pub check_revoked : SessionResult Bool → Outcome TokenError Unit
check_revoked (session_err e) = failed validation_unavailable
check_revoked (session_ok true) = failed invalid_token
check_revoked (session_ok false) = finished tt

abbrev pub check_access : Option Bool → Outcome TokenError Unit
check_access none = failed validation_unavailable
check_access (some false) = failed invalid_token
check_access (some true) = finished tt

module _ (env : Env) where
  abbrev pub user_with_id : ℕ → ℕ → Option String → Outcome TokenError Unit
  user_with_id read auth_version none = failed invalid_token
  user_with_id read auth_version (some id) = check_user auth_version (env.get_user read id)

  -- validateUser.
  unfoldable pub validate_user : ℕ → String → ℕ → Outcome TokenError Unit
  validate_user read subject auth_version =
      if auth_version == 0
      then finished tt
      else user_with_id read auth_version (env.parse_uuid subject)

  -- currentClientAuthorizationRevision.
  unfoldable pub current_client_authorization_revision : ℕ → String → Outcome TokenError ℕ
  current_client_authorization_revision read client_id =
      check_revision (env.client_revision read client_id)

  -- validateAccessPolicy.
  unfoldable pub validate_access_policy : TokenData → Outcome TokenError Unit
  validate_access_policy d =
      if d.auth_version == 0
      then finished tt
      else check_access (env.user_may_access d.client_id d.user_id)

module _ {C G R D : Type 0} (b : Backends C G R D) (env : Env) where
  abbrev pub has_grant_data : TokenData → Bool
  has_grant_data d =
      not (d.authorization_issued_at == 0)
      && (not (is_blank d.user_id) && not (is_blank d.client_id))

  abbrev pub not_revoked : TokenData → World C G R D → Outcome TokenError Unit
  not_revoked d w = check_revoked (
      is_user_client_authorization_revoked b.clock env.pair_digest env.networks.read_revocation
        d.user_id d.client_id d.authorization_issued_at w.clock)

  -- validateAuthorization for a token with a user.
  unfoldable pub validate_grant : ℕ → TokenData → Exec (World C G R D) TokenError Unit
  unfolding current_client_authorization_revision
  validate_grant read d = do
    require (has_grant_data d) invalid_token
    reading (not_revoked d)
    revision ← lift (current_client_authorization_revision env read d.client_id)
    require (normalized_client_revision d.client_authorization_revision == revision) invalid_token

  -- validateAuthorization.
  unfoldable pub validate_authorization : ℕ → TokenData → Exec (World C G R D) TokenError Unit
  unfolding validate_grant
  validate_authorization read d = if d.auth_version == 0 then give tt else validate_grant read d
