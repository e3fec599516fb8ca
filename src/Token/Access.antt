-- ===== src/Token/Access.antt =====
-- internal/auth/token.go: validation and revocation of tokens.
use nyauth.Common.{
  Bool, true, false, List, [], ◌∷◌, Option, none, some, if◌then◌else◌, ◌==◌, not, ◌&&◌, String,
  str_eq,
}
use nyauth.Common.Text.{codes, text_eq}
use nyauth.Auth.ScopeText.{join_scopes}
use nyauth.Refresh.{TokenData, texts_eq, flag_eq}
use nyauth.Refresh.Store.{
  Result, ok, err, not_found, refresh_token_reuse as store_reuse, refresh_family_revoked,
  token_binding_mismatch, invalid_token_data, invalid_ttl, unavailable,
}
use nyauth.Refresh.Tokens.{get_token, revoke_token, revoke_refresh_token_for_client}
use nyauth.Token.{Claims, TokenHeader, PublicJwk, Env, Backends, World}
use nyauth.Token.Clients.{is_blank}
use nyauth.Token.Exec.{Outcome, finished, failed, Exec, give, lift, reading, require, ◌>>=◌, ◌>>◌}
use nyauth.Token.Validate.{
  TokenError, invalid_token, client_mismatch, refresh_token_reuse, validation_unavailable,
  other_error, validate_user, validate_access_policy, validate_authorization,
}

abbrev pub single : List String → Bool
single [] = false
single (a ∷ []) = true
single (a ∷ c ∷ rest) = false

abbrev pub first_or_blank : List String → String
first_or_blank [] = ""
first_or_blank (a ∷ rest) = a

-- The key that getPublicKey takes.
abbrev pub is_signing_key : String → PublicJwk → Bool
is_signing_key kid k =
    str_eq k.kid kid
    && (str_eq k.algorithm "RS256" && (str_eq k.key_type "RSA" && str_eq k.usage "sig"))

module _ (env : Env) where
  abbrev pub loaded_key : PublicJwk → Outcome TokenError String
  loaded_key k =
      if env.is_rsa_key k.public_key then finished k.public_key else failed validation_unavailable

  unfoldable pub find_key : String → List PublicJwk → Outcome TokenError String
  find_key kid [] = failed invalid_token
  find_key kid (k ∷ ks) =
      let rest = find_key kid ks in if is_signing_key kid k then loaded_key k else rest

  abbrev pub key_among : String → Option (List PublicJwk) → Outcome TokenError String
  key_among kid none = failed validation_unavailable
  key_among kid (some keys) = find_key kid keys

  -- getPublicKey, by parseSignedToken's reading of its errors.
  unfoldable pub get_public_key : String → Outcome TokenError String
  unfolding find_key
  get_public_key kid = key_among kid env.active_keys

  abbrev pub checked_claims : Option Claims → Outcome TokenError Claims
  checked_claims none = failed invalid_token
  checked_claims (some claims) =
      if str_eq claims.issuer env.issuer then finished claims else failed invalid_token

  abbrev pub with_key : String → Outcome TokenError String → Outcome TokenError Claims
  with_key token (failed e) = failed e
  with_key token (finished key) = checked_claims (env.parse_with_claims key token)

  abbrev pub with_kid : String → Option String → Outcome TokenError Claims
  with_kid token none = failed invalid_token
  with_kid token (some kid) =
      if is_blank kid then failed invalid_token else with_key token (get_public_key kid)

  abbrev pub with_header : String → Option TokenHeader → Outcome TokenError Claims
  with_header token none = failed invalid_token
  with_header token (some h) =
      if str_eq h.algorithm "RS256" then with_kid token h.kid else failed invalid_token

  -- parseSignedToken; the library's parsers give claims that have all three times.
  unfoldable pub parse_signed_token : String → Outcome TokenError Claims
  unfolding get_public_key
  parse_signed_token token = with_header token (env.parse_header token)

-- The comparison of the claims with the stored data.
unfoldable pub same_claims : TokenData → Claims → Bool
unfolding join_scopes
same_claims d c =
    str_eq d.token_use "access"
    && (str_eq d.client_id (first_or_blank c.audience)
        && (str_eq d.user_id c.subject
            && (d.auth_version == c.auth_version
                && (str_eq (join_scopes d.scopes) c.scope
                    && (flag_eq d.claim_names_set c.claim_names_set
                        && (texts_eq d.allowed_claims c.allowed_claims
                            && (text_eq (codes d.authentication_context) c.authentication_context
                                && (d.authentication_time == c.authentication_time
                                    && texts_eq d.authentication_methods
                                        c.authentication_methods))))))))

-- Whether the claims have the form of an access token's.
abbrev pub is_access : Claims → Bool
is_access c = str_eq c.token_use "access" && (not (is_blank c.id) && single c.audience)

abbrev pub metadata_outcome : Result TokenData → Outcome TokenError TokenData
metadata_outcome (ok d) = finished d
metadata_outcome (err not_found) = failed invalid_token
metadata_outcome (err store_reuse) = failed validation_unavailable
metadata_outcome (err refresh_family_revoked) = failed validation_unavailable
metadata_outcome (err token_binding_mismatch) = failed validation_unavailable
metadata_outcome (err invalid_token_data) = failed validation_unavailable
metadata_outcome (err invalid_ttl) = failed validation_unavailable
metadata_outcome (err unavailable) = failed validation_unavailable

abbrev pub store_outcome : Result Unit → Outcome TokenError Unit
store_outcome (ok u) = finished tt
store_outcome (err e) = failed other_error

module _ {C G R D : Type 0} (b : Backends C G R D) (env : Env) where
  abbrev pub read_metadata : String → World C G R D → Outcome TokenError TokenData
  read_metadata id w =
      metadata_outcome (get_token b.tokens env.digest env.networks.read_access id w.tokens)

  -- ValidateAccessToken.
  unfoldable pub validate_access_token : String → Exec (World C G R D) TokenError Claims
  unfolding parse_signed_token get_token same_claims validate_user validate_authorization
      validate_access_policy
  validate_access_token token = do
    claims ← lift (parse_signed_token env token)
    require (is_access claims) invalid_token
    d ← reading (read_metadata claims.id)
    require (same_claims d claims) invalid_token
    lift (validate_user env 0 claims.subject claims.auth_version)
    validate_authorization b env 0 d
    lift (validate_access_policy env d)
    give claims

  -- The access token that RevokeTokenForClient revokes, where the token is valid.
  abbrev pub revoke_validated :
      String → World C G R D × Outcome TokenError Claims → World C G R D × Outcome TokenError Unit
  revoke_validated client_id (w, failed invalid_token) = (w, finished tt)
  revoke_validated client_id (w, failed client_mismatch) = (w, failed client_mismatch)
  revoke_validated client_id (w, failed refresh_token_reuse) = (w, failed refresh_token_reuse)
  revoke_validated client_id (w, failed validation_unavailable) = (w, failed validation_unavailable)
  revoke_validated client_id (w, failed other_error) = (w, failed other_error)
  revoke_validated client_id (w, finished claims) =
      let r = revoke_token b.tokens env.digest env.networks.revoke_access claims.id w.tokens in
      if single claims.audience && str_eq (first_or_blank claims.audience) client_id
      then (record w { tokens = r.0 }, store_outcome r.1)
      else (w, failed client_mismatch)

  unfoldable pub revoke_access : String → String → Exec (World C G R D) TokenError Unit
  unfolding validate_access_token revoke_token
  revoke_access token client_id w = revoke_validated client_id (validate_access_token token w)

  -- What follows RevokeRefreshTokenForClient.
  abbrev pub after_refresh : String → String → Result Unit → Exec (World C G R D) TokenError Unit
  after_refresh token client_id (ok u) w = (w, finished tt)
  after_refresh token client_id (err token_binding_mismatch) w = (w, failed client_mismatch)
  after_refresh token client_id (err not_found) w = revoke_access token client_id w
  after_refresh token client_id (err store_reuse) w = (w, failed other_error)
  after_refresh token client_id (err refresh_family_revoked) w = (w, failed other_error)
  after_refresh token client_id (err invalid_token_data) w = (w, failed other_error)
  after_refresh token client_id (err invalid_ttl) w = (w, failed other_error)
  after_refresh token client_id (err unavailable) w = (w, failed other_error)

  -- RevokeTokenForClient.
  unfoldable pub revoke_token_for_client : String → String → Exec (World C G R D) TokenError Unit
  unfolding revoke_refresh_token_for_client revoke_access
  revoke_token_for_client token client_id w =
      let r =
        revoke_refresh_token_for_client b.tokens env.digest env.networks.revoke_refresh token
          client_id env.revocation_ttl w.tokens in
      after_refresh token client_id r.1 (record w { tokens = r.0 })
