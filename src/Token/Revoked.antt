-- ===== src/Token/Revoked.antt =====
-- internal/auth/token.go: RevokeTokenForClient, and the access token afterwards.
use nyauth.Common.{
  ℕ, ◌≡◌, refl, ap, Bool, true, false, Option, none, some, if◌then◌else◌, ◌&&◌, ◌==◌, String,
  str_eq, Bool-cases, inl, inr,
}
use nyauth.Redis.{Network, delivered, unreachable, reply_lost, send, send_cases}
use nyauth.Redis.Sets.{RedisSets}
use nyauth.Refresh.{Key, Member, Value, token_value, revoked_value, access_key, token_at, get_key}
use nyauth.Refresh.Store.{Result, ok, err, not_found, invalid_ttl, unavailable}
use nyauth.Refresh.Tokens.{
  no_state, deleted, first_found, no_token, revocation_result, decode_token, used_state, state_or,
  get_token, get_json, get_refresh_token_state, revoke_token, delete_token,
  revoke_refresh_token_for_client, revoke_for_client_script, revoke_found,
}
use nyauth.Token.{Claims, Env, Backends, World}
use nyauth.Token.Access.{
  single, first_or_blank, is_access, store_outcome, read_metadata, parse_signed_token,
  validate_access_token, revoke_access, after_refresh, revoke_token_for_client,
}
use nyauth.Token.Exec.{Outcome, finished, failed, ◌>>=◌}
use nyauth.Token.Validate.{TokenError, invalid_token, client_mismatch}

nothing_found :
    (v v' : Option Value)
    → state_or (decode_token v) (used_state (decode_token v')) ≡ no_state not_found
    → first_found v v' ≡ none
nothing_found none none h = refl
nothing_found none (some revoked_value) h = absurd (cc)
nothing_found none (some (token_value d)) h = absurd (cc)
nothing_found (some revoked_value) v' h = absurd (cc)
nothing_found (some (token_value d)) v' h = absurd (cc)

module _ {Db : Type 0} (redis : RedisSets Key Member Value Db) (digest : String → String) where
  -- RevokeToken that succeeds leaves nothing for GetToken.
  token_gone :
      (n : Network) (id : String) (db : Db)
      → (revoke_token redis digest n id db).1 ≡ ok tt
      → get_token redis digest delivered id (revoke_token redis digest n id db).0 ≡ err not_found
  unfolding revoke_token get_token get_json delete_token
  token_gone unreachable id db h = absurd (cc)
  token_gone reply_lost id db h = absurd (cc)
  token_gone delivered id db h =
      let key = token_at (access_key (digest id)) in by_found key (get_key redis key db) h
    where
      by_found :
          (key : Key) (v : Option Value)
          → (deleted redis digest (send delivered db (delete_token redis digest key v db))).1
            ≡ ok tt
          → get_json redis digest delivered key
              (deleted redis digest (send delivered db (delete_token redis digest key v db))).0
            ≡ err not_found
      by_found key none k = absurd (cc)
      by_found key (some v) k = rw (redis.strings.get-del key db) refl

  -- RevokeRefreshTokenForClient finds nothing where GetRefreshTokenState does not, or it fails.
  revocation_cases {κ} :
      (P : Db × Result Unit → Type κ) (n : Network) (token client : String) (ttl : ℕ) (db : Db)
      → get_refresh_token_state redis digest delivered delivered token db ≡ no_state not_found
      → P (db, err not_found)
      → P (db, err unavailable)
      → P (db, err invalid_ttl)
      → P (revoke_refresh_token_for_client redis digest n token client ttl db)
  unfolding revoke_refresh_token_for_client revoke_for_client_script revoke_found
      get_refresh_token_state get_json
  revocation_cases P n token client ttl db h absent down no_ttl = elim (Bool-cases (ttl == 0)) [
    | inl z ↦ rw z no_ttl
    | inr z ↦
        rw (z, nothing_found _ _ h)
          (send_cases (λ s. P (revocation_result s)) n db (db, no_token) down absent down)
  ]

module _ {C G R D : Type 0} (b : Backends C G R D) (env env' : Env) where
  -- A revocation that succeeds on a token that is no refresh token revokes it as an access token.
  revokes_access :
      (token client_id : String) (w : World C G R D) {w' : World C G R D}
      → get_refresh_token_state b.tokens env.digest delivered delivered token w.tokens
        ≡ no_state not_found
      → revoke_token_for_client b env token client_id w ≡ (w', finished tt)
      → revoke_access b env token client_id w ≡ (w', finished tt)
  unfolding revoke_token_for_client
  revokes_access token client_id w {w'} absent h =
      revocation_cases b.tokens env.digest
        (λ r.
          after_refresh b env token client_id r.1 (record w { tokens = r.0 }) ≡ (w', finished tt)
          → revoke_access b env token client_id w ≡ (w', finished tt))
        env.networks.revoke_refresh token client_id env.revocation_ttl w.tokens absent (λ k. k)
        (λ k. absurd (cc)) (λ k. absurd (cc)) h

  access_gone :
      (token client_id : String) (w : World C G R D) {w' : World C G R D} (claims : Claims)
      → validate_access_token b env token w ≡ (w, finished claims)
      → revoke_access b env token client_id w ≡ (w', finished tt)
      → get_token b.tokens env.digest delivered claims.id w'.tokens ≡ err not_found
  unfolding revoke_access
  access_gone token client_id w {w'} claims valid h =
      by_client (single claims.audience && str_eq (first_or_blank claims.audience) client_id)
        (revoke_token b.tokens env.digest env.networks.revoke_access claims.id w.tokens)
        (token_gone b.tokens env.digest env.networks.revoke_access claims.id w.tokens)
        (rw valid at h)
    where
      by_client :
          (own : Bool) (r : R × Result Unit)
          → (r.1 ≡ ok tt → get_token b.tokens env.digest delivered claims.id r.0 ≡ err not_found)
          → ◌≡◌ {A = World C G R D × Outcome TokenError Unit}
              (if own
                then (record w { tokens = r.0 }, store_outcome r.1)
                else (w, failed client_mismatch))
              (w', finished tt)
          → get_token b.tokens env.digest delivered claims.id w'.tokens ≡ err not_found
      by_client true (db, ok u) gone k =
          let same : db ≡ w'.tokens =
            ap (λ (p : World C G R D × Outcome TokenError Unit). p.0.tokens) k in
          rw same at (gone refl)
      by_client true (db, err e) gone k = absurd (cc)
      by_client false r gone k = absurd (cc)

  refused_where_gone :
      (token : String) (w : World C G R D) (claims : Claims)
      → parse_signed_token env' token ≡ finished claims
      → read_metadata b env' claims.id w ≡ failed invalid_token
      → validate_access_token b env' token w ≡ (w, failed invalid_token)
  unfolding validate_access_token ◌>>=◌
  refused_where_gone token w claims parsed gone = rw parsed (elim (Bool-cases (is_access claims)) [
    | inl yes' ↦ rw (yes', gone) refl
    | inr no' ↦ rw no' refl
  ])

-- RevokeTokenForClient succeeds for a client on an access token that validates and that is no
-- refresh token. Then ValidateAccessToken refuses the token as invalid on any instance that shares
-- the digest and parses the token as the same claims, where the stored tokens are as the revocation
-- left them and Redis answers.
pub revoked_access_refused :
    {C G R D : Type 0} (b : Backends C G R D) (env env' : Env) (token client_id : String)
    (w : World C G R D) {w' : World C G R D} (later : World C G R D) (claims : Claims)
    → get_refresh_token_state b.tokens env.digest delivered delivered token w.tokens
      ≡ no_state not_found
    → validate_access_token b env token w ≡ (w, finished claims)
    → revoke_token_for_client b env token client_id w ≡ (w', finished tt)
    → later.tokens ≡ w'.tokens
    → parse_signed_token env' token ≡ finished claims
    → env'.digest ≡ env.digest
    → env'.networks.read_access ≡ delivered
    → validate_access_token b env' token later ≡ (later, failed invalid_token)
revoked_access_refused b env env' token client_id w later claims absent valid revoked kept parsed
      digests reads =
    let gone =
      access_gone b env env' token client_id w claims valid
        (revokes_access b env env' token client_id w absent revoked) in
    refused_where_gone b env env' token later claims parsed (rw (digests, reads, kept, gone) refl)
