-- ===== src/Token/Fresh.antt =====
-- internal/auth/token.go: ValidateAccessToken on the tokens that TokenService issues.
use nyauth.Common.{
  ℕ, ◌≡◌, refl, Bool, true, false, Option, none, some, arith, if◌then◌else◌, ◌==◌, ltb, String,
  str_eq_refl,
}
use nyauth.Redis.{Redis, Network, delivered, unreachable, reply_lost}
use nyauth.Refresh.{TokenData}
use nyauth.Refresh.Saved.{HasAccess}
use nyauth.Refresh.Tokens.{get_token, get_json}
use nyauth.Session.Clock.{ClockKey, is_user_client_authorization_revoked}
use nyauth.Token.{TokenPair, Env, Backends, World}
use nyauth.Token.Access.{read_metadata, validate_access_token, parse_signed_token}
use nyauth.Token.Changes.{issue-Keeps}
use nyauth.Token.Clients.{is_blank}
use nyauth.Token.Exec.{finished, failed}
use nyauth.Token.Issue.{Issuance, access_claims, token_data, generate_authorization_code_token_pair}
use nyauth.Token.Issued.{Granted, issue-After}
use nyauth.Token.Valid.{Shown, StillValid, validates, claims_agree}
use nyauth.Token.Validate.{
  invalid_token, check_revoked, check_revision, not_revoked, current_client_authorization_revision,
  normalized_client_revision, validate_access_policy,
}

revision_kept :
    (o : Option ℕ) (revision : ℕ)
    → check_revision o ≡ finished revision
    → (normalized_client_revision revision == revision) ≡ true
revision_kept none revision h = absurd (cc)
revision_kept (some r) revision h = by_test (ltb r 1) refl h
  where
    by_test :
        (t : Bool)
        → ltb r 1 ≡ t
        → (if t then failed invalid_token else finished r) ≡ finished revision
        → (normalized_client_revision revision == revision) ≡ true
    by_test true e k = absurd (cc)
    by_test false e k =
        let same : r ≡ revision = cc in
        let above : ltb revision 1 ≡ false = rw same at e in ground (arith, above)

module _ {G : Type 0} (clock : Redis ClockKey ℕ G) (digest : String → String → String) where
  -- A grant that read as valid with some connection does so with one that is up.
  fine_delivered :
      (n : Network) (user client : String) (i : ℕ) (db : G)
      → check_revoked (is_user_client_authorization_revoked clock digest n user client i db)
        ≡ finished tt
      → check_revoked (is_user_client_authorization_revoked clock digest delivered user client i db)
        ≡ finished tt
  unfolding is_user_client_authorization_revoked
  fine_delivered delivered user client i db h = h
  fine_delivered unreachable user client i db h = absurd (cc)
  fine_delivered reply_lost user client i db h = absurd (cc)

module _ {C G R D : Type 0} (b : Backends C G R D) (env env' : Env) where
  stored_metadata :
      (id : String) (d : TokenData) (w : World C G R D)
      → HasAccess b.tokens env.digest id d w.tokens
      → env'.digest ≡ env.digest
      → env'.networks.read_access ≡ delivered
      → read_metadata b env' id w ≡ finished d
  unfolding get_token get_json
  stored_metadata id d w stored digests up = rw (digests, up, stored) refl

policy_same :
    (env : Env) (g : Issuance) (revision : ℕ) (family : String)
    → validate_access_policy env (token_data g "access" "") ≡ finished tt
    → validate_access_policy env
        (token_data (record g { client_authorization_revision = revision }) "access" family)
      ≡ finished tt
unfolding validate_access_policy
policy_same env g revision family h = h

-- A pair of tokens was issued for a grant. Then ValidateAccessToken accepts the access token with the
-- very claims that were signed, on any instance that shares the digests and parses what was signed as
-- these claims, in the state that the issuance left, where Redis answers, the token's id has
-- characters, the claims show the authentication as it is stored, and the user, the revision of
-- the client and the access policy are as they were checked.
pub issued_token_validates :
    {C G R D : Type 0} (b : Backends C G R D) (env : Env) (g : Issuance) (w : World C G R D)
    {w' : World C G R D} {pair : TokenPair} (env' : Env)
    → generate_authorization_code_token_pair b env g w ≡ (w', finished pair)
    → ((revision : ℕ)
        → current_client_authorization_revision env 0 g.client_id ≡ finished revision
        → StillValid b env' g revision)
    → (env.sign (access_claims env g) ≡ some pair.access_token
        → parse_signed_token env' pair.access_token ≡ finished (access_claims env g))
    → env'.digest ≡ env.digest
    → env'.pair_digest ≡ env.pair_digest
    → env'.networks.read_access ≡ delivered
    → env'.networks.read_revocation ≡ delivered
    → is_blank env.jti ≡ false
    → Shown env.now g.authentication
    → (env.sign (access_claims env g) ≡ some pair.access_token)
      × (validate_access_token b env' pair.access_token w' ≡ (w', finished (access_claims env g)))
unfolding access_claims current_client_authorization_revision
issued_token_validates {C} {G} {R} {D} b env g w {w'} {pair} env' e valid verifies digests pairs
      reads answers named shown =
    let granted : Granted b env g w w' pair = rw e at (issue-After b env g w) in
    let kept : w'.clock ≡ w.clock =
      rw e at (issue-Keeps b env {P = λ v. v.clock ≡ w.clock} (λ _ _ p. p) g w refl) in
    let revision = granted.revision in
    let still = valid revision granted.current in
    let g' = record g { client_authorization_revision = revision } in
    let stands = granted.stands in
    let d = token_data g' "access" stands.family in
    let unrevoked : not_revoked b env' d w' ≡ finished tt =
      rw (pairs, answers, kept)
        (fine_delivered b.clock env.pair_digest env.networks.read_revocation g.subject g.client_id
          g.authorization_issued_at w.clock granted.not_revoked_before) in
    (
      stands.token_signed,
      validates b env' w' pair.access_token (access_claims env g') d revision
          (verifies stands.token_signed) (rw (str_eq_refl "access", named) refl)
          (stored_metadata b env env' env.jti d w' stands.stored digests reads)
          (claims_agree env g' stands.family shown) still.user_valid still.named unrevoked
          still.revision_is
          (revision_kept (env.client_revision 0 g.client_id) revision granted.current)
          (policy_same env' g revision stands.family still.policy_valid),
    )
