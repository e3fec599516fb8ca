-- ===== src/Token/Replayed.antt =====
-- internal/auth/handler.go: rejectAuthorizationCodeReuse on a code that is presented again.
use nyauth.Common.{ℕ, ◌+◌, ◌≡◌, ◌≢◌, refl, Bool, true, false, List, arith, ◌==◌}
use nyauth.Redis.{delivered}
use nyauth.Session.{AuthorizationData}
use nyauth.Session.Clock.{GrantEvent, grant_run, revoke_user_client_authorization}
use nyauth.Session.Codes.{
  Result as SessionResult, ok as session_ok, err as session_err, reused, get_authorization_code,
}
use nyauth.Session.Contained.{delivered_revocation, Marked-grant}
use nyauth.Session.Revocation.{Bounds}
use nyauth.Refresh.{TokenData}
use nyauth.Token.{Form, Env, Backends, World}
use nyauth.Token.Clients.{Authenticated, authenticate_token_client}
use nyauth.Token.CodeGrant.{
  code_binding, well_formed_code_request, answer_code, reject_authorization_code_reuse,
  handle_authorization_code_grant,
}
use nyauth.Token.Exec.{Outcome, finished, failed, reading_cases, require_cases, ◌>>=◌}
use nyauth.Token.Validate.{
  TokenError, check_revoked, validate_authorization, validate_grant, not_revoked, has_grant_data,
}

-- A validation finds fault with the token, or fails.
abbrev pub Invalid : {S A : Type 0} → S × Outcome TokenError A → Type 0
Invalid (s, finished a) = ⊥
Invalid (s, failed e) = Unit

not_fine : (r : SessionResult Bool) → r ≢ session_ok false → check_revoked r ≢ finished tt
not_fine (session_ok true) h k = cc
not_fine (session_ok false) h k = h refl
not_fine (session_err e) h k = cc

module _ {C G R D : Type 0} (b : Backends C G R D) (env : Env) where
  pub revoked-Invalid :
      (read : ℕ) (d : TokenData) (w : World C G R D)
      → (d.auth_version == 0) ≡ false
      → not_revoked b env d w ≢ finished tt
      → Invalid (validate_authorization b env read d w)
  unfolding validate_authorization validate_grant
  revoked-Invalid read d w bound fault = rw bound (
      require_cases Invalid (has_grant_data b env d) _ _ w (λ _. tt)
        λ _. reading_cases Invalid (not_revoked b env d) _ w (λ _ _. tt) λ u e. absurd (fault e))

  -- What the handler does with the clock when a bound request presents a used code.
  replay_clock :
      (form : Form) (w : World C G R D) (d : AuthorizationData) (who : Authenticated)
      → well_formed_code_request env form ≡ true
      → get_authorization_code b.codes env.digest env.networks.read_code env.networks.read_used_code
          form.code w.codes
        ≡ reused d
      → authenticate_token_client env form d.client_id true ≡ finished who
      → code_binding env form who d ≡ true
      → (handle_authorization_code_grant b env form w).0.clock
        ≡ (revoke_user_client_authorization b.clock env.pair_digest env.networks.revoke_grant
            d.user_id d.client_id
            (env.revocation_ttl + 300000)
            env.micros
            w.clock).0
  unfolding handle_authorization_code_grant answer_code reject_authorization_code_reuse ◌>>=◌
  replay_clock form w d who formed used authenticated bound =
      rw (formed, used, authenticated, bound) refl

-- A code that was exchanged is presented again, by a request that authenticates as its client and has
-- its redirect URI and verifier, and the request that revokes reaches Redis. Then a token of the
-- code's user and client whose grant was issued no later than the clock stood is not valid after
-- it, whatever calls on the clocks follow in which no key expires, and whether Redis answers.
pub replay_revokes :
    {C G R D : Type 0} (b : Backends C G R D) (env : Env) (form : Form) (w : World C G R D)
    (d : AuthorizationData) (who : Authenticated) (es : List GrantEvent) (env' : Env)
    (later : World C G R D) (read : ℕ) (token : TokenData)
    → well_formed_code_request env form ≡ true
    → get_authorization_code b.codes env.digest env.networks.read_code env.networks.read_used_code
        form.code w.codes
      ≡ reused d
    → authenticate_token_client env form d.client_id true ≡ finished who
    → code_binding env form who d ≡ true
    → env.networks.revoke_grant ≡ delivered
    → env'.pair_digest ≡ env.pair_digest
    → later.clock
      ≡ grant_run b.clock env.pair_digest es (handle_authorization_code_grant b env form w).0.clock
    → token.user_id ≡ d.user_id
    → token.client_id ≡ d.client_id
    → (token.auth_version == 0) ≡ false
    → Bounds b.clock (env.pair_digest d.user_id d.client_id) token.authorization_issued_at w.clock
    → Invalid (validate_authorization b env' read token later)
replay_revokes b env form w d who es env' later read token formed used authenticated bound reaches
      digests after user client versioned issued =
    let i = token.authorization_issued_at in
    let stop =
      (revoke_user_client_authorization b.clock env.pair_digest delivered d.user_id d.client_id
        (env.revocation_ttl + 300000) env.micros w.clock).0 in
    let at : later.clock ≡ grant_run b.clock env.pair_digest es stop =
      rw (replay_clock b env form w d who formed used authenticated bound, reaches) at after in
    revoked-Invalid b env' read token later versioned (
      not_fine _ (
        rw (digests, user, client, at)
          (Marked-grant b.clock env.pair_digest d.user_id d.client_id i
            env'.networks.read_revocation es stop
            (delivered_revocation b.clock env.pair_digest d.user_id d.client_id i
              (env.revocation_ttl + 300000) env.micros w.clock (omega arith) issued))))
