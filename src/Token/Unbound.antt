-- ===== src/Token/Unbound.antt =====
-- internal/auth/handler.go: requests that do not prove the client of a code.
use nyauth.Common.{◌≡◌, ◌⊎◌, inl, inr, refl, true}
use nyauth.Token.{TokenPair, Form, Env, Backends, World}
use nyauth.Token.Clients.{Authenticated, authenticate_token_client}
use nyauth.Token.CodeGrant.{StoredCode, code_binding, read_code, handle_authorization_code_grant}
use nyauth.Token.Exec.{Outcome, finished, lift_cases, reading_cases, require_cases}
use nyauth.Token.Redeemed.{GrantsNothing, Bound, binding-Bound, client_finished}
use nyauth.Token.Replies.{Refusal}

-- The request authenticates as the client of the code that stands in the store, and has its redirect
-- URI and verifier.
pub record ProvesCode {C G R D : Type 0} (b : Backends C G R D) (env : Env) (form : Form)
    (w : World C G R D) : Type 0 where
  pub stored : StoredCode
  pub found : read_code b env form.code w ≡ finished stored
  pub who : Authenticated
  pub authenticated : authenticate_token_client env form stored.data_.client_id true ≡ finished who
  pub bound : Bound env form who stored.data_

-- handleAuthorizationCodeGrant, on any request: either it grants nothing and leaves every store as it
-- was, or the request authenticated as the client of the stored code and has the code's redirect
-- URI, client revision and PKCE verifier. So a stolen code is neither exchanged, nor consumed, nor
-- its grant revoked, by one who cannot prove these.
pub unproved_request :
    {C G R D : Type 0} (b : Backends C G R D) (env : Env) (form : Form) (w : World C G R D)
    → let r = handle_authorization_code_grant b env form w in
      ((r.0 ≡ w) × GrantsNothing r) ⊎ ProvesCode b env form w
unfolding handle_authorization_code_grant
unproved_request {C} {G} {R} {D} b env form w =
    let P : World C G R D × Outcome Refusal TokenPair → Type 0 =
      λ r. ((r.0 ≡ w) × GrantsNothing r) ⊎ ProvesCode b env form w in
    require_cases P _ _ _ w (λ _. inl (refl, tt))
      λ _.
        reading_cases P (read_code b env form.code) _ w (λ _ _. inl (refl, tt))
          λ stored e.
            lift_cases P _ _ w (λ _ _. inl (refl, tt))
              λ who proved.
                require_cases P (code_binding env form who stored.data_) _ _ w (λ _. inl (refl, tt))
                  λ bound. inr (record {
                    stored = stored;
                    found = e;
                    who = who;
                    authenticated = client_finished _ _ who proved;
                    bound = binding-Bound env form who stored.data_ bound;
                  })
