-- ===== src/Token/Refreshed.antt =====
-- internal/auth: what a refresh token is exchanged for, and by whom.
use nyauth.Common.{
  ◌≡◌, ◌⊎◌, inl, inr, refl, ap, ◌∙◌, Bool, true, false, List, ◌&&◌, String, str_eq, str_eq_iff,
}
use nyauth.Auth.Scopes.{scopes_are_subset}
use nyauth.Refresh.{TokenData}
use nyauth.Refresh.Tokens.{current, get_refresh_token_state}
use nyauth.Token.{TokenPair, Form, Env, Backends, World}
use nyauth.Token.ClaimNames.{claims_for_granted_scopes, scope_claims_for_client}
use nyauth.Token.Clients.{Authenticated, authenticate_token_client, has_grant}
use nyauth.Token.Exec.{
  Outcome, finished, failed, require, bind_cases, lift_cases, reading_cases, require_cases, After,
  relabel,
}
use nyauth.Token.Redeemed.{client_finished, both}
use nyauth.Token.RefreshGrant.{
  StoredRefresh, token_claims, or_revoke, refuse_reuse, refresh_found, read_refresh,
  refresh_token_with_claim_policy, refresh_refusal, handle_refresh_token_grant,
}
use nyauth.Token.Replies.{Refusal}
use nyauth.Token.Validate.{TokenError, invalid_token}
use nyauth.Token.Rotations.{Rotated, or_revoke-finished, refresh_current-After, current_data}

module _ {C G R D : Type 0} (b : Backends C G R D) (env : Env) where
  -- The token was current, of this client and for scopes and claims that are allowed.
  pub record Refreshed (token client : String) (allowed : List String)
      (scope_claims : List (String × List String)) (w w' : World C G R D) (pair : TokenPair)
      : Type 0 where
    pub data_ : TokenData
    pub was_current :
        get_refresh_token_state b.tokens env.digest env.networks.read_refresh
          env.networks.read_used_refresh token w.tokens
        ≡ current data_
    pub same_client : data_.client_id ≡ client
    pub is_refresh : data_.token_use ≡ "refresh"
    pub scopes_allowed : scopes_are_subset data_.scopes allowed ≡ true
    pub claims_allowed :
        scopes_are_subset (token_claims data_) (claims_for_granted_scopes data_.scopes scope_claims)
        ≡ true
    pub exchanged : Rotated b env token data_ w w' pair

  passed :
      (token client : String) (c : Bool) (w w' : World C G R D) (u : Unit {0})
      → or_revoke b env token client (require c invalid_token) w ≡ (w', finished u)
      → (c ≡ true) × (w ≡ w')
  passed token client c w w' u h =
      by_test c (or_revoke-finished b env token client (require c invalid_token) w w' u h)
    where
      by_test : (t : Bool) → require t invalid_token w ≡ (w', finished u) → (t ≡ true) × (w ≡ w')
      by_test true k = (refl, ap (λ (r : World C G R D × Outcome TokenError Unit). r.0) k)
      by_test false k =
          let wrong : failed invalid_token ≡ finished u =
            ap (λ (r : World C G R D × Outcome TokenError Unit). r.1) k in
          absurd (cc)

  refresh_policy-After :
      (token client : String) (allowed : List String) (scope_claims : List (String × List String))
      (w : World C G R D)
      → After
          (Refreshed token client allowed scope_claims w)
          (refresh_token_with_claim_policy b env token client allowed scope_claims w)
  unfolding refresh_token_with_claim_policy refuse_reuse
  refresh_policy-After token client allowed scope_claims w =
      let P : World C G R D × Outcome TokenError TokenPair → Type 0 =
        After (Refreshed token client allowed scope_claims w) in
      reading_cases P (read_refresh b env token) _ w (λ _ _. tt)
        λ stored e0.
          let d = stored.data_ in
          require_cases P (str_eq d.client_id client && str_eq d.token_use "refresh") _ _ w
            (λ _. tt)
            λ own.
              let (same_client, is_refresh) =
                both (str_eq d.client_id client) (str_eq d.token_use "refresh") own in
              bind_cases P
                (or_revoke b env token client
                  (require (scopes_are_subset d.scopes allowed) invalid_token))
                _ w (λ _ _ _. tt)
                λ w1 u1 e1.
                  let (scopes_fine, same1) = passed token client _ w w1 u1 e1 in
                  bind_cases P
                    (or_revoke b env token client (
                      require
                        (scopes_are_subset (token_claims d)
                          (claims_for_granted_scopes d.scopes scope_claims))
                        invalid_token))
                    _ w1 (λ _ _ _. tt)
                    λ w2 u2 e2.
                      let (claims_fine, same2) = passed token client _ w1 w2 u2 e2 in
                      by_use stored w2 (same1 ∙ same2)
                        ((str_eq_iff d.client_id client).0 same_client)
                        ((str_eq_iff d.token_use "refresh").0 is_refresh) scopes_fine claims_fine
                        (current_data _ stored e0)
    where
      by_pair :
          (d : TokenData) (w2 : World C G R D)
          → w ≡ w2
          → d.client_id ≡ client
          → d.token_use ≡ "refresh"
          → scopes_are_subset d.scopes allowed ≡ true
          → scopes_are_subset (token_claims d) (claims_for_granted_scopes d.scopes scope_claims)
            ≡ true
          → get_refresh_token_state b.tokens env.digest env.networks.read_refresh
              env.networks.read_used_refresh token w.tokens
            ≡ current d
          → (r : World C G R D × Outcome TokenError TokenPair) → After (Rotated b env token d w2) r
          → After (Refreshed token client allowed scope_claims w) r
      by_pair d w2 same c k s a now (w', failed e) h = tt
      by_pair d w2 same c k s a now (w', finished pair) h = record {
        data_ = d;
        was_current = now;
        same_client = c;
        is_refresh = k;
        scopes_allowed = s;
        claims_allowed = a;
        exchanged = rw same h;
      }

      by_use :
          (stored : StoredRefresh) (w2 : World C G R D)
          → w ≡ w2
          → stored.data_.client_id ≡ client
          → stored.data_.token_use ≡ "refresh"
          → scopes_are_subset stored.data_.scopes allowed ≡ true
          → scopes_are_subset
              (token_claims stored.data_)
              (claims_for_granted_scopes stored.data_.scopes scope_claims)
            ≡ true
          → ((get_refresh_token_state b.tokens env.digest env.networks.read_refresh
                  env.networks.read_used_refresh token w.tokens
                ≡ current stored.data_)
              × (stored.was_used ≡ false))
            ⊎ (stored.was_used ≡ true)
          → After
              (Refreshed token client allowed scope_claims w)
              (refresh_found b env token client stored w2)
      by_use stored w2 same c k s a (inr was) = rw was tt
      by_use stored w2 same c k s a (inl (now, fresh)) = rw fresh (
          by_pair stored.data_ w2 same c k s a now _
            (refresh_current-After b env token client stored.data_ w2))

  -- The client of a request for a refresh, and what its token was exchanged for.
  pub record Renewed (form : Form) (w w' : World C G R D) (pair : TokenPair) : Type 0 where
    pub who : Authenticated
    pub authenticated : authenticate_token_client env form "" true ≡ finished who
    pub may_refresh : has_grant who.client "refresh_token" ≡ true
    pub refreshed_token :
        Refreshed form.refresh_token who.client_id who.client.scopes
          (scope_claims_for_client env.policy who.client.scopes who.client)
          w
          w'
          pair

  handle-Renewed :
      (form : Form) (w : World C G R D)
      → After (Renewed form w) (handle_refresh_token_grant b env form w)
  unfolding handle_refresh_token_grant
  handle-Renewed form w =
      let P : World C G R D × Outcome Refusal TokenPair → Type 0 = After (Renewed form w) in
      require_cases P _ _ _ w (λ _. tt)
        λ _.
          lift_cases P _ _ w (λ _ _. tt)
            λ who e.
              require_cases P (has_grant who.client "refresh_token") _ _ w (λ _. tt)
                λ may.
                  by_pair who (client_finished _ _ who e) may
                    (refresh_token_with_claim_policy b env form.refresh_token who.client_id
                      who.client.scopes
                      (scope_claims_for_client env.policy who.client.scopes who.client) w)
                    (refresh_policy-After form.refresh_token who.client_id who.client.scopes
                      (scope_claims_for_client env.policy who.client.scopes who.client) w)
    where
      by_pair :
          (who : Authenticated)
          → authenticate_token_client env form "" true ≡ finished who
          → has_grant who.client "refresh_token" ≡ true
          → (r : World C G R D × Outcome TokenError TokenPair)
          → After
              (Refreshed form.refresh_token who.client_id who.client.scopes
                (scope_claims_for_client env.policy who.client.scopes who.client)
                w)
              r
          → After (Renewed form w) (r.0, relabel (refresh_refusal who.client.id) r.1)
      by_pair who e may (w', failed why) h = tt
      by_pair who e may (w', finished pair) h = record {
        who = who;
        authenticated = e;
        may_refresh = may;
        refreshed_token = h;
      }

-- handleRefreshTokenGrant granted a pair of tokens. Then the request authenticated as a client with
-- the refresh grant, its refresh token was stored as current for that client, the token's scopes
-- are among the client's and its claims among those that the client and the policy allow now,
-- its user, its grant and the access policy were valid, the new access token is signed for the
-- stored user, scopes and claims, the reply shows the stored scopes, and the rotation that
-- stores the new tokens succeeded.
pub Renewed-token :
    {C G R D : Type 0} (b : Backends C G R D) (env : Env) (form : Form) (w : World C G R D)
    {w' : World C G R D} {pair : TokenPair}
    → handle_refresh_token_grant b env form w ≡ (w', finished pair)
    → Renewed b env form w w' pair
Renewed-token b env form w e = rw e at (handle-Renewed b env form w)
