-- ===== src/Token/Rotations.antt =====
-- internal/auth/token.go: what RefreshTokenWithClaimPolicy checks before it rotates a current token.
use nyauth.Common.{◌≡◌, ◌⊎◌, inl, inr, refl, sym, ap, true, false, Option, none, some, String}
use nyauth.Auth.ScopeText.{join_scopes}
use nyauth.Refresh.{TokenData}
use nyauth.Refresh.Store.{
  Result, ok, err, not_found, refresh_token_reuse as store_reuse, refresh_family_revoked,
  token_binding_mismatch, invalid_token_data, invalid_ttl, unavailable,
  rotate_refresh_token_and_store_access,
}
use nyauth.Refresh.Tokens.{TokenState, current, used, no_state}
use nyauth.Token.{TokenPair, Env, Backends, World}
use nyauth.Token.Exec.{Outcome, finished, failed, Exec, lift, bind_cases, lift_cases, After}
use nyauth.Token.Issue.{access_claims, sign_access_token, signed}
use nyauth.Token.RefreshGrant.{
  StoredRefresh, refresh_or_error, drawn, rotation_outcome, refreshed, rotation_input, undo_failed,
  or_revoke, rotated_world, rotate_presented, refresh_current,
}
use nyauth.Token.Validate.{
  TokenError, validate_user, validate_access_policy, validate_authorization,
}

signed-some : (env : Env) (o : Option String) (t : String) → signed env o ≡ finished t → o ≡ some t
signed-some env none t h = absurd (cc)
signed-some env (some t') t h = cc

-- A token that is current, where a handler goes on with one that was not used.
pub current_data :
    (s : TokenState) (stored : StoredRefresh)
    → refresh_or_error s ≡ finished stored
    → ((s ≡ current stored.data_) × (stored.was_used ≡ false)) ⊎ (stored.was_used ≡ true)
current_data (current d) stored h =
    let same : record { data_ = d; was_used = false } ≡ stored = cc in
    inl (
      ap (λ (s : StoredRefresh). current s.data_) same,
      sym (ap (λ (s : StoredRefresh). s.was_used) same),
    )
current_data (used d) stored h =
    let same : record { data_ = d; was_used = true } ≡ stored = cc in
    inr (sym (ap (λ (s : StoredRefresh). s.was_used) same))
current_data (no_state e) stored h = absurd (cc)

rotated_ok :
    (r : Result TokenData) (u : Unit {0})
    → rotation_outcome r ≡ finished u
    → (d : TokenData) × (r ≡ ok d)
rotated_ok (ok d) u h = (d, refl)
rotated_ok (err not_found) u h = absurd (cc)
rotated_ok (err store_reuse) u h = absurd (cc)
rotated_ok (err refresh_family_revoked) u h = absurd (cc)
rotated_ok (err token_binding_mismatch) u h = absurd (cc)
rotated_ok (err invalid_token_data) u h = absurd (cc)
rotated_ok (err invalid_ttl) u h = absurd (cc)
rotated_ok (err unavailable) u h = absurd (cc)

module _ {C G R D : Type 0} (b : Backends C G R D) (env : Env) where
  -- A check before which and after which the state is the same, where it finishes.
  pub or_revoke-finished :
      {A : Type 0} (token client : String) (m : Exec (World C G R D) TokenError A)
      (w w' : World C G R D) (a : A)
      → or_revoke b env token client m w ≡ (w', finished a)
      → m w ≡ (w', finished a)
  unfolding or_revoke
  or_revoke-finished {A} token client m w w' a h = by_value (m w) h
    where
      by_value :
          (r : World C G R D × Outcome TokenError A)
          → undo_failed b env token client r ≡ (w', finished a)
          → r ≡ (w', finished a)
      by_value (v, finished a') k = k
      by_value (v, failed e) k =
          let o : failed e ≡ finished a =
            ap (λ (r : World C G R D × Outcome TokenError A). r.1) k in
          absurd (cc)

  -- The checks and the rotation of a current token.
  pub record Rotated (token : String) (d : TokenData) (w w' : World C G R D) (pair : TokenPair)
      : Type 0 where
    pub user_valid : validate_user env 0 d.user_id d.auth_version ≡ finished tt
    pub grant_valid : (v : World C G R D) × (validate_authorization b env 0 d w ≡ (v, finished tt))
    pub policy_valid : validate_access_policy env d ≡ finished tt
    pub token_signed : env.sign (access_claims env (refreshed d)) ≡ some pair.access_token
    pub same_scope : pair.scope ≡ join_scopes d.scopes
    pub from : World C G R D
    pub rotated_data : TokenData
    pub rotated :
        rotate_refresh_token_and_store_access b.tokens env.digest env.networks.rotate
          (rotation_input env token pair.refresh_token d)
          from.tokens
        ≡ (w'.tokens, ok rotated_data)

  rotate_presented-finished :
      (token new : String) (d : TokenData) (w w' : World C G R D) (u : Unit {0})
      → rotate_presented b env token new d w ≡ (w', finished u)
      → (d' : TokenData) × (rotate_refresh_token_and_store_access b.tokens env.digest
            env.networks.rotate
            (rotation_input env token new d)
            w.tokens
          ≡ (w'.tokens, ok d'))
  unfolding rotate_presented
  rotate_presented-finished token new d w w' u h = by_value _ h
    where
      by_value :
          (r : R × Result TokenData)
          → rotated_world b env w r ≡ (w', finished u)
          → (d' : TokenData) × (r ≡ (w'.tokens, ok d'))
      by_value (db, ok d') k =
          let tokens : db ≡ w'.tokens =
            ap (λ (s : World C G R D × Outcome TokenError Unit). s.0.tokens) k in
          (d', ap (λ (v : R). (v, ok d')) tokens)
      by_value (db, err e) k =
          let outcome : rotation_outcome (err e) ≡ finished u =
            ap (λ (s : World C G R D × Outcome TokenError Unit). s.1) k in
          let (d', same) = rotated_ok (err e) u outcome in absurd (cc)

  pub refresh_current-After :
      (token client : String) (d : TokenData) (w : World C G R D)
      → After (Rotated token d w) (refresh_current b env token client d w)
  unfolding refresh_current sign_access_token
  refresh_current-After token client d w =
      let P : World C G R D × Outcome TokenError TokenPair → Type 0 = After (Rotated token d w) in
      bind_cases P
        (or_revoke b env token client (lift (validate_user env 0 d.user_id d.auth_version))) _ w
        (λ _ _ _. tt)
        λ w1 u1 e1.
          bind_cases P (or_revoke b env token client (validate_authorization b env 0 d)) _ w1
            (λ _ _ _. tt)
            λ w2 u2 e2.
              bind_cases P (or_revoke b env token client (lift (validate_access_policy env d))) _ w2
                (λ _ _ _. tt)
                λ w3 u3 e3.
                  lift_cases P (drawn env.refresh_secret) _ w3 (λ _ _. tt)
                    λ new e4.
                      lift_cases P (sign_access_token env (refreshed d)) _ w3 (λ _ _. tt)
                        λ access e5.
                          bind_cases P (rotate_presented b env token new d) _ w3 (λ _ _ _. tt)
                            λ w4 u4 e6.
                              let user =
                                or_revoke-finished token client
                                  (lift (validate_user env 0 d.user_id d.auth_version)) w w1 u1
                                  e1 in
                              let same : w ≡ w1 =
                                ap (λ (r : World C G R D × Outcome TokenError Unit). r.0) user in
                              let grant =
                                or_revoke-finished token client (validate_authorization b env 0 d)
                                  w1 w2 u2 e2 in
                              let policy =
                                or_revoke-finished token client
                                  (lift (validate_access_policy env d)) w2 w3 u3 e3 in
                              let (d', rotated) =
                                rotate_presented-finished token new d w3 w4 u4 e6 in
                              record {
                                user_valid =
                                    ap (λ (r : World C G R D × Outcome TokenError Unit). r.1) user;
                                grant_valid = (w2, rw same grant);
                                policy_valid =
                                    ap (λ (r : World C G R D × Outcome TokenError Unit). r.1)
                                      policy;
                                token_signed = signed-some env _ access e5;
                                same_scope = refl;
                                from = w3;
                                rotated_data = d';
                                rotated = rotated;
                              }
