-- ===== src/Token/Issued.antt =====
-- internal/auth/token.go: what a pair that was issued stands for.
use nyauth.Common.{
  ℕ, ◌≡◌, refl, Bool, true, false, Option, none, some, arith, ◌==◌, not, ◌||◌, String, if_cases,
}
use nyauth.Refresh.{TokenData}
use nyauth.Refresh.Store.{Result, ok, err}
use nyauth.Refresh.Saved.{Leaves, HasAccess, save_token-Leaves, save_family-Leaves}
use nyauth.Token.{Env, Backends, World, TokenPair}
use nyauth.Token.Clients.{is_blank}
use nyauth.Token.Exec.{
  Outcome, finished, failed, require, bind_cases, lift_cases, reading_cases, require_cases, After,
}
use nyauth.Token.Validate.{
  TokenError, invalid_token, validate_authorization, validate_grant, has_grant_data, not_revoked,
  current_client_authorization_revision,
}
use nyauth.Token.Issue.{
  Issuance, NewRefresh, store_refresh, store_access, saved_access, sign_access_token, access_claims,
  signed, generate_token_pair, generate_authorization_code_token_pair, token_data, expects,
}

-- An access token that was signed for the issuance, and stored with its data.
pub record Stands {C G R D : Type 0} (b : Backends C G R D) (env : Env) (g : Issuance)
    (w : World C G R D) (pair : TokenPair) : Type 0 where
  pub token_signed : env.sign (access_claims env g) ≡ some pair.access_token
  pub family : String
  pub stored : HasAccess b.tokens env.digest env.jti (token_data g "access" family) w.tokens

signed-some : (env : Env) (o : Option String) (t : String) → signed env o ≡ finished t → o ≡ some t
signed-some env none t h = absurd (cc)
signed-some env (some t') t h = cc

module _ {C G R D : Type 0} (b : Backends C G R D) (env : Env) where
  saved-After :
      (P : R → Type 0) (w : World C G R D) (token client : String) (r : R × Result Unit)
      → Leaves P r
      → After (λ w' u. P w'.tokens) (saved_access b env w token client r)
  saved-After P w token client (db, ok u) leaves = leaves
  saved-After P w token client (db, err e) leaves = tt

  store_access-After :
      (g : Issuance) (new : NewRefresh) (w : World C G R D)
      → After
          (λ w' u.
            HasAccess b.tokens env.digest env.jti (token_data g "access" new.family) w'.tokens)
          (store_access b env g new w)
  unfolding store_access
  store_access-After g new w =
      let P : R → Type 0 =
        HasAccess b.tokens env.digest env.jti (token_data g "access" new.family) in
      saved-After P w new.token g.client_id _ (
        if_cases (Leaves P) (is_blank new.family)
          (λ _. save_token-Leaves b.tokens env.digest _ env.jti _ _ w.tokens)
          (λ _.
            save_family-Leaves b.tokens env.digest _ env.jti new.family
              (token_data g "access" new.family) _ w.tokens))

  abbrev pub StandsFor : Issuance → World C G R D → TokenPair → Type 0
  StandsFor g w pair = Stands b env g w pair

  pub generate_token_pair-After :
      (g : Issuance) (w : World C G R D) → After (StandsFor g) (generate_token_pair b env g w)
  unfolding generate_token_pair sign_access_token
  generate_token_pair-After g w =
      lift_cases (After (StandsFor g)) (sign_access_token env g) _ w (λ _ _. tt)
        λ access e.
          bind_cases (After (StandsFor g)) (store_refresh b env g) _ w (λ _ _ _. tt)
            λ w1 new _.
              bind_cases (After (StandsFor g)) (store_access b env g new) _ w1 (λ _ _ _. tt)
                λ w2 _ e2. record {
                  token_signed = signed-some env _ access e;
                  family = new.family;
                  stored = rw e2 at (store_access-After g new w1);
                }

-- The grant that a pair was issued for: its client is at the revision `revision`, which is the one
-- expected where one is, and the grant was not revoked.
pub record Granted {C G R D : Type 0} (b : Backends C G R D) (env : Env) (g : Issuance)
    (w w' : World C G R D) (pair : TokenPair) : Type 0 where
  pub revision : ℕ
  pub current : current_client_authorization_revision env 0 g.client_id ≡ finished revision
  pub expected : expects b env g.client_authorization_revision revision ≡ true
  pub stands : Stands b env (record g { client_authorization_revision = revision }) w' pair
  pub not_revoked_before :
      not_revoked b env (token_data (record g { client_authorization_revision = revision }) "" "") w
      ≡ finished tt

not_both : (a c : Bool) → not (a || c) ≡ true → (a ≡ false) × (c ≡ false)
not_both a c h = ground arith

module _ {C G R D : Type 0} (b : Backends C G R D) (env : Env) where
  -- What a validation that finished found, which read the state and left it.
  abbrev Validated : TokenData → World C G R D → World C G R D → Unit {0} → Type 0
  Validated d w w' u = (w' ≡ w) × (not_revoked b env d w ≡ finished tt)

  pub validate_authorization-After :
      (read : ℕ) (d : TokenData) (w : World C G R D)
      → (d.auth_version == 0) ≡ false
      → After (Validated d w) (validate_authorization b env read d w)
  unfolding validate_authorization validate_grant
  validate_authorization-After read d w bound = rw bound (
      require_cases (After (Validated d w)) (has_grant_data b env d) _ _ w (λ _. tt)
        λ _.
          reading_cases (After (Validated d w)) (not_revoked b env d) _ w (λ _ _. tt)
            λ u e.
              lift_cases (After (Validated d w))
                (current_client_authorization_revision env read d.client_id) _ w (λ _ _. tt)
                λ r _. by_test _ e)
    where
      by_test :
          (c : Bool)
          → not_revoked b env d w ≡ finished tt
          → After (Validated d w) (require c invalid_token w)
      by_test true e = (refl, e)
      by_test false e = tt

  pub issue-After :
      (g : Issuance) (w : World C G R D)
      → After
          (λ w' pair. Granted b env g w w' pair)
          (generate_authorization_code_token_pair b env g w)
  unfolding generate_authorization_code_token_pair
  issue-After g w =
      let P : World C G R D × Outcome TokenError TokenPair → Type 0 =
        After (λ w' pair. Granted b env g w w' pair) in
      require_cases P (not (g.auth_version == 0 || g.authorization_issued_at == 0)) _ _ w (λ _. tt)
        λ bound.
          lift_cases P (current_client_authorization_revision env 0 g.client_id) _ w (λ _ _. tt)
            λ revision e.
              require_cases P (expects b env g.client_authorization_revision revision) _ _ w
                (λ _. tt)
                λ as_expected.
                  let current = record g { client_authorization_revision = revision } in
                  let d = token_data current "" "" in
                  let user_bound = not_both _ _ bound in
                  bind_cases P (validate_authorization b env 1 d) _ w (λ _ _ _. tt)
                    λ w1 u e1.
                      let (same, fine) : Validated d w w1 u =
                        rw e1 at (validate_authorization-After 1 d w user_bound.0) in
                      by_pair revision e as_expected fine (generate_token_pair b env current w1)
                        (generate_token_pair-After b env current w1)
    where
      by_pair :
          (revision : ℕ)
          → current_client_authorization_revision env 0 g.client_id ≡ finished revision
          → expects b env g.client_authorization_revision revision ≡ true
          → not_revoked b env
              (token_data (record g { client_authorization_revision = revision }) "" "")
              w
            ≡ finished tt
          → (r : World C G R D × Outcome TokenError TokenPair)
          → After (StandsFor b env (record g { client_authorization_revision = revision })) r
          → After (λ w' pair. Granted b env g w w' pair) r
      by_pair revision e as_expected fine (w', failed why) stands = tt
      by_pair revision e as_expected fine (w', finished pair) stands = record {
        revision = revision;
        current = e;
        expected = as_expected;
        stands = stands;
        not_revoked_before = fine;
      }
