-- ===== src/Token/Changes.antt =====
-- internal/auth/token.go: the stores that issuing a pair leaves as they are.
use nyauth.Common.{ℕ, Option, none, some, ◌==◌, String}
use nyauth.Refresh.{TokenData}
use nyauth.Refresh.Store.{Result, ok, err}
use nyauth.Token.{Env, Backends, World}
use nyauth.Token.Keeps.{Keeps, bind-Keeps, lift-Keeps, reading-Keeps, require-Keeps, if-Keeps}
use nyauth.Token.Validate.{
  validate_authorization, validate_grant, has_grant_data, not_revoked,
  current_client_authorization_revision,
}
use nyauth.Token.Issue.{
  Issuance, NewRefresh, store_refresh, store_access, saved_refresh, saved_access, save_drawn,
  sign_access_token, generate_token_pair, generate_authorization_code_token_pair, token_data,
}

module _ {κ} {C G R D : Type 0} (b : Backends C G R D) (env : Env) {P : World C G R D → Type κ}
    (blind : (w : World C G R D) (r : R) → P w → P (record w { tokens = r })) where
  saved_keep :
      (w : World C G R D) (token family : String) (r : R × Result Unit)
      → P w
      → P (saved_refresh b env w token family r).0
  saved_keep w token family (db, ok u) p = blind w db p
  saved_keep w token family (db, err e) p = blind w db p

  accessed_keep :
      (w : World C G R D) (token client : String) (r : R × Result Unit)
      → P w
      → P (saved_access b env w token client r).0
  accessed_keep w token client (db, ok u) p = blind w db p
  accessed_keep w token client (db, err e) p = blind w _ p

  drawn_keep : (g : Issuance) (token : Option String) → Keeps P (save_drawn b env g token)
  drawn_keep g none w p = p
  drawn_keep g (some token) w p = saved_keep w token _ _ p

  store_refresh-Keeps : (g : Issuance) → Keeps P (store_refresh b env g)
  unfolding store_refresh
  store_refresh-Keeps g = if-Keeps g.issue_refresh _ _ (drawn_keep g env.refresh_secret) (λ w p. p)

  store_access-Keeps : (g : Issuance) (new : NewRefresh) → Keeps P (store_access b env g new)
  unfolding store_access
  store_access-Keeps g new w p = accessed_keep w new.token g.client_id _ p

  pub generate_token_pair-Keeps : (g : Issuance) → Keeps P (generate_token_pair b env g)
  unfolding generate_token_pair
  generate_token_pair-Keeps g = lift-Keeps (sign_access_token env g) _ λ access.
      bind-Keeps (store_refresh b env g) _ (store_refresh-Keeps g)
        λ new. bind-Keeps (store_access b env g new) _ (store_access-Keeps g new) λ _ w p. p

module _ {κ} {C G R D : Type 0} (b : Backends C G R D) (env : Env)
    (P : World C G R D → Type κ) where
  pub validate_authorization-Keeps :
      (read : ℕ) (d : TokenData) → Keeps P (validate_authorization b env read d)
  unfolding validate_authorization validate_grant
  validate_authorization-Keeps read d =
      if-Keeps (d.auth_version == 0) _ _ (λ w p. p)
        (require-Keeps (has_grant_data b env d) _ _ (
          reading-Keeps (not_revoked b env d) _ λ _.
            lift-Keeps (current_client_authorization_revision env read d.client_id) _
              λ revision. λ w p. p))

module _ {κ} {C G R D : Type 0} (b : Backends C G R D) (env : Env) {P : World C G R D → Type κ}
    (blind : (w : World C G R D) (r : R) → P w → P (record w { tokens = r })) where
  -- What depends on no token is as it was after a pair was issued, and after issuing one failed.
  pub issue-Keeps : (g : Issuance) → Keeps P (generate_authorization_code_token_pair b env g)
  unfolding generate_authorization_code_token_pair
  issue-Keeps g = require-Keeps _ _ _ (
      lift-Keeps (current_client_authorization_revision env 0 g.client_id) _ λ revision.
        require-Keeps _ _ _ (
          let current = record g { client_authorization_revision = revision } in
          bind-Keeps (validate_authorization b env 1 (token_data current "" "")) _
            (validate_authorization-Keeps b env P 1 (token_data current "" ""))
            λ _. generate_token_pair-Keeps b env blind current))
