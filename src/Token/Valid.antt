-- ===== src/Token/Valid.antt =====
-- internal/auth/token.go: when ValidateAccessToken accepts a token.
use nyauth.Common.{
  ℕ, ◌≡◌, refl, Bool, true, false, List, [], ◌∷◌, arith, ◌&&◌, ◌==◌, String, str_eq_refl,
  Bool-cases, inl, inr,
}
use nyauth.Auth.ScopeText.{join_scopes}
use nyauth.Common.Text.{Text, codes, text_eq, text_eq_refl}
use nyauth.Refresh.{TokenData, texts_eq, flag_eq}
use nyauth.Token.{IssuanceAuthentication, Claims, Env, Backends, World}
use nyauth.Token.Access.{
  is_access, same_claims, read_metadata, validate_access_token, parse_signed_token,
}
use nyauth.Token.Exec.{finished, ◌>>=◌}
use nyauth.Token.Issue.{
  claims_set, listed_claims, Issuance, access_claims, token_data, claimed_context, claimed_methods,
  claimed_time,
}
use nyauth.Token.Validate.{
  validate_user, validate_access_policy, validate_authorization, validate_grant, has_grant_data,
  not_revoked, current_client_authorization_revision, normalized_client_revision,
}

pub texts_eq_refl : (ss : List String) → texts_eq ss ss ≡ true
texts_eq_refl [] = refl
texts_eq_refl (s ∷ ss) = rw (str_eq_refl s) (texts_eq_refl ss)

pub flag_eq_refl : (f : Bool) → flag_eq f f ≡ true
flag_eq_refl true = refl
flag_eq_refl false = refl

eq_refl : (n : ℕ) → (n == n) ≡ true
eq_refl n = ground arith

-- The claims show the authentication as it is stored.
pub record Shown (now : ℕ) (a : IssuanceAuthentication) : Type 0 where
  pub same_context : claimed_context a ≡ codes a.context
  pub same_methods : claimed_methods a ≡ a.methods
  pub same_time : claimed_time now a ≡ a.auth_time

joined : {a c : Bool} → a ≡ true → c ≡ true → (a && c) ≡ true
joined {a} {c} h k = ground (arith, h, k)

text_same : {s t : Text} → s ≡ t → text_eq t s ≡ true
text_same {s} {t} e = rw e (text_eq_refl t)

texts_same : {s t : List String} → s ≡ t → texts_eq t s ≡ true
texts_same {s} {t} e = rw e (texts_eq_refl t)

number_same : {m n : ℕ} → m ≡ n → (n == m) ≡ true
number_same {m} {n} e = rw e (eq_refl n)

-- Claims of a token agree with the data that is stored with it.
pub claims_agree :
    (env : Env) (g : Issuance) (family : String)
    → Shown env.now g.authentication
    → same_claims (token_data g "access" family) (access_claims env g) ≡ true
unfolding same_claims access_claims
claims_agree env g family shown = joined (str_eq_refl "access") (
    joined (str_eq_refl g.client_id) (
      joined (str_eq_refl g.subject) (
        joined (eq_refl g.auth_version) (
          joined (str_eq_refl (join_scopes g.scopes)) (
            joined (flag_eq_refl (claims_set g.allowed_claims)) (
              joined (texts_eq_refl (listed_claims g.allowed_claims)) (
                joined (text_same shown.same_context)
                  (joined (number_same shown.same_time) (texts_same shown.same_methods)))))))))

module _ {C G R D : Type 0} (b : Backends C G R D) (env' : Env) where
  -- What a later request finds of the grant of an issuance.
  pub record StillValid (g : Issuance) (revision : ℕ) : Type 0 where
    pub user_valid : validate_user env' 0 g.subject g.auth_version ≡ finished tt
    pub named : has_grant_data b env' (token_data g "access" "") ≡ true
    pub revision_is : current_client_authorization_revision env' 0 g.client_id ≡ finished revision
    pub policy_valid : validate_access_policy env' (token_data g "access" "") ≡ finished tt

  -- The steps of ValidateAccessToken, each of which finishes.
  pub validates :
      (w : World C G R D) (token : String) (claims : Claims) (d : TokenData) (revision : ℕ)
      → parse_signed_token env' token ≡ finished claims
      → is_access claims ≡ true
      → read_metadata b env' claims.id w ≡ finished d
      → same_claims d claims ≡ true
      → validate_user env' 0 claims.subject claims.auth_version ≡ finished tt
      → has_grant_data b env' d ≡ true
      → not_revoked b env' d w ≡ finished tt
      → current_client_authorization_revision env' 0 d.client_id ≡ finished revision
      → (normalized_client_revision d.client_authorization_revision == revision) ≡ true
      → validate_access_policy env' d ≡ finished tt
      → validate_access_token b env' token w ≡ (w, finished claims)
  unfolding validate_access_token validate_authorization validate_grant ◌>>=◌
  validates w token claims d revision parsed access metadata same user named unrevoked at_revision
        expected policy =
      rw (parsed, access, metadata, same, user, policy)
        (elim (Bool-cases (d.auth_version == 0)) [
          | inl z ↦ rw z refl
          | inr z ↦ rw (z, named, unrevoked, at_revision, expected) refl
        ])
