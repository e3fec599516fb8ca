-- ===== src/Token/Disclosed.antt =====
-- internal/auth/handler.go: to whom Introspect shows a token.
use nyauth.Common.{
  ◌≡◌, refl, ap, true, false, List, none, some, ◌&&◌, String, str_eq, str_eq_iff, Bool-cases, inl,
  inr,
}
use nyauth.Auth.Scopes.{scopes_are_subset}
use nyauth.Refresh.{TokenData}
use nyauth.Refresh.Store.{Result, ok, err}
use nyauth.Refresh.Tokens.{get_refresh_token}
use nyauth.Token.{Claims, Form, Env, Backends, World}
use nyauth.Token.Access.{single, first_or_blank, validate_access_token}
use nyauth.Token.Clients.{Authenticated, authenticate_token_client}
use nyauth.Token.Exec.{
  Outcome, finished, failed, After, reading_cases, require_cases, lift_cases, bind_cases,
}
use nyauth.Token.Inspect.{
  Introspection, inactive, active_access, active_refresh, refresh_data, or_inactive,
  introspect_refresh, introspect_validated, introspect_token_for_client, introspect_for, introspect,
}
use nyauth.Token.Redeemed.{both}
use nyauth.Token.Validate.{
  TokenError, validate_user, validate_access_policy, validate_authorization,
}

stored_data : (r : Result TokenData) (d : TokenData) → refresh_data r ≡ finished d → r ≡ ok d
stored_data (ok d') d h = cc
stored_data (err e) d h = absurd (cc)

module _ {C G R D : Type 0} (b : Backends C G R D) (env : Env) (token : String) where
  -- A refresh token of a client that is in use.
  pub record OwnRefresh (client_id : String) (allowed : List String) (w : World C G R D)
      (d : TokenData) : Type 0 where
    pub stored :
        get_refresh_token b.tokens env.digest env.networks.read_refresh token w.tokens ≡ ok d
    pub same_client : d.client_id ≡ client_id
    pub refresh_use : d.token_use ≡ "refresh"
    pub within : scopes_are_subset d.scopes allowed ≡ true
    pub user_valid : validate_user env 1 d.user_id d.auth_version ≡ finished tt
    pub authorized : (validate_authorization b env 1 d w).1 ≡ finished tt
    pub policy_valid : validate_access_policy env d ≡ finished tt

  -- An access token of a client that validates.
  pub record OwnAccess (client_id : String) (w : World C G R D) (c : Claims) : Type 0 where
    pub validated : (validate_access_token b env token w).1 ≡ finished c
    pub one_audience : single c.audience ≡ true
    pub same_audience : first_or_blank c.audience ≡ client_id

  unfoldable pub OwnToken : String → List String → World C G R D → Introspection → Type 0
  OwnToken client_id allowed w inactive = Unit
  OwnToken client_id allowed w (active_access c) = OwnAccess client_id w c
  OwnToken client_id allowed w (active_refresh d) = OwnRefresh client_id allowed w d

  introspect_refresh-OwnRefresh :
      (client_id : String) (allowed : List String) (w : World C G R D)
      → After
          (λ _ d. OwnRefresh client_id allowed w d)
          (introspect_refresh b env token client_id allowed w)
  unfolding introspect_refresh
  introspect_refresh-OwnRefresh client_id allowed w =
      let P : World C G R D × Outcome TokenError TokenData → Type 0 =
        After (λ _ d. OwnRefresh client_id allowed w d) in
      reading_cases P _ _ w (λ _ _. tt)
        λ d found.
          require_cases P _ _ _ w (λ _. tt)
            λ own.
              lift_cases P _ _ w (λ _ _. tt)
                λ u user.
                  bind_cases P _ _ w (λ _ _ _. tt)
                    λ w' v authorized.
                      lift_cases P _ _ w' (λ _ _. tt)
                        λ v' policy.
                          let (client, rest) = both _ _ own in
                          let (use', within) = both _ _ rest in
                          record {
                            stored = stored_data _ d found;
                            same_client = (str_eq_iff _ _).0 client;
                            refresh_use = (str_eq_iff _ _).0 use';
                            within = within;
                            user_valid = user;
                            authorized =
                                ap (λ (p : World C G R D × Outcome TokenError Unit). p.1)
                                  authorized;
                            policy_valid = policy;
                          }

  refresh_shown :
      (client_id : String) (allowed : List String) (w : World C G R D)
      → OwnToken client_id allowed w
          (or_inactive (introspect_refresh b env token client_id allowed w).1)
  unfolding OwnToken
  refresh_shown client_id allowed w =
      by_outcome (introspect_refresh b env token client_id allowed w)
        (introspect_refresh-OwnRefresh client_id allowed w)
    where
      by_outcome :
          (r : World C G R D × Outcome TokenError TokenData)
          → After (λ _ d. OwnRefresh client_id allowed w d) r
          → OwnToken client_id allowed w (or_inactive r.1)
      by_outcome (w', finished d) own = own
      by_outcome (w', failed e) own = tt

  token_shown :
      (client_id : String) (allowed : List String) (w : World C G R D)
      → OwnToken client_id allowed w (introspect_token_for_client b env token client_id allowed w)
  unfolding introspect_token_for_client OwnToken
  token_shown client_id allowed w = by_claims (validate_access_token b env token w).1 refl
    where
      by_claims :
          (o : Outcome TokenError Claims)
          → (validate_access_token b env token w).1 ≡ o
          → OwnToken client_id allowed w (introspect_validated b env token client_id allowed w o)
      by_claims (failed e) validated = refresh_shown client_id allowed w
      by_claims (finished c) validated =
          elim (Bool-cases (single c.audience && str_eq (first_or_blank c.audience) client_id)) [
            | inl own ↦ rw own (
                let (one, same) = both _ _ own in
                record {
                  validated = validated;
                  one_audience = one;
                  same_audience = (str_eq_iff _ _).0 same;
                })
            | inr foreign ↦ rw foreign (refresh_shown client_id allowed w)
          ]

-- The request proved to be a confidential client, and the token that is shown is its own.
pub record OwnIntrospection {C G R D : Type 0} (b : Backends C G R D) (env : Env) (form : Form)
    (w : World C G R D) (shown : Introspection) : Type 0 where
  pub who : Authenticated
  pub authenticated : authenticate_token_client env form "" false ≡ finished who
  pub confidential : who.client.is_public ≡ false
  pub own : OwnToken b env form.token who.client.id who.client.scopes w shown

-- Introspect answers a request with a form. Then the request authenticated as a client that is not
-- public, and what it is shown is that the token is inactive, or an access token that validates and
-- has this client as its one audience, or the stored data of a refresh token of this client, with
-- scopes that it may still have, whose user, grant and access policy are valid.
pub introspected_own_token :
    {C G R D : Type 0} (b : Backends C G R D) (env : Env) (form : Form) (w : World C G R D)
    (shown : Introspection)
    → introspect b env (some form) w ≡ some shown
    → OwnIntrospection b env form w shown
unfolding introspect
introspected_own_token {C} {G} {R} {D} b env form w shown h =
    by_client (authenticate_token_client env form "" false) refl h
  where
    by_client :
        (o : Outcome Unit Authenticated)
        → authenticate_token_client env form "" false ≡ o
        → introspect_for b env form o w ≡ some shown
        → OwnIntrospection b env form w shown
    by_client (failed u) e k = absurd (cc)
    by_client (finished who) e k = elim (Bool-cases who.client.is_public) [
      | inl open_client ↦ let no_reply : none ≡ some shown = rw open_client at k in absurd (cc)
      | inr secret ↦
          let same : some
                (introspect_token_for_client b env form.token who.client.id who.client.scopes w)
              ≡ some shown =
            rw secret at k in
          let same' : introspect_token_for_client b env form.token who.client.id who.client.scopes w
              ≡ shown =
            cc in
          record {
            who = who;
            authenticated = e;
            confidential = secret;
            own = rw same' at (token_shown b env form.token who.client.id who.client.scopes w);
          }
    ]
