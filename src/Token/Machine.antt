-- ===== src/Token/Machine.antt =====
-- internal/auth/handler.go: what the client_credentials grant gives, and to whom.
use nyauth.Common.{
  ◌≡◌, refl, sym, ap, Bool, true, false, List, Option, none, some, arith, not, String, contains,
  if_cases,
}
use nyauth.Auth.Scopes.{all_in, without_scope}
use nyauth.Auth.ScopeText.{join_scopes, parse_and_validate_scopes}
use nyauth.Token.{OauthClient, TokenPair, Form, Env, Backends, World}
use nyauth.Token.Clients.{Authenticated, authenticate_token_client, has_grant, is_blank}
use nyauth.Token.Exec.{
  Outcome, finished, failed, give, bind_cases, lift_cases, require_cases, After, relabel,
}
use nyauth.Token.Grants.{scopes_or, asked_or_all, handle_client_credentials_grant}
use nyauth.Token.Issue.{
  Issuance, NewRefresh, sign_access_token, store_refresh, store_access, generate_token_pair,
  generate_client_token_pair, machine_issuance,
}
use nyauth.Token.Issued.{Stands, StandsFor, generate_token_pair-After}
use nyauth.Token.Redeemed.{client_finished}
use nyauth.Token.Replies.{Refusal, refusal}
use nyauth.Token.Validate.{TokenError}
use nyauth.Token.Allowed.{parsed_in, own_in, without_in}
use nyauth.Token.Confidential.{Confidential, authenticate-Confidential}

module _ {C G R D : Type 0} (b : Backends C G R D) (env : Env) where
  -- A pair for a machine: an access token for these scopes, and nothing else.
  abbrev OnlyAccess : List String → World C G R D → TokenPair → Type 0
  OnlyAccess scopes w pair =
      (pair.scope ≡ join_scopes scopes) × (pair.refresh_token ≡ "") × (pair.id_token ≡ "")

  no_refresh :
      (g : Issuance) (w w' : World C G R D) (new : NewRefresh)
      → g.issue_refresh ≡ false
      → store_refresh b env g w ≡ (w', finished new)
      → "" ≡ new.token
  unfolding store_refresh
  no_refresh g w w' new none_asked h =
      let given : give (record { token = ""; family = "" }) w ≡ (w', finished new) =
        rw none_asked at h in
      let same : finished (record { token = ""; family = "" }) ≡ finished new =
        ap (λ (r : World C G R D × Outcome TokenError NewRefresh). r.1) given in
      by_record new (cc)
    where
      by_record : (n : NewRefresh) → record { token = ""; family = "" } ≡ n → "" ≡ n.token
      by_record n e = ap (λ (r : NewRefresh). r.token) e

  generate-OnlyAccess :
      (client_id : String) (scopes : List String) (w : World C G R D)
      → After (OnlyAccess scopes) (generate_client_token_pair b env client_id scopes w)
  unfolding generate_client_token_pair generate_token_pair
  generate-OnlyAccess client_id scopes w =
      let P : World C G R D × Outcome TokenError TokenPair → Type 0 = After (OnlyAccess scopes) in
      let g = machine_issuance b env client_id scopes in
      lift_cases P (sign_access_token env g) _ w (λ _ _. tt)
        λ access _.
          bind_cases P (store_refresh b env g) _ w (λ _ _ _. tt)
            λ w1 new e.
              bind_cases P (store_access b env g new) _ w1 (λ _ _ _. tt)
                λ w2 u _. (refl, sym (no_refresh g w w1 new refl e), refl)

  generate_client-Stands :
      (client_id : String) (scopes : List String) (w : World C G R D)
      → After
          (StandsFor b env (machine_issuance b env client_id scopes))
          (generate_client_token_pair b env client_id scopes w)
  unfolding generate_client_token_pair
  generate_client-Stands client_id scopes w =
      generate_token_pair-After b env (machine_issuance b env client_id scopes) w

  -- The client, the scopes of the pair, and the access token that was signed and stored for them.
  pub record MachineGrant (form : Form) (w w' : World C G R D) (pair : TokenPair) : Type 0 where
    pub who : Authenticated
    pub confidential : Confidential env form "" who
    pub not_public : who.client.is_public ≡ false
    pub may : has_grant who.client "client_credentials" ≡ true
    pub asked : List String
    pub parsed : parse_and_validate_scopes form.scope who.client.scopes ≡ some asked
    pub scopes : List String
    pub scopes_are : scopes ≡ without_scope (asked_or_all form who.client asked) "offline_access"
    pub issued : Stands b env (machine_issuance b env who.client.id scopes) w' pair
    pub scope_is : pair.scope ≡ join_scopes scopes
    pub scopes_allowed : all_in who.client.scopes scopes ≡ true
    pub not_offline : contains scopes "offline_access" ≡ false
    pub no_refresh_token : pair.refresh_token ≡ ""
    pub no_id_token : pair.id_token ≡ ""

  asked_in :
      (form : Form) (cl : OauthClient) (asked : List String) (e : Refusal)
      → scopes_or e (parse_and_validate_scopes form.scope cl.scopes) ≡ finished asked
      → (all_in cl.scopes (asked_or_all form cl asked) ≡ true)
        × (parse_and_validate_scopes form.scope cl.scopes ≡ some asked)
  asked_in form cl asked e h = (
    if_cases (λ (l : List String). all_in cl.scopes l ≡ true) (is_blank form.scope) {x = cl.scopes}
        {y = asked} (λ _. own_in cl.scopes)
        (λ _. parsed_in form.scope cl.scopes asked (by_parse _ h)),
    by_parse _ h,
  )
    where
      by_parse : (o : Option (List String)) → scopes_or e o ≡ finished asked → o ≡ some asked
      by_parse none k = absurd (cc)
      by_parse (some ss) k = cc

  handle-MachineGrant :
      (form : Form) (w : World C G R D)
      → After (MachineGrant form w) (handle_client_credentials_grant b env form w)
  unfolding handle_client_credentials_grant
  handle-MachineGrant form w =
      let P : World C G R D × Outcome Refusal TokenPair → Type 0 = After (MachineGrant form w) in
      lift_cases P _ _ w (λ _ _. tt)
        λ who e.
          require_cases P (not who.client.is_public) _ _ w (λ _. tt)
            λ confidential.
              require_cases P (has_grant who.client "client_credentials") _ _ w (λ _. tt)
                λ may.
                  lift_cases P _ _ w (λ _ _. tt)
                    λ asked parsed.
                      let scopes =
                        without_scope (asked_or_all form who.client asked) "offline_access" in
                      by_pair who (client_finished _ _ who e) (flipped _ confidential) may asked
                        (asked_in form who.client asked _ parsed)
                        (generate_client_token_pair b env who.client.id scopes w)
                        (generate-OnlyAccess who.client.id scopes w)
                        (generate_client-Stands who.client.id scopes w)
    where
      flipped : (t : Bool) → not t ≡ true → t ≡ false
      flipped t k = ground arith

      by_pair :
          (who : Authenticated)
          → authenticate_token_client env form "" false ≡ finished who
          → who.client.is_public ≡ false
          → has_grant who.client "client_credentials" ≡ true
          → (asked : List String)
          → (all_in who.client.scopes (asked_or_all form who.client asked) ≡ true)
            × (parse_and_validate_scopes form.scope who.client.scopes ≡ some asked)
          → (r : World C G R D × Outcome TokenError TokenPair)
          → After
              (OnlyAccess (without_scope (asked_or_all form who.client asked) "offline_access"))
              r
          → After
              (StandsFor b env (
                machine_issuance b env who.client.id
                  (without_scope (asked_or_all form who.client asked) "offline_access")))
              r
          → After (MachineGrant form w) (
            r.0,
            relabel
                (λ e. refusal who.client.id "high" "token_issuance_failed" 500 "server_error")
                r.1,
          )
      by_pair who e confidential may asked inside (w', failed why) h stands = tt
      by_pair who e confidential may asked (inside, parsed) (w', finished pair) (scope, refresh, id)
            stands =
          let all = asked_or_all form who.client asked in
          let (fine, absent) = without_in who.client.scopes all "offline_access" inside in
          record {
            who = who;
            confidential = authenticate-Confidential env form who "" e;
            not_public = confidential;
            may = may;
            asked = asked;
            parsed = parsed;
            scopes = without_scope all "offline_access";
            scopes_are = refl;
            issued = stands;
            scope_is = scope;
            scopes_allowed = fine;
            not_offline = absent;
            no_refresh_token = refresh;
            no_id_token = id;
          }

-- handleClientCredentialsGrant granted a pair of tokens. Then the client stands in the table, is not
-- public, proved with the secret of the request that it is the client that this names, and has this
-- grant; the scopes are the ones that the request asks for, or all the client's where it asks for
-- none, without offline_access; they are all the client's; the access token was signed and stored
-- for the client with these scopes, and the reply shows them; and there is neither a refresh token
-- nor an ID token.
pub machine_grant :
    {C G R D : Type 0} (b : Backends C G R D) (env : Env) (form : Form) (w : World C G R D)
    {w' : World C G R D} {pair : TokenPair}
    → handle_client_credentials_grant b env form w ≡ (w', finished pair)
    → MachineGrant b env form w w' pair
machine_grant b env form w e = rw e at (handle-MachineGrant b env form w)
