-- ===== src/Token/Exchanged.antt =====
-- internal/auth/handler.go: what an authorization code is exchanged for, and by whom.
use nyauth.Common.{
  ℕ, ◌≡◌, refl, subst, Bool, true, false, Option, none, some, if◌then◌else◌, ◌==◌, ◌&&◌, String,
  contains,
}
use nyauth.Auth.Scopes.{scopes_are_subset}
use nyauth.Auth.ScopeText.{join_scopes, parse_and_validate_scopes}
use nyauth.Session.{AuthorizationData, code_key, authorization_value}
use nyauth.Session.Codes.{
  Result, ok, err, not_found, value_mismatch, authorization_code_reuse, consent_user_mismatch,
  invalid_token_data, invalid_ttl, unavailable,
}
use nyauth.Session.Once.{consume-Spends, Spends}
use nyauth.Session.Spent.{Spent}
use nyauth.Token.{
  OauthClient, User, UserAnswer, found_user, no_user, user_unavailable, TokenPair, Form, Env,
  Backends, World,
}
use nyauth.Token.Changes.{issue-Keeps}
use nyauth.Token.CodeGrant.{
  is_some, parsed_or, active_or, issue_error, id_token_error, code_claims, current_claims,
  code_issuance, with_id, code_id_token, reject_authorization_code_reuse, consumed_reply,
  consume_code, issue_for_code, exchange_code,
}
use nyauth.Token.Exec.{
  Outcome, finished, failed, give, lift, ◌>>=◌, with_error, relabel, bind_cases, lift_cases,
  require_cases, After, with_error-finished,
}
use nyauth.Token.Issue.{generate_authorization_code_token_pair}
use nyauth.Token.Issued.{Granted, issue-After}
use nyauth.Token.Replies.{Refusal}
use nyauth.Token.Validate.{is_active}

-- The tests on a user that is active with the version of the record.
pub record ActiveUser (env : Env) (subject : String) (version : ℕ) : Type 0 where
  pub id : String
  pub user : User
  pub parsed : env.parse_uuid subject ≡ some id
  pub found : env.get_user 0 id ≡ found_user user
  pub active : is_active user ≡ true
  pub same_version : (user.auth_version == version) ≡ true

pub parsed_some :
    (e : Refusal) (o : Option String) (id : String) → parsed_or e o ≡ finished id → o ≡ some id
parsed_some e none id h = absurd (cc)
parsed_some e (some id') id h = cc

module _ (env : Env) where
  pub active-ActiveUser :
      (e : Refusal) (subject id : String) (version : ℕ) (u : User)
      → env.parse_uuid subject ≡ some id
      → active_or e version (env.get_user 0 id) ≡ finished u
      → ActiveUser env subject version
  active-ActiveUser e subject id version u parsed h = by_answer (env.get_user 0 id) refl h
    where
      tests :
          (a c : Bool) (u' : User)
          → (if a && c then finished u' else failed e) ≡ finished u
          → (a ≡ true) × (c ≡ true)
      tests true true u' k = (refl, refl)
      tests true false u' k = absurd (cc)
      tests false c u' k = absurd (cc)

      by_answer :
          (a : UserAnswer)
          → env.get_user 0 id ≡ a
          → active_or e version a ≡ finished u
          → ActiveUser env subject version
      by_answer no_user same k = absurd (cc)
      by_answer user_unavailable same k = absurd (cc)
      by_answer (found_user u') same k =
          let (active, version') = tests (is_active u') (u'.auth_version == version) u' k in
          record {
            id = id;
            user = u';
            parsed = parsed;
            found = same;
            active = active;
            same_version = version';
          }

module _ {C G R D : Type 0} (b : Backends C G R D) (env : Env) (form : Form) where
  -- The code is live before and spent after, its scopes and claims are allowed now, its user is active,
  -- and the pair stands for the issuance that the record describes.
  pub record Exchange (cl : OauthClient) (d : AuthorizationData) (w w' : World C G R D)
      (pair : TokenPair) : Type 0 where
    pub scopes_allowed : is_some (parse_and_validate_scopes (join_scopes d.scopes) cl.scopes) ≡ true
    pub claims_allowed :
        scopes_are_subset (code_claims env d) (current_claims env cl d.scopes) ≡ true
    pub active : ActiveUser env d.user_id d.auth_version
    pub consumed : AuthorizationData
    pub same_version : consumed.record_version ≡ d.record_version
    pub was_live :
        b.codes.get (code_key (env.digest form.code)) w.codes ≡ some (authorization_value consumed)
    pub spent : Spent b.codes env.digest (env.digest form.code) consumed w'.codes
    pub access : TokenPair
    pub issued : Granted b env (code_issuance env cl d) (record w { codes = w'.codes }) w' access
    pub pair_is : pair.access_token ≡ access.access_token

  -- The handler's state when it issued the tokens: only the codes have changed.
  at_issue :
      (w w1 w2 : World C G R D)
      → w1 ≡ record w { codes = w1.codes }
      → w2.codes ≡ w1.codes
      → w1 ≡ record w { codes = w2.codes }
  at_issue w w1 w2 alone kept = rw kept alone

  -- The code was consumed as this record.
  abbrev ConsumedAs : AuthorizationData → World C G R D → World C G R D → AuthorizationData → Type 0
  ConsumedAs d w w' d' =
      Spent b.codes env.digest (env.digest form.code) d' w'.codes
      × (d'.record_version ≡ d.record_version)
      × (b.codes.get (code_key (env.digest form.code)) w.codes ≡ some (authorization_value d'))

  abbrev Consumed : AuthorizationData → World C G R D → World C G R D → Unit {0} → Type 0
  Consumed d w w' u =
      (w' ≡ record w { codes = w'.codes }) × ((d' : AuthorizationData) × ConsumedAs d w w' d')

  Consumed-After :
      (cl : OauthClient) (d : AuthorizationData) (w : World C G R D)
      (r : C × Result AuthorizationData)
      → Spends
          (λ c d'.
            Spent b.codes env.digest (env.digest form.code) d' c
            × (d'.record_version ≡ d.record_version)
            × (b.codes.get (code_key (env.digest form.code)) w.codes
                ≡ some (authorization_value d')))
          r
      → After (Consumed d w) (consumed_reply b env cl d r.1 (record w { codes = r.0 }))
  unfolding reject_authorization_code_reuse
  Consumed-After cl d w (c, ok d') spends = (refl, (d', spends))
  Consumed-After cl d w (c, err authorization_code_reuse) spends = tt
  Consumed-After cl d w (c, err not_found) spends = tt
  Consumed-After cl d w (c, err value_mismatch) spends = tt
  Consumed-After cl d w (c, err consent_user_mismatch) spends = tt
  Consumed-After cl d w (c, err invalid_token_data) spends = tt
  Consumed-After cl d w (c, err invalid_ttl) spends = tt
  Consumed-After cl d w (c, err unavailable) spends = tt

  consume_code-After :
      (cl : OauthClient) (d : AuthorizationData) (w : World C G R D)
      → After (Consumed d w) (consume_code b env form cl d w)
  unfolding consume_code
  consume_code-After cl d w = Consumed-After cl d w _ (
      consume-Spends b.codes env.digest env.networks.consume_code form.code d.record_version
        env.code_retention w.codes)

  -- What issue_for_code leaves, with the codes as they were.
  abbrev IssuedFor :
      OauthClient → AuthorizationData → World C G R D → World C G R D → TokenPair → Type 0
  IssuedFor cl d w w' pair =
      (w'.codes ≡ w.codes)
      × ((access : TokenPair) × Granted b env (code_issuance env cl d) w w' access
          × (pair.access_token ≡ access.access_token))

  finish-After :
      (cl : OauthClient) (d : AuthorizationData) (u : User) (w w1 : World C G R D)
      (pair : TokenPair)
      → IssuedFor cl d w w1 pair
      → (c : Bool) (o : Outcome Refusal String)
      → After
          (IssuedFor cl d w)
          (((if c then lift o else give "") >>= λ id_token. give (with_id env pair id_token)) w1)
  unfolding ◌>>=◌
  finish-After cl d u w w1 pair issued true (finished id) = issued
  finish-After cl d u w w1 pair issued true (failed e) = tt
  finish-After cl d u w w1 pair issued false o = issued

  issue_for_code-After :
      (cl : OauthClient) (d : AuthorizationData) (u : User) (w : World C G R D)
      → After (IssuedFor cl d w) (issue_for_code b env cl d u w)
  unfolding issue_for_code
  issue_for_code-After cl d u w =
      let g = code_issuance env cl d in
      bind_cases (After (IssuedFor cl d w))
        (with_error (issue_error cl.id "invalid_grant")
          (generate_authorization_code_token_pair b env g))
        _ w (λ _ _ _. tt)
        λ w1 pair e.
          let e' =
            with_error-finished _ (generate_authorization_code_token_pair b env g) w w1 pair e in
          let granted : Granted b env g w w1 pair = rw e' at (issue-After b env g w) in
          let kept : w1.codes ≡ w.codes =
            rw e' at (issue-Keeps b env {P = λ v. v.codes ≡ w.codes} (λ _ _ p. p) g w refl) in
          finish-After cl d u w w1 pair (kept, (pair, granted, refl)) (contains d.scopes "openid")
            (relabel (id_token_error cl.id) (code_id_token env cl d u))

  pub exchange_code-After :
      (cl : OauthClient) (d : AuthorizationData) (w : World C G R D)
      → After (Exchange cl d w) (exchange_code b env form cl d w)
  unfolding exchange_code
  exchange_code-After cl d w =
      let P : World C G R D × Outcome Refusal TokenPair → Type 0 = After (Exchange cl d w) in
      require_cases P _ _ _ w (λ _. tt)
        λ scopes_fine.
          require_cases P _ _ _ w (λ _. tt)
            λ claims_fine.
              lift_cases P _ _ w (λ _ _. tt)
                λ id parsed.
                  lift_cases P _ _ w (λ _ _. tt)
                    λ u found.
                      bind_cases P (consume_code b env form cl d) _ w (λ _ _ _. tt)
                        λ w1 unit e.
                          let consumed : Consumed d w w1 unit =
                            rw e at (consume_code-After cl d w) in
                          by_pair w1 unit scopes_fine claims_fine
                            (active-ActiveUser env _ d.user_id id d.auth_version u
                              (parsed_some _ _ id parsed) found)
                            consumed (issue_for_code b env cl d u w1)
                            (issue_for_code-After cl d u w1)
    where
      by_pair :
          (w1 : World C G R D) (unit : Unit {0})
          → is_some (parse_and_validate_scopes (join_scopes d.scopes) cl.scopes) ≡ true
          → scopes_are_subset (code_claims env d) (current_claims env cl d.scopes) ≡ true
          → ActiveUser env d.user_id d.auth_version
          → Consumed d w w1 unit
          → (r : World C G R D × Outcome Refusal TokenPair) → After (IssuedFor cl d w1) r
          → After (Exchange cl d w) r
      by_pair w1 unit scopes_fine claims_fine active consumed (w2, failed e) issued = tt
      by_pair w1 unit scopes_fine claims_fine active (alone, (d', (spent, version, was)))
            (w2, finished pair) (kept, (access, granted, same)) =
          record {
            scopes_allowed = scopes_fine;
            claims_allowed = claims_fine;
            active = active;
            consumed = d';
            same_version = version;
            was_live = was;
            spent = rw kept spent;
            access = access;
            issued =
                subst (λ v. Granted b env (code_issuance env cl d) v w2 access)
                  (at_issue w w1 w2 alone kept) granted;
            pair_is = same;
          }
