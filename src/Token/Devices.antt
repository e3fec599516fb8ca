-- ===== src/Token/Devices.antt =====
-- internal/auth/device_authorization.go: what an approved device authorization is exchanged for.
use nyauth.Common.{
  ◌≡◌, refl, ap, sym, subst, ◌∙◌, Bool, true, false, if◌then◌else◌, String, contains,
}
use nyauth.Auth.Scopes.{scopes_are_subset}
use nyauth.Auth.ScopeText.{join_scopes, parse_and_validate_scopes}
use nyauth.Device.{Record}
use nyauth.Device.Store.{Result, ok, err}
use nyauth.Device.Decisions.{consume_approved}
use nyauth.Token.{OauthClient, User, TokenPair, Env, Backends, World}
use nyauth.Token.Changes.{issue-Keeps}
use nyauth.Token.CodeGrant.{is_some, issue_error, id_token_error, with_id, current_claims}
use nyauth.Token.Exchanged.{ActiveUser, active-ActiveUser, parsed_some}
use nyauth.Token.Exec.{
  Outcome, finished, failed, give, lift, ◌>>=◌, bind_cases, lift_cases, require_cases, After,
  with_error, with_error-finished, relabel,
}
use nyauth.Token.Grants.{
  same_client_revisions, device_issuance, consumed_world, consume_device, device_id_token,
  issue_for_device, exchange_device,
}
use nyauth.Token.Issue.{generate_authorization_code_token_pair}
use nyauth.Token.Issued.{Granted, issue-After}
use nyauth.Token.Replies.{Refusal, refusal}

module _ {C G R D : Type 0} (b : Backends C G R D) (env : Env) where
  -- The record's scopes and claims are allowed now, its user is active, and it was consumed.
  pub record DeviceExchange (cl : OauthClient) (r : Record) (w w' : World C G R D)
      (pair : TokenPair) : Type 0 where
    pub same_revisions : same_client_revisions cl r ≡ true
    pub scopes_allowed :
        is_some (parse_and_validate_scopes (join_scopes r.granted_scopes) cl.scopes) ≡ true
    pub claims_allowed :
        scopes_are_subset r.allowed_claims (current_claims env cl r.granted_scopes) ≡ true
    pub active : ActiveUser env r.user_id r.auth_version
    pub consumed :
        consume_approved b.devices env.networks.consume_device r w.devices ≡ (w'.devices, ok tt)
    pub access : TokenPair
    pub issued : Granted b env (device_issuance cl r) (record w { devices = w'.devices }) w' access
    pub pair_is : pair.access_token ≡ access.access_token

  -- The handler's state when it issued the tokens: only the devices have changed.
  at_issue :
      (w w1 w2 : World C G R D)
      → w1 ≡ record w { devices = w1.devices }
      → w2.devices ≡ w1.devices
      → w1 ≡ record w { devices = w2.devices }
  at_issue w w1 w2 alone kept = rw kept alone

  consumed_finished :
      (e : Refusal) (w w' : World C G R D) (r : D × Result Unit) (u : Unit {0})
      → consumed_world b env e w r ≡ (w', finished u)
      → (r ≡ (w'.devices, ok tt)) × (w' ≡ record w { devices = w'.devices })
  consumed_finished e w w' (db, ok v) u h =
      let same : record w { devices = db } ≡ w' =
        ap (λ (s : World C G R D × Outcome Refusal Unit). s.0) h in
      let same_db : db ≡ w'.devices = ap (λ (s : World C G R D). s.devices) same in
      (
        ap (λ (d : D). (d, ok tt)) same_db,
        sym same ∙ ap (λ (d : D). record w { devices = d }) same_db,
      )
  consumed_finished e w w' (db, err cause) u h =
      let wrong : failed e ≡ finished u =
        ap (λ (s : World C G R D × Outcome Refusal Unit). s.1) h in
      absurd (cc)

  consume_device-finished :
      (cl : OauthClient) (r : Record) (w w' : World C G R D) (u : Unit {0})
      → consume_device b env cl r w ≡ (w', finished u)
      → (consume_approved b.devices env.networks.consume_device r w.devices ≡ (w'.devices, ok tt))
        × (w' ≡ record w { devices = w'.devices })
  unfolding consume_device
  consume_device-finished cl r w w' u h =
      consumed_finished (refusal cl.id "high" "expired_token" 400 "expired_token") w w' _ u h

  abbrev DeviceIssued : OauthClient → Record → World C G R D → World C G R D → TokenPair → Type 0
  DeviceIssued cl r w w' pair =
      (w'.devices ≡ w.devices)
      × ((access : TokenPair) × Granted b env (device_issuance cl r) w w' access
          × (pair.access_token ≡ access.access_token))

  finish-After :
      (cl : OauthClient) (r : Record) (w w1 : World C G R D) (pair : TokenPair)
      → DeviceIssued cl r w w1 pair
      → (c : Bool) (o : Outcome Refusal String)
      → After
          (DeviceIssued cl r w)
          (((if c then lift o else give "") >>= λ id_token. give (with_id env pair id_token)) w1)
  unfolding ◌>>=◌
  finish-After cl r w w1 pair issued true (finished id) = issued
  finish-After cl r w w1 pair issued true (failed e) = tt
  finish-After cl r w w1 pair issued false o = issued

  issue_for_device-After :
      (cl : OauthClient) (r : Record) (u : User) (w : World C G R D)
      → After (DeviceIssued cl r w) (issue_for_device b env cl r u w)
  unfolding issue_for_device
  issue_for_device-After cl r u w =
      let g = device_issuance cl r in
      bind_cases (After (DeviceIssued cl r w))
        (with_error (issue_error cl.id "expired_token")
          (generate_authorization_code_token_pair b env g))
        _ w (λ _ _ _. tt)
        λ w1 pair e.
          let e' =
            with_error-finished _ (generate_authorization_code_token_pair b env g) w w1 pair e in
          let granted : Granted b env g w w1 pair = rw e' at (issue-After b env g w) in
          let kept : w1.devices ≡ w.devices =
            rw e' at (issue-Keeps b env {P = λ v. v.devices ≡ w.devices} (λ _ _ p. p) g w refl) in
          finish-After cl r w w1 pair (kept, (pair, granted, refl))
            (contains r.granted_scopes "openid")
            (relabel (id_token_error cl.id) (device_id_token b env cl r u))

  pub exchange_device-After :
      (cl : OauthClient) (r : Record) (w : World C G R D)
      → After (DeviceExchange cl r w) (exchange_device b env cl r w)
  unfolding exchange_device
  exchange_device-After cl r w =
      let P : World C G R D × Outcome Refusal TokenPair → Type 0 = After (DeviceExchange cl r w) in
      require_cases P _ _ _ w (λ _. tt)
        λ revisions.
          require_cases P _ _ _ w (λ _. tt)
            λ scopes_fine.
              require_cases P _ _ _ w (λ _. tt)
                λ claims_fine.
                  lift_cases P _ _ w (λ _ _. tt)
                    λ id parsed.
                      lift_cases P _ _ w (λ _ _. tt)
                        λ u found.
                          bind_cases P (consume_device b env cl r) _ w (λ _ _ _. tt)
                            λ w1 unit e.
                              by_pair w1 revisions scopes_fine claims_fine
                                (active-ActiveUser env _ r.user_id id r.auth_version u
                                  (parsed_some _ _ id parsed) found)
                                (consume_device-finished cl r w w1 unit e)
                                (issue_for_device b env cl r u w1)
                                (issue_for_device-After cl r u w1)
    where
      by_pair :
          (w1 : World C G R D)
          → same_client_revisions cl r ≡ true
          → is_some (parse_and_validate_scopes (join_scopes r.granted_scopes) cl.scopes) ≡ true
          → scopes_are_subset r.allowed_claims (current_claims env cl r.granted_scopes) ≡ true
          → ActiveUser env r.user_id r.auth_version
          → (consume_approved b.devices env.networks.consume_device r w.devices
              ≡ (w1.devices, ok tt))
            × (w1 ≡ record w { devices = w1.devices })
          → (s : World C G R D × Outcome Refusal TokenPair) → After (DeviceIssued cl r w1) s
          → After (DeviceExchange cl r w) s
      by_pair w1 v sc c a consumed (w2, failed e) issued = tt
      by_pair w1 v sc c a (consumed, alone) (w2, finished pair) (kept, (access, granted, same)) =
          record {
            same_revisions = v;
            scopes_allowed = sc;
            claims_allowed = c;
            active = a;
            consumed = rw kept consumed;
            access = access;
            issued =
                subst (λ v. Granted b env (device_issuance cl r) v w2 access)
                  (at_issue w w1 w2 alone kept) granted;
            pair_is = same;
          }
