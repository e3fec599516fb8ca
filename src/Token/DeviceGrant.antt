-- ===== src/Token/DeviceGrant.antt =====
-- internal/auth/device_authorization.go: what handleDeviceCodeGrant grants, how often, and which claims
-- the tokens show.
use nyauth.Common.{ℕ, ◌≡◌, ◌≢◌, refl, ap, sym, ◌∙◌, true, false, List, [], ◌∷◌, String, All}
use nyauth.Device.{Record}
use nyauth.Device.Store.{ok}
use nyauth.Device.Decisions.{Event, run, Polled, poll_failed, poll_ok, poll, consume_approved}
use nyauth.Device.Frozen.{NotDrawn}
use nyauth.Device.Grants.{consume_once}
use nyauth.Session.{AuthorizationData}
use nyauth.Token.{OauthClient, TokenPair, Form, Env, Backends, World}
use nyauth.Token.ClaimNames.{effective_claim_names, legacy_claim_names_for_scopes}
use nyauth.Token.Clients.{Authenticated, authenticate_token_client, has_grant}
use nyauth.Token.CodeGrant.{code_issuance, code_claims}
use nyauth.Token.Devices.{DeviceExchange, exchange_device-After}
use nyauth.Token.Exec.{Outcome, finished, failed, bind_cases, lift_cases, require_cases, After}
use nyauth.Token.Grants.{
  device_issuance, exchange_device, polled_world, polled_or, poll_device, device_grant,
  handle_device_code_grant,
}
use nyauth.Token.Issue.{token_data, stored_slice, listed_claims, claims_set}
use nyauth.Token.Redeemed.{GrantsNothing, client_finished}
use nyauth.Token.RefreshGrant.{token_claims}
use nyauth.Token.Replies.{Refusal}

module _ {C G R D : Type 0} (b : Backends C G R D) (env : Env) where
  -- A client of the device grant whose poll answered an approved record that was then exchanged.
  pub record DeviceRedeemed (form : Form) (w w' : World C G R D) (pair : TokenPair) : Type 0 where
    pub who : Authenticated
    pub authenticated : authenticate_token_client env form "" true ≡ finished who
    pub may : has_grant who.client device_grant ≡ true
    pub approval : Record
    pub seconds : ℕ
    pub polled : World C G R D
    pub answer :
        poll b.devices env.device_digests env.networks.poll_device form.device_code who.client_id
          env.now w.devices
        ≡ (polled.devices, poll_ok approval seconds)
    pub only_polled : polled ≡ record w { devices = polled.devices }
    pub exchanged : DeviceExchange b env who.client approval polled w' pair

  -- The poll's answer, where the handler goes on with a record.
  abbrev Answered : Form → String → World C G R D → World C G R D → Record → Type 0
  Answered form named w w' r =
      (w' ≡ record w { devices = w'.devices })
      × ((seconds : ℕ) × (poll b.devices env.device_digests env.networks.poll_device
              form.device_code named env.now w.devices
            ≡ (w'.devices, poll_ok r seconds)))

  poll_device-finished :
      (form : Form) (named client_id : String) (w w' : World C G R D) (r : Record)
      → poll_device b env form named client_id w ≡ (w', finished r)
      → Answered form named w w' r
  unfolding poll_device
  poll_device-finished form named client_id w w' r h = by_value _ h
    where
      by_value :
          (s : D × Polled)
          → polled_world b env client_id w s ≡ (w', finished r)
          → (w' ≡ record w { devices = w'.devices })
            × ((seconds : ℕ) × (s ≡ (w'.devices, poll_ok r seconds)))
      by_value (db, poll_failed e seconds) k =
          let wrong : polled_or client_id (poll_failed e seconds) ≡ finished r =
            ap (λ (v : World C G R D × Outcome Refusal Record). v.1) k in
          absurd (cc)
      by_value (db, poll_ok r' seconds) k =
          let same_world : record w { devices = db } ≡ w' =
            ap (λ (v : World C G R D × Outcome Refusal Record). v.0) k in
          let same_db : db ≡ w'.devices = ap (λ (v : World C G R D). v.devices) same_world in
          let same : finished r' ≡ finished r =
            ap (λ (v : World C G R D × Outcome Refusal Record). v.1) k in
          let same_record : r' ≡ r = cc in
          (
            sym same_world ∙ ap (λ (d : D). record w { devices = d }) same_db,
            (
              seconds,
              ap (λ (d : D). (d, poll_ok r' seconds)) same_db
                  ∙ ap (λ (q : Record). (w'.devices, poll_ok q seconds)) same_record,
            ),
          )

  handle-DeviceRedeemed :
      (form : Form) (w : World C G R D)
      → After (DeviceRedeemed form w) (handle_device_code_grant b env form w)
  unfolding handle_device_code_grant
  handle-DeviceRedeemed form w =
      let P : World C G R D × Outcome Refusal TokenPair → Type 0 = After (DeviceRedeemed form w) in
      require_cases P _ _ _ w (λ _. tt)
        λ _.
          lift_cases P _ _ w (λ _ _. tt)
            λ who e.
              require_cases P (has_grant who.client device_grant) _ _ w (λ _. tt)
                λ may.
                  bind_cases P (poll_device b env form who.client_id who.client.id) _ w
                    (λ _ _ _. tt)
                    λ w1 r polled.
                      by_pair who (client_finished _ _ who e) may w1 r
                        (poll_device-finished form who.client_id who.client.id w w1 r polled)
                        (exchange_device b env who.client r w1)
                        (exchange_device-After b env who.client r w1)
    where
      by_pair :
          (who : Authenticated)
          → authenticate_token_client env form "" true ≡ finished who
          → has_grant who.client device_grant ≡ true
          → (w1 : World C G R D) (r : Record) → Answered form who.client_id w w1 r
          → (s : World C G R D × Outcome Refusal TokenPair)
          → After (DeviceExchange b env who.client r w1) s
          → After (DeviceRedeemed form w) s
      by_pair who e may w1 r answered (w', failed why) h = tt
      by_pair who e may w1 r (alone, (seconds, answer)) (w', finished pair) h = record {
        who = who;
        authenticated = e;
        may = may;
        approval = r;
        seconds = seconds;
        polled = w1;
        answer = answer;
        only_polled = alone;
        exchanged = h;
      }

-- handleDeviceCodeGrant granted a pair of tokens. Then the request authenticated as a client with the
-- device grant, the poll of its device code under that client's id answered an approved record,
-- the client has the identity and authorization revisions of the record, the record's scopes and
-- claims are allowed to the client now, its user is active with the same auth version, the
-- approval was consumed, the grant was not revoked in the clock that the request found, and
-- the access token was signed and stored with the user and the scopes of the approval.
pub redeemed_device :
    {C G R D : Type 0} (b : Backends C G R D) (env : Env) (form : Form) (w : World C G R D)
    {w' : World C G R D} {pair : TokenPair}
    → handle_device_code_grant b env form w ≡ (w', finished pair)
    → DeviceRedeemed b env form w w' pair
redeemed_device b env form w e = rw e at (handle-DeviceRedeemed b env form w)

-- The part of handleDeviceCodeGrant that follows its poll granted a pair of tokens for a record. Then,
-- whatever calls on device authorizations and whatever time follow, with no Create that draws the
-- same device code, it grants nothing for a record with that device id: of two requests that
-- polled the same approval at the same time, one gets tokens.
pub device_exchanged_once :
    {C G R D : Type 0} (b : Backends C G R D) (env : Env) (cl : OauthClient) (r : Record)
    (w : World C G R D) {w' : World C G R D} {pair : TokenPair} (es : List Event) (env' : Env)
    (cl' : OauthClient) (r' : Record) (later : World C G R D)
    → exchange_device b env cl r w ≡ (w', finished pair)
    → All (NotDrawn env.device_digests r.device_id) es
    → later.devices ≡ run b.devices env.device_digests es w'.devices
    → r'.device_id ≡ r.device_id
    → GrantsNothing (exchange_device b env' cl' r' later)
device_exchanged_once {C} {G} {R} {D} b env cl r w {w'} {pair} es env' cl' r' later e hs same ids =
    let first : DeviceExchange b env cl r w w' pair =
      rw e at (exchange_device-After b env cl r w) in
    by_pair first.consumed (exchange_device b env' cl' r' later)
      (exchange_device-After b env' cl' r' later)
  where
    by_pair :
        consume_approved b.devices env.networks.consume_device r w.devices ≡ (w'.devices, ok tt)
        → (s : World C G R D × Outcome Refusal TokenPair)
        → After (DeviceExchange b env' cl' r' later) s
        → GrantsNothing s
    by_pair consumed (v, failed why) h = tt
    by_pair consumed (v, finished pair') h =
        consume_once b.devices env.device_digests env.networks.consume_device r w.devices es
          env'.networks.consume_device r' consumed hs ids (rw same at h.consumed)

device_claim_names :
    (scopes claims : List String)
    → effective_claim_names scopes
        (listed_claims (stored_slice claims))
        (claims_set (stored_slice claims))
      ≡ effective_claim_names scopes claims false
unfolding effective_claim_names
device_claim_names scopes [] = refl
device_claim_names scopes (c ∷ cs) = refl

-- The claims that a refresh or UserInfo reads off the token data stored for a code are exactly the
-- code's. Those read off the data stored for an approved device authorization are the approval's
-- claims where it has any; where it has none they are the claims that a legacy token shows for
-- the scopes.
pub stored_claim_names :
    (env : Env) (cl : OauthClient) (d : AuthorizationData) (r : Record) (use_ family : String)
    → (token_claims (token_data (code_issuance env cl d) use_ family) ≡ code_claims env d)
      × (r.allowed_claims ≢ []
          → token_claims (token_data (device_issuance cl r) use_ family) ≡ r.allowed_claims)
      × (r.allowed_claims ≡ []
          → token_claims (token_data (device_issuance cl r) use_ family)
            ≡ legacy_claim_names_for_scopes r.granted_scopes)
unfolding token_claims code_issuance device_issuance effective_claim_names
stored_claim_names env cl d r use_ family = (
  refl,
  λ some_claims.
      device_claim_names r.granted_scopes r.allowed_claims ∙ listed r.allowed_claims some_claims,
  λ no_claims. device_claim_names r.granted_scopes r.allowed_claims ∙ rw no_claims refl,
)
  where
    listed :
        (claims : List String)
        → claims ≢ []
        → effective_claim_names r.granted_scopes claims false ≡ claims
    listed [] h = absurd (h refl)
    listed (c ∷ cs) h = refl
