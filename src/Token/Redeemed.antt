-- ===== src/Token/Redeemed.antt =====
-- internal/auth/handler.go: what handleAuthorizationCodeGrant grants, and how often.
use nyauth.Common.{
  ◌≡◌, ◌⊎◌, inl, inr, sym, ap, Bool, true, false, List, Option, none, some, arith, refl,
  if◌then◌else◌, ◌==◌, ◌&&◌, String, str_eq_iff, All,
}
use nyauth.Common.Text.{codes}
use nyauth.Auth.Pkce.{validate_pkce}
use nyauth.Redis.{Redis, Network, delivered, unreachable, reply_lost}
use nyauth.Session.{AuthorizationData, Key, Value, code_key, authorization_value, consent_value}
use nyauth.Session.Codes.{
  Lookup, live, reused, lookup_failed, live_lookup, used_lookup, get_code_json, decode_code,
  get_authorization_code, Result as CodeResult, ok as code_ok, err as code_err, not_found,
  value_mismatch, authorization_code_reuse, consent_user_mismatch, invalid_token_data, invalid_ttl,
  unavailable,
}
use nyauth.Session.Events.{Event, run, NotSaved}
use nyauth.Session.Once.{lookup-ShowsSpent}
use nyauth.Session.Spent.{Spent, run-Spent}
use nyauth.Token.{TokenPair, Form, Env, Backends, World}
use nyauth.Token.Clients.{Authenticated, authenticate_token_client, has_grant, has_redirect_uri}
use nyauth.Token.CodeGrant.{
  StoredCode, code_or_refusal, code_binding, reject_authorization_code_reuse, exchange_code,
  read_code, answer_code, handle_authorization_code_grant,
}
use nyauth.Token.Exchanged.{Exchange, exchange_code-After}
use nyauth.Token.Exec.{Outcome, finished, failed, lift_cases, reading_cases, require_cases, After}
use nyauth.Token.Replies.{Refusal, client_or}
use nyauth.Token.Validate.{normalized_client_revision}

-- What binds a code to the request: its client, redirect URI, client revision and verifier.
pub record Bound (env : Env) (form : Form) (who : Authenticated) (d : AuthorizationData)
    : Type 0 where
  pub same_client : who.client_id ≡ d.client_id
  pub may_exchange : has_grant who.client "authorization_code" ≡ true
  pub same_redirect : form.redirect_uri ≡ d.redirect_uri
  pub registered : has_redirect_uri who.client d.redirect_uri ≡ true
  pub same_revision :
      (normalized_client_revision d.client_authorization_revision
        == who.client.authorization_revision)
      ≡ true
  pub verified :
      validate_pkce env.s256
        (codes form.code_verifier)
        (codes d.code_challenge)
        (codes d.challenge_method)
      ≡ true

pub both : (a c : Bool) → (a && c) ≡ true → (a ≡ true) × (c ≡ true)
both a c h = ground arith

pub binding-Bound :
    (env : Env) (form : Form) (who : Authenticated) (d : AuthorizationData)
    → code_binding env form who d ≡ true
    → Bound env form who d
unfolding code_binding
binding-Bound env form who d h =
    let (client, h1) = both _ _ h in
    let (grant, h2) = both _ _ h1 in
    let (redirect, h3) = both _ _ h2 in
    let (uri, h4) = both _ _ h3 in
    let (revision, h5) = both _ _ h4 in
    let (_, verifier) = both _ _ h5 in
    record {
      same_client = (str_eq_iff _ _).0 client;
      may_exchange = grant;
      same_redirect = (str_eq_iff _ _).0 redirect;
      registered = uri;
      same_revision = revision;
      verified = verifier;
    }

-- A lookup that a handler goes on with.
live_data :
    (o : Lookup) (stored : StoredCode)
    → code_or_refusal o ≡ finished stored
    → ((o ≡ live stored.data_) × (stored.was_used ≡ false)) ⊎ (stored.was_used ≡ true)
live_data (live d) stored h =
    let same : record { data_ = d; was_used = false } ≡ stored = cc in
    inl (ap (λ (s : StoredCode). live s.data_) same, sym (ap (λ (s : StoredCode). s.was_used) same))
live_data (reused d) stored h =
    let same : record { data_ = d; was_used = true } ≡ stored = cc in
    inr (sym (ap (λ (s : StoredCode). s.was_used) same))
live_data (lookup_failed e) stored h = absurd (cc)

pub client_finished :
    (e : Refusal) (o : Outcome Unit Authenticated) (who : Authenticated)
    → client_or e o ≡ finished who
    → o ≡ finished who
client_finished e (finished who') who h = cc
client_finished e (failed u) who h = absurd (cc)

same_value :
    (o : Option Value) (d d' : AuthorizationData)
    → o ≡ some (authorization_value d)
    → o ≡ some (authorization_value d')
    → d ≡ d'
same_value o d d' h k = cc

live_decoded :
    (r : CodeResult AuthorizationData) (otherwise : CodeResult AuthorizationData)
    (d : AuthorizationData)
    → live_lookup r (used_lookup otherwise) ≡ live d
    → r ≡ code_ok d
live_decoded (code_ok d') otherwise d h =
    let same : d' ≡ d = cc in ap (λ (x : AuthorizationData). code_ok x) same
live_decoded (code_err not_found) (code_ok d') d h = absurd (cc)
live_decoded (code_err not_found) (code_err e) d h = absurd (cc)
live_decoded (code_err value_mismatch) otherwise d h = absurd (cc)
live_decoded (code_err authorization_code_reuse) otherwise d h = absurd (cc)
live_decoded (code_err consent_user_mismatch) otherwise d h = absurd (cc)
live_decoded (code_err invalid_token_data) otherwise d h = absurd (cc)
live_decoded (code_err invalid_ttl) otherwise d h = absurd (cc)
live_decoded (code_err unavailable) otherwise d h = absurd (cc)

module _ {Db : Type 0} (redis : Redis Key Value Db) where
  decoded_value :
      (n : Network) (key : Key) (d : AuthorizationData) (db : Db)
      → get_code_json redis n key db ≡ code_ok d
      → redis.get key db ≡ some (authorization_value d)
  unfolding get_code_json decode_code
  decoded_value delivered key d db h = by_value (redis.get key db) h
    where
      by_value :
          (o : Option Value) → decode_code redis o ≡ code_ok d → o ≡ some (authorization_value d)
      by_value none k = absurd (cc)
      by_value (some (authorization_value d')) k = cc
      by_value (some (consent_value c)) k = absurd (cc)
  decoded_value unreachable key d db h = absurd (cc)
  decoded_value reply_lost key d db h = absurd (cc)

module _ {C G R D : Type 0} (b : Backends C G R D) (env : Env) (form : Form) where
  -- A record that was read as live stands under the digest of the code.
  live_stored :
      (w : World C G R D) (stored : StoredCode)
      → read_code b env form.code w ≡ finished stored
      → stored.was_used ≡ false
      → b.codes.get (code_key (env.digest form.code)) w.codes
        ≡ some (authorization_value stored.data_)
  unfolding get_authorization_code
  live_stored w stored found unused = elim (live_data _ stored found) [
    | inl (is_live, _) ↦
        decoded_value b.codes env.networks.read_code (code_key (env.digest form.code)) stored.data_
          w.codes (live_decoded _ _ stored.data_ is_live)
    | inr used ↦ absurd (cc)
  ]

module _ {C G R D : Type 0} (b : Backends C G R D) (env : Env) (form : Form) where
  -- The request proved to be the code's client, and the code was exchanged.
  pub record Redeemed (w w' : World C G R D) (pair : TokenPair) : Type 0 where
    pub stored : AuthorizationData
    pub who : Authenticated
    pub authenticated : authenticate_token_client env form stored.client_id true ≡ finished who
    pub bound : Bound env form who stored
    pub was_live :
        b.codes.get (code_key (env.digest form.code)) w.codes ≡ some (authorization_value stored)
    pub exchanged : Exchange b env form who.client stored w w' pair
    pub same_record : exchanged.consumed ≡ stored

  handle-Redeemed :
      (w : World C G R D) → After (Redeemed w) (handle_authorization_code_grant b env form w)
  unfolding handle_authorization_code_grant answer_code reject_authorization_code_reuse
  handle-Redeemed w =
      let P : World C G R D × Outcome Refusal TokenPair → Type 0 = After (Redeemed w) in
      require_cases P _ _ _ w (λ _. tt)
        λ _.
          reading_cases P (read_code b env form.code) _ w (λ _ _. tt)
            λ stored found.
              lift_cases P _ _ w (λ _ _. tt)
                λ who e.
                  require_cases P _ _ _ w (λ _. tt)
                    λ bound.
                      answered stored who (client_finished _ _ who e)
                        (binding-Bound env form who _ bound) found stored.was_used refl
    where
      by_exchange :
          (stored : StoredCode) (who : Authenticated)
          → authenticate_token_client env form stored.data_.client_id true ≡ finished who
          → Bound env form who stored.data_
          → b.codes.get (code_key (env.digest form.code)) w.codes
            ≡ some (authorization_value stored.data_)
          → (r : World C G R D × Outcome Refusal TokenPair)
          → After (Exchange b env form who.client stored.data_ w) r
          → After (Redeemed w) r
      by_exchange stored who e bound was (w', failed why) h = tt
      by_exchange stored who e bound was (w', finished pair) h = record {
        stored = stored.data_;
        who = who;
        authenticated = e;
        bound = bound;
        was_live = was;
        exchanged = h;
        same_record = same_value _ _ _ h.was_live was;
      }

      answered :
          (stored : StoredCode) (who : Authenticated)
          → authenticate_token_client env form stored.data_.client_id true ≡ finished who
          → Bound env form who stored.data_
          → read_code b env form.code w ≡ finished stored
          → (was_used : Bool) → stored.was_used ≡ was_used
          → After (Redeemed w) (
              (if was_used
                  then reject_authorization_code_reuse b env stored.data_
                  else exchange_code b env form who.client stored.data_)
                w)
      answered stored who e bound found true u = tt
      answered stored who e bound found false u =
          by_exchange stored who e bound (live_stored b env form w stored found u)
            (exchange_code b env form who.client stored.data_ w)
            (exchange_code-After b env form who.client stored.data_ w)

-- The reply to a request grants nothing.
abbrev pub GrantsNothing : {S A : Type 0} → S × Outcome Refusal A → Type 0
GrantsNothing (s, finished a) = ⊥
GrantsNothing (s, failed e) = Unit

module _ {C G R D : Type 0} (b : Backends C G R D) (env : Env) (form : Form)
    (d : AuthorizationData) where
  Spent-read :
      (w : World C G R D)
      → Spent b.codes env.digest (env.digest form.code) d w.codes
      → (stored : StoredCode) → read_code b env form.code w ≡ finished stored
      → stored.was_used ≡ true
  Spent-read w spent stored e = elim (live_data _ stored e) [
    | inl (is_live, _) ↦ absurd (
        rw is_live at (
          lookup-ShowsSpent b.codes env.digest d env.networks.read_code env.networks.read_used_code
            form.code w.codes spent))
    | inr was ↦ was
  ]

  -- A code that is spent buys nothing.
  Spent-code :
      (w : World C G R D)
      → Spent b.codes env.digest (env.digest form.code) d w.codes
      → GrantsNothing (handle_authorization_code_grant b env form w)
  unfolding handle_authorization_code_grant answer_code reject_authorization_code_reuse
  Spent-code w spent =
      let P : World C G R D × Outcome Refusal TokenPair → Type 0 = GrantsNothing in
      require_cases P _ _ _ w (λ _. tt)
        λ _.
          reading_cases P (read_code b env form.code) _ w (λ _ _. tt)
            λ stored e.
              lift_cases P _ _ w (λ _ _. tt)
                λ who _. require_cases P _ _ _ w (λ _. tt) λ _. rw (Spent-read w spent stored e) tt

-- handleAuthorizationCodeGrant granted a pair of tokens. Then the request authenticated as the client
-- that the code is bound to, it has the redirect URI, the client revision and the PKCE verifier of
-- the code, the code's scopes and claims are allowed to the client now, its user is active with
-- the same auth version, the code's record stood under the code's digest and is spent after, the
-- grant was not revoked in the clock that the request found, and the access token was signed and
-- stored with the user, the scopes and the claims of the code.
pub Redeemed-code :
    {C G R D : Type 0} (b : Backends C G R D) (env : Env) (form : Form) (w : World C G R D)
    {w' : World C G R D} {pair : TokenPair}
    → handle_authorization_code_grant b env form w ≡ (w', finished pair)
    → Redeemed b env form w w' pair
Redeemed-code b env form w e = rw e at (handle-Redeemed b env form w)

renamed :
    {C G R D : Type 0} (b : Backends C G R D) (digest digest' : String → String) (id id' : String)
    (d : AuthorizationData) (c : C)
    → digest' ≡ digest
    → id' ≡ id
    → Spent b.codes digest id d c
    → Spent b.codes digest' id' d c
renamed b digest digest' id id' d c digests ids spent = rw (digests, ids) spent

-- handleAuthorizationCodeGrant granted a pair of tokens for a code. Then, whatever calls on codes and
-- consents and whatever time follow, with no Save of a code with the same digest, no request with a
-- code of that digest is granted tokens, by any client and in any state of the other stores.
pub redeemed_once :
    {C G R D : Type 0} (b : Backends C G R D) (env : Env) (form : Form) (w : World C G R D)
    {w' : World C G R D} {pair : TokenPair} (es : List Event) (env' : Env) (form' : Form)
    (later : World C G R D)
    → handle_authorization_code_grant b env form w ≡ (w', finished pair)
    → All (NotSaved env.digest (env.digest form.code)) es
    → later.codes ≡ run b.codes env.digest es w'.codes
    → env'.digest ≡ env.digest
    → env'.digest form'.code ≡ env.digest form.code
    → GrantsNothing (handle_authorization_code_grant b env' form' later)
redeemed_once b env form w {w'} es env' form' later e hs same digests code =
    let redeemed = Redeemed-code b env form w e in
    let exchange = redeemed.exchanged in
    let d = exchange.consumed in
    let after : Spent b.codes env.digest (env.digest form.code) d later.codes =
      rw same
        (run-Spent b.codes env.digest (env.digest form.code) d es w'.codes hs exchange.spent) in
    Spent-code b env' form' d later (
      renamed b env.digest env'.digest (env.digest form.code) (env'.digest form'.code) d later.codes
        digests code after)
