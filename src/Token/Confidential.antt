-- ===== src/Token/Confidential.antt =====
-- internal/auth/handler.go: authenticateTokenClient where public clients may not authenticate.
use nyauth.Common.{
  ◌≡◌, refl, ap, sym, ◌∙◌, Bool, true, false, Option, none, some, if◌then◌else◌, not, ◌&&◌, ◌||◌,
  String, str_eq,
}
use nyauth.Token.{OauthClient, Form, Env}
use nyauth.Token.Clients.{
  Authenticated, authenticate_token_client, authenticate_named, authenticate_found, secret_result,
  client_credentials, has_basic, expected_client, is_blank,
}
use nyauth.Token.Exec.{finished, failed}

-- A client that proved its secret: the form or its Basic credentials name the client, or the caller
-- expects it, and have the secret.
pub record Confidential (env : Env) (form : Form) (expected : String) (who : Authenticated)
    : Type 0 where
  pub registered : OauthClient
  pub known : env.get_client who.client_id ≡ some registered
  pub named : String
  pub secret : String
  pub presented : client_credentials form ≡ some (named, secret)
  pub same_client : who.client_id ≡ expected_client env named expected
  pub not_public : registered.is_public ≡ false
  pub proved : env.authenticate_client who.client_id secret ≡ some who.client

module _ (env : Env) (form : Form) (who : Authenticated) where
  secret_proved :
      (client_id secret : String) (o : Option OauthClient)
      → secret_result env client_id o ≡ finished who
      → (o ≡ some who.client) × (client_id ≡ who.client_id)
  secret_proved client_id secret none h = absurd (cc)
  secret_proved client_id secret (some cl) h =
      let same : record { client = cl; client_id = client_id } ≡ who = cc in
      (ap (λ (a : Authenticated). some a.client) same, ap (λ (a : Authenticated). a.client_id) same)

  found_proved :
      (basic : Bool) (expected named secret client_id : String) (o : Option OauthClient)
      → client_credentials form ≡ some (named, secret)
      → expected_client env named expected ≡ client_id
      → env.get_client client_id ≡ o
      → authenticate_found env false basic client_id secret o ≡ finished who
      → Confidential env form expected who
  unfolding authenticate_found
  found_proved basic expected named secret client_id none given is_client known h = absurd (cc)
  found_proved basic expected named secret client_id (some cl) given is_client known h =
      by_tests cl.is_public (is_blank secret) refl h
    where
      by_tests :
          (public blank : Bool)
          → cl.is_public ≡ public
          → (if public
              then failed tt
              else if blank
              then failed tt
              else secret_result env client_id (env.authenticate_client client_id secret))
            ≡ finished who
          → Confidential env form expected who
      by_tests true blank p k = absurd (cc)
      by_tests false true p k = absurd (cc)
      by_tests false false p k =
          let (proved, same) =
            secret_proved client_id secret (env.authenticate_client client_id secret) k in
          record {
            registered = cl;
            known = rw same at known;
            named = named;
            secret = secret;
            presented = given;
            same_client = sym (is_client ∙ same);
            not_public = p;
            proved = rw same at proved;
          }

  named_proved :
      (basic : Bool) (expected : String) (o : Option (String × String))
      → client_credentials form ≡ o
      → authenticate_named env false basic expected o ≡ finished who
      → Confidential env form expected who
  unfolding authenticate_named
  named_proved basic expected none given h = absurd (cc)
  named_proved basic expected (some (named, secret)) given h =
      by_test
        (is_blank (expected_client env named expected)
          || (not (is_blank expected)
              && not (str_eq (expected_client env named expected) expected)))
        h
    where
      by_test :
          (t : Bool)
          → (if t
              then failed tt
              else authenticate_found env false basic
                  (expected_client env named expected)
                  secret
                  (env.get_client (expected_client env named expected)))
            ≡ finished who
          → Confidential env form expected who
      by_test true k = absurd (cc)
      by_test false k =
          found_proved basic expected named secret (expected_client env named expected)
            (env.get_client (expected_client env named expected)) given refl refl k

  -- Where public clients may not authenticate, one that does is known and proved its secret.
  pub authenticate-Confidential :
      (expected : String)
      → authenticate_token_client env form expected false ≡ finished who
      → Confidential env form expected who
  unfolding authenticate_token_client
  authenticate-Confidential expected h =
      named_proved (has_basic form) expected (client_credentials form) refl h
