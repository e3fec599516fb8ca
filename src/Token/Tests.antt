-- ===== src/Token/Tests.antt =====
-- The token endpoint on a concrete client, code and device.
use nyauth.Common.{◌≡◌, ◌⊎◌, refl, true, false, List, [], ◌∷◌, none, some, arith, str_eq}
use nyauth.Common.Text.{Text, codes}
use nyauth.Redis.{delivered}
use nyauth.Redis.Memory.{memory, find, remove}
use nyauth.Redis.SetMemory.{set_memory}
use nyauth.Session.{
  AuthorizationData, code_key, code_used_key, authorization_value, consume_matching_script,
  consume_matching_value,
}
use nyauth.Session.Clock.{
  clock_key, GrantEvent, issues, grant_run, is_user_client_authorization_revoked,
}
use nyauth.Session.Codes.{reused, get_authorization_code}
use nyauth.Session.Events.{Event, passes, run}
use nyauth.Refresh.{
  TokenData, refresh_key, access_key, token_at, family_set, user_families, token_member,
  family_member, token_value,
}
use nyauth.Session.Tests as CodeTests
use nyauth.Session.ClockTests as ClockTests
use nyauth.Refresh.Tests as RefreshTests
use nyauth.Device.Tests as DeviceTests
use nyauth.Token.{OauthClient, User, found_user, TokenPair, Form, Networks, Env, Backends, World}
use nyauth.Token.Exec.{finished, ◌>>=◌}
use nyauth.Token.CodeGrant.{handle_authorization_code_grant, well_formed_code_request, code_binding}
use nyauth.Token.Redeemed.{Redeemed, GrantsNothing, Redeemed-code, redeemed_once}
use nyauth.Token.Replayed.{Invalid, replay_revokes}
use nyauth.Token.Unbound.{ProvesCode, unproved_request}
use nyauth.Token.Clients.{Authenticated, authenticate_token_client}
use nyauth.Token.Validate.{validate_authorization}

abbrev pub app : OauthClient
app = record {
  id = "app";
  identity_revision = 1;
  authorization_revision = 1;
  redirect_uris = "https://app/cb" ∷ [];
  grants = "authorization_code" ∷ "refresh_token" ∷ [];
  scopes = "openid" ∷ "profile" ∷ "offline_access" ∷ [];
  allowed_claims = none;
  is_public = false;
}

abbrev pub alice : User
alice = record {
  username = "alice";
  display_name = none;
  avatar_url = none;
  email = none;
  email_verified = false;
  role = "user";
  status = "active";
  auth_version = 1;
}

abbrev pub challenge : Text
challenge = codes "E9Melhoa2OwvFrEMTJguCHaoeK1t8URWbuGJSstw-cM"

abbrev pub up : Networks
up = record {
  read_code = delivered;
  read_used_code = delivered;
  consume_code = delivered;
  revoke_grant = delivered;
  read_revocation = delivered;
  save_refresh = delivered;
  save_access = delivered;
  read_refresh = delivered;
  read_used_refresh = delivered;
  rotate = delivered;
  revoke_refresh = delivered;
  read_access = delivered;
  revoke_access = delivered;
  poll_device = delivered;
  consume_device = delivered;
}

abbrev pub env : Env
env = record {
  digest = λ s. s;
  pair_digest = λ user client. user;
  device_digests = DeviceTests.digests;
  s256 = λ v. challenge;
  get_client = λ id. some app;
  authenticate_client = λ id secret. some app;
  client_revision = λ read id. some 1;
  user_may_access = λ client user. some true;
  parse_uuid = λ s. some s;
  get_user = λ read id. found_user alice;
  revoke_authorization = λ user client at. true;
  policy = record {
    definition_claims = λ scope. some ("sub" ∷ "name" ∷ []);
    assignment_policy = λ claim. some "self_service";
  };
  issuer = "https://id";
  lifetimes = record { access_token = 60000; refresh_token = 90000; authorization_code = 30000 };
  revocation_ttl = 90000;
  code_retention = 30000;
  sign = λ claims. some "jwt";
  sign_id = λ claims. some "id-jwt";
  parse_header = λ token. some (record { algorithm = "RS256"; kid = some "k" });
  active_keys = some (
      record { kid = "k"; algorithm = "RS256"; key_type = "RSA"; usage = "sig"; public_key = "pem" }
      ∷ []);
  is_rsa_key = λ pem. true;
  parse_with_claims = λ key token. none;
  jti = "jti";
  id_jti = "id-jti";
  refresh_secret = some "fresh";
  family_secret = some "family";
  now = 1000000;
  micros = 7;
  networks = up;
}

abbrev pub code_data : AuthorizationData
code_data = record {
  record_version = "v1";
  client_id = "app";
  user_id = "alice";
  redirect_uri = "https://app/cb";
  scopes = "offline_access" ∷ "openid" ∷ [];
  allowed_claims = "sub" ∷ [];
  claim_names_set = true;
  code_challenge = "E9Melhoa2OwvFrEMTJguCHaoeK1t8URWbuGJSstw-cM";
  challenge_method = "S256";
  nonce = "n";
  auth_version = 1;
  authentication_context = "";
  authentication_methods = [];
  authentication_time = 0;
  authorization_issued_at = 5;
  client_authorization_revision = 1;
}

abbrev pub form : Form
form = record {
  grant_type = "authorization_code";
  code = "c";
  redirect_uri = "https://app/cb";
  code_verifier = "dBjftJeZ4CVP-mB92K27uhbUJU1p1r_wW1gFWFOEjXk";
  device_code = "";
  refresh_token = "";
  token = "";
  scope = "";
  client_id = "app";
  client_secret = "s3cret";
  basic = none;
}

abbrev pub Here : Type 0
Here = World CodeTests.Keyspace ClockTests.Clocks RefreshTests.Stored DeviceTests.Keyspace

abbrev pub servers :
    Backends CodeTests.Keyspace ClockTests.Clocks RefreshTests.Stored DeviceTests.Keyspace
servers = record {
  codes = CodeTests.server;
  clock = ClockTests.server;
  tokens = RefreshTests.server;
  devices = DeviceTests.server;
}

abbrev pub here : Here
here = record {
  codes = record { key = code_key "c"; value = authorization_value code_data; ttl = 9000 } ∷ [];
  clock = [];
  tokens = record { strings = []; sets = [] };
  devices = [];
}

abbrev pub granted : TokenPair
granted = record {
  access_token = "jwt";
  expires_in = 60;
  refresh_token = "fresh";
  scope = "offline_access openid";
  id_token = "id-jwt";
}

abbrev pub access_data : TokenData
access_data = record {
  client_id = "app";
  user_id = "alice";
  scopes = "offline_access" ∷ "openid" ∷ [];
  allowed_claims = "sub" ∷ [];
  claim_names_set = true;
  token_use = "access";
  auth_version = 1;
  authentication_context = "";
  authentication_methods = [];
  authentication_time = 0;
  family_id = "";
  family_key = "family";
  user_key = "";
  authorization_issued_at = 5;
  client_authorization_revision = 1;
}

abbrev pub refresh_data : TokenData
refresh_data = record access_data {
  token_use = "refresh";
  family_id = "family";
  user_key = "alice";
}

abbrev pub issued_tokens : RefreshTests.Stored
issued_tokens = record {
  strings =
      record { key = token_at (access_key "jti"); value = token_value access_data; ttl = 60000 }
      ∷ record {
        key = token_at (refresh_key "fresh");
        value = token_value refresh_data;
        ttl = 90000;
      }
      ∷ [];
  sets =
      (family_set "family", token_member (access_key "jti"))
      ∷ (user_families "alice", family_member "family")
      ∷ (family_set "family", token_member (refresh_key "fresh"))
      ∷ [];
}

abbrev pub after_exchange : Here
after_exchange = record {
  codes =
      record { key = code_used_key "c"; value = authorization_value code_data; ttl = 30000 } ∷ [];
  clock = [];
  tokens = issued_tokens;
  devices = [];
}

exchange :
    handle_authorization_code_grant servers env form here ≡ (after_exchange, finished granted)
unfolding handle_authorization_code_grant ◌>>=◌ str_eq memory find consume_matching_script
    consume_matching_value is_user_client_authorization_revoked set_memory remove
exchange = refl

Redeemed-code_example : Redeemed servers env form here after_exchange granted
Redeemed-code_example = Redeemed-code servers env form here exchange

abbrev a_second : List Event
a_second = passes 1000 ∷ []

abbrev later : Here
later = record after_exchange {
  codes = run CodeTests.server (λ s. s) a_second after_exchange.codes;
}

redeemed_once_example : GrantsNothing (handle_authorization_code_grant servers env form later)
redeemed_once_example =
    redeemed_once servers env form here a_second env form later exchange (tt, tt) refl refl refl

abbrev stolen : Form
stolen = record form { client_id = "other" }

unproved_request_example :
    let r = handle_authorization_code_grant servers env stolen here in
    ((r.0 ≡ here) × GrantsNothing r) ⊎ ProvesCode servers env stolen here
unproved_request_example = unproved_request servers env stolen here

-- The clock as the issue of the grant left it.
abbrev replayed : Here
replayed = record after_exchange {
  clock = record { key = clock_key "alice"; value = 5; ttl = 90000 } ∷ [];
}

abbrev pub known : Authenticated
known = record { client = app; client_id = "app" }

formed : well_formed_code_request env form ≡ true
unfolding well_formed_code_request str_eq
formed = refl

is_reused :
    get_authorization_code CodeTests.server (λ s. s) delivered delivered "c" after_exchange.codes
    ≡ reused code_data
unfolding get_authorization_code memory find str_eq
is_reused = refl

is_known : authenticate_token_client env form "app" true ≡ finished known
unfolding authenticate_token_client str_eq
is_known = refl

is_bound : code_binding env form known code_data ≡ true
unfolding code_binding str_eq
is_bound = refl

abbrev reissue : List GrantEvent
reissue = issues delivered "bob" "app" 90000 3 ∷ []

abbrev contained : Here
contained = record after_exchange {
  clock =
      grant_run ClockTests.server (λ user client. user) reissue
        (handle_authorization_code_grant servers env form replayed).0.clock;
}

replay_revokes_example : Invalid (validate_authorization servers env 0 access_data contained)
unfolding memory find str_eq
replay_revokes_example =
    replay_revokes servers env form replayed code_data known reissue env contained 0 access_data
      formed is_reused is_known is_bound refl refl refl refl refl refl (5, refl, omega arith)
