-- ===== src/Token/GrantTests.antt =====
-- The refresh, machine and device grants on concrete requests.
use nyauth.Common.{◌≡◌, ◌≢◌, refl, List, [], ◌∷◌, some, str_eq}
use nyauth.Redis.Memory.{memory, find}
use nyauth.Redis.SetMemory.{set_memory}
use nyauth.Refresh.{TokenData}
use nyauth.Device.{Record, approved}
use nyauth.Device.Decisions.{Event, passes, run, approved_record}
use nyauth.Device.Tests as DeviceTests
use nyauth.Token.{OauthClient, TokenPair, Form, Env}
use nyauth.Token.ClaimNames.{legacy_claim_names_for_scopes}
use nyauth.Token.CodeGrant.{code_issuance, code_claims}
use nyauth.Token.DeviceGrant.{
  DeviceRedeemed, redeemed_device, device_exchanged_once, stored_claim_names,
}
use nyauth.Token.Exec.{finished, ◌>>=◌}
use nyauth.Token.Grants.{
  device_grant, device_issuance, exchange_device, handle_device_code_grant,
  handle_client_credentials_grant,
}
use nyauth.Token.Issue.{token_data}
use nyauth.Token.Machine.{MachineGrant, machine_grant}
use nyauth.Token.Redeemed.{GrantsNothing}
use nyauth.Token.Refreshed.{Renewed, Renewed-token}
use nyauth.Token.RefreshGrant.{token_claims, handle_refresh_token_grant}
use nyauth.Token.Tests.{
  app, env, code_data, form, Here, servers, here, granted, access_data, after_exchange,
}

-- A refresh of the tokens that the code bought.
abbrev refresh_form : Form
refresh_form = record form { grant_type = "refresh_token"; refresh_token = "fresh" }

abbrev next_env : Env
next_env = record env { jti = "jti2"; refresh_secret = some "fresh2" }

abbrev next_pair : TokenPair
next_pair = record granted { refresh_token = "fresh2"; id_token = "" }

abbrev next_access : TokenData
next_access = record access_data { family_key = "family" }

abbrev after_refresh : Here
after_refresh = (handle_refresh_token_grant servers next_env refresh_form after_exchange).0

refreshes :
    handle_refresh_token_grant servers next_env refresh_form after_exchange
    ≡ (after_refresh, finished next_pair)
unfolding handle_refresh_token_grant ◌>>=◌ str_eq set_memory find
    nyauth.Session.Clock.is_user_client_authorization_revoked
refreshes = refl

Renewed-token_example : Renewed servers next_env refresh_form after_exchange after_refresh next_pair
Renewed-token_example = Renewed-token servers next_env refresh_form after_exchange refreshes

-- A machine that asks for all its scopes.
abbrev machine : OauthClient
machine = record app { grants = "Client_Credentials" ∷ [] }

abbrev machine_env : Env
machine_env = record env {
  get_client = λ id. some machine;
  authenticate_client = λ id secret. some machine;
}

abbrev machine_form : Form
machine_form = record form { grant_type = "client_credentials" }

abbrev machine_pair : TokenPair
machine_pair = record granted { scope = "openid profile"; refresh_token = ""; id_token = "" }

abbrev after_machine : Here
after_machine = (handle_client_credentials_grant servers machine_env machine_form here).0

machine_granted :
    handle_client_credentials_grant servers machine_env machine_form here
    ≡ (after_machine, finished machine_pair)
unfolding handle_client_credentials_grant ◌>>=◌ str_eq
machine_granted = refl

machine_grant_example :
    MachineGrant servers machine_env machine_form here after_machine machine_pair
machine_grant_example = machine_grant servers machine_env machine_form here machine_granted

-- A television whose approval waits.
abbrev tv_client : OauthClient
tv_client = record app { grants = device_grant ∷ [] }

abbrev tv_env : Env
tv_env = record env {
  get_client = λ id. some tv_client;
  authenticate_client = λ id secret. some tv_client;
}

abbrev tv_form : Form
tv_form = record form { grant_type = device_grant; device_code = "tv" }

abbrev tv_record : Record
tv_record = approved_record DeviceTests.tv DeviceTests.alice

abbrev tv_here : Here
tv_here = record here { devices = DeviceTests.holding tv_record }

abbrev tv_pair : TokenPair
tv_pair = record granted { scope = "openid"; refresh_token = "" }

abbrev after_tv : Here
after_tv = (handle_device_code_grant servers tv_env tv_form tv_here).0

tv_granted : handle_device_code_grant servers tv_env tv_form tv_here ≡ (after_tv, finished tv_pair)
unfolding handle_device_code_grant ◌>>=◌ str_eq nyauth.Device.poll_script nyauth.Device.poll_value
    memory find nyauth.Device.poll_status nyauth.Device.consume_script nyauth.Device.consume_value
    nyauth.Session.Clock.is_user_client_authorization_revoked
tv_granted = refl

redeemed_device_example : DeviceRedeemed servers tv_env tv_form tv_here after_tv tv_pair
redeemed_device_example = redeemed_device servers tv_env tv_form tv_here tv_granted

abbrev tv_exchanged : Here
tv_exchanged = (exchange_device servers tv_env tv_client tv_record tv_here).0

tv_exchange :
    exchange_device servers tv_env tv_client tv_record tv_here ≡ (tv_exchanged, finished tv_pair)
unfolding exchange_device ◌>>=◌ str_eq nyauth.Device.consume_script nyauth.Device.consume_value
    memory find nyauth.Session.Clock.is_user_client_authorization_revoked
tv_exchange = refl

abbrev a_second : List Event
a_second = passes 1000 ∷ []

abbrev tv_later : Here
tv_later = record tv_exchanged {
  devices = run DeviceTests.server DeviceTests.digests a_second tv_exchanged.devices;
}

device_exchanged_once_example :
    GrantsNothing (exchange_device servers tv_env tv_client tv_record tv_later)
device_exchanged_once_example =
    device_exchanged_once servers tv_env tv_client tv_record tv_here a_second tv_env tv_client
      tv_record tv_later tv_exchange (tt, tt) refl refl

stored_claim_names_example :
    (token_claims (token_data (code_issuance tv_env tv_client code_data) "access" "")
      ≡ code_claims tv_env code_data)
    × (tv_record.allowed_claims ≢ []
        → token_claims (token_data (device_issuance tv_client tv_record) "access" "")
          ≡ tv_record.allowed_claims)
    × (tv_record.allowed_claims ≡ []
        → token_claims (token_data (device_issuance tv_client tv_record) "access" "")
          ≡ legacy_claim_names_for_scopes tv_record.granted_scopes)
stored_claim_names_example = stored_claim_names tv_env tv_client code_data tv_record "access" ""
