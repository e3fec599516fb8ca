-- ===== src/Token/AccessTests.antt =====
-- The access token of a code on concrete requests.
use nyauth.Common.{ℕ, ◌≡◌, refl, true, false, List, [], ◌∷◌, some, String, str_eq}
use nyauth.Common.Text.{trim_space}
use nyauth.Redis.Memory.{memory, find, remove}
use nyauth.Redis.SetMemory.{set_memory}
use nyauth.Token.{Claims, ClaimValue, text, TokenPair, Form, Env}
use nyauth.Refresh.Store.{not_found}
use nyauth.Refresh.Tokens.{no_state, get_refresh_token_state, get_json}
use nyauth.Redis.{delivered}
use nyauth.Token.Revoked.{revoked_access_refused}
use nyauth.Token.Access.{
  parse_signed_token, validate_access_token, revoke_access, revoke_token_for_client,
}
use nyauth.Token.Exec.{finished, failed, ◌>>=◌}
use nyauth.Token.Fresh.{issued_token_validates}
use nyauth.Token.Issue.{Issuance, access_claims, token_data, generate_authorization_code_token_pair}
use nyauth.Token.Clients.{is_blank, authenticate_token_client}
use nyauth.Token.Disclosed.{OwnIntrospection, introspected_own_token}
use nyauth.Token.Inspect.{
  active_access, introspect, introspect_token_for_client, user_info, user_info_handler,
  user_info_of, claims_of_token,
}
use nyauth.Token.UserInfo.{GrantedClaims, granted_user_info}
use nyauth.Token.Valid.{Shown}
use nyauth.Token.Validate.{
  validate_user, invalid_token, validate_access_policy, has_grant_data,
  current_client_authorization_revision,
}
use nyauth.Token.Tests.{env, form, Here, servers, here, granted}

-- The access token that the code bought.
abbrev issuance : Issuance
issuance = record {
  client_id = "app";
  subject = "alice";
  scopes = "offline_access" ∷ "openid" ∷ [];
  allowed_claims = some ("sub" ∷ []);
  auth_version = 1;
  issue_refresh = true;
  authorization_issued_at = 5;
  client_authorization_revision = 1;
  authentication = record { context = ""; methods = []; auth_time = 0 };
}

abbrev signed_claims : Claims
signed_claims = access_claims env issuance

abbrev reader : Env
reader = record env { parse_with_claims = λ key token. some signed_claims }

abbrev issued_pair : TokenPair
issued_pair = record granted { id_token = "" }

abbrev after_issue : Here
after_issue = (generate_authorization_code_token_pair servers env issuance here).0

issues_pair :
    generate_authorization_code_token_pair servers env issuance here
    ≡ (after_issue, finished issued_pair)
unfolding generate_authorization_code_token_pair ◌>>=◌ str_eq
    nyauth.Session.Clock.is_user_client_authorization_revoked memory find set_memory remove
issues_pair = refl

user_still : validate_user reader 0 "alice" 1 ≡ finished tt
unfolding validate_user str_eq
user_still = refl

policy_still : validate_access_policy reader (token_data issuance "access" "") ≡ finished tt
unfolding validate_access_policy
policy_still = refl

still_named : has_grant_data servers reader (token_data issuance "access" "") ≡ true
unfolding str_eq
still_named = refl

parsed_claims : parse_signed_token reader "jwt" ≡ finished signed_claims
unfolding parse_signed_token str_eq access_claims
parsed_claims = refl

jti_named : is_blank env.jti ≡ false
unfolding str_eq
jti_named = refl

no_context : Shown env.now issuance.authentication
unfolding trim_space
no_context = record { same_context = refl; same_methods = refl; same_time = refl }

same_revision :
    (revision : ℕ)
    → current_client_authorization_revision env 0 "app" ≡ finished revision
    → current_client_authorization_revision reader 0 "app" ≡ finished revision
unfolding current_client_authorization_revision
same_revision revision e = e

issued_token_validates_example :
    (env.sign (access_claims env issuance) ≡ some "jwt")
    × (validate_access_token servers reader "jwt" after_issue
        ≡ (after_issue, finished signed_claims))
issued_token_validates_example =
    issued_token_validates servers env issuance here reader issues_pair
      (λ revision e. record {
        user_valid = user_still;
        named = still_named;
        revision_is = same_revision revision e;
        policy_valid = policy_still;
      })
      (λ _. parsed_claims) refl refl refl refl jti_named no_context

abbrev after_revocation : Here
after_revocation = (revoke_token_for_client servers reader "jwt" "app" after_issue).0

no_refresh :
    get_refresh_token_state servers.tokens reader.digest delivered delivered "jwt"
      after_issue.tokens
    ≡ no_state not_found
unfolding get_refresh_token_state get_json set_memory memory find remove str_eq
    generate_authorization_code_token_pair ◌>>=◌
    nyauth.Session.Clock.is_user_client_authorization_revoked
no_refresh = refl

revokes :
    revoke_token_for_client servers reader "jwt" "app" after_issue ≡ (after_revocation, finished tt)
unfolding revoke_token_for_client revoke_access validate_access_token ◌>>=◌ str_eq
    nyauth.Session.Clock.is_user_client_authorization_revoked memory find set_memory remove
    generate_authorization_code_token_pair
revokes = refl

revoked_access_refused_example :
    validate_access_token servers reader "jwt" after_revocation
    ≡ (after_revocation, failed invalid_token)
revoked_access_refused_example =
    revoked_access_refused servers reader reader "jwt" "app" after_issue after_revocation
      signed_claims no_refresh issued_token_validates_example.1 revokes refl parsed_claims refl refl

abbrev asked : Form
asked = record form { token = "jwt" }

shows_claims :
    introspect servers reader (some asked) after_issue ≡ some (active_access signed_claims)
unfolding introspect introspect_token_for_client authenticate_token_client validate_access_token
    ◌>>=◌ str_eq nyauth.Session.Clock.is_user_client_authorization_revoked memory find set_memory
    remove generate_authorization_code_token_pair
shows_claims = refl

introspected_own_token_example :
    OwnIntrospection servers reader asked after_issue (active_access signed_claims)
introspected_own_token_example =
    introspected_own_token servers reader asked after_issue (active_access signed_claims)
      shows_claims

-- A token that grants the user's name too.
abbrev named_issuance : Issuance
named_issuance = record issuance { allowed_claims = some ("sub" ∷ "preferred_username" ∷ []) }

abbrev named_reader : Env
named_reader = record env {
  parse_with_claims = λ key token. some (access_claims env named_issuance);
}

abbrev named_state : Here
named_state = (generate_authorization_code_token_pair servers env named_issuance here).0

abbrev shown_name : List (String × ClaimValue)
shown_name = ("preferred_username", text "alice") ∷ []

shows_user : user_info_handler servers named_reader "jwt" named_state ≡ user_info "alice" shown_name
unfolding user_info_handler user_info_of claims_of_token validate_access_token ◌>>=◌ str_eq
    nyauth.Session.Clock.is_user_client_authorization_revoked memory find set_memory remove
    generate_authorization_code_token_pair
shows_user = refl

granted_user_info_example : GrantedClaims servers named_reader "jwt" named_state "alice" shown_name
granted_user_info_example =
    granted_user_info servers named_reader "jwt" named_state "alice" shown_name shows_user
