-- ===== src/Token/ClaimNames.antt =====
-- internal/auth: the names of the claims that a token may show, and internal/settings/policies.go:
-- ClaimsForScopes.
use Prim.Native.Char.{code}
use nyauth.Common.{
  Bool, true, false, List, [], ◌∷◌, ◌++◌, Option, none, some, if◌then◌else◌, ◌==◌, String, str_eq,
  contains,
}
use nyauth.Auth.ScopeText.{append}
use nyauth.Token.{OauthClient, User, ClaimValue, text, flag, OauthPolicy}

-- containsScope is `contains`. legacyClaimNamesForScopes:
unfoldable pub legacy_claim_names_for_scopes : List String → List String
unfolding contains
legacy_claim_names_for_scopes scopes =
    (if contains scopes "openid" then "sub" ∷ [] else [])
    ++ (if contains scopes "profile" then "preferred_username" ∷ "name" ∷ "picture" ∷ [] else [])
    ++ (if contains scopes "email" then "email" ∷ [] else [])

-- effectiveClaimNames on stored data, which has no slice where it had an empty one.
unfoldable pub effective_claim_names : List String → List String → Bool → List String
unfolding legacy_claim_names_for_scopes
effective_claim_names scopes allowed_claims true = allowed_claims
effective_claim_names scopes [] false = legacy_claim_names_for_scopes scopes
effective_claim_names scopes (c ∷ cs) false = c ∷ cs

-- supportedOAuthClaims, which claimsForGrantedScopes lists too.
abbrev pub supported_claims : List String
supported_claims =
    "sub" ∷ "preferred_username" ∷ "name" ∷ "picture" ∷ "email" ∷ "email_verified" ∷ "role" ∷ []

-- The loop over the ordered claims, with the map of those selected.
unfoldable pub in_order : List String → List String → List String
unfolding contains
in_order [] selected = []
in_order (c ∷ cs) selected =
    let rest = in_order cs selected in if contains selected c then c ∷ rest else rest

-- scopeClaims[scope], which has no element for a missing key.
unfoldable pub claims_at : List (String × List String) → String → List String
claims_at [] scope = []
claims_at ((key, claims) ∷ entries) scope =
    let rest = claims_at entries scope in if str_eq key scope then claims else rest

unfoldable pub selected_claims : List String → List (String × List String) → List String
unfolding claims_at
selected_claims [] scope_claims = []
selected_claims (s ∷ ss) scope_claims = claims_at scope_claims s ++ selected_claims ss scope_claims

-- claimsForGrantedScopes, with a map that is not nil.
unfoldable pub claims_for_granted_scopes : List String → List (String × List String) → List String
unfolding in_order selected_claims
claims_for_granted_scopes scopes scope_claims =
    in_order supported_claims (selected_claims scopes scope_claims)

module _ (policy : OauthPolicy) where
  abbrev pub listed : Option (List String) → List String
  listed none = []
  listed (some claims) = claims

  abbrev pub is_assigned : Option String → Bool
  is_assigned none = false
  is_assigned (some p) = true

  unfoldable pub assignable_claims : List String → List String
  assignable_claims [] = []
  assignable_claims (c ∷ cs) =
      let rest = assignable_claims cs in
      if is_assigned (policy.assignment_policy c) then c ∷ rest else rest

  unfoldable pub scope_definitions : List String → List String
  unfolding assignable_claims
  scope_definitions [] = []
  scope_definitions (s ∷ ss) =
      assignable_claims (listed (policy.definition_claims s)) ++ scope_definitions ss

  -- ClaimsForScopes for an administrator.
  unfoldable pub claims_for_scopes : List String → List String
  unfolding scope_definitions in_order
  claims_for_scopes scopes = in_order supported_claims (scope_definitions scopes)

  unfoldable pub client_claims : OauthClient → Option (List String) → List String
  unfolding claims_for_scopes
  client_claims cl none = claims_for_scopes cl.scopes
  client_claims cl (some claims) = claims

  unfoldable pub allowed_of : List String → List String → List String
  unfolding contains
  allowed_of allowed [] = []
  allowed_of allowed (c ∷ cs) =
      let rest = allowed_of allowed cs in if contains allowed c then c ∷ rest else rest

  -- The loop of scopeClaimsForClient. A scope that stands twice in the list appends its claims to the
  -- same entry again, which no reader of the map tells apart.
  unfoldable pub scope_entries : List String → List String → List (String × List String)
  unfolding allowed_of
  scope_entries allowed [] = []
  scope_entries allowed (s ∷ ss) =
      (s, allowed_of allowed (listed (policy.definition_claims s))) ∷ scope_entries allowed ss

  -- scopeClaimsForClient.
  unfoldable pub scope_claims_for_client : List String → OauthClient → List (String × List String)
  unfolding scope_entries client_claims
  scope_claims_for_client scopes cl = scope_entries (client_claims cl cl.allowed_claims) scopes

-- absolutePictureURL; the issuer has no slash at its end.
abbrev pub absolute_picture_url : String → String → String
absolute_picture_url issuer String.[] = String.[]
absolute_picture_url issuer (String.◌∷◌ c s) =
    if code c == b'/' then append issuer (String.◌∷◌ c s) else String.◌∷◌ c s

abbrev pub add_text :
    String → Option String → List (String × ClaimValue) → List (String × ClaimValue)
add_text key none info = info
add_text key (some value) info = (key, text value) ∷ info

abbrev pub picture : String → Option String → Option String
picture issuer none = none
picture issuer (some url) = some (absolute_picture_url issuer url)

-- userClaimsForAllowed, whose map has its keys in the order of the code.
unfoldable pub user_claims_for_allowed : String → User → List String → List (String × ClaimValue)
unfolding contains append
user_claims_for_allowed issuer u allowed =
    let role = if contains allowed "role" then ("role", text u.role) ∷ [] else [] in
    let verified =
      if contains allowed "email_verified"
      then ("email_verified", flag u.email_verified) ∷ role
      else role in
    let email = if contains allowed "email" then add_text "email" u.email verified else verified in
    let pictured =
      if contains allowed "picture"
      then add_text "picture" (picture issuer u.avatar_url) email
      else email in
    let named =
      if contains allowed "name" then add_text "name" u.display_name pictured else pictured in
    if contains allowed "preferred_username"
    then ("preferred_username", text u.username) ∷ named
    else named

unfoldable pub info_at : List (String × ClaimValue) → String → Option ClaimValue
info_at [] key = none
info_at ((k, v) ∷ info) key = let rest = info_at info key in if str_eq k key then some v else rest

abbrev pub add_info :
    String → Option ClaimValue → List (String × ClaimValue) → List (String × ClaimValue)
add_info key none rest = rest
add_info key (some v) rest = (key, v) ∷ rest

-- claimLimitedUserInfo.
unfoldable pub claim_limited_user_info :
    List String → List (String × ClaimValue) → List (String × ClaimValue)
unfolding info_at
claim_limited_user_info [] info = []
claim_limited_user_info (key ∷ keys) info =
    let rest = claim_limited_user_info keys info in
    if str_eq key "sub" then rest else add_info key (info_at info key) rest
