-- ===== src/Token/UserInfo.antt =====
-- internal/auth/handler.go: what UserInfo shows of a user.
use nyauth.Common.{
  ◌≡◌, refl, Bool, true, false, List, Option, none, some, if◌then◌else◌, ◌==◌, String, contains,
  All, Bool-cases, inl, inr,
}
use nyauth.Token.{
  Claims, ClaimValue, User, UserAnswer, found_user, no_user, user_unavailable, Env, Backends, World,
}
use nyauth.Token.Access.{validate_access_token}
use nyauth.Token.ClaimNames.{add_text, user_claims_for_allowed}
use nyauth.Token.Exec.{Outcome, finished, failed}
use nyauth.Token.Inspect.{
  UserInfoReply, user_info_refused, user_info, shown_claims, shown_to, claims_of_token,
  user_info_of, user_info_handler,
}
use nyauth.Token.Validate.{TokenError}

abbrev pub Allowed : List String → List (String × ClaimValue) → Type 0
Allowed allowed info = All (λ (p : String × ClaimValue). contains allowed p.0 ≡ true) info

if_cases :
    {A : Type 0} (P : A → Type 0) (t : Bool) {x y : A}
    → (t ≡ true → P x)
    → P y
    → P (if t then x else y)
if_cases P true whole rest = whole refl
if_cases P false whole rest = rest

add_text-Allowed :
    (allowed : List String) (key : String) (value : Option String)
    (info : List (String × ClaimValue))
    → Allowed allowed info
    → contains allowed key ≡ true
    → Allowed allowed (add_text key value info)
add_text-Allowed allowed key none info fine named = fine
add_text-Allowed allowed key (some value) info fine named = (named, fine)

user_claims_for_allowed-Allowed :
    (issuer : String) (u : User) (allowed : List String)
    → Allowed allowed (user_claims_for_allowed issuer u allowed)
unfolding user_claims_for_allowed
user_claims_for_allowed-Allowed issuer u allowed =
    let P = Allowed allowed in
    let role = if_cases P (contains allowed "role") (λ h. (h, tt)) tt in
    let verified = if_cases P (contains allowed "email_verified") (λ h. (h, role)) role in
    let email =
      if_cases P (contains allowed "email") (add_text-Allowed allowed "email" u.email _ verified)
        verified in
    let pictured =
      if_cases P (contains allowed "picture") (add_text-Allowed allowed "picture" _ _ email)
        email in
    let named =
      if_cases P (contains allowed "name")
        (add_text-Allowed allowed "name" u.display_name _ pictured) pictured in
    if_cases P (contains allowed "preferred_username") (λ h. (h, named)) named

module _ {C G R D : Type 0} (b : Backends C G R D) (env : Env) (bearer : String) where
  -- A reply about the subject of a token that validates, with claims that the token was granted.
  pub record GrantedClaims (w : World C G R D) (sub : String) (info : List (String × ClaimValue))
      : Type 0 where
    pub claims : Claims
    pub validated : (validate_access_token b env bearer w).1 ≡ finished claims
    pub versioned : (claims.auth_version == 0) ≡ false
    pub same_subject : sub ≡ claims.subject
    pub may_identify : contains (claims_of_token claims) "sub" ≡ true
    pub granted : Allowed (claims_of_token claims) info

  unfoldable pub Discloses : World C G R D → UserInfoReply → Type 0
  Discloses w (user_info_refused status error) = Unit
  Discloses w (user_info sub info) = GrantedClaims w sub info

  user_info-Discloses : (w : World C G R D) → Discloses w (user_info_handler b env bearer w)
  unfolding user_info_handler user_info_of Discloses
  user_info-Discloses w = by_outcome (validate_access_token b env bearer w).1 refl
    where
      by_answer :
          (c : Claims)
          → (validate_access_token b env bearer w).1 ≡ finished c
          → (c.auth_version == 0) ≡ false
          → contains (claims_of_token c) "sub" ≡ true
          → (answer : UserAnswer) → Discloses w (shown_claims b env c (claims_of_token c) answer)
      by_answer c valid versioned sub no_user = tt
      by_answer c valid versioned sub user_unavailable = tt
      by_answer c valid versioned sub (found_user u) = record {
        claims = c;
        validated = valid;
        versioned = versioned;
        same_subject = refl;
        may_identify = sub;
        granted = user_claims_for_allowed-Allowed env.issuer u (claims_of_token c);
      }

      by_subject :
          (c : Claims)
          → (validate_access_token b env bearer w).1 ≡ finished c
          → (c.auth_version == 0) ≡ false
          → contains (claims_of_token c) "sub" ≡ true
          → (id : Option String) → Discloses w (shown_to b env c (claims_of_token c) id)
      by_subject c valid versioned sub none = tt
      by_subject c valid versioned sub (some id) =
          by_answer c valid versioned sub (env.get_user 1 id)

      by_outcome :
          (o : Outcome TokenError Claims)
          → (validate_access_token b env bearer w).1 ≡ o
          → Discloses w (user_info_of b env o)
      by_outcome (failed e) valid = tt
      by_outcome (finished c) valid = elim (Bool-cases (c.auth_version == 0)) [
        | inl unversioned ↦ rw unversioned tt
        | inr versioned ↦ rw versioned (
            if_cases (Discloses w) (contains (claims_of_token c) "sub")
              (λ sub. by_subject c valid versioned sub (env.parse_uuid c.subject)) tt)
      ]

-- UserInfo answers with claims. Then the bearer token validates, the answer is about its subject, the
-- claim names of the token include "sub", and each further claim is one of these names.
pub granted_user_info :
    {C G R D : Type 0} (b : Backends C G R D) (env : Env) (bearer : String) (w : World C G R D)
    (sub : String) (info : List (String × ClaimValue))
    → user_info_handler b env bearer w ≡ user_info sub info
    → GrantedClaims b env bearer w sub info
unfolding Discloses
granted_user_info b env bearer w sub info h = rw h at (user_info-Discloses b env bearer w)
