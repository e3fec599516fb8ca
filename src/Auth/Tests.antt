-- ===== src/Auth/Tests.antt =====
-- PKCE, scopes and step-up on concrete requests.
use nyauth.Common.{◌≡◌, ◌↔◌, refl, true, List, [], ◌∷◌, String}
use nyauth.Common.Text.{Text, codes, len, rune_len}
use nyauth.Auth.Pkce.{
  valid_pkce_challenge, base64_chars, validate_pkce, Verifier, validate_pkce_iff,
}
use nyauth.Auth.Scopes.{resolve_granted_scopes, scopes_are_subset, intersect_scopes}
use nyauth.Auth.Resolve.{Resolved, resolve_granted_scopes-Resolved, scopes_are_subset_iff}
use nyauth.Auth.StepUp.{normalize_context, satisfies}
use nyauth.Auth.StepUpLaws.{Satisfied, satisfies-normalize_context}

abbrev challenge_text : Text
challenge_text = codes "E9Melhoa2OwvFrEMTJguCHaoeK1t8URWbuGJSstw-cM"

abbrev s256 : Text → Text
s256 v = challenge_text

challenge_formed : valid_pkce_challenge (s256 []) ≡ true
unfolding valid_pkce_challenge base64_chars len rune_len
challenge_formed = refl

abbrev verifier : Text
verifier = codes "dBjftJeZ4CVP-mB92K27uhbUJU1p1r_wW1gFWFOEjXk"

validate_pkce_iff_example :
    (validate_pkce s256 verifier challenge_text (codes "S256") ≡ true)
    ↔ ((codes "S256" ≡ codes "S256") × Verifier verifier × (s256 verifier ≡ challenge_text))
validate_pkce_iff_example =
    validate_pkce_iff s256 verifier challenge_text (codes "S256") challenge_formed

abbrev requested_scopes : List String
requested_scopes = "openid" ∷ "profile" ∷ "email" ∷ []

abbrev optional_scopes : List String
optional_scopes = "profile" ∷ "email" ∷ []

resolve_granted_scopes-Resolved_example :
    Resolved requested_scopes optional_scopes
      ("email" ∷ [])
      (resolve_granted_scopes requested_scopes optional_scopes ("email" ∷ []))
resolve_granted_scopes-Resolved_example =
    resolve_granted_scopes-Resolved requested_scopes optional_scopes ("email" ∷ [])

scopes_are_subset_iff_example :
    (scopes_are_subset optional_scopes requested_scopes ≡ true)
    ↔ (intersect_scopes optional_scopes requested_scopes ≡ optional_scopes)
scopes_are_subset_iff_example = scopes_are_subset_iff optional_scopes requested_scopes

satisfies-normalize_context_example :
    (satisfies (normalize_context (codes " urn:nyauth:loa:2")) (codes "urn:nyauth:loa:2") ≡ true)
    ↔ Satisfied (codes " urn:nyauth:loa:2") (codes "urn:nyauth:loa:2")
satisfies-normalize_context_example =
    satisfies-normalize_context (codes " urn:nyauth:loa:2") (codes "urn:nyauth:loa:2")
