-- ===== src/Token/Clients.antt =====
-- pkg/models/client.go: HasGrant and HasRedirectURI, and internal/auth/handler.go: how a request
-- authenticates its client.
use nyauth.Common.{
  ℕ, ◌+◌, Bool, true, false, List, [], ◌∷◌, Option, none, some, if◌then◌else◌, leb, ◌==◌, not, ◌&&◌,
  ◌||◌, String, str_eq, map,
}
use nyauth.Common.Text.{codes, text_eq}
use nyauth.Token.{OauthClient, Form, Env}
use nyauth.Token.Exec.{Outcome, finished, failed}

-- Folding of a rune whose folding is ASCII: the capitals, the Kelvin sign and the long s.
abbrev pub fold_rune : ℕ → ℕ
fold_rune c =
    if leb b'A' c && leb c b'Z'
    then c + 32
    else if c == 0x212a
    then b'k'
    else if c == 0x17f
    then b's'
    else c

-- strings.EqualFold against an ASCII constant.
unfoldable pub equal_fold : String → String → Bool
equal_fold s t = text_eq (map fold_rune (codes s)) (map fold_rune (codes t))

unfoldable pub any_equal_fold : List String → String → Bool
unfolding equal_fold
any_equal_fold [] target = false
any_equal_fold (g ∷ gs) target = equal_fold g target || any_equal_fold gs target

-- HasGrant.
unfoldable pub has_grant : OauthClient → String → Bool
unfolding any_equal_fold
has_grant cl grant = any_equal_fold cl.grants grant

-- HasRedirectURI.
unfoldable pub any_equal : List String → String → Bool
any_equal [] uri = false
any_equal (u ∷ us) uri = str_eq u uri || any_equal us uri

unfoldable pub has_redirect_uri : OauthClient → String → Bool
unfolding any_equal
has_redirect_uri cl uri = any_equal cl.redirect_uris uri

abbrev pub is_blank : String → Bool
is_blank s = str_eq s ""

-- The client's id and secret in the form or in the Basic credentials, where a request may have one of
-- the two.
unfoldable pub client_credentials : Form → Option (String × String)
client_credentials form = chosen form.basic
  where
    chosen : Option (String × String) → Option (String × String)
    chosen none =
        if is_blank form.client_id then none else some (form.client_id, form.client_secret)
    chosen (some pair) =
        if not (is_blank form.client_id) || not (is_blank form.client_secret)
        then none
        else some pair

-- The client id that authenticateTokenClient returns beside an error, where no id was expected.
unfoldable pub named_client : Form → String
unfolding client_credentials
named_client form = elim (client_credentials form) [ none ↦ "" | some (named, secret) ↦ named ]

abbrev pub has_basic : Form → Bool
has_basic form = elim (form.basic) [ none ↦ false | some pair ↦ true ]

-- The client that a request proves to be, and the client id that it names.
pub record Authenticated : Type 0 where
  pub client : OauthClient
  pub client_id : String

module _ (env : Env) where
  abbrev pub secret_result : String → Option OauthClient → Outcome Unit Authenticated
  secret_result client_id none = failed tt
  secret_result client_id (some cl) = finished (record { client = cl; client_id = client_id })

  -- The tests after clientStore.GetByID.
  unfoldable pub authenticate_found :
      Bool → Bool → String → String → Option OauthClient → Outcome Unit Authenticated
  authenticate_found allow_public basic client_id secret none = failed tt
  authenticate_found allow_public basic client_id secret (some cl) =
      if cl.is_public
      then if allow_public && (not basic && is_blank secret)
        then finished (record { client = cl; client_id = client_id })
        else failed tt
      else if is_blank secret
      then failed tt
      else secret_result client_id (env.authenticate_client client_id secret)

  abbrev pub expected_client : String → String → String
  expected_client named expected = if is_blank named then expected else named

  unfoldable pub authenticate_named :
      Bool → Bool → String → Option (String × String) → Outcome Unit Authenticated
  unfolding authenticate_found
  authenticate_named allow_public basic expected none = failed tt
  authenticate_named allow_public basic expected (some (named, secret)) =
      let client_id = expected_client named expected in
      if is_blank client_id || (not (is_blank expected) && not (str_eq client_id expected))
      then failed tt
      else authenticate_found allow_public basic client_id secret (env.get_client client_id)

  -- authenticateTokenClient.
  unfoldable pub authenticate_token_client : Form → String → Bool → Outcome Unit Authenticated
  unfolding client_credentials authenticate_named
  authenticate_token_client form expected allow_public =
      authenticate_named allow_public (has_basic form) expected (client_credentials form)
