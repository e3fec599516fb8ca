-- ===== src/Auth/Pkce.antt =====
-- internal/auth/pkce.go.
use nyauth.Common.{
  ℕ, suc, ◌%◌, ◌≤◌, ◌≡◌, ◌↔◌, ◌⊎◌, refl, Bool, true, false, [], ◌∷◌, Option, none, some, arith,
  if◌then◌else◌, ltb, leb, ◌==◌, not, ◌&&◌, ◌||◌, length, All,
}
use nyauth.Common.Text.{Text, codes, text_eq, text_eq→eq, text_eq_refl, len, rune_len}

abbrev pub is_lower_rune : ℕ → Bool
is_lower_rune c = leb b'a' c && leb c b'z'

abbrev pub is_upper_rune : ℕ → Bool
is_upper_rune c = leb b'A' c && leb c b'Z'

abbrev pub is_digit_rune : ℕ → Bool
is_digit_rune c = leb b'0' c && leb c b'9'

-- The test of the loop of validPKCEVerifier.
abbrev pub is_unreserved : ℕ → Bool
is_unreserved c =
    is_lower_rune c
    || (is_upper_rune c
        || (is_digit_rune c || (c == b'-' || (c == b'.' || (c == b'_' || c == b'~')))))

unfoldable pub all_unreserved : Text → Bool
all_unreserved [] = true
all_unreserved (c ∷ s) = is_unreserved c && all_unreserved s

-- validPKCEVerifier.
unfoldable pub valid_pkce_verifier : Text → Bool
unfolding all_unreserved len
valid_pkce_verifier v = if ltb (len v) 43 || ltb 128 (len v) then false else all_unreserved v

-- base64.RawURLEncoding.DecodeString skips line breaks, and needs characters of its alphabet whose
-- number leaves no single one at the end.
unfoldable pub base64_chars : Text → Option ℕ
base64_chars [] = some 0
base64_chars (c ∷ s) = counted (c == 13 || c == 10) (is_alphabet c) (base64_chars s)
  where
    is_alphabet : ℕ → Bool
    is_alphabet c =
        is_lower_rune c || (is_upper_rune c || (is_digit_rune c || (c == b'-' || c == b'_')))

    counted : Bool → Bool → Option ℕ → Option ℕ
    counted skipped inside none = none
    counted skipped inside (some n) =
        if skipped then some n else if inside then some (suc n) else none

abbrev pub whole_bytes : Option ℕ → Bool
whole_bytes none = false
whole_bytes (some n) = not (n % 4 == 1)

-- validPKCEChallenge.
unfoldable pub valid_pkce_challenge : Text → Bool
unfolding base64_chars len
valid_pkce_challenge c = if len c == 43 then whole_bytes (base64_chars c) else false

-- validatePKCE; the challenge that SHA-256 and base64 give for a verifier is a parameter.
unfoldable pub validate_pkce : (Text → Text) → Text → Text → Text → Bool
unfolding valid_pkce_verifier valid_pkce_challenge
validate_pkce s256 verifier challenge method =
    if not (text_eq method (codes "S256"))
      || (not (valid_pkce_verifier verifier) || not (valid_pkce_challenge challenge))
    then false
    else text_eq (s256 verifier) challenge

-- The unreserved characters of RFC 7636, by the numbers of their ranges: ALPHA, DIGIT, and the
-- hyphen, the full stop, the underscore and the tilde.
abbrev pub Unreserved : ℕ → Type 0
Unreserved c =
    ((65 ≤ c) × (c ≤ 90))
    ⊎ ((97 ≤ c) × (c ≤ 122))
    ⊎ ((48 ≤ c) × (c ≤ 57))
    ⊎ (c ≡ 45)
    ⊎ (c ≡ 46)
    ⊎ (c ≡ 95)
    ⊎ (c ≡ 126)

-- A verifier of RFC 7636: 43 to 128 unreserved characters.
abbrev pub Verifier : Text → Type 0
Verifier v = (43 ≤ length v) × (length v ≤ 128) × All Unreserved v

is_unreserved-Unreserved : (c : ℕ) → is_unreserved c ≡ true → Unreserved c
is_unreserved-Unreserved c h = ground arith

Unreserved-is_unreserved : (c : ℕ) → Unreserved c → is_unreserved c ≡ true
Unreserved-is_unreserved c h = ground arith

Unreserved-bytes : (c : ℕ) → Unreserved c → rune_len c ≡ 1
unfolding rune_len
Unreserved-bytes c h = ground arith

both : (a b : Bool) → (a && b) ≡ true → (a ≡ true) × (b ≡ true)
both a b h = ground arith

joined : (a b : Bool) → a ≡ true → b ≡ true → (a && b) ≡ true
joined a b h k = ground arith

all_unreserved_iff : (s : Text) → (all_unreserved s ≡ true) ↔ All Unreserved s
unfolding all_unreserved
all_unreserved_iff [] = ((λ _. tt), λ _. refl)
all_unreserved_iff (c ∷ s) = (
  (λ h.
      let (a, b) = both (is_unreserved c) (all_unreserved s) h in
      (is_unreserved-Unreserved c a, (all_unreserved_iff s).0 b)),
  λ (a, b).
      joined (is_unreserved c) (all_unreserved s) (Unreserved-is_unreserved c a)
        ((all_unreserved_iff s).1 b),
)

len-Unreserved : (s : Text) → All Unreserved s → len s ≡ length s
unfolding len
len-Unreserved [] hs = refl
len-Unreserved (c ∷ s) (h, hs) = omega (arith, Unreserved-bytes c h, len-Unreserved s hs)

sized :
    (n : ℕ) (b : Bool)
    → (if ltb n 43 || ltb 128 n then false else b) ≡ true
    → (43 ≤ n) × (n ≤ 128) × (b ≡ true)
sized n b h = ground arith

resized :
    (n : ℕ) (b : Bool)
    → 43 ≤ n
    → n ≤ 128
    → b ≡ true
    → (if ltb n 43 || ltb 128 n then false else b) ≡ true
resized n b l u h = ground arith

valid_pkce_verifier_iff : (v : Text) → (valid_pkce_verifier v ≡ true) ↔ Verifier v
unfolding valid_pkce_verifier
valid_pkce_verifier_iff v = (
  λ h.
      let (l, u, a) = sized (len v) (all_unreserved v) h in
      let all = (all_unreserved_iff v).0 a in
      let same = len-Unreserved v all in (omega (arith, l, same), omega (arith, u, same), all),
  λ (l, u, all).
      let same = len-Unreserved v all in
      resized (len v) (all_unreserved v) (omega (arith, l, same)) (omega (arith, u, same))
        ((all_unreserved_iff v).1 all),
)

tests_true :
    (a b c d : Bool)
    → (if not a || (not b || not c) then false else d) ≡ true
    → (a ≡ true) × (b ≡ true) × (c ≡ true) × (d ≡ true)
tests_true a b c d h = ground arith

true_tests :
    (a b c d : Bool)
    → a ≡ true
    → b ≡ true
    → c ≡ true
    → d ≡ true
    → (if not a || (not b || not c) then false else d) ≡ true
true_tests a b c d h k l m = ground arith

-- The challenge of a verifier has the form of a challenge, as the base64 text of 32 bytes has. Then
-- validatePKCE accepts exactly this: the method S256, a verifier of 43 to 128 of the
-- characters A-Z, a-z, 0-9, "-", ".", "_" and "~", and the challenge that belongs to it.
pub validate_pkce_iff :
    (s256 : Text → Text) (verifier challenge method : Text)
    → valid_pkce_challenge (s256 verifier) ≡ true
    → (validate_pkce s256 verifier challenge method ≡ true)
      ↔ ((method ≡ codes "S256") × Verifier verifier × (s256 verifier ≡ challenge))
unfolding validate_pkce
validate_pkce_iff s256 verifier challenge method formed = (
  λ h.
      let (m, v, c, e) =
        tests_true (text_eq method (codes "S256")) (valid_pkce_verifier verifier)
          (valid_pkce_challenge challenge) (text_eq (s256 verifier) challenge) h in
      (
        text_eq→eq method (codes "S256") m,
        (valid_pkce_verifier_iff verifier).0 v,
        text_eq→eq (s256 verifier) challenge e,
      ),
  λ (m, v, e).
      true_tests (text_eq method (codes "S256")) (valid_pkce_verifier verifier)
        (valid_pkce_challenge challenge) (text_eq (s256 verifier) challenge)
        (rw m (text_eq_refl (codes "S256"))) ((valid_pkce_verifier_iff verifier).1 v)
        (rw e at formed) (rw e (text_eq_refl challenge)),
)
