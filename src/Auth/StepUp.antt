-- ===== src/Auth/StepUp.antt =====
-- internal/oauthstepup/acr.go: authentication contexts and max_age.
use nyauth.Common.{
  ℕ, ◌+◌, ◌-◌, ◌*◌, Bool, true, false, List, [], ◌∷◌, Option, none, some, if◌then◌else◌, ltb, leb,
  ◌==◌, not, ◌&&◌, ◌||◌, length,
}
use nyauth.Common.Text.{Text, codes, text_eq, is_empty, is_space, trim_space}
use nyauth.Common.Time.{second, minute, hour}

abbrev pub acr_level1 : Text
acr_level1 = codes "urn:nyauth:loa:1"

abbrev pub acr_level2 : Text
acr_level2 = codes "urn:nyauth:loa:2"

abbrev pub max_acr_values : ℕ
max_acr_values = 4

-- MaxAge.
abbrev pub max_age_limit : ℕ
max_age_limit = 30 * (24 * hour)

-- NormalizeContext.
unfoldable pub normalize_context : Text → Text
unfolding trim_space
normalize_context value = if text_eq (trim_space value) acr_level2 then acr_level2 else acr_level1

-- Satisfies.
unfoldable pub satisfies : Text → Text → Bool
unfolding trim_space
satisfies c required =
    let r = trim_space required in
    if is_empty r || text_eq r acr_level1
    then true
    else if text_eq r acr_level2
    then text_eq c acr_level2
    else false

-- strings.Fields.
unfoldable pub next_field : Text → List Text → List Text
next_field [] fields = fields
next_field (c ∷ word) fields = (c ∷ word) ∷ fields

-- The first word, up to a space, and the fields after it.
unfoldable pub split_fields : Text → Text × List Text
unfolding next_field is_space
split_fields [] = ([], [])
split_fields (c ∷ s) =
    let (word, rest) = split_fields s in
    if is_space c then ([], next_field word rest) else (c ∷ word, rest)

unfoldable pub fields : Text → List Text
unfolding split_fields
fields s = next_field (split_fields s).0 (split_fields s).1

-- A lookup in the map of the values seen.
unfoldable pub seen_value : Text → List Text → Bool
seen_value v [] = false
seen_value v (s ∷ seen) = text_eq v s || seen_value v seen

pub data AcrError : Type 0 where
  too_many unsupported duplicate : AcrError

pub data Parsed (A : Type 0) : Type 0 where
  parsed : A → Parsed A
  refused : AcrError → Parsed A

abbrev pub with_value : Text → Parsed (List Text) → Parsed (List Text)
with_value v (parsed vs) = parsed (v ∷ vs)
with_value v (refused e) = refused e

-- The loop of ParseACRValues.
unfoldable pub check_values : List Text → List Text → Parsed (List Text)
unfolding seen_value
check_values seen [] = parsed []
check_values seen (v ∷ vs) =
    let rest = check_values (v ∷ seen) vs in
    if not (text_eq v acr_level1) && not (text_eq v acr_level2)
    then refused unsupported
    else if seen_value v seen
    then refused duplicate
    else with_value v rest

-- ParseACRValues; no fields give a nil slice.
unfoldable pub parse_acr_values : Text → Parsed (List Text)
unfolding check_values fields
parse_acr_values raw =
    let fs = fields raw in
    if ltb max_acr_values (length fs) then refused too_many else check_values [] fs

-- RequiredContext.
unfoldable pub required_context : List Text → Text
required_context [] = []
required_context (v ∷ vs) =
    let rest = required_context vs in
    if text_eq v acr_level1 || text_eq v acr_level2 then v else rest

-- The value of ParseInt in base 10 on a text without a sign, over the number read so far.
unfoldable pub parse_digits : ℕ → Text → Option ℕ
parse_digits n [] = some n
parse_digits n (c ∷ s) =
    let rest = parse_digits (n * 10 + (c - b'0')) s in
    if leb b'0' c && leb c b'9' then rest else none

abbrev pub in_int64 : Option ℕ → Option ℕ
in_int64 none = none
in_int64 (some n) = if ltb n 0x8000000000000000 then some n else none

pub data MaxAge : Type 0 where
  no_max_age : MaxAge
  max_age : ℕ → MaxAge
  invalid_max_age above_limit : MaxAge

abbrev pub limited : Option ℕ → MaxAge
limited none = invalid_max_age
limited (some n) = if ltb 2592000 n then above_limit else max_age (n * second)

abbrev pub has_sign : Text → Bool
has_sign [] = false
has_sign (c ∷ s) = c == b'+' || c == b'-'

-- ParseMaxAge.
unfoldable pub parse_max_age : Text → MaxAge
unfolding trim_space parse_digits
parse_max_age raw =
    let s = trim_space raw in
    if is_empty s
    then no_max_age
    else if has_sign s
    then invalid_max_age
    else limited (in_int64 (parse_digits 0 s))

-- Fresh, on times in nanoseconds; the zero time is none.
unfoldable pub fresh : Option ℕ → ℕ → Option ℕ → Bool
fresh at now none = true
fresh none now (some age) = false
fresh (some t) now (some age) = if ltb (now + minute) t then false else leb now (t + age)
