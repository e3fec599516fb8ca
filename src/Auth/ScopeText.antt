-- ===== src/Auth/ScopeText.antt =====
-- internal/auth: scopes as one text. joinScopes, strings.Fields on it, and parseAndValidateScopes.
use Prim.Native.Char.{Char, code}
use nyauth.Common.{
  Bool, true, false, List, [], ◌∷◌, Option, none, some, if◌then◌else◌, ltb, ◌==◌, String, contains,
}
use nyauth.Common.Text.{is_space}

unfoldable pub append : String → String → String
append String.[] t = t
append (String.◌∷◌ c s) t = String.◌∷◌ c (append s t)

-- joinScopes.
unfoldable pub join_scopes : List String → String
unfolding append
join_scopes [] = ""
join_scopes (s ∷ []) = s
join_scopes (s ∷ t ∷ ts) = append s (append " " (join_scopes (t ∷ ts)))

abbrev pub next_word : String → List String → List String
next_word String.[] words = words
next_word (String.◌∷◌ c s) words = String.◌∷◌ c s ∷ words

abbrev pub add_char : Char → String × List String → String × List String
add_char c (word, words) = (String.◌∷◌ c word, words)

abbrev pub break_word : String × List String → String × List String
break_word (word, words) = ("", next_word word words)

-- The first word, up to a space, and the words after it.
unfoldable pub split_words : String → String × List String
unfolding is_space
split_words String.[] = ("", [])
split_words (String.◌∷◌ c s) =
    let rest = split_words s in if is_space (code c) then break_word rest else add_char c rest

-- strings.Fields.
unfoldable pub words : String → List String
unfolding split_words
words s = next_word (split_words s).0 (split_words s).1

-- The order of Go strings, on code points.
unfoldable pub string_le : String → String → Bool
string_le String.[] t = true
string_le (String.◌∷◌ c s) String.[] = false
string_le (String.◌∷◌ c s) (String.◌∷◌ d t) =
    let rest = string_le s t in
    if ltb (code c) (code d) then true else if code c == code d then rest else false

unfoldable pub insert_string : String → List String → List String
unfolding string_le
insert_string s [] = s ∷ []
insert_string s (t ∷ ts) =
    let rest = insert_string s ts in if string_le s t then s ∷ t ∷ ts else t ∷ rest

-- sort.Strings.
unfoldable pub sort_strings : List String → List String
unfolding insert_string
sort_strings [] = []
sort_strings (s ∷ ss) = insert_string s (sort_strings ss)

-- The loop of parseAndValidateScopes; both of its errors are the same to every caller.
unfoldable pub allowed_once : List String → List String → List String → Bool
unfolding contains
allowed_once allowed seen [] = true
allowed_once allowed seen (s ∷ ss) =
    let rest = allowed_once allowed (s ∷ seen) ss in
    if contains allowed s then (if contains seen s then false else rest) else false

-- parseAndValidateScopes.
unfoldable pub parse_and_validate_scopes : String → List String → Option (List String)
unfolding words sort_strings allowed_once
parse_and_validate_scopes raw allowed =
    if allowed_once allowed [] (words raw) then some (sort_strings (words raw)) else none
