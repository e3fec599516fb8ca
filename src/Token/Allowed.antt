-- ===== src/Token/Allowed.antt =====
-- internal/auth/handler.go: the scopes that parseAndValidateScopes and withoutScope leave.
use nyauth.Common.{
  ◌≡◌, refl, Bool, true, false, List, [], ◌∷◌, none, some, arith, if◌then◌else◌, String, str_eq,
  contains, if_cases,
}
use nyauth.Auth.Scopes.{all_in, without_scope}
use nyauth.Auth.ScopeText.{
  words, string_le, insert_string, sort_strings, allowed_once, parse_and_validate_scopes,
}
use nyauth.Auth.Grants.{all_in_complete}

both_in : (a c : Bool) → (if a then c else false) ≡ true → (a ≡ true) × (c ≡ true)
both_in a c h = ground arith

branch :
    (a c d : Bool)
    → (if a then (if c then false else d) else false) ≡ true
    → (a ≡ true) × (d ≡ true)
branch a c d h = ground arith

-- Membership in a list of allowed scopes, along the steps of parseAndValidateScopes.
once_in :
    (allowed seen ss : List String) → allowed_once allowed seen ss ≡ true → all_in allowed ss ≡ true
unfolding allowed_once all_in
once_in allowed seen [] h = refl
once_in allowed seen (s ∷ ss) h =
    let (here, rest) =
      branch (contains allowed s) (contains seen s) (allowed_once allowed (s ∷ seen) ss) h in
    rw here (once_in allowed (s ∷ seen) ss rest)

inserted_in :
    (allowed : List String) (s : String) (ss : List String)
    → contains allowed s ≡ true
    → all_in allowed ss ≡ true
    → all_in allowed (insert_string s ss) ≡ true
unfolding insert_string all_in
inserted_in allowed s [] here h = rw here refl
inserted_in allowed s (t ∷ ts) here h =
    let (first, rest) = both_in (contains allowed t) (all_in allowed ts) h in
    if_cases (λ (l : List String). all_in allowed l ≡ true) (string_le s t) {x = s ∷ t ∷ ts}
      {y = t ∷ insert_string s ts} (λ _. rw (here, first) rest)
      (λ _. rw first (inserted_in allowed s ts here rest))

sorted_in :
    (allowed ss : List String) → all_in allowed ss ≡ true → all_in allowed (sort_strings ss) ≡ true
unfolding sort_strings all_in
sorted_in allowed [] h = refl
sorted_in allowed (s ∷ ss) h =
    let (here, rest) = both_in (contains allowed s) (all_in allowed ss) h in
    inserted_in allowed s (sort_strings ss) here (sorted_in allowed ss rest)

-- Every scope that parseAndValidateScopes returns is allowed.
pub parsed_in :
    (raw : String) (allowed ss : List String)
    → parse_and_validate_scopes raw allowed ≡ some ss
    → all_in allowed ss ≡ true
unfolding parse_and_validate_scopes
parsed_in raw allowed ss = by_test (allowed_once allowed [] (words raw)) refl
  where
    by_test :
        (t : Bool)
        → allowed_once allowed [] (words raw) ≡ t
        → (if t then some (sort_strings (words raw)) else none) ≡ some ss
        → all_in allowed ss ≡ true
    by_test true e h =
        let same : sort_strings (words raw) ≡ ss = cc in
        rw same at (sorted_in allowed (words raw) (once_in allowed [] (words raw) e))
    by_test false e h = absurd (cc)

pub own_in : (ss : List String) → all_in ss ss ≡ true
own_in ss = all_in_complete ss ss (λ s k. k)

pub without_in :
    (allowed ss : List String) (x : String)
    → all_in allowed ss ≡ true
    → (all_in allowed (without_scope ss x) ≡ true) × (contains (without_scope ss x) x ≡ false)
unfolding without_scope all_in contains
without_in allowed [] x h = (refl, refl)
without_in allowed (s ∷ ss) x h =
    let (here, rest) = both_in (contains allowed s) (all_in allowed ss) h in
    let (inside, absent) = without_in allowed ss x rest in
    let P : List String → Type 0 = λ l. (all_in allowed l ≡ true) × (contains l x ≡ false) in
    if_cases P (str_eq s x) (λ _. (inside, absent)) (λ n. (rw here inside, rw n absent))
