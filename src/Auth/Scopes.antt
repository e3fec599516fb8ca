-- ===== src/Auth/Scopes.antt =====
-- internal/auth: scopes as lists without repetition.
use nyauth.Common.{
  Bool, true, false, List, [], ◌∷◌, Option, none, some, if◌then◌else◌, not, ◌&&◌, ◌||◌, String,
  str_eq, contains,
}

-- The loops of resolveGrantedScopes. `seen` holds the keys of the map that the loop fills.
unfoldable pub no_repetition : List String → List String → Bool
unfolding contains
no_repetition seen [] = true
no_repetition seen (s ∷ ss) =
    let rest = no_repetition (s ∷ seen) ss in if contains seen s then false else rest

-- requestedSet[scope], and not "openid".
unfoldable pub may_be_optional : List String → List String → Bool
unfolding contains
may_be_optional requested [] = true
may_be_optional requested (s ∷ ss) =
    let rest = may_be_optional requested ss in
    if not (contains requested s) || str_eq s "openid" then false else rest

unfoldable pub all_in : List String → List String → Bool
unfolding contains
all_in allowed [] = true
all_in allowed (s ∷ ss) = let rest = all_in allowed ss in if contains allowed s then rest else false

-- A scope that is optional is granted where it is selected.
unfoldable pub granted_scopes : List String → List String → List String → List String
unfolding contains
granted_scopes optional selected [] = []
granted_scopes optional selected (s ∷ ss) =
    let rest = granted_scopes optional selected ss in
    if not (contains optional s) || contains selected s then s ∷ rest else rest

-- resolveGrantedScopes. The source tests each element of a list for membership and repetition in one
-- loop; as every refusal is the same error, the two tests are two loops here.
unfoldable pub resolve_granted_scopes :
    List String → List String → List String → Option (List String)
unfolding no_repetition may_be_optional all_in granted_scopes
resolve_granted_scopes requested optional selected =
    if no_repetition [] requested
      && (may_be_optional requested optional
          && (no_repetition [] optional && (all_in optional selected && no_repetition [] selected)))
    then some (granted_scopes optional selected requested)
    else none

-- scopesAreSubset.
unfoldable pub scopes_are_subset : List String → List String → Bool
unfolding all_in
scopes_are_subset requested allowed = all_in allowed requested

-- intersectScopes.
unfoldable pub intersect_scopes : List String → List String → List String
unfolding contains
intersect_scopes [] allowed = []
intersect_scopes (s ∷ ss) allowed =
    let rest = intersect_scopes ss allowed in if contains allowed s then s ∷ rest else rest

-- withoutScope.
unfoldable pub without_scope : List String → String → List String
without_scope [] excluded = []
without_scope (s ∷ ss) excluded =
    let rest = without_scope ss excluded in if str_eq s excluded then rest else s ∷ rest
