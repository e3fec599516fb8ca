-- ===== src/Auth/Resolve.antt =====
-- internal/auth/consent.go and token.go: which scopes a consent grants, and when scopes are a subset.
use nyauth.Common.{
  ◌≡◌, ◌↔◌, inl, inr, refl, Bool, true, false, List, [], ◌∷◌, Option, none, some, arith, not, ◌&&◌,
  ◌||◌, String, str_eq, str_eq_iff, contains, Bool-cases, if_cases, ap, subst,
}
use nyauth.Auth.Scopes.{
  no_repetition, may_be_optional, all_in, granted_scopes, resolve_granted_scopes, scopes_are_subset,
  intersect_scopes,
}
use nyauth.Auth.Grants.{
  Distinct, Optional, Included, no_repetition_sound, no_repetition_complete, may_be_optional_sound,
  may_be_optional_complete, all_in_sound, all_in_complete,
}

-- What the lists of a consent must be: no repetition, the optional scopes among the requested ones and
-- without openid, and the selected scopes among the optional ones.
abbrev pub WellFormed : List String → List String → List String → Type 0
WellFormed requested optional selected =
    Distinct requested
    × Optional requested optional
    × Distinct optional
    × Included selected optional
    × Distinct selected

-- Membership in the scopes granted.
abbrev pub Grants : List String → List String → List String → List String → Type 0
Grants requested optional selected granted =
    (s : String)
    → contains granted s
      ≡ (contains requested s && (not (contains optional s) || contains selected s))

abbrev pub Resolved : List String → List String → List String → Option (List String) → Type 0
Resolved requested optional selected none = ¬ WellFormed requested optional selected
Resolved requested optional selected (some granted) =
    WellFormed requested optional selected
    × Grants requested optional selected granted
    × (contains granted "openid" ≡ contains requested "openid")

kept_test :
    (here later c d : Bool)
    → (here ≡ true → c ≡ true)
    → (here || (later && c)) ≡ ((here || later) && c)
kept_test true later c d h = rw (h refl) refl
kept_test false later c d h = refl

dropped_test :
    (here later c : Bool) → (here ≡ true → c ≡ false) → (later && c) ≡ ((here || later) && c)
dropped_test true true c h = refl
dropped_test true false c h = rw (h refl) refl
dropped_test false later c h = refl

granted_scopes-Grants :
    (optional selected requested : List String)
    → Grants requested optional selected (granted_scopes optional selected requested)
unfolding granted_scopes contains
granted_scopes-Grants optional selected [] s = refl
granted_scopes-Grants optional selected (t ∷ ts) s =
    let ih = granted_scopes-Grants optional selected ts s in
    let c = λ (u : String). not (contains optional u) || contains selected u in
    if_cases (λ granted. contains granted s ≡ ((str_eq t s || contains ts s) && c s))
      (not (contains optional t) || contains selected t)
      (λ y.
        rw ih
          (kept_test (str_eq t s) (contains ts s) (c s) true (λ h. rw ((str_eq_iff t s).0 h) at y)))
      (λ n.
        rw ih
          (dropped_test (str_eq t s) (contains ts s) (c s) (λ h. rw ((str_eq_iff t s).0 h) at n)))

tests_hold :
    (a b c d e : Bool)
    → (a && (b && (c && (d && e)))) ≡ true
    → (a ≡ true) × (b ≡ true) × (c ≡ true) × (d ≡ true) × (e ≡ true)
tests_hold a b c d e h = ground arith

tests_fail :
    (a b c d e : Bool)
    → (a && (b && (c && (d && e)))) ≡ false
    → a ≡ true
    → b ≡ true
    → c ≡ true
    → d ≡ true
    → e ≡ true
    → ⊥
tests_fail a b c d e h i j k l m = ground arith

openid_kept : (a b c : Bool) → b ≡ false → (a && (not b || c)) ≡ a
openid_kept a b c h = ground arith

openid_never :
    (requested optional : List String)
    → Optional requested optional
    → contains optional "openid" ≡ false
openid_never requested optional h = elim (Bool-cases (contains optional "openid")) [
  | inl y ↦ absurd ((h "openid" y).1 refl)
  | inr n ↦ n
]

-- resolveGrantedScopes refuses exactly the lists that are not well formed. On the others it grants the
-- requested scopes that are not optional or are selected, no other, and openid whenever it is
-- requested.
pub resolve_granted_scopes-Resolved :
    (requested optional selected : List String)
    → Resolved requested optional selected (resolve_granted_scopes requested optional selected)
unfolding resolve_granted_scopes
resolve_granted_scopes-Resolved requested optional selected =
    if_cases (Resolved requested optional selected)
      (no_repetition [] requested
        && (may_be_optional requested optional
            && (no_repetition [] optional
                && (all_in optional selected && no_repetition [] selected))))
      (λ h.
        let (a, b, c, d, e) =
          tests_hold (no_repetition [] requested) (may_be_optional requested optional)
            (no_repetition [] optional) (all_in optional selected) (no_repetition [] selected) h in
        let optional_ok = may_be_optional_sound requested optional b in
        let grants = granted_scopes-Grants optional selected requested in
        (
          (
            (no_repetition_sound [] requested a).0,
            optional_ok,
            (no_repetition_sound [] optional c).0,
            all_in_sound optional selected d,
            (no_repetition_sound [] selected e).0,
          ),
          grants,
          rw (grants "openid") (
              openid_kept (contains requested "openid") (contains optional "openid")
                (contains selected "openid") (openid_never requested optional optional_ok)),
        ))
      (λ h (p, q, r, s, t).
        tests_fail (no_repetition [] requested) (may_be_optional requested optional)
          (no_repetition [] optional) (all_in optional selected) (no_repetition [] selected) h
          (no_repetition_complete [] requested p (nothing_seen requested))
          (may_be_optional_complete requested optional q)
          (no_repetition_complete [] optional r (nothing_seen optional))
          (all_in_complete optional selected s)
          (no_repetition_complete [] selected t (nothing_seen selected)))
  where
    nothing_seen : (ss : List String) (s : String) → contains ss s ≡ true → contains [] s ≡ false
    nothing_seen ss s k = refl

intersect-subset :
    (requested allowed : List String)
    → all_in allowed requested ≡ true
    → intersect_scopes requested allowed ≡ requested
unfolding all_in intersect_scopes
intersect-subset [] allowed h = refl
intersect-subset (s ∷ ss) allowed h = elim (Bool-cases (contains allowed s)) [
  | inl y ↦
      let rest : all_in allowed ss ≡ true = rw y at h in
      rw y (ap (λ t. s ∷ t) (intersect-subset ss allowed rest))
  | inr n ↦ let no : false ≡ true = rw n at h in absurd (cc)
]

intersect-Included :
    (requested allowed : List String) → Included (intersect_scopes requested allowed) allowed
unfolding intersect_scopes contains
intersect-Included [] allowed s = λ k. absurd (cc)
intersect-Included (t ∷ ts) allowed s =
    if_cases (λ r. contains r s ≡ true → contains allowed s ≡ true) (contains allowed t)
      (λ y k. elim (Bool-cases (str_eq t s)) [
        | inl e ↦ rw ((str_eq_iff t s).0 e) at y
        | inr n ↦ intersect-Included ts allowed s (rw n at k)
      ])
      (λ _. intersect-Included ts allowed s)

-- scopesAreSubset accepts exactly the scopes that intersectScopes leaves as they are.
pub scopes_are_subset_iff :
    (requested allowed : List String)
    → (scopes_are_subset requested allowed ≡ true)
      ↔ (intersect_scopes requested allowed ≡ requested)
unfolding scopes_are_subset
scopes_are_subset_iff requested allowed = (
  intersect-subset requested allowed,
  λ h.
      all_in_complete allowed requested
        (subst (λ r. Included r allowed) h (intersect-Included requested allowed)),
)
