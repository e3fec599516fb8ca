-- ===== src/Auth/Grants.antt =====
-- internal/auth/consent.go: what resolveGrantedScopes grants, against a description by membership.
use nyauth.Common.{
  ◌≡◌, ◌≢◌, inl, inr, refl, Bool, true, false, List, [], ◌∷◌, arith, if◌then◌else◌, not, ◌||◌,
  String, str_eq, str_eq_iff, str_eq_refl, contains, Bool-cases,
}
use nyauth.Auth.Scopes.{no_repetition, may_be_optional, all_in}

abbrev pub Distinct : List String → Type 0
Distinct [] = Unit
Distinct (s ∷ ss) = (contains ss s ≡ false) × Distinct ss

abbrev Apart : List String → List String → Type 0
Apart ss seen = (s : String) → contains ss s ≡ true → contains seen s ≡ false

if_false : (b c : Bool) → (if b then false else c) ≡ true → (b ≡ false) × (c ≡ true)
if_false b c h = ground arith

if_true : (b c : Bool) → (if b then c else false) ≡ true → (b ≡ true) × (c ≡ true)
if_true b c h = ground arith

either : (a b : Bool) → (a || b) ≡ true → a ≡ false → b ≡ true
either a b h k = ground arith

neither : (a b : Bool) → (a || b) ≡ false → (a ≡ false) × (b ≡ false)
neither a b h = ground arith

contains_here : (s : String) (ss : List String) → contains (s ∷ ss) s ≡ true
unfolding contains
contains_here s ss = rw (str_eq_refl s) refl

contains_there :
    (t s : String) (ss : List String) → contains ss s ≡ true → contains (t ∷ ss) s ≡ true
unfolding contains
contains_there t s ss h = let b = str_eq t s in ground (arith, h)

pub no_repetition_sound :
    (seen ss : List String) → no_repetition seen ss ≡ true → Distinct ss × Apart ss seen
unfolding no_repetition contains
no_repetition_sound seen [] h = (tt, λ s k. absurd (cc))
no_repetition_sound seen (t ∷ ss) h =
    let (new, rest) = if_false (contains seen t) (no_repetition (t ∷ seen) ss) h in
    let (distinct, apart) = no_repetition_sound (t ∷ seen) ss rest in
    (
      (
        elim (Bool-cases (contains ss t)) [
          | inl y ↦
              let no = (neither (str_eq t t) (contains seen t) (apart t y)).0 in
              let yes = str_eq_refl t in absurd (cc)
          | inr n ↦ n
        ],
        distinct,
      ),
      λ s k. elim (Bool-cases (str_eq t s)) [
        | inl y ↦ rw ((str_eq_iff t s).0 y) at new
        | inr n ↦
            (neither (str_eq t s) (contains seen s)
              (apart s (either (str_eq t s) (contains ss s) k n))).1
      ],
    )

pub no_repetition_complete :
    (seen ss : List String) → Distinct ss → Apart ss seen → no_repetition seen ss ≡ true
unfolding no_repetition contains
no_repetition_complete seen [] d apart = refl
no_repetition_complete seen (t ∷ ss) (new, d) apart =
    let unseen : contains seen t ≡ false = apart t (contains_here t ss) in
    rw unseen (
      no_repetition_complete (t ∷ seen) ss d λ s k. elim (Bool-cases (str_eq t s)) [
        | inl y ↦
            let same : t ≡ s = (str_eq_iff t s).0 y in
            let clash : contains ss s ≡ false = rw same at new in absurd (cc)
        | inr n ↦ rw (n, apart s (contains_there t s ss k)) refl
      ])

-- What the optional scopes must be.
abbrev pub Optional : List String → List String → Type 0
Optional requested optional =
    (s : String) → contains optional s ≡ true → (contains requested s ≡ true) × (s ≢ "openid")

optional_test :
    (a b c : Bool)
    → (if not a || b then false else c) ≡ true
    → (a ≡ true) × (b ≡ false) × (c ≡ true)
optional_test a b c h = ground arith

test_optional :
    (a b c : Bool) → a ≡ true → b ≡ false → c ≡ true → (if not a || b then false else c) ≡ true
test_optional a b c h k l = ground arith

not_str_eq : (a b : String) → str_eq a b ≡ false → a ≢ b
not_str_eq a b n h = let y = (str_eq_iff a b).1 h in cc

str_neq : (a b : String) → a ≢ b → str_eq a b ≡ false
str_neq a b h = elim (Bool-cases (str_eq a b)) [
  | inl y ↦ absurd (h ((str_eq_iff a b).0 y))
  | inr n ↦ n
]

pub may_be_optional_sound :
    (requested ss : List String) → may_be_optional requested ss ≡ true → Optional requested ss
unfolding may_be_optional contains
may_be_optional_sound requested [] h s k = absurd (cc)
may_be_optional_sound requested (t ∷ ss) h s k =
    let (r, o, rest) =
      optional_test (contains requested t) (str_eq t "openid") (may_be_optional requested ss) h in
    elim (Bool-cases (str_eq t s)) [
      | inl y ↦
          let same : t ≡ s = (str_eq_iff t s).0 y in
          (rw same at r, rw same at (not_str_eq t "openid" o))
      | inr n ↦ may_be_optional_sound requested ss rest s (either (str_eq t s) (contains ss s) k n)
    ]

pub may_be_optional_complete :
    (requested ss : List String) → Optional requested ss → may_be_optional requested ss ≡ true
unfolding may_be_optional contains
may_be_optional_complete requested [] h = refl
may_be_optional_complete requested (t ∷ ss) h =
    let (r, o) = h t (contains_here t ss) in
    test_optional (contains requested t) (str_eq t "openid") (may_be_optional requested ss) r
      (str_neq t "openid" o)
      (may_be_optional_complete requested ss λ s k. h s (contains_there t s ss k))

abbrev pub Included : List String → List String → Type 0
Included ss allowed = (s : String) → contains ss s ≡ true → contains allowed s ≡ true

pub all_in_sound : (allowed ss : List String) → all_in allowed ss ≡ true → Included ss allowed
unfolding all_in contains
all_in_sound allowed [] h s k = absurd (cc)
all_in_sound allowed (t ∷ ss) h s k =
    let (a, rest) = if_true (contains allowed t) (all_in allowed ss) h in
    elim (Bool-cases (str_eq t s)) [
      | inl y ↦ rw ((str_eq_iff t s).0 y) at a
      | inr n ↦ all_in_sound allowed ss rest s (either (str_eq t s) (contains ss s) k n)
    ]

pub all_in_complete : (allowed ss : List String) → Included ss allowed → all_in allowed ss ≡ true
unfolding all_in contains
all_in_complete allowed [] h = refl
all_in_complete allowed (t ∷ ss) h =
    rw (h t (contains_here t ss)) (all_in_complete allowed ss λ s k. h s (contains_there t s ss k))
