-- ===== src/Auth/StepUpLaws.antt =====
-- internal/oauthstepup/acr.go: what a context satisfies.
use nyauth.Common.{
  ◌≡◌, ◌↔◌, ◌⊎◌, inl, inr, refl, sym, ◌∙◌, Bool, true, false, [], ◌∷◌, arith, if◌then◌else◌, ◌||◌,
  Bool-cases,
}
use nyauth.Common.Text.{Text, text_eq, text_eq→eq, is_empty, trim_space}
use nyauth.Auth.StepUp.{acr_level1, acr_level2, normalize_context, satisfies}

-- What a required context asks of a stored one.
abbrev pub Satisfied : Text → Text → Type 0
Satisfied value required =
    ((trim_space required ≡ []) ⊎ (trim_space required ≡ acr_level1))
    ⊎ ((trim_space required ≡ acr_level2) × (trim_space value ≡ acr_level2))

empty_text : (s : Text) → is_empty s ≡ true → s ≡ []
empty_text [] h = refl
empty_text (c ∷ s) h = cc

either : (a b : Bool) → (a || b) ≡ true → (a ≡ true) ⊎ (b ≡ true)
either a b h = ground arith

normalized :
    (s : Text)
    → text_eq (if text_eq s acr_level2 then acr_level2 else acr_level1) acr_level2
      ≡ text_eq s acr_level2
normalized s = elim (Bool-cases (text_eq s acr_level2)) [ inl e ↦ rw e refl | inr e ↦ rw e refl ]

-- A stored context, normalised, satisfies a required one exactly if the requirement is empty or level 1,
-- or if both are level 2, spaces around them left aside: an unknown stored value never counts
-- as level 2, and an unknown requirement is never satisfied.
pub satisfies-normalize_context :
    (value required : Text)
    → (satisfies (normalize_context value) required ≡ true) ↔ Satisfied value required
unfolding satisfies normalize_context
satisfies-normalize_context value required = by_tests (trim_space required) (trim_space value)
  where
    by_tests :
        (r v : Text)
        → ((if is_empty r || text_eq r acr_level1
              then true
              else if text_eq r acr_level2
              then text_eq (if text_eq v acr_level2 then acr_level2 else acr_level1) acr_level2
              else false)
            ≡ true)
          ↔ (((r ≡ []) ⊎ (r ≡ acr_level1)) ⊎ ((r ≡ acr_level2) × (v ≡ acr_level2)))
    by_tests r v = (
      λ h. elim (Bool-cases (is_empty r || text_eq r acr_level1)) [
        | inl e ↦ elim (either (is_empty r) (text_eq r acr_level1) e) [
          | inl k ↦ inl (inl (empty_text r k))
          | inr k ↦ inl (inr (text_eq→eq r acr_level1 k))
        ]
        | inr n ↦ elim (Bool-cases (text_eq r acr_level2)) [
          | inl k ↦
              let m : text_eq v acr_level2 ≡ true = sym (normalized v) ∙ (rw (n, k) at h) in
              inr (text_eq→eq r acr_level2 k, text_eq→eq v acr_level2 m)
          | inr k ↦ let no : false ≡ true = rw (n, k) at h in absurd (cc)
        ]
      ],
      λ s. elim s [
        | inl (inl e) ↦ rw e refl
        | inl (inr e) ↦ rw e refl
        | inr (e, k) ↦ rw (e, k) refl
      ],
    )
