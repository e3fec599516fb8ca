-- ===== src/Device/Codes.antt =====
-- internal/deviceauthorization/store.go: user codes.
use nyauth.Common.{
  ℕ, zero, suc, ◌-◌, Bool, List, [], ◌∷◌, ◌++◌, if◌then◌else◌, ltb, leb, ◌==◌, ◌&&◌, ◌||◌,
}
use nyauth.Common.Text.{Text, codes, trim_space}

abbrev pub user_code_alphabet : Text
user_code_alphabet = codes "23456789BCDFGHJKMNPQRTVWXY"

abbrev pub char_at : Text → ℕ → ℕ
char_at [] i = 0
char_at (c ∷ s) i = elim i [ zero ↦ c | suc j ↦ char_at s j ]

-- randomUserCode, where the two halves are the numbers below 26 that crypto/rand gives.
unfoldable pub chars_at : List ℕ → Text
chars_at [] = []
chars_at (i ∷ is) = char_at user_code_alphabet i ∷ chars_at is

unfoldable pub random_user_code : List ℕ → List ℕ → Text
unfolding chars_at
random_user_code left right = chars_at left ++ b'-' ∷ chars_at right

module _ (unicode_upper : ℕ → ℕ) where
  -- unicode.ToUpper, whose tables above ASCII are a parameter.
  unfoldable pub rune_upper : ℕ → ℕ
  rune_upper c =
      if ltb c 0x80 then (if leb b'a' c && leb c b'z' then c - 32 else c) else unicode_upper c

  unfoldable pub is_separator : ℕ → Bool
  is_separator c = c == b'-' || (c == 32 || (c == 9 || (c == 13 || c == 10)))

  -- strings.ToUpper, then the Replacer that drops the separators.
  unfoldable pub upper_without_separators : Text → Text
  unfolding rune_upper is_separator
  upper_without_separators [] = []
  upper_without_separators (c ∷ s) =
      let rest = upper_without_separators s in
      let d = rune_upper c in if is_separator d then rest else d ∷ rest

  -- NormalizeUserCode.
  unfoldable pub normalize_user_code : Text → Text
  unfolding upper_without_separators trim_space
  normalize_user_code s = upper_without_separators (trim_space s)
