-- ===== src/Token/Keeps.antt =====
-- Invariants of handlers, one rule for each way to build a handler.
use nyauth.Common.{Bool, true, false, if◌then◌else◌}
use nyauth.Token.Exec.{
  Outcome, finished, failed, Exec, lift, reading, require, ◌>>=◌, ◌>>◌, proceed,
}

-- The handler keeps `P`, whether it fails or not.
abbrev pub Keeps {κ} : {S E A : Type 0} → (S → Type κ) → Exec S E A → Type κ
Keeps P m = (s : _) → P s → P (m s).0

module _ {κ} {S E A B : Type 0} {P : S → Type κ} where
  pub bind-Keeps :
      (m : Exec S E A) (f : A → Exec S E B)
      → Keeps P m
      → ((a : A) → Keeps P (f a))
      → Keeps P (m >>= f)
  unfolding ◌>>=◌
  bind-Keeps m f km kf s p = by_value (m s) (km s p)
    where
      by_value : (r : S × Outcome E A) → P r.0 → P (proceed f r).0
      by_value (s', finished a) p' = kf a s' p'
      by_value (s', failed e) p' = p'

  -- A step that leaves the state as it is.
  pub lift-Keeps :
      (o : Outcome E A) (f : A → Exec S E B) → ((a : A) → Keeps P (f a)) → Keeps P (lift o >>= f)
  lift-Keeps o f kf = bind-Keeps (lift o) f (λ s p. p) kf

  pub reading-Keeps :
      (g : S → Outcome E A) (f : A → Exec S E B)
      → ((a : A) → Keeps P (f a))
      → Keeps P (reading g >>= f)
  reading-Keeps g f kf = bind-Keeps (reading g) f (λ s p. p) kf

module _ {κ} {S E B : Type 0} {P : S → Type κ} where
  pub require-Keeps : (ok : Bool) (e : E) (m : Exec S E B) → Keeps P m → Keeps P (require ok e >> m)
  require-Keeps ok e m km = bind-Keeps (require ok e) (λ _. m) (λ s p. p) (λ _. km)

  pub if-Keeps :
      (c : Bool) (m n : Exec S E B) → Keeps P m → Keeps P n → Keeps P (if c then m else n)
  if-Keeps true m n km kn = km
  if-Keeps false m n km kn = kn
