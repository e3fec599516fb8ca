-- ===== src/Token/Exec.antt =====
-- Handlers that return early: what was done before a failure stays done.
use nyauth.Common.{◌≡◌, refl, ap, Bool, true, false, if◌then◌else◌}

pub data Outcome (E A : Type 0) : Type 0 where
  finished : A → Outcome E A
  failed : E → Outcome E A

abbrev pub Exec : Type 0 → Type 0 → Type 0 → Type 0
Exec S E A = S → S × Outcome E A

module _ {S E A : Type 0} where
  abbrev pub give : A → Exec S E A
  give a s = (s, finished a)

  abbrev pub fail : E → Exec S E A
  fail e s = (s, failed e)

  abbrev pub lift : Outcome E A → Exec S E A
  lift o s = (s, o)

  -- A result without an effect, which may read the state.
  abbrev pub reading : (S → Outcome E A) → Exec S E A
  reading f s = (s, f s)

module _ {S E : Type 0} where
  -- An early return where the test fails.
  abbrev pub require : Bool → E → Exec S E Unit
  require ok e s = (s, if ok then finished tt else failed e)

module _ {S E A B : Type 0} where
  abbrev pub proceed : (A → Exec S E B) → S × Outcome E A → S × Outcome E B
  proceed f (s, finished a) = f a s
  proceed f (s, failed e) = (s, failed e)

  infixl 10 ◌>>=◌ ◌>>◌
  unfoldable pub ◌>>=◌ : Exec S E A → (A → Exec S E B) → Exec S E B
  ◌>>=◌ m f s = proceed f (m s)

  abbrev pub ◌>>◌ : Exec S E A → Exec S E B → Exec S E B
  m >> n = m >>= λ _. n

  -- A property of two steps, where the first one fails and where it does not.
  pub bind_cases {κ} :
      (P : S × Outcome E B → Type κ) (m : Exec S E A) (f : A → Exec S E B) (s : S)
      → ((s' : S) (e : E) → m s ≡ (s', failed e) → P (s', failed e))
      → ((s' : S) (a : A) → m s ≡ (s', finished a) → P (f a s'))
      → P ((m >>= f) s)
  unfolding ◌>>=◌
  bind_cases P m f s stops goes = by_value (m s) refl
    where
      by_value : (r : S × Outcome E A) → m s ≡ r → P (proceed f r)
      by_value (s', finished a) e = goes s' a e
      by_value (s', failed err) e = stops s' err e

  pub lift_cases {κ} :
      (P : S × Outcome E B → Type κ) (o : Outcome E A) (f : A → Exec S E B) (s : S)
      → ((e : E) → o ≡ failed e → P (s, failed e))
      → ((a : A) → o ≡ finished a → P (f a s))
      → P ((lift o >>= f) s)
  unfolding ◌>>=◌
  lift_cases P (finished a) f s stops goes = goes a refl
  lift_cases P (failed e) f s stops goes = stops e refl

  pub reading_cases {κ} :
      (P : S × Outcome E B → Type κ) (g : S → Outcome E A) (f : A → Exec S E B) (s : S)
      → ((e : E) → g s ≡ failed e → P (s, failed e))
      → ((a : A) → g s ≡ finished a → P (f a s))
      → P ((reading g >>= f) s)
  unfolding ◌>>=◌
  reading_cases P g f s stops goes = lift_cases P (g s) f s stops goes

-- The errors of a service as those of its caller.
abbrev pub relabel : {E F A : Type 0} → (E → F) → Outcome E A → Outcome F A
relabel f (finished a) = finished a
relabel f (failed e) = failed (f e)

relabeled :
    {E F A : Type 0} (f : E → F) (o : Outcome E A) (a : A)
    → relabel f o ≡ finished a
    → o ≡ finished a
relabeled f (finished a') a h = cc
relabeled f (failed e) a h = absurd (cc)

module _ {S E F A : Type 0} where
  abbrev pub with_error : (E → F) → Exec S E A → Exec S F A
  with_error f m s = let r = m s in (r.0, relabel f r.1)

  pub with_error-finished :
      (f : E → F) (m : Exec S E A) (s s' : S) (a : A)
      → with_error f m s ≡ (s', finished a)
      → m s ≡ (s', finished a)
  with_error-finished f m s s' a h =
      let same : (m s).0 ≡ s' = ap (λ p. p.0) h in
      let fine : (m s).1 ≡ finished a = relabeled f (m s).1 a (ap (λ p. p.1) h) in
      rw (same, fine) refl

module _ {S E B : Type 0} where
  pub require_cases {κ} :
      (P : S × Outcome E B → Type κ) (ok : Bool) (e : E) (rest : Exec S E B) (s : S)
      → (ok ≡ false → P (s, failed e))
      → (ok ≡ true → P (rest s))
      → P ((require ok e >> rest) s)
  unfolding ◌>>=◌
  require_cases P true e rest s stops goes = goes refl
  require_cases P false e rest s stops goes = stops refl

  -- What a handler that fails nowhere leaves.
  abbrev pub After : (S → B → Type 0) → S × Outcome E B → Type 0
  After Q (s, finished b) = Q s b
  After Q (s, failed e) = Unit
