-- ===== src/Redis/Memory.antt =====
-- A keyspace in memory that keeps the laws: what concrete runs take for the Redis server.
use nyauth.Common.{
  ℕ, ◌-◌, ◌≡◌, ◌≢◌, ◌⊎◌, inl, inr, refl, Bool, true, false, List, [], ◌∷◌, Option, none, some,
  if◌then◌else◌, leb, Bool-cases, if_cases,
}
use nyauth.Redis.{Redis}

-- A test that tells keys apart.
pub record KeyTest (K : Type 0) : Type 0 where
  pub same : K → K → Bool
  pub sound : (k l : K) → same k l ≡ true → k ≡ l
  pub reflexive : (k : K) → same k k ≡ true

pub record Entry (K V : Type 0) : Type 0 where
  pub key : K
  pub value : V
  pub ttl : ℕ

other : {K : Type 0} (test : KeyTest K) (k l : K) → k ≢ l → test.same k l ≡ false
other test k l h = elim (Bool-cases (test.same k l)) [
  | inl e ↦ absurd (h (test.sound k l e))
  | inr e ↦ e
]

module _ {K V : Type 0} (test : KeyTest K) where
  -- The value and the time that is left.
  unfoldable pub find : K → List (Entry K V) → Option (V × ℕ)
  find k [] = none
  find k (e ∷ es) = if test.same k e.key then some (e.value, e.ttl) else find k es

  unfoldable pub remove : K → List (Entry K V) → List (Entry K V)
  remove k [] = []
  remove k (e ∷ es) = let rest = remove k es in if test.same k e.key then rest else e ∷ rest

  unfoldable pub pass : ℕ → List (Entry K V) → List (Entry K V)
  pass t [] = []
  pass t (e ∷ es) =
      let rest = pass t es in
      if leb e.ttl t then remove e.key rest else record e { ttl = e.ttl - t } ∷ rest

  abbrev pub value_of : Option (V × ℕ) → Option V
  value_of none = none
  value_of (some (v, t)) = some v

  abbrev pub ttl_of : Option (V × ℕ) → ℕ
  ttl_of none = 0
  ttl_of (some (v, t)) = t

  abbrev pub put : K → V → ℕ → List (Entry K V) → List (Entry K V)
  put k v t es = record { key = k; value = v; ttl = t } ∷ remove k es

  pub find-remove : (k : K) (es : List (Entry K V)) → value_of (find k (remove k es)) ≡ none
  unfolding find remove
  find-remove k [] = refl
  find-remove k (e ∷ es) =
      if_cases (λ rest. value_of (find k rest) ≡ none) (test.same k e.key) (λ _. find-remove k es)
        (λ n. rw n (find-remove k es))

  pub find-remove_other :
      (k l : K) (es : List (Entry K V))
      → k ≢ l
      → value_of (find k (remove l es)) ≡ value_of (find k es)
  unfolding find remove
  find-remove_other k l [] h = refl
  find-remove_other k l (e ∷ es) h =
      let ih = find-remove_other k l es h in
      if_cases (λ rest. value_of (find k rest) ≡ value_of (find k (e ∷ es))) (test.same l e.key)
        (λ y.
          let at : l ≡ e.key = test.sound l e.key y in
          let n : test.same k e.key ≡ false = rw at at (other test k l h) in rw n ih)
        (λ _.
          if_cases
            (λ found.
              value_of (if test.same k e.key then some (e.value, e.ttl) else find k (remove l es))
              ≡ value_of found)
            (test.same k e.key) (λ y. rw y refl) (λ n. rw n ih))

  pub find-put :
      (k : K) (v : V) (t : ℕ) (es : List (Entry K V)) → value_of (find k (put k v t es)) ≡ some v
  unfolding find
  find-put k v t es = rw (test.reflexive k) refl

  pub find-put_other :
      (k l : K) (v : V) (t : ℕ) (es : List (Entry K V))
      → k ≢ l
      → value_of (find k (put l v t es)) ≡ value_of (find k es)
  unfolding find
  find-put_other k l v t es h = rw (other test k l h) (find-remove_other k l es h)

  pub find-pass :
      (k : K) (t : ℕ) (es : List (Entry K V))
      → (value_of (find k (pass t es)) ≡ none)
        ⊎ (value_of (find k (pass t es)) ≡ value_of (find k es))
  unfolding find pass
  find-pass k t [] = inl refl
  find-pass k t (e ∷ es) =
      let Q : List (Entry K V) → Type 0 = λ rest.
        (value_of (find k rest) ≡ none) ⊎ (value_of (find k rest) ≡ value_of (find k (e ∷ es))) in
      let ih = find-pass k t es in
      if_cases Q (leb e.ttl t)
        (λ _. elim (Bool-cases (test.same k e.key)) [
          | inl y ↦
              let at : k ≡ e.key = test.sound k e.key y in
              inl (rw at (find-remove e.key (pass t es)))
          | inr n ↦ rw (find-remove_other k e.key (pass t es) (apart k e.key n), n) ih
        ])
        (λ _. elim (Bool-cases (test.same k e.key)) [ inl y ↦ inr (rw y refl) | inr n ↦ rw n ih ])
    where
      apart : (k l : K) → test.same k l ≡ false → k ≢ l
      apart k l n h = let y : test.same k l ≡ true = rw h (test.reflexive l) in cc

  unfoldable pub memory : Redis K V (List (Entry K V))
  memory = record {
    get = λ k es. value_of (find k es);
    set = λ k v t es. put k v t es;
    del = remove;
    pttl = λ k es. ttl_of (find k es);
    elapse = pass;
    get-set = λ k v t es _. find-put k v t es;
    get-set_other = λ k l v t es h. find-put_other k l v t es h;
    get-del = find-remove;
    get-del_other = find-remove_other;
    get-elapse = find-pass;
  }
