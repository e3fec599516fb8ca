-- ===== src/Session/Revocation.antt =====
-- internal/session/store.go: what a revocation of a grant covers.
use nyauth.Common.{
  ℕ, ◌≤◌, ◌<◌, ◌≡◌, ◌≢◌, ◌⊎◌, inl, inr, refl, ◌∙◌, true, false, Option, none, some, arith, String,
  str_eq, str_eq_iff, Bool-cases,
}
use nyauth.Redis.{Redis}
use nyauth.Session.Clock.{
  ClockKey, clock_key, revocation_key, past, next_micros, issue_time_script, revoke_script,
}

past_le : (o : Option ℕ) (m : ℕ) → m ≤ past o m
past_le none m = omega arith
past_le (some v) m = ground arith

past_gt : (v m : ℕ) → v < past (some v) m
past_gt v m = ground arith

-- A value stands under the key and is at least `n`.
abbrev pub AtLeast : ℕ → Option ℕ → Type 0
AtLeast n found = (v : ℕ) × (found ≡ some v) × (n ≤ v)

clock_revocation : {a b : String} → clock_key a ≢ revocation_key b
clock_revocation h = cc

revocation_clock : {a b : String} → revocation_key a ≢ clock_key b
revocation_clock h = cc

clocks_differ : {a b : String} → str_eq a b ≡ false → clock_key a ≢ clock_key b
clocks_differ {a} {b} n h =
    let same : a ≡ b = cc in let yes : str_eq a b ≡ true = (str_eq_iff a b).1 same in cc

revocations_differ : {a b : String} → str_eq a b ≡ false → revocation_key a ≢ revocation_key b
revocations_differ {a} {b} n h =
    let same : a ≡ b = cc in let yes : str_eq a b ≡ true = (str_eq_iff a b).1 same in cc

module _ {Db : Type 0} (redis : Redis ClockKey ℕ Db) where
  pub next-clock :
      (g : String) (micros v : ℕ) (db : Db)
      → redis.get (clock_key g) db ≡ some v
      → v < next_micros redis g micros db
  unfolding next_micros
  next-clock g micros v db e =
      let first = past_gt v micros in
      let second =
        past_le (redis.get (revocation_key g) db) (past (redis.get (clock_key g) db) micros) in
      let first' : v < past (redis.get (clock_key g) db) micros = rw e first in
      omega (arith, first', second)

  pub next-revocation :
      (g : String) (micros v : ℕ) (db : Db)
      → redis.get (revocation_key g) db ≡ some v
      → v < next_micros redis g micros db
  unfolding next_micros
  next-revocation g micros v db e = rw e (past_gt v (past (redis.get (clock_key g) db) micros))

  -- A write of a greater value under the key, or of any value under another key of the same kind.
  write-AtLeast :
      (key : ClockKey) (other : ClockKey) (n v ttl : ℕ) (db : Db)
      → 0 < ttl
      → (key ≢ other) ⊎ ((key ≡ other) × (n ≤ v))
      → AtLeast n (redis.get key db)
      → AtLeast n (redis.get key (redis.set other v ttl db))
  write-AtLeast key other n v ttl db t (inl h) (w, e, l) =
      (w, redis.get-set_other key other v ttl db h ∙ e, l)
  write-AtLeast key other n v ttl db t (inr (same, more)) at =
      (v, rw same (redis.get-set other v ttl db t), more)

  -- What a call keeps: a lower bound on the clock of a grant and one on its revocation.
  abbrev pub Bounds : String → ℕ → Db → Type 0
  Bounds g n db = AtLeast n (redis.get (clock_key g) db)

  abbrev pub Marked : String → ℕ → Db → Type 0
  Marked g n db = AtLeast n (redis.get (revocation_key g) db)

  next_above :
      (g g' : String) (n micros : ℕ) (db : Db)
      → Bounds g n db
      → (clock_key g ≢ clock_key g')
        ⊎ ((clock_key g ≡ clock_key g') × (n ≤ next_micros redis g' micros db))
  next_above g g' n micros db (v, e, l) = elim (Bool-cases (str_eq g g')) [
    | inl y ↦
        let same : g ≡ g' = (str_eq_iff g g').0 y in
        let above : v < next_micros redis g' micros db = next-clock g' micros v db (rw same at e) in
        inr (rw same refl, omega (arith, above, l))
    | inr n ↦ inl (clocks_differ n)
  ]

  next_above_mark :
      (g g' : String) (n micros : ℕ) (db : Db)
      → Marked g n db
      → (revocation_key g ≢ revocation_key g')
        ⊎ ((revocation_key g ≡ revocation_key g') × (n ≤ next_micros redis g' micros db))
  next_above_mark g g' n micros db (v, e, l) = elim (Bool-cases (str_eq g g')) [
    | inl y ↦
        let same : g ≡ g' = (str_eq_iff g g').0 y in
        let above : v < next_micros redis g' micros db =
          next-revocation g' micros v db (rw same at e) in
        inr (rw same refl, omega (arith, above, l))
    | inr n ↦ inl (revocations_differ n)
  ]

  pub issue-Bounds :
      (g g' : String) (n micros ttl : ℕ) (db : Db)
      → 0 < ttl
      → Bounds g n db
      → Bounds g n (issue_time_script redis g' micros ttl db).0
  unfolding issue_time_script
  issue-Bounds g g' n micros ttl db t at =
      write-AtLeast (clock_key g) (clock_key g') n _ ttl db t (next_above g g' n micros db at) at

  pub issue-Marked :
      (g g' : String) (n micros ttl : ℕ) (db : Db)
      → 0 < ttl
      → Marked g n db
      → Marked g n (issue_time_script redis g' micros ttl db).0
  unfolding issue_time_script
  issue-Marked g g' n micros ttl db t at =
      write-AtLeast (revocation_key g) (clock_key g') n _ ttl db t (inl revocation_clock) at

  pub revoke-Bounds :
      (g g' : String) (n micros ttl : ℕ) (db : Db)
      → 0 < ttl
      → Bounds g n db
      → Bounds g n (revoke_script redis g' micros ttl db).0
  unfolding revoke_script issue_time_script
  revoke-Bounds g g' n micros ttl db t at =
      write-AtLeast (clock_key g) (revocation_key g') n _ ttl _ t (inl clock_revocation)
        (issue-Bounds g g' n micros ttl db t at)

  pub revoke-Marked :
      (g g' : String) (n micros ttl : ℕ) (db : Db)
      → 0 < ttl
      → Marked g n db
      → Marked g n (revoke_script redis g' micros ttl db).0
  unfolding revoke_script issue_time_script
  revoke-Marked g g' n micros ttl db t at =
      write-AtLeast (revocation_key g) (revocation_key g') n _ ttl _ t
        (next_above_mark g g' n micros db at) (issue-Marked g g' n micros ttl db t at)

  -- A revocation time that only a revocation of the same grant changes.
  pub issue_same :
      (g g' : String) (micros ttl : ℕ) (db : Db)
      → redis.get (revocation_key g) (issue_time_script redis g' micros ttl db).0
        ≡ redis.get (revocation_key g) db
  unfolding issue_time_script
  issue_same g g' micros ttl db =
      redis.get-set_other (revocation_key g) (clock_key g') _ ttl db revocation_clock

  pub revoke_same :
      (g g' : String) (micros ttl : ℕ) (db : Db)
      → g ≢ g'
      → redis.get (revocation_key g) (revoke_script redis g' micros ttl db).0
        ≡ redis.get (revocation_key g) db
  unfolding revoke_script issue_time_script
  revoke_same g g' micros ttl db h =
      redis.get-set_other (revocation_key g) (revocation_key g') _ ttl _ (λ e. h (cc))
      ∙ issue_same g g' micros ttl db
