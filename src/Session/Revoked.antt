-- ===== src/Session/Revoked.antt =====
-- internal/session/store.go: which grants a revocation covers, whatever calls follow.
use nyauth.Common.{
  ℕ, ◌<◌, ◌≡◌, ◌≢◌, refl, ◌∙◌, true, false, List, [], ◌∷◌, some, arith, if◌then◌else◌, String, All,
  if_cases, ◌==◌, le→leb, lt→leb_false,
}
use nyauth.Redis.{Redis, Network, delivered, send, send_cases}
use nyauth.Session.Codes.{Result, ok, err, invalid_ttl}
use nyauth.Session.Clock.{
  ClockKey, clock_key, revocation_key, clock_answer, next_micros, issue_time_script, revoke_script,
  authorization_issue_time, revoke_user_client_authorization, is_user_client_authorization_revoked,
  GrantEvent, issues, revokes, grant_step, grant_run,
}
use nyauth.Session.Revocation.{
  Bounds, Marked, issue-Bounds, issue-Marked, revoke-Bounds, revoke-Marked, issue_same, revoke_same,
  next-clock, next-revocation,
}

abbrev Leaves : {Db : Type 0} → (Db → ℕ → Type 0) → Db × Result ℕ → Type 0
Leaves P (db, ok t) = P db t
Leaves P (db, err e) = Unit

-- No call revokes this grant.
abbrev pub KeepsGrant : (String → String → String) → String → GrantEvent → Type 0
KeepsGrant digest g (issues n user client ttl micros) = Unit
KeepsGrant digest g (revokes n user client ttl micros) = g ≢ digest user client

module _ {Db : Type 0} (redis : Redis ClockKey ℕ Db) (digest : String → String → String) where
  abbrev answer : Network → ℕ → Db → Db × ℕ → Db × Result ℕ
  answer n ttl db r = if ttl == 0 then (db, err invalid_ttl) else clock_answer (send n db r)

  answer_keeps :
      (P : Db → Type 0) (n : Network) (ttl : ℕ) (db : Db) (r : Db × ℕ)
      → P db
      → (0 < ttl → P r.0)
      → P (answer n ttl db r).0
  answer_keeps P n ttl db r before after =
      if_cases {A = Db × Result ℕ} (λ s. P s.0) (ttl == 0) (λ _. before)
        (λ z.
          let done = after (ground (arith, z)) in
          send_cases (λ s. P (clock_answer s).0) n db r before done done)

  answer-Leaves :
      (P : Db → ℕ → Type 0) (n : Network) (ttl : ℕ) (db : Db) (r : Db × ℕ)
      → (0 < ttl → P r.0 r.1)
      → Leaves P (answer n ttl db r)
  answer-Leaves P n ttl db r after =
      if_cases (Leaves P) (ttl == 0) (λ _. tt)
        (λ z. send_cases (λ s. Leaves P (clock_answer s)) n db r tt (after (ground (arith, z))) tt)

  pub run_keeps :
      (P : Db → Type 0) (Allowed : GrantEvent → Type 0)
      → ((e : GrantEvent) (db : Db) → Allowed e → P db → P (grant_step redis digest e db))
      → (es : List GrantEvent) (db : Db) → All Allowed es
      → P db
      → P (grant_run redis digest es db)
  unfolding grant_run
  run_keeps P Allowed keeps [] db hs p = p
  run_keeps P Allowed keeps (e ∷ es) db (h, hs) p =
      run_keeps P Allowed keeps es (grant_step redis digest e db) hs (keeps e db h p)

  abbrev pub Any : GrantEvent → Type 0
  Any e = Unit

  pub events-All : (es : List GrantEvent) → All Any es
  events-All [] = tt
  events-All (e ∷ es) = (tt, events-All es)

  step-Bounds :
      (g : String) (n : ℕ) (e : GrantEvent) (db : Db)
      → Any e
      → Bounds redis g n db
      → Bounds redis g n (grant_step redis digest e db)
  unfolding grant_step authorization_issue_time revoke_user_client_authorization
  step-Bounds g n (issues net user client ttl micros) db h at =
      answer_keeps (Bounds redis g n) net ttl db _ at
        (λ t. issue-Bounds redis g (digest user client) n micros ttl db t at)
  step-Bounds g n (revokes net user client ttl micros) db h at =
      answer_keeps (Bounds redis g n) net ttl db _ at
        (λ t. revoke-Bounds redis g (digest user client) n micros ttl db t at)

  pub step-Marked :
      (g : String) (n : ℕ) (e : GrantEvent) (db : Db)
      → Any e
      → Marked redis g n db
      → Marked redis g n (grant_step redis digest e db)
  unfolding grant_step authorization_issue_time revoke_user_client_authorization
  step-Marked g n (issues net user client ttl micros) db h at =
      answer_keeps (Marked redis g n) net ttl db _ at
        (λ t. issue-Marked redis g (digest user client) n micros ttl db t at)
  step-Marked g n (revokes net user client ttl micros) db h at =
      answer_keeps (Marked redis g n) net ttl db _ at
        (λ t. revoke-Marked redis g (digest user client) n micros ttl db t at)

  abbrev RevokedAt : String → ℕ → Db → Type 0
  RevokedAt g t db = redis.get (revocation_key g) db ≡ some t

  step-RevokedAt :
      (g : String) (t : ℕ) (e : GrantEvent) (db : Db)
      → KeepsGrant digest g e
      → RevokedAt g t db
      → RevokedAt g t (grant_step redis digest e db)
  unfolding grant_step authorization_issue_time revoke_user_client_authorization
  step-RevokedAt g t (issues net user client ttl micros) db h at =
      answer_keeps (RevokedAt g t) net ttl db _ at
        (λ _. issue_same redis g (digest user client) micros ttl db ∙ at)
  step-RevokedAt g t (revokes net user client ttl micros) db h at =
      answer_keeps (RevokedAt g t) net ttl db _ at
        (λ _. revoke_same redis g (digest user client) micros ttl db h ∙ at)

  issue-Leaves :
      (n : Network) (user client : String) (ttl micros : ℕ) (db : Db)
      → Leaves
          (λ db' i. Bounds redis (digest user client) i db')
          (authorization_issue_time redis digest n user client ttl micros db)
  unfolding authorization_issue_time issue_time_script
  issue-Leaves n user client ttl micros db =
      let P : Db → ℕ → Type 0 = λ db' i. Bounds redis (digest user client) i db' in
      answer-Leaves P n ttl db _ (λ t. (
        next_micros redis (digest user client) micros db,
        redis.get-set (clock_key (digest user client)) _ ttl db t,
        omega arith,
      ))

  issue_after-Leaves :
      (n : Network) (user client : String) (ttl micros t : ℕ) (db : Db)
      → RevokedAt (digest user client) t db
      → Leaves
          (λ db' j. (t < j) × RevokedAt (digest user client) t db')
          (authorization_issue_time redis digest n user client ttl micros db)
  unfolding authorization_issue_time issue_time_script
  issue_after-Leaves n user client ttl micros t db at =
      let g = digest user client in
      let P : Db → ℕ → Type 0 = λ db' j. (t < j) × RevokedAt g t db' in
      answer-Leaves P n ttl db (issue_time_script redis g micros ttl db)
        (λ _. (next-revocation redis g micros t db at, issue_same redis g g micros ttl db ∙ at))

  revoke-Leaves :
      (n : Network) (user client : String) (ttl micros i : ℕ) (db : Db)
      → Bounds redis (digest user client) i db
      → Leaves
          (λ db' t. (i < t) × RevokedAt (digest user client) t db')
          (revoke_user_client_authorization redis digest n user client ttl micros db)
  unfolding revoke_user_client_authorization revoke_script
  revoke-Leaves n user client ttl micros i db (v, e, l) =
      let g = digest user client in
      let P : Db → ℕ → Type 0 = λ db' t. (i < t) × RevokedAt g t db' in
      let above = next-clock redis g micros v db e in
      answer-Leaves P n ttl db (revoke_script redis g micros ttl db)
        (λ t. (omega (arith, above, l), redis.get-set (revocation_key g) _ ttl _ t))

  revoke-RevokedAt :
      (n : Network) (user client : String) (ttl micros : ℕ) (db : Db)
      → Leaves
          (λ db' t. RevokedAt (digest user client) t db')
          (revoke_user_client_authorization redis digest n user client ttl micros db)
  unfolding revoke_user_client_authorization revoke_script
  revoke-RevokedAt n user client ttl micros db =
      let g = digest user client in
      let P : Db → ℕ → Type 0 = λ db' t. RevokedAt g t db' in
      answer-Leaves P n ttl db (revoke_script redis g micros ttl db)
        (λ t. redis.get-set (revocation_key g) _ ttl _ t)

-- A grant was issued at the logical time i, and later revoked at the logical time t by a call that
-- returned no error, while no key expired. Then i is before t, and after any further calls of any
-- instance, whatever Redis's clock shows in each, the grant issued at i reads as revoked.
pub issued_before :
    {Db : Type 0} (redis : Redis ClockKey ℕ Db) (digest : String → String → String)
    (user client : String) (n : Network) (ttl micros : ℕ) (db : Db) {db' : Db} {i : ℕ}
    (es : List GrantEvent) (n' : Network) (ttl' micros' : ℕ) {db'' : Db} {t : ℕ}
    (es' : List GrantEvent)
    → authorization_issue_time redis digest n user client ttl micros db ≡ (db', ok i)
    → revoke_user_client_authorization redis digest n' user client ttl' micros'
        (grant_run redis digest es db')
      ≡ (db'', ok t)
    → (i < t)
      × (is_user_client_authorization_revoked redis digest delivered user client i
            (grant_run redis digest es' db'')
          ≡ ok true)
unfolding is_user_client_authorization_revoked
issued_before {Db} redis digest user client n ttl micros db {db'} {i} es n' ttl' micros' {db''} {t}
      es' e e' =
    let g = digest user client in
    let issued : Bounds redis g i db' =
      rw e at (issue-Leaves redis digest n user client ttl micros db) in
    let bounds =
      run_keeps redis digest (Bounds redis g i) _ (step-Bounds redis digest g i) es db'
        (events-All redis digest es) issued in
    let (later, marked) : (i < t) × (redis.get (revocation_key g) db'' ≡ some t) = rw e' at (
      revoke-Leaves redis digest n' user client ttl' micros' i (grant_run redis digest es db')
        bounds) in
    let (v, is, above) : Marked redis g i (grant_run redis digest es' db'') =
      run_keeps redis digest (Marked redis g i) _ (step-Marked redis digest g i) es' db''
        (events-All redis digest es') (t, marked, omega (arith, later)) in
    (later, rw (is, le→leb i v above) refl)

-- A grant was revoked at the logical time t by a call that returned no error, and then issued again at
-- the logical time j, while no key expired and no other call revoked it, before or after. Then t is
-- before j, and the grant issued at j does not read as revoked, whatever Redis's clock shows in
-- each call.
pub issued_after :
    {Db : Type 0} (redis : Redis ClockKey ℕ Db) (digest : String → String → String)
    (user client : String) (n : Network) (ttl micros : ℕ) (db : Db) {db' : Db} {t : ℕ}
    (es : List GrantEvent) (n' : Network) (ttl' micros' : ℕ) {db'' : Db} {j : ℕ}
    (es' : List GrantEvent)
    → revoke_user_client_authorization redis digest n user client ttl micros db ≡ (db', ok t)
    → All (KeepsGrant digest (digest user client)) es
    → authorization_issue_time redis digest n' user client ttl' micros'
        (grant_run redis digest es db')
      ≡ (db'', ok j)
    → All (KeepsGrant digest (digest user client)) es'
    → (t < j)
      × (is_user_client_authorization_revoked redis digest delivered user client j
            (grant_run redis digest es' db'')
          ≡ ok false)
unfolding is_user_client_authorization_revoked
issued_after {Db} redis digest user client n ttl micros db {db'} {t} es n' ttl' micros' {db''} {j}
      es' e hs e' hs' =
    let g = digest user client in
    let Revoked : Db → Type 0 = λ d. redis.get (revocation_key g) d ≡ some t in
    let at : redis.get (revocation_key g) db' ≡ some t =
      rw e at (revoke-RevokedAt redis digest n user client ttl micros db) in
    let kept = run_keeps redis digest Revoked _ (step-RevokedAt redis digest g t) es db' hs at in
    let (later, there) : (t < j) × (redis.get (revocation_key g) db'' ≡ some t) = rw e' at (
      issue_after-Leaves redis digest n' user client ttl' micros' t (grant_run redis digest es db')
        kept) in
    let after : redis.get (revocation_key g) (grant_run redis digest es' db'') ≡ some t =
      run_keeps redis digest Revoked _ (step-RevokedAt redis digest g t) es' db'' hs' there in
    (later, rw (after, lt→leb_false j t later) refl)
