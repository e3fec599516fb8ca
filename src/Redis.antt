-- ===== src/Redis.antt =====
-- The Redis server as the stores of internal/session and internal/deviceauthorization use it: the
-- commands of their Lua scripts on one keyspace, with what Redis documents of them. A script runs
-- atomically, so it is a function on the keyspace.
pub mod Memory
pub mod Sets
pub mod SetMemory
use nyauth.Common.{
  ℕ, ◌<◌, ◌≡◌, ◌≢◌, ◌⊎◌, Bool, true, false, List, [], ◌∷◌, Option, none, some, length,
  if◌then◌else◌,
}

-- Keys are the code's prefixes as constructors, and values are what the code stores under them.
-- `pttl` is 0 where PTTL answers 0 or less.
pub record Redis (K V Db : Type 0) : Type 0 where
  pub get : K → Db → Option V
  pub set : K → V → ℕ → Db → Db
  pub del : K → Db → Db
  pub pttl : K → Db → ℕ
  pub elapse : ℕ → Db → Db
  pub get-set : (k : K) (v : V) (ttl : ℕ) (db : Db) → 0 < ttl → get k (set k v ttl db) ≡ some v
  pub get-set_other :
      (k l : K) (v : V) (ttl : ℕ) (db : Db) → k ≢ l → get k (set l v ttl db) ≡ get k db
  pub get-del : (k : K) (db : Db) → get k (del k db) ≡ none
  pub get-del_other : (k l : K) (db : Db) → k ≢ l → get k (del l db) ≡ get k db
  pub get-elapse :
      (k : K) (t : ℕ) (db : Db) → (get k (elapse t db) ≡ none) ⊎ (get k (elapse t db) ≡ get k db)

-- What becomes of a request: the connection may fail before the server runs it or after.
pub data Network : Type 0 where
  delivered unreachable reply_lost : Network

pub data Reply (A : Type 0) : Type 0 where
  replied : A → Reply A
  no_reply : Reply A

abbrev pub send : {Db : Type 0} {A : Type 0} → Network → Db → Db × A → Db × Reply A
send delivered db (db', a) = (db', replied a)
send unreachable db (db', a) = (db, no_reply)
send reply_lost db (db', a) = (db', no_reply)

-- What a request may do is what the server may do.
pub send_cases {κ} :
    {Db : Type 0} {A : Type 0} (P : Db × Reply A → Type κ) (n : Network) (db : Db) (r : Db × A)
    → P (db, no_reply)
    → P (r.0, replied r.1)
    → P (r.0, no_reply)
    → P (send n db r)
send_cases P delivered db (db', a) out whole lost = whole
send_cases P unreachable db (db', a) out whole lost = out
send_cases P reply_lost db (db', a) out whole lost = lost
