-- ===== src/Redis/Sets.antt =====
-- The set commands of Redis beside the string commands.
use nyauth.Common.{ℕ, ◌≡◌, ◌≢◌, Bool, List}
use nyauth.Redis.{Redis}

-- SMEMBERS, SADD, SREM, SCARD's test for 0 and PEXPIRE. The first three leave every string as it is.
pub record RedisSets (K M V Db : Type 0) : Type 0 where
  pub strings : Redis K V Db
  pub smembers : K → Db → List M
  pub sadd : K → M → Db → Db
  pub srem : K → M → Db → Db
  pub is_empty_set : K → Db → Bool
  pub pexpire : K → ℕ → Db → Db
  pub get-sadd : (k s : K) (m : M) (db : Db) → strings.get k (sadd s m db) ≡ strings.get k db
  pub get-srem : (k s : K) (m : M) (db : Db) → strings.get k (srem s m db) ≡ strings.get k db
  pub get-pexpire :
      (k s : K) (ttl : ℕ) (db : Db) → k ≢ s → strings.get k (pexpire s ttl db) ≡ strings.get k db
