-- ===== src/Refresh.antt =====
-- internal/session/store.go: families of refresh tokens in Redis.
-- Here: the stored data, the keys, and the scripts that rotate and revoke.
pub mod Store
pub mod Tokens
pub mod Saved
pub mod Marker
pub mod Family
pub mod Reuse
pub mod Tests
use nyauth.Common.{
  ℕ, max, not, ◌&&◌, ◌==◌, Bool, true, false, List, [], ◌∷◌, Option, none, some, if◌then◌else◌, ltb,
  str_eq, String,
}
use nyauth.Redis.{Redis}
use nyauth.Redis.Sets.{RedisSets}

pub record TokenData : Type 0 where
  pub client_id : String
  pub user_id : String
  pub scopes : List String
  pub allowed_claims : List String
  pub claim_names_set : Bool
  pub token_use : String
  pub auth_version : ℕ
  pub authentication_context : String
  pub authentication_methods : List String
  pub authentication_time : ℕ
  pub family_id : String
  pub family_key : String
  pub user_key : String
  pub authorization_issued_at : ℕ
  pub client_authorization_revision : ℕ

-- The keys of tokens, which are the members of a family: refreshPrefix and tokenPrefix.
pub data TokenKey : Type 0 where
  refresh_key access_key : String → TokenKey

-- The keys of the scripts: a token's, and those of refreshUsedPrefix, refreshFamilyPrefix,
-- refreshRevokedPrefix and userRefreshFamiliesPrefix.
pub data Key : Type 0 where
  token_at : TokenKey → Key
  used_key family_set revoked_key user_families : String → Key

pub data Member : Type 0 where
  token_member : TokenKey → Member
  family_member : String → Member

pub data Value : Type 0 where
  token_value : TokenData → Value
  revoked_value : Value

-- The replies 0, -1, -2, -3 and 1 of a rotation.
pub data Rotation : Type 0 where
  absent unfamiliar different : Rotation
  reused rotated : TokenData → Rotation

module _ {Db : Type 0} (redis : RedisSets Key Member Value Db) where
  abbrev pub get_key : Key → Db → Option Value
  get_key k db = redis.strings.get k db

  -- `for _, member in ipairs(members) do redis.call("DEL", member) end`.
  unfoldable pub delete_members : List Member → Db → Db
  delete_members [] db = db
  delete_members (token_member k ∷ ms) db = delete_members ms (redis.strings.del (token_at k) db)
  delete_members (family_member f ∷ ms) db = delete_members ms db

  -- `if SCARD == 0 then DEL`.
  unfoldable pub drop_if_empty : Key → Db → Db
  drop_if_empty k db = if redis.is_empty_set k db then redis.strings.del k db else db

  -- revokeFamily of the scripts, on a family's key and the set of its user.
  unfoldable pub revoke_family_state : Key → String → ℕ → Db → Db
  unfolding delete_members drop_if_empty
  revoke_family_state families family ttl db =
      let set = family_set family in
      let db1 = redis.strings.del set (delete_members (redis.smembers set db) db) in
      let db2 = drop_if_empty families (redis.srem families (family_member family) db1) in
      redis.strings.set (revoked_key family) revoked_value ttl db2

  unfoldable pub revoke_family : Key → TokenData → ℕ → Db → Db × Rotation
  unfolding revoke_family_state
  revoke_family families d ttl db =
      if str_eq d.family_key ""
      then (db, unfamiliar)
      else (revoke_family_state families d.family_key ttl db, reused d)

abbrev pub texts_eq : List String → List String → Bool
texts_eq [] [] = true
texts_eq [] (t ∷ ts) = false
texts_eq (s ∷ ss) [] = false
texts_eq (s ∷ ss) (t ∷ ts) = str_eq s t && texts_eq ss ts

abbrev pub flag_eq : Bool → Bool → Bool
flag_eq true b = b
flag_eq false b = not b

-- Two stored tokens have the same JSON text.
unfoldable pub same_token : TokenData → TokenData → Bool
same_token a b =
    str_eq a.family_key b.family_key
    && (str_eq a.client_id b.client_id
        && (str_eq a.user_id b.user_id
            && (texts_eq a.scopes b.scopes
                && (texts_eq a.allowed_claims b.allowed_claims
                    && (flag_eq a.claim_names_set b.claim_names_set
                        && (str_eq a.token_use b.token_use
                            && (a.auth_version == b.auth_version
                                && (str_eq a.authentication_context b.authentication_context
                                    && (texts_eq a.authentication_methods b.authentication_methods
                                        && (a.authentication_time == b.authentication_time
                                            && (str_eq a.family_id b.family_id
                                                && (str_eq a.user_key b.user_key
                                                    && (a.authorization_issued_at
                                                          == b.authorization_issued_at
                                                        && a.client_authorization_revision
                                                          == b.client_authorization_revision)))))))))))))

-- The arguments of a rotation: the digests of the old and the new refresh token and of the access token,
-- the digest of the user, and the payloads.
pub record Rotating : Type 0 where
  pub old : String
  pub new : String
  pub access : String
  pub user : String
  pub expected : TokenData
  pub access_token : TokenData
  pub refresh_ttl : ℕ
  pub access_ttl : ℕ

abbrev pub is_revoked : Option Value → Bool
is_revoked none = false
is_revoked (some v) = true

module _ {Db : Type 0} (redis : RedisSets Key Member Value Db) where
  -- The tail of rotateRefreshWithAccessScript.
  unfoldable pub rotate_state : Rotating → TokenData → Db → Db
  rotate_state r d db =
      let set = family_set d.family_key in
      let families = user_families r.user in
      let set_value = redis.strings.set in
      let db1 = set_value (token_at (refresh_key r.new)) (token_value d) r.refresh_ttl db in
      let db2 =
        set_value (token_at (access_key r.access)) (token_value r.access_token) r.access_ttl db1 in
      let db3 = redis.sadd set (token_member (refresh_key r.new)) db2 in
      let db4 = redis.sadd set (token_member (access_key r.access)) db3 in
      let db5 = redis.srem set (token_member (refresh_key r.old)) db4 in
      let db6 = redis.pexpire set (max r.refresh_ttl r.access_ttl) db5 in
      let db7 = redis.sadd families (family_member d.family_key) db6 in
      let db8 =
        if ltb (redis.strings.pttl families db7) r.refresh_ttl
        then redis.pexpire families r.refresh_ttl db7
        else db7 in
      let db9 = redis.strings.del (token_at (refresh_key r.old)) db8 in
      set_value (used_key r.old) (token_value d) r.refresh_ttl db9

  -- The script where the refresh token is there.
  unfoldable pub rotate_current : Rotating → TokenData → Db → Db × Rotation
  unfolding revoke_family same_token rotate_state
  rotate_current r d db =
      let revoked = revoke_family redis (user_families r.user) d r.refresh_ttl db in
      if not (same_token d r.expected)
      then (db, different)
      else if str_eq d.family_key ""
      then (db, unfamiliar)
      else if is_revoked (get_key redis (revoked_key d.family_key) db)
      then revoked
      else (rotate_state r d db, rotated d)

  -- The script where it is gone: a token that was used revokes its family.
  unfoldable pub rotate_gone : Rotating → Option Value → Db → Db × Rotation
  unfolding revoke_family same_token
  rotate_gone r none db = (db, absent)
  rotate_gone r (some revoked_value) db = (db, different)
  rotate_gone r (some (token_value d)) db =
      let revoked = revoke_family redis (user_families r.user) d r.refresh_ttl db in
      if same_token d r.expected then revoked else (db, different)

  -- rotateRefreshWithAccessScript.
  unfoldable pub rotate_value : Rotating → Option Value → Db → Db × Rotation
  unfolding rotate_gone rotate_current
  rotate_value r none db = rotate_gone r (get_key redis (used_key r.old) db) db
  rotate_value r (some revoked_value) db = (db, different)
  rotate_value r (some (token_value d)) db = rotate_current r d db

  unfoldable pub rotate_script : Rotating → Db → Db × Rotation
  unfolding rotate_value
  rotate_script r db = rotate_value r (get_key redis (token_at (refresh_key r.old)) db) db
