-- ===== src/Refresh/Store.antt =====
-- internal/session/store.go: the methods of Store that rotate, save and revoke tokens of a family.
use nyauth.Common.{
  Option, none, some, ℕ, Bool, true, false, if◌then◌else◌, not, ◌&&◌, ◌||◌, ◌==◌, ltb, str_eq,
  String,
}
use nyauth.Redis.{Network, Reply, replied, no_reply, send}
use nyauth.Redis.Sets.{RedisSets}
use nyauth.Refresh.{
  refresh_key, TokenData, TokenKey, access_key, Key, token_at, family_set, user_families,
  family_member, revoked_key, Member, token_member, Value, token_value, revoked_value, Rotation,
  absent, unfamiliar, different, reused, rotated, get_key, delete_members, texts_eq, Rotating,
  is_revoked, rotate_script,
}

pub data Error : Type 0 where
  not_found refresh_token_reuse refresh_family_revoked token_binding_mismatch : Error
  invalid_token_data invalid_ttl unavailable : Error

pub data Result (A : Type 0) : Type 0 where
  ok : A → Result A
  err : Error → Result A

-- decodeRefreshRotationResult.
abbrev pub decode_rotation : {Db : Type 0} → Db × Reply Rotation → Db × Result TokenData
decode_rotation (db, no_reply) = (db, err unavailable)
decode_rotation (db, replied absent) = (db, err not_found)
decode_rotation (db, replied (reused d)) = (db, err refresh_token_reuse)
decode_rotation (db, replied unfamiliar) = (db, err invalid_token_data)
decode_rotation (db, replied different) = (db, err token_binding_mismatch)
decode_rotation (db, replied (rotated d)) = (db, ok d)

-- The arguments of RotateRefreshTokenAndStoreAccess.
pub record RotationInput : Type 0 where
  pub old_token : String
  pub new_token : String
  pub access_token_id : String
  pub expected : TokenData
  pub access : TokenData
  pub refresh_ttl : ℕ
  pub access_ttl : ℕ

-- Its first test.
unfoldable pub valid_rotation : RotationInput → Bool
valid_rotation i =
    not (str_eq i.expected.user_id "")
    && (not (str_eq i.expected.client_id "")
        && (not (str_eq i.expected.family_key "")
            && (str_eq i.expected.token_use "refresh"
                && (texts_eq i.access.scopes i.expected.scopes
                    && (not (str_eq i.old_token "")
                        && (not (str_eq i.new_token "")
                            && (not (str_eq i.old_token i.new_token)
                                && (not (str_eq i.access_token_id "")
                                    && (str_eq i.access.user_id i.expected.user_id
                                        && (str_eq i.access.client_id i.expected.client_id
                                            && (i.access.auth_version == i.expected.auth_version
                                                && i.access.authorization_issued_at
                                                  == i.expected.authorization_issued_at)))))))))))

module _ {Db : Type 0} (redis : RedisSets Key Member Value Db) (digest : String → String) where
  abbrev pub rotating : RotationInput → Rotating
  rotating i = record {
    old = digest i.old_token;
    new = digest i.new_token;
    access = digest i.access_token_id;
    user = digest i.expected.user_id;
    expected = i.expected;
    access_token = record i.access { token_use = "access"; family_key = i.expected.family_key };
    refresh_ttl = i.refresh_ttl;
    access_ttl = i.access_ttl;
  }

  -- RotateRefreshTokenAndStoreAccess.
  unfoldable pub rotate_refresh_token_and_store_access :
      Network → RotationInput → Db → Db × Result TokenData
  unfolding valid_rotation rotate_script
  rotate_refresh_token_and_store_access n i db =
      let sent = decode_rotation (send n db (rotate_script redis (rotating i) db)) in
      if not (valid_rotation i)
      then (db, err invalid_token_data)
      else if i.refresh_ttl == 0 || i.access_ttl == 0
      then (db, err invalid_ttl)
      else sent

  -- saveFamilyTokenScript: whether the family is not revoked.
  unfoldable pub save_family_script : TokenKey → String → TokenData → ℕ → Db → Db × Bool
  save_family_script key family d ttl db =
      let set = family_set family in
      let db1 = redis.strings.set (token_at key) (token_value d) ttl db in
      let db2 = redis.sadd set (token_member key) db1 in
      let db3 = if ltb (redis.strings.pttl set db2) ttl then redis.pexpire set ttl db2 else db2 in
      if is_revoked (get_key redis (revoked_key family) db) then (db, false) else (db3, true)

  abbrev pub saved : Db × Reply Bool → Db × Result Unit
  saved (db, no_reply) = (db, err unavailable)
  saved (db, replied true) = (db, ok tt)
  saved (db, replied false) = (db, err refresh_family_revoked)

  -- SaveTokenForRefreshFamily.
  unfoldable pub save_token_for_refresh_family :
      Network → String → TokenData → String → ℕ → Db → Db × Result Unit
  unfolding save_family_script
  save_token_for_refresh_family n token_id d family ttl db =
      let stored = record d { family_key = family } in
      let sent =
        saved
          (send n db (save_family_script (access_key (digest token_id)) family stored ttl db)) in
      if str_eq family ""
      then (db, err invalid_token_data)
      else if ttl == 0
      then (db, err invalid_ttl)
      else sent

  -- revokeFamilyScript.
  unfoldable pub revoke_family_script : String → ℕ → Db → Db
  unfolding delete_members
  revoke_family_script family ttl db =
      let set = family_set family in
      let db1 = redis.strings.del set (delete_members redis (redis.smembers set db) db) in
      redis.strings.set (revoked_key family) revoked_value ttl db1

  abbrev pub done : Db × Reply Unit → Db × Result Unit
  done (db, no_reply) = (db, err unavailable)
  done (db, replied u) = (db, ok tt)

  -- RevokeRefreshFamily and revokeFamilyKey.
  unfoldable pub revoke_refresh_family : Network → String → ℕ → Db → Db × Result Unit
  unfolding revoke_family_script
  revoke_refresh_family n family_id ttl db =
      let sent = done (send n db (revoke_family_script (digest family_id) ttl db, tt)) in
      if ttl == 0 then (db, err invalid_ttl) else sent

  -- The family, the keys and the use that SaveRefreshToken writes into the data; randomSecret gives
  -- the id of a family that has none.
  abbrev pub completed : TokenData → Option String → Option TokenData
  completed d none = none
  completed d (some id) = some (record d {
    family_id = id;
    family_key = if str_eq d.family_key "" then digest id else d.family_key;
    user_key = digest d.user_id;
    token_use = "refresh";
  })

  unfoldable pub complete_family : Option String → TokenData → Option TokenData
  complete_family random d =
      completed d (if str_eq d.family_id "" then random else some d.family_id)

  -- SaveRefreshToken: one transaction of Redis.
  unfoldable pub save_refresh_state : String → TokenData → ℕ → Db → Db
  save_refresh_state token d ttl db =
      let key = refresh_key (digest token) in
      let set = family_set d.family_key in
      let families = user_families (digest d.user_id) in
      let db1 = redis.strings.set (token_at key) (token_value d) ttl db in
      let db2 = redis.pexpire set ttl (redis.sadd set (token_member key) db1) in
      redis.pexpire families ttl (redis.sadd families (family_member d.family_key) db2)

  abbrev pub save_completed : Network → String → Option TokenData → ℕ → Db → Db × Result Unit
  save_completed n token none ttl db = (db, err unavailable)
  save_completed n token (some d) ttl db = done (send n db (save_refresh_state token d ttl db, tt))

  unfoldable pub save_refresh_token :
      Network → Option String → String → TokenData → ℕ → Db → Db × Result Unit
  unfolding complete_family save_refresh_state
  save_refresh_token n random token d ttl db =
      let sent = save_completed n token (complete_family random d) ttl db in
      if str_eq d.user_id "" then (db, err invalid_token_data) else sent
