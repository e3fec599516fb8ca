-- ===== src/Refresh/Saved.antt =====
-- internal/session/store.go: what a saved access token leaves under its key.
use nyauth.Common.{ℕ, ◌<◌, ◌≡◌, ◌≢◌, ◌∙◌, Bool, some, arith, ◌==◌, ltb, String, if_cases, str_eq}
use nyauth.Redis.{Network, replied, send, send_cases}
use nyauth.Redis.Sets.{RedisSets}
use nyauth.Refresh.{
  TokenData, TokenKey, access_key, Key, token_at, family_set, revoked_key, Member, token_member,
  Value, token_value, get_key, is_revoked,
}
use nyauth.Refresh.Store.{
  Result, ok, err, save_token_for_refresh_family, save_family_script, saved, done,
}
use nyauth.Refresh.Tokens.{save_token}

-- What a call that returns no error leaves.
abbrev pub Leaves : {Db : Type 0} → (Db → Type 0) → Db × Result Unit → Type 0
Leaves P (db, ok u) = P db
Leaves P (db, err e) = Unit

token_family : {k : TokenKey} {f : String} → token_at k ≢ family_set f
token_family h = cc

module _ {Db : Type 0} (redis : RedisSets Key Member Value Db) (digest : String → String) where
  abbrev pub HasAccess : String → TokenData → Db → Type 0
  HasAccess id d db = get_key redis (token_at (access_key (digest id))) db ≡ some (token_value d)

  pub save_token-Leaves :
      (n : Network) (id : String) (d : TokenData) (ttl : ℕ) (db : Db)
      → Leaves (HasAccess id d) (save_token redis digest n id d ttl db)
  unfolding save_token
  save_token-Leaves n id d ttl db =
      let P : Db → Type 0 = HasAccess id d in
      if_cases (Leaves P) (ttl == 0) (λ _. tt)
        (λ z.
          send_cases (λ s. Leaves P (done redis digest s)) n db _ tt
            (redis.strings.get-set (token_at (access_key (digest id))) (token_value d) ttl db
              (ground (arith, z)))
            tt)

  save_script-Leaves :
      (n : Network) (id family : String) (d : TokenData) (ttl : ℕ) (db : Db)
      → 0 < ttl
      → Leaves (HasAccess id d) (
          saved redis digest
            (send n db (save_family_script redis digest (access_key (digest id)) family d ttl db)))
  unfolding save_family_script
  save_script-Leaves n id family d ttl db t =
      let P : Db → Type 0 = HasAccess id d in
      let key = token_at (access_key (digest id)) in
      let set = family_set family in
      let db1 = redis.strings.set key (token_value d) ttl db in
      let db2 = redis.sadd set (token_member (access_key (digest id))) db1 in
      let here : HasAccess id d db2 =
        redis.get-sadd key set (token_member (access_key (digest id))) db1
        ∙ redis.strings.get-set key (token_value d) ttl db t in
      send_cases (λ s. Leaves P (saved redis digest s)) n db _ tt
        (if_cases (λ (r : Db × Bool). Leaves P (saved redis digest (r.0, replied r.1)))
          (is_revoked (get_key redis (revoked_key family) db)) (λ _. tt)
          (λ _.
            if_cases (HasAccess id d) (ltb (redis.strings.pttl set db2) ttl)
              (λ _. redis.get-pexpire key set ttl db2 token_family ∙ here) (λ _. here)))
        tt

  pub save_family-Leaves :
      (n : Network) (id family : String) (d : TokenData) (ttl : ℕ) (db : Db)
      → Leaves
          (HasAccess id (record d { family_key = family }))
          (save_token_for_refresh_family redis digest n id d family ttl db)
  unfolding save_token_for_refresh_family
  save_family-Leaves n id family d ttl db =
      let stored = record d { family_key = family } in
      let P : Db → Type 0 = HasAccess id stored in
      if_cases (Leaves P) (str_eq family "") (λ _. tt)
        (λ _.
          if_cases (Leaves P) (ttl == 0) (λ _. tt)
            (λ z. save_script-Leaves n id family stored ttl db (ground (arith, z))))
