-- ===== src/Refresh/Marker.antt =====
-- internal/session/store.go: what the scripts do to the marker of a revoked family.
use nyauth.Common.{
  ℕ, ◌<◌, ◌≡◌, ◌≢◌, inl, inr, Bool, true, List, [], ◌∷◌, Option, none, some, String, str_eq,
  str_eq_iff, Bool-cases, if_cases, ◌||◌, not, ltb, max,
}
use nyauth.Redis.Sets.{RedisSets}
use nyauth.Refresh.{
  TokenData, TokenKey, refresh_key, access_key, Key, token_at, used_key, family_set, revoked_key,
  user_families, Member, token_member, family_member, Value, token_value, revoked_value, Rotation,
  get_key, delete_members, drop_if_empty, revoke_family_state, revoke_family, same_token, Rotating,
  is_revoked, rotate_state, rotate_current, rotate_gone, rotate_value, rotate_script,
}
use nyauth.Refresh.Tokens.{
  Revocation, revoke_found, revoke_for_client_script, first_found, delete_token,
}
use nyauth.Refresh.Store.{save_family_script, revoke_family_script, save_refresh_state}

-- The family is marked as revoked.
abbrev pub Revoked : {Db : Type 0} → RedisSets Key Member Value Db → String → Db → Type 0
Revoked redis f db = get_key redis (revoked_key f) db ≡ some revoked_value

module _ {Db : Type 0} (redis : RedisSets Key Member Value Db) (f : String) where
  set_other :
      (k : Key) (v : Value) (ttl : ℕ) (db : Db)
      → revoked_key f ≢ k
      → Revoked redis f db
      → Revoked redis f (redis.strings.set k v ttl db)
  set_other k v ttl db h r = rw (redis.strings.get-set_other (revoked_key f) k v ttl db h) r

  del_other :
      (k : Key) (db : Db)
      → revoked_key f ≢ k
      → Revoked redis f db
      → Revoked redis f (redis.strings.del k db)
  del_other k db h r = rw (redis.strings.get-del_other (revoked_key f) k db h) r

  sadd-Revoked :
      (k : Key) (m : Member) (db : Db) → Revoked redis f db → Revoked redis f (redis.sadd k m db)
  sadd-Revoked k m db r = rw (redis.get-sadd (revoked_key f) k m db) r

  srem-Revoked :
      (k : Key) (m : Member) (db : Db) → Revoked redis f db → Revoked redis f (redis.srem k m db)
  srem-Revoked k m db r = rw (redis.get-srem (revoked_key f) k m db) r

  pexpire-Revoked :
      (k : Key) (ttl : ℕ) (db : Db)
      → revoked_key f ≢ k
      → Revoked redis f db
      → Revoked redis f (redis.pexpire k ttl db)
  pexpire-Revoked k ttl db h r = rw (redis.get-pexpire (revoked_key f) k ttl db h) r

  mark-Revoked :
      (g : String) (ttl : ℕ) (db : Db)
      → 0 < ttl
      → Revoked redis f db
      → Revoked redis f (redis.strings.set (revoked_key g) revoked_value ttl db)
  mark-Revoked g ttl db t r = elim (Bool-cases (str_eq f g)) [
    | inl y ↦
        rw ((str_eq_iff f g).0 y) (redis.strings.get-set (revoked_key g) revoked_value ttl db t)
    | inr n ↦
        set_other (revoked_key g) revoked_value ttl db
          (λ e.
            let same : f ≡ g = cc in let yes : str_eq f g ≡ true = (str_eq_iff f g).1 same in cc)
          r
  ]

  delete_members-Revoked :
      (ms : List Member) (db : Db)
      → Revoked redis f db
      → Revoked redis f (delete_members redis ms db)
  unfolding delete_members
  delete_members-Revoked [] db r = r
  delete_members-Revoked (token_member k ∷ ms) db r =
      delete_members-Revoked ms (redis.strings.del (token_at k) db)
        (del_other (token_at k) db (λ e. cc) r)
  delete_members-Revoked (family_member g ∷ ms) db r = delete_members-Revoked ms db r

  drop_if_empty-Revoked :
      (u : String) (db : Db)
      → Revoked redis f db
      → Revoked redis f (drop_if_empty redis (user_families u) db)
  unfolding drop_if_empty
  drop_if_empty-Revoked u db r =
      if_cases (Revoked redis f) (redis.is_empty_set (user_families u) db)
        (λ _. del_other (user_families u) db (λ e. cc) r) (λ _. r)

  -- What revokeFamily leaves before it sets the marker.
  revoke_family_state-Revoked :
      (u g : String) (ttl : ℕ) (db : Db)
      → 0 < ttl
      → Revoked redis f db
      → Revoked redis f (revoke_family_state redis (user_families u) g ttl db)
  unfolding revoke_family_state
  revoke_family_state-Revoked u g ttl db t r = mark-Revoked g ttl _ t (
      drop_if_empty-Revoked u _ (
        srem-Revoked (user_families u) (family_member g) _ (
          del_other (family_set g) _ (λ e. cc)
            (delete_members-Revoked (redis.smembers (family_set g) db) db r))))

  revoke_family-Revoked :
      (u : String) (d : TokenData) (ttl : ℕ) (db : Db)
      → 0 < ttl
      → Revoked redis f db
      → Revoked redis f (revoke_family redis (user_families u) d ttl db).0
  unfolding revoke_family
  revoke_family-Revoked u d ttl db t r =
      if_cases {A = Db × Rotation} (λ s. Revoked redis f s.0) (str_eq d.family_key "") (λ _. r)
        (λ _. revoke_family_state-Revoked u d.family_key ttl db t r)

  rotate_state-Revoked :
      (r : Rotating) (d : TokenData) (db : Db)
      → Revoked redis f db
      → Revoked redis f (rotate_state redis r d db)
  unfolding rotate_state
  rotate_state-Revoked r d db at =
      let set = family_set d.family_key in
      let families = user_families r.user in
      let stored = sadd-Revoked families (family_member d.family_key) _ (
        pexpire-Revoked set (max r.refresh_ttl r.access_ttl) _ (λ e. cc)
          (srem-Revoked set (token_member (refresh_key r.old)) _ (
            sadd-Revoked set (token_member (access_key r.access)) _ (
              sadd-Revoked set (token_member (refresh_key r.new)) _ (
                set_other (token_at (access_key r.access)) (token_value r.access_token) r.access_ttl
                  _ (λ e. cc)
                  (set_other (token_at (refresh_key r.new)) (token_value d) r.refresh_ttl db
                    (λ e. cc) at)))))) in
      set_other (used_key r.old) _ _ _ (λ e. cc)
        (del_other (token_at (refresh_key r.old)) _ (λ e. cc)
          (if_cases (Revoked redis f) _
            (λ _. pexpire-Revoked families r.refresh_ttl _ (λ e. cc) stored) (λ _. stored)))

  pub rotate_script-Revoked :
      (r : Rotating) (db : Db)
      → 0 < r.refresh_ttl
      → Revoked redis f db
      → Revoked redis f (rotate_script redis r db).0
  unfolding rotate_script rotate_value rotate_gone rotate_current
  rotate_script-Revoked r db t at = by_value (get_key redis (token_at (refresh_key r.old)) db)
    where
      revoking :
          (d : TokenData)
          → Revoked redis f (revoke_family redis (user_families r.user) d r.refresh_ttl db).0
      revoking d = revoke_family-Revoked r.user d r.refresh_ttl db t at

      by_used : (found : Option Value) → Revoked redis f (rotate_gone redis r found db).0
      by_used none = at
      by_used (some revoked_value) = at
      by_used (some (token_value d)) =
          if_cases {A = Db × Rotation} (λ s. Revoked redis f s.0) (same_token d r.expected)
            (λ _. revoking d) (λ _. at)

      by_current : (d : TokenData) → Revoked redis f (rotate_current redis r d db).0
      by_current d =
          if_cases {A = Db × Rotation} (λ s. Revoked redis f s.0) (not (same_token d r.expected))
            (λ _. at)
            (λ _.
              if_cases {A = Db × Rotation} (λ s. Revoked redis f s.0) (str_eq d.family_key "")
                (λ _. at)
                (λ _.
                  if_cases {A = Db × Rotation} (λ s. Revoked redis f s.0)
                    (is_revoked (get_key redis (revoked_key d.family_key) db)) (λ _. revoking d)
                    (λ _. rotate_state-Revoked r d db at)))

      by_value : (found : Option Value) → Revoked redis f (rotate_value redis r found db).0
      by_value none = by_used (get_key redis (used_key r.old) db)
      by_value (some revoked_value) = at
      by_value (some (token_value d)) = by_current d

  pub save_family_script-Revoked :
      (digest : String → String) (k : TokenKey) (g : String) (d : TokenData) (ttl : ℕ) (db : Db)
      → 0 < ttl
      → Revoked redis f db
      → Revoked redis f (save_family_script redis digest k g d ttl db).0
  unfolding save_family_script
  save_family_script-Revoked digest k g d ttl db t at =
      let set = family_set g in
      let db1 = redis.strings.set (token_at k) (token_value d) ttl db in
      let db2 = redis.sadd set (token_member k) db1 in
      let stored : Revoked redis f db2 =
        sadd-Revoked set _ db1 (set_other (token_at k) _ ttl db (λ e. cc) at) in
      if_cases {A = Db × Bool} (λ s. Revoked redis f s.0)
        (is_revoked (get_key redis (revoked_key g) db)) (λ _. at)
        (λ _.
          if_cases (Revoked redis f) (ltb (redis.strings.pttl set db2) ttl)
            (λ _. pexpire-Revoked set ttl db2 (λ e. cc) stored) (λ _. stored))

  pub revoke_family_script-Revoked :
      (digest : String → String) (g : String) (ttl : ℕ) (db : Db)
      → 0 < ttl
      → Revoked redis f db
      → Revoked redis f (revoke_family_script redis digest g ttl db)
  unfolding revoke_family_script
  revoke_family_script-Revoked digest g ttl db t at = mark-Revoked g ttl _ t (
      del_other (family_set g) _ (λ e. cc)
        (delete_members-Revoked (redis.smembers (family_set g) db) db at))

  pub save_refresh_state-Revoked :
      (digest : String → String) (token : String) (d : TokenData) (ttl : ℕ) (db : Db)
      → Revoked redis f db
      → Revoked redis f (save_refresh_state redis digest token d ttl db)
  unfolding save_refresh_state
  save_refresh_state-Revoked digest token d ttl db at =
      let set = family_set d.family_key in
      let families = user_families (digest d.user_id) in
      pexpire-Revoked families ttl _ (λ e. cc)
        (sadd-Revoked families _ _ (
          pexpire-Revoked set ttl _ (λ e. cc)
            (sadd-Revoked set _ _
              (set_other (token_at (refresh_key (digest token))) _ ttl db (λ e. cc) at))))

  pub revoke_for_client_script-Revoked :
      (token client : String) (ttl : ℕ) (db : Db)
      → 0 < ttl
      → Revoked redis f db
      → Revoked redis f (revoke_for_client_script redis token client ttl db).0
  unfolding revoke_for_client_script revoke_found
  revoke_for_client_script-Revoked token client ttl db t at = by_value (
      first_found (get_key redis (token_at (refresh_key token)) db)
        (get_key redis (used_key token) db))
    where
      by_value : (found : Option Value) → Revoked redis f (revoke_found redis client ttl found db).0
      by_value none = at
      by_value (some revoked_value) = at
      by_value (some (token_value d)) =
          if_cases {A = Db × Revocation} (λ s. Revoked redis f s.0)
            (not (str_eq d.client_id client) || not (str_eq d.token_use "refresh")) (λ _. at)
            (λ _.
              if_cases {A = Db × Revocation} (λ s. Revoked redis f s.0)
                (str_eq d.family_key "" || str_eq d.user_key "") (λ _. at)
                (λ _. revoke_family_state-Revoked d.user_key d.family_key ttl db t at))

  pub saved_token-Revoked :
      (digest : String → String) (id : String) (d : TokenData) (ttl : ℕ) (db : Db)
      → Revoked redis f db
      → Revoked redis f
          (redis.strings.set (token_at (access_key (digest id))) (token_value d) ttl db)
  saved_token-Revoked digest id d ttl db at =
      set_other (token_at (access_key (digest id))) _ ttl db (λ e. cc) at

  pub deleted_token-Revoked :
      (digest : String → String) (id : String) (found : Option Value) (db : Db)
      → Revoked redis f db
      → Revoked redis f (delete_token redis digest (token_at (access_key (digest id))) found db).0
  unfolding delete_token
  deleted_token-Revoked digest id none db at = at
  deleted_token-Revoked digest id (some v) db at =
      del_other (token_at (access_key (digest id))) db (λ e. cc) at
