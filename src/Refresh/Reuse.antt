-- ===== src/Refresh/Reuse.antt =====
-- internal/session/store.go: what the reuse of a refresh token does to its family.
use nyauth.Common.{
  ℕ, ◌<◌, ◌≡◌, ◌≢◌, refl, Bool, true, false, List, Option, none, some, arith, String, str_eq,
  str_eq_iff, if_cases, not, ◌||◌, ◌&&◌, ◌==◌,
}
use nyauth.Redis.{Network, replied, send_cases}
use nyauth.Redis.Sets.{RedisSets}
use nyauth.Refresh.{
  TokenData, refresh_key, access_key, Key, token_at, used_key, revoked_key, user_families, Member,
  Value, token_value, revoked_value, Rotation, get_key, revoke_family_state, revoke_family,
  same_token, Rotating, is_revoked, rotate_current, rotate_gone, rotate_value, rotate_script,
}
use nyauth.Refresh.Store.{
  not_found, refresh_token_reuse, refresh_family_revoked, token_binding_mismatch,
  invalid_token_data, invalid_ttl, unavailable, Result, ok, err, decode_rotation, RotationInput,
  valid_rotation, rotating, rotate_refresh_token_and_store_access, save_family_script, saved,
  save_token_for_refresh_family,
}
use nyauth.Refresh.Marker.{Revoked}
use nyauth.Refresh.Family.{FamilyEvent, family_run, run-Revoked, positive}

-- What a rotation leaves where it reports a reuse, and what it needs where it succeeds.
abbrev RotationLeaves :
    {Db : Type 0} → RedisSets Key Member Value Db → String → Db → Db × Result TokenData → Type 0
RotationLeaves redis family db (db', ok d) =
    is_revoked (get_key redis (revoked_key d.family_key) db) ≡ false
RotationLeaves redis family db (db', err refresh_token_reuse) = Revoked redis family db'
RotationLeaves redis family db (db', err not_found) = Unit
RotationLeaves redis family db (db', err refresh_family_revoked) = Unit
RotationLeaves redis family db (db', err token_binding_mismatch) = Unit
RotationLeaves redis family db (db', err invalid_token_data) = Unit
RotationLeaves redis family db (db', err invalid_ttl) = Unit
RotationLeaves redis family db (db', err unavailable) = Unit

same_family : (a b : TokenData) → same_token a b ≡ true → a.family_key ≡ b.family_key
unfolding same_token
same_family a b h =
    (str_eq_iff a.family_key b.family_key).0 (first (str_eq a.family_key b.family_key) _ h)
  where
    first : (x y : Bool) → (x && y) ≡ true → x ≡ true
    first x y h = ground arith

was_true : (b : Bool) → not b ≡ false → b ≡ true
was_true b h = ground arith

module _ {Db : Type 0} (redis : RedisSets Key Member Value Db) where
  -- The family as the caller knows it.
  abbrev Outcome : String → Db → Db × Rotation → Type 0
  Outcome family db s = RotationLeaves redis family db (decode_rotation (s.0, replied s.1))

  revoke_family-Outcome :
      (u : String) (d : TokenData) (ttl : ℕ) (family : String) (db before : Db)
      → 0 < ttl
      → d.family_key ≡ family
      → Outcome family before (revoke_family redis (user_families u) d ttl db)
  unfolding revoke_family revoke_family_state
  revoke_family-Outcome u d ttl family db before t same =
      if_cases (Outcome family before) (str_eq d.family_key "") (λ _. tt)
        (λ _. rw same (redis.strings.get-set (revoked_key family) revoked_value ttl _ t))

  rotate_script-Outcome :
      (r : Rotating) (db : Db)
      → 0 < r.refresh_ttl
      → Outcome r.expected.family_key db (rotate_script redis r db)
  unfolding rotate_script rotate_value rotate_gone rotate_current
  rotate_script-Outcome r db t = by_value (get_key redis (token_at (refresh_key r.old)) db)
    where
      Ends : Db × Rotation → Type 0
      Ends s = Outcome r.expected.family_key db s

      revoking :
          (d : TokenData)
          → same_token d r.expected ≡ true
          → Ends (revoke_family redis (user_families r.user) d r.refresh_ttl db)
      revoking d same =
          revoke_family-Outcome r.user d r.refresh_ttl r.expected.family_key db db t
            (same_family d r.expected same)

      by_used : (found : Option Value) → Ends (rotate_gone redis r found db)
      by_used none = tt
      by_used (some revoked_value) = tt
      by_used (some (token_value d)) =
          if_cases Ends (same_token d r.expected) (revoking d) (λ _. tt)

      by_current : (d : TokenData) → Ends (rotate_current redis r d db)
      by_current d =
          if_cases Ends (not (same_token d r.expected)) (λ _. tt)
            (λ same.
              if_cases Ends (str_eq d.family_key "") (λ _. tt)
                (λ _.
                  if_cases Ends (is_revoked (get_key redis (revoked_key d.family_key) db))
                    (λ _. revoking d (was_true (same_token d r.expected) same)) (λ free. free)))

      by_value : (found : Option Value) → Ends (rotate_value redis r found db)
      by_value none = by_used (get_key redis (used_key r.old) db)
      by_value (some revoked_value) = tt
      by_value (some (token_value d)) = by_current d

  rotate-Leaves :
      (digest : String → String) (n : Network) (i : RotationInput) (db : Db)
      → RotationLeaves redis i.expected.family_key db
          (rotate_refresh_token_and_store_access redis digest n i db)
  unfolding rotate_refresh_token_and_store_access
  rotate-Leaves digest n i db =
      let P : Db × Result TokenData → Type 0 = RotationLeaves redis i.expected.family_key db in
      if_cases P (not (valid_rotation i)) (λ _. tt)
        (λ _.
          if_cases P (i.refresh_ttl == 0 || i.access_ttl == 0) (λ _. tt)
            (λ z.
              send_cases (λ s. P (decode_rotation s)) n db
                (rotate_script redis (rotating redis digest i) db) tt
                (rotate_script-Outcome (rotating redis digest i) db
                  (positive i.refresh_ttl i.access_ttl z))
                tt))

  refused_save :
      (digest : String → String) (n : Network) (id f : String) (d : TokenData) (ttl : ℕ) (db : Db)
      → Revoked redis f db
      → (save_token_for_refresh_family redis digest n id d f ttl db).1 ≢ ok tt
  unfolding save_token_for_refresh_family save_family_script
  refused_save digest n id f d ttl db at =
      let P : Db × Result Unit → Type 0 = λ s. s.1 ≢ ok tt in
      if_cases P (str_eq f "") (λ _ h. cc)
        (λ _.
          if_cases P (ttl == 0) (λ _ h. cc)
            (λ _.
              send_cases (λ s. P (saved redis digest s)) n db
                (save_family_script redis digest (access_key (digest id)) f
                  (record d { family_key = f }) ttl db)
                (λ h. cc) (rw at (λ h. cc)) (λ h. cc)))

-- A rotation that succeeds is of another family.
abbrev pub NotOfFamily : {Db : Type 0} → String → Db × Result TokenData → Type 0
NotOfFamily family (db, ok d) = d.family_key ≢ family
NotOfFamily family (db, err e) = Unit

marked_family :
    {Db : Type 0} (redis : RedisSets Key Member Value Db) (family other : String) (db : Db)
    (r : Db × Result TokenData)
    → Revoked redis family db
    → RotationLeaves redis other db r
    → NotOfFamily family r
marked_family redis family other db (db', err e) marked leaves = tt
marked_family redis family other db (db', ok d) marked leaves = λ same.
    let yes : is_revoked (get_key redis (revoked_key d.family_key) db) ≡ true =
      rw (same, marked) refl in
    cc

-- RotateRefreshTokenAndStoreAccess reported ErrRefreshTokenReuse. Then, whatever calls of it, of
-- SaveRefreshToken, SaveToken, SaveTokenForRefreshFamily, RevokeToken, RevokeRefreshTokenForClient
-- and RevokeRefreshFamily any instance makes while no key expires, with Redis requests that fail or lose their replies: a rotation that succeeds is of another
-- family, and SaveTokenForRefreshFamily saves no token for this one.
pub reuse_ends_family :
    {Db : Type 0} (redis : RedisSets Key Member Value Db) (digest : String → String) (n : Network)
    (i : RotationInput) (db : Db) {db' : Db} (es : List FamilyEvent) (n' n'' : Network)
    (i' : RotationInput) (token_id : String) (d : TokenData) (ttl : ℕ)
    → rotate_refresh_token_and_store_access redis digest n i db ≡ (db', err refresh_token_reuse)
    → let after = family_run redis digest es db' in
      let family = i.expected.family_key in
      NotOfFamily family (rotate_refresh_token_and_store_access redis digest n' i' after)
      × ((save_token_for_refresh_family redis digest n'' token_id d family ttl after).1 ≢ ok tt)
reuse_ends_family redis digest n i db {db'} es n' n'' i' token_id d ttl e =
    let family = i.expected.family_key in
    let after = family_run redis digest es db' in
    let marked : Revoked redis family db' = rw e at (rotate-Leaves redis digest n i db) in
    let still : Revoked redis family after = run-Revoked redis digest family es db' marked in
    (
      marked_family redis family i'.expected.family_key after
          (rotate_refresh_token_and_store_access redis digest n' i' after) still
          (rotate-Leaves redis digest n' i' after),
      refused_save redis digest n'' token_id family d ttl after still,
    )
