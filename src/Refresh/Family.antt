-- ===== src/Refresh/Family.antt =====
-- internal/session/store.go: any order of calls on the families of refresh tokens.
use nyauth.Common.{
  Option, none, some, ℕ, ◌<◌, ◌≡◌, Bool, true, false, List, [], ◌∷◌, arith, String, str_eq,
  if_cases, not, ◌||◌, ◌==◌,
}
use nyauth.Redis.{Network, replied, send, send_cases}
use nyauth.Redis.Sets.{RedisSets}
use nyauth.Refresh.{
  access_key, token_at, get_key, TokenData, Key, Member, Value, Rotation, absent, unfamiliar,
  different, reused, rotated,
}
use nyauth.Refresh.Store.{
  Result, decode_rotation, RotationInput, valid_rotation, rotating,
  rotate_refresh_token_and_store_access, saved, save_token_for_refresh_family, revoke_family_script,
  done, revoke_refresh_family, complete_family, save_completed, save_refresh_state,
  save_refresh_token,
}
use nyauth.Refresh.Tokens.{
  save_token, revoke_refresh_token_for_client, revoke_token, delete_token, deleted, Revocation,
  no_token, other_client, no_family, revoked, revocation_result,
}
use nyauth.Refresh.Marker.{
  revoke_for_client_script-Revoked, saved_token-Revoked, deleted_token-Revoked, Revoked,
  rotate_script-Revoked, save_family_script-Revoked, revoke_family_script-Revoked,
  save_refresh_state-Revoked,
}

-- Calls by any instance, in the order in which Redis runs them.
pub data FamilyEvent : Type 0 where
  rotates : Network → RotationInput → FamilyEvent
  saves_token :
      Network → (token_id : String) → TokenData → (family : String) → (ttl : ℕ) → FamilyEvent
  saves_refresh :
      Network → (random : Option String) → (token : String) → TokenData → (ttl : ℕ) → FamilyEvent
  saves_access : Network → (token_id : String) → TokenData → (ttl : ℕ) → FamilyEvent
  revokes_token : Network → (token client : String) → (ttl : ℕ) → FamilyEvent
  revokes_access : Network → (token_id : String) → FamilyEvent
  revokes_family : Network → (family_id : String) → (ttl : ℕ) → FamilyEvent

module _ {Db : Type 0} (redis : RedisSets Key Member Value Db) (digest : String → String) where
  unfoldable pub family_step : FamilyEvent → Db → Db
  unfolding rotate_refresh_token_and_store_access save_token_for_refresh_family
      revoke_refresh_family
  family_step (rotates n i) db = (rotate_refresh_token_and_store_access redis digest n i db).0
  family_step (saves_token n id d family ttl) db =
      (save_token_for_refresh_family redis digest n id d family ttl db).0
  family_step (saves_refresh n random token d ttl) db =
      (save_refresh_token redis digest n random token d ttl db).0
  family_step (saves_access n id d ttl) db = (save_token redis digest n id d ttl db).0
  family_step (revokes_token n token client ttl) db =
      (revoke_refresh_token_for_client redis digest n token client ttl db).0
  family_step (revokes_access n id) db = (revoke_token redis digest n id db).0
  family_step (revokes_family n id ttl) db = (revoke_refresh_family redis digest n id ttl db).0

  unfoldable pub family_run : List FamilyEvent → Db → Db
  unfolding family_step
  family_run [] db = db
  family_run (e ∷ es) db = family_run es (family_step e db)

pub positive : (a b : ℕ) → (a == 0 || b == 0) ≡ false → 0 < a
positive a b h = ground arith

module _ {Db : Type 0} (redis : RedisSets Key Member Value Db) (digest : String → String)
    (f : String) where
  rotation_sent :
      (n : Network) (db : Db) (r : Db × Rotation)
      → Revoked redis f db
      → Revoked redis f r.0
      → Revoked redis f (decode_rotation (send n db r)).0
  rotation_sent n db r at after =
      send_cases (λ s. Revoked redis f (decode_rotation s).0) n db r at (by_reply r.1) after
    where
      by_reply : (reply : Rotation) → Revoked redis f (decode_rotation (r.0, replied reply)).0
      by_reply absent = after
      by_reply unfamiliar = after
      by_reply different = after
      by_reply (reused d) = after
      by_reply (rotated d) = after

  save_sent :
      (n : Network) (db : Db) (r : Db × Bool)
      → Revoked redis f db
      → Revoked redis f r.0
      → Revoked redis f (saved redis digest (send n db r)).0
  save_sent n db r at after =
      send_cases (λ s. Revoked redis f (saved redis digest s).0) n db r at (by_reply r.1) after
    where
      by_reply : (reply : Bool) → Revoked redis f (saved redis digest (r.0, replied reply)).0
      by_reply true = after
      by_reply false = after

  done_sent :
      (n : Network) (db : Db) (r : Db × Unit)
      → Revoked redis f db
      → Revoked redis f r.0
      → Revoked redis f (done redis digest (send n db r)).0
  done_sent n db r at after =
      send_cases (λ s. Revoked redis f (done redis digest s).0) n db r at after after

  revocation_sent :
      (n : Network) (db : Db) (r : Db × Revocation)
      → Revoked redis f db
      → Revoked redis f r.0
      → Revoked redis f (revocation_result (send n db r)).0
  revocation_sent n db r at after =
      send_cases (λ s. Revoked redis f (revocation_result s).0) n db r at (by_reply r.1) after
    where
      by_reply : (reply : Revocation) → Revoked redis f (revocation_result (r.0, replied reply)).0
      by_reply no_token = after
      by_reply other_client = after
      by_reply no_family = after
      by_reply revoked = after

  deleted_sent :
      (n : Network) (db : Db) (r : Db × Bool)
      → Revoked redis f db
      → Revoked redis f r.0
      → Revoked redis f (deleted redis digest (send n db r)).0
  deleted_sent n db r at after =
      send_cases (λ s. Revoked redis f (deleted redis digest s).0) n db r at (by_reply r.1) after
    where
      by_reply : (reply : Bool) → Revoked redis f (deleted redis digest (r.0, replied reply)).0
      by_reply true = after
      by_reply false = after

  completed-Revoked :
      (n : Network) (token : String) (completed : Option TokenData) (ttl : ℕ) (db : Db)
      → Revoked redis f db
      → Revoked redis f (save_completed redis digest n token completed ttl db).0
  completed-Revoked n token none ttl db at = at
  completed-Revoked n token (some d) ttl db at =
      let after = save_refresh_state-Revoked redis f digest token d ttl db at in
      send_cases (λ s. Revoked redis f (done redis digest s).0) n db
        (save_refresh_state redis digest token d ttl db, tt) at after after

  step-Revoked :
      (e : FamilyEvent) (db : Db)
      → Revoked redis f db
      → Revoked redis f (family_step redis digest e db)
  unfolding family_step rotate_refresh_token_and_store_access save_token_for_refresh_family
      save_refresh_token revoke_refresh_family save_token revoke_refresh_token_for_client
      revoke_token delete_token
  step-Revoked (rotates n i) db at =
      if_cases {A = Db × Result TokenData} (λ s. Revoked redis f s.0) (not (valid_rotation i))
        (λ _. at)
        (λ _.
          if_cases {A = Db × Result TokenData} (λ s. Revoked redis f s.0)
            (i.refresh_ttl == 0 || i.access_ttl == 0) (λ _. at)
            (λ z. rotation_sent n db _ at (
              rotate_script-Revoked redis f (rotating redis digest i) db
                (positive i.refresh_ttl i.access_ttl z) at)))
  step-Revoked (saves_token n id d family ttl) db at =
      if_cases {A = Db × Result Unit} (λ s. Revoked redis f s.0) (str_eq family "") (λ _. at)
        (λ _.
          if_cases {A = Db × Result Unit} (λ s. Revoked redis f s.0) (ttl == 0) (λ _. at)
            (λ z.
              save_sent n db _ at (
                save_family_script-Revoked redis f digest _ family _ ttl db (ground (arith, z))
                  at)))
  step-Revoked (saves_refresh n random token d ttl) db at =
      if_cases {A = Db × Result Unit} (λ s. Revoked redis f s.0) (str_eq d.user_id "") (λ _. at)
        (λ _. completed-Revoked n token (complete_family redis digest random d) ttl db at)
  step-Revoked (saves_access n id d ttl) db at =
      let after = saved_token-Revoked redis f digest id d ttl db at in
      if_cases {A = Db × Result Unit} (λ s. Revoked redis f s.0) (ttl == 0) (λ _. at)
        (λ _. done_sent n db _ at after)
  step-Revoked (revokes_token n token client ttl) db at =
      if_cases {A = Db × Result Unit} (λ s. Revoked redis f s.0) (ttl == 0) (λ _. at)
        (λ z. revocation_sent n db _ at (
          revoke_for_client_script-Revoked redis f (digest token) client ttl db (ground (arith, z))
            at))
  step-Revoked (revokes_access n id) db at =
      let key = token_at (access_key (digest id)) in
      deleted_sent n db (delete_token redis digest key (get_key redis key db) db) at
        (deleted_token-Revoked redis f digest id (get_key redis key db) db at)
  step-Revoked (revokes_family n id ttl) db at =
      if_cases {A = Db × Result Unit} (λ s. Revoked redis f s.0) (ttl == 0) (λ _. at)
        (λ z.
          let after =
            revoke_family_script-Revoked redis f digest (digest id) ttl db (ground (arith, z)) at in
          send_cases (λ s. Revoked redis f (done redis digest s).0) n db
            (revoke_family_script redis digest (digest id) ttl db, tt) at after after)

  pub run-Revoked :
      (es : List FamilyEvent) (db : Db)
      → Revoked redis f db
      → Revoked redis f (family_run redis digest es db)
  unfolding family_run
  run-Revoked [] db at = at
  run-Revoked (e ∷ es) db at = run-Revoked es (family_step redis digest e db) (step-Revoked e db at)
