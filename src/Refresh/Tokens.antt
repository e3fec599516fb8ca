-- ===== src/Refresh/Tokens.antt =====
-- internal/session/store.go: the methods of Store that read, save and revoke single tokens.
use nyauth.Common.{
  ℕ, Bool, true, false, Option, none, some, if◌then◌else◌, not, ◌||◌, ◌==◌, str_eq, String,
}
use nyauth.Redis.{Network, delivered, unreachable, reply_lost, Reply, replied, no_reply, send}
use nyauth.Redis.Sets.{RedisSets}
use nyauth.Refresh.{
  TokenData, refresh_key, access_key, Key, token_at, used_key, user_families, Member, Value,
  token_value, revoked_value, get_key, revoke_family_state,
}
use nyauth.Refresh.Store.{
  Error, not_found, refresh_token_reuse, refresh_family_revoked, token_binding_mismatch,
  invalid_token_data, invalid_ttl, unavailable, Result, ok, err, done,
}

-- getJSON on a token.
abbrev pub decode_token : Option Value → Result TokenData
decode_token none = err not_found
decode_token (some revoked_value) = err unavailable
decode_token (some (token_value d)) = ok d

-- What GetRefreshTokenState returns: a token, and whether it was used.
pub data TokenState : Type 0 where
  current used : TokenData → TokenState
  no_state : Error → TokenState

abbrev pub used_state : Result TokenData → TokenState
used_state (ok d) = used d
used_state (err e) = no_state e

abbrev pub state_or : Result TokenData → TokenState → TokenState
state_or (ok d) otherwise = current d
state_or (err not_found) otherwise = otherwise
state_or (err refresh_token_reuse) otherwise = no_state refresh_token_reuse
state_or (err refresh_family_revoked) otherwise = no_state refresh_family_revoked
state_or (err token_binding_mismatch) otherwise = no_state token_binding_mismatch
state_or (err invalid_token_data) otherwise = no_state invalid_token_data
state_or (err invalid_ttl) otherwise = no_state invalid_ttl
state_or (err unavailable) otherwise = no_state unavailable

-- The replies 0, -1, -2 and 1 of revokeRefreshForClientScript.
pub data Revocation : Type 0 where
  no_token other_client no_family revoked : Revocation

abbrev pub revocation_result : {Db : Type 0} → Db × Reply Revocation → Db × Result Unit
revocation_result (db, no_reply) = (db, err unavailable)
revocation_result (db, replied no_token) = (db, err not_found)
revocation_result (db, replied other_client) = (db, err token_binding_mismatch)
revocation_result (db, replied no_family) = (db, err invalid_token_data)
revocation_result (db, replied revoked) = (db, ok tt)

-- `GET KEYS[1]`, or `GET KEYS[2]` where there is none.
abbrev pub first_found : Option Value → Option Value → Option Value
first_found none second = second
first_found (some v) second = some v

module _ {Db : Type 0} (redis : RedisSets Key Member Value Db) where
  -- The script on the token that it found. The marker of a family has no fields, so its client is
  -- not the one expected.
  unfoldable pub revoke_found : String → ℕ → Option Value → Db → Db × Revocation
  unfolding revoke_family_state
  revoke_found client ttl none db = (db, no_token)
  revoke_found client ttl (some revoked_value) db = (db, other_client)
  revoke_found client ttl (some (token_value d)) db =
      let gone = revoke_family_state redis (user_families d.user_key) d.family_key ttl db in
      if not (str_eq d.client_id client) || not (str_eq d.token_use "refresh")
      then (db, other_client)
      else if str_eq d.family_key "" || str_eq d.user_key ""
      then (db, no_family)
      else (gone, revoked)

  -- revokeRefreshForClientScript, on the digest of the token.
  unfoldable pub revoke_for_client_script : String → String → ℕ → Db → Db × Revocation
  unfolding revoke_found
  revoke_for_client_script token client ttl db =
      revoke_found client ttl
        (first_found (get_key redis (token_at (refresh_key token)) db)
          (get_key redis (used_key token) db))
        db

module _ {Db : Type 0} (redis : RedisSets Key Member Value Db) (digest : String → String) where
  -- SaveToken, by setJSON.
  unfoldable pub save_token : Network → String → TokenData → ℕ → Db → Db × Result Unit
  save_token n token_id d ttl db =
      let key = token_at (access_key (digest token_id)) in
      let sent = send n db (redis.strings.set key (token_value d) ttl db, tt) in
      if ttl == 0 then (db, err invalid_ttl) else done redis digest sent

  -- getJSON.
  unfoldable pub get_json : Network → Key → Db → Result TokenData
  get_json delivered k db = decode_token (get_key redis k db)
  get_json unreachable k db = err unavailable
  get_json reply_lost k db = err unavailable

  -- GetToken.
  unfoldable pub get_token : Network → String → Db → Result TokenData
  unfolding get_json
  get_token n token_id db = get_json n (token_at (access_key (digest token_id))) db

  -- GetRefreshToken.
  unfoldable pub get_refresh_token : Network → String → Db → Result TokenData
  unfolding get_json
  get_refresh_token n token db = get_json n (token_at (refresh_key (digest token))) db

  -- GetRefreshTokenState, whose two requests may fail apart.
  unfoldable pub get_refresh_token_state : Network → Network → String → Db → TokenState
  unfolding get_json
  get_refresh_token_state n n' token db =
      state_or (get_json n (token_at (refresh_key (digest token))) db)
        (used_state (get_json n' (used_key (digest token)) db))

  -- RevokeRefreshTokenForClient.
  unfoldable pub revoke_refresh_token_for_client :
      Network → String → String → ℕ → Db → Db × Result Unit
  unfolding revoke_for_client_script
  revoke_refresh_token_for_client n token client ttl db =
      let sent = send n db (revoke_for_client_script redis (digest token) client ttl db) in
      if ttl == 0 then (db, err invalid_ttl) else revocation_result sent

  -- The number that DEL answers.
  unfoldable pub delete_token : Key → Option Value → Db → Db × Bool
  delete_token k none db = (db, false)
  delete_token k (some v) db = (redis.strings.del k db, true)

  abbrev pub deleted : Db × Reply Bool → Db × Result Unit
  deleted (db, no_reply) = (db, err unavailable)
  deleted (db, replied false) = (db, err not_found)
  deleted (db, replied true) = (db, ok tt)

  -- RevokeToken.
  unfoldable pub revoke_token : Network → String → Db → Db × Result Unit
  unfolding delete_token
  revoke_token n token_id db =
      let key = token_at (access_key (digest token_id)) in
      deleted (send n db (delete_token key (get_key redis key db) db))
