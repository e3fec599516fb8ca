-- ===== src/Session/Clock.antt =====
-- internal/session/store.go: the logical clock of the grants of a user to a client.
use nyauth.Common.{
  ℕ, suc, Bool, false, List, [], ◌∷◌, Option, none, some, if◌then◌else◌, leb, ◌==◌, String,
}
use nyauth.Redis.{
  Redis, Network, delivered, unreachable, reply_lost, Reply, replied, no_reply, send,
}
use nyauth.Session.Codes.{invalid_ttl, unavailable, Result, ok, err}

-- authorizationClockKey and authorizationRevocationKey, over the digest of the pair. The values are
-- microseconds.
pub data ClockKey : Type 0 where
  clock_key revocation_key : String → ClockKey

-- `if value and tonumber(value) >= micros then micros = tonumber(value) + 1 end`.
abbrev pub past : Option ℕ → ℕ → ℕ
past none micros = micros
past (some value) micros = if leb micros value then suc value else micros

abbrev pub clock_answer : {Db : Type 0} → Db × Reply ℕ → Db × Result ℕ
clock_answer (db, replied t) = (db, ok t)
clock_answer (db, no_reply) = (db, err unavailable)

abbrev pub revoked_answer : ℕ → Option ℕ → Bool
revoked_answer issued_at none = false
revoked_answer issued_at (some revoked) = leb issued_at revoked

module _ {Db : Type 0} (redis : Redis ClockKey ℕ Db) where
  unfoldable pub next_micros : String → ℕ → Db → ℕ
  next_micros grant micros db =
      past (redis.get (revocation_key grant) db) (past (redis.get (clock_key grant) db) micros)

  -- authorizationIssueTimeScript; `micros` is Redis's TIME.
  unfoldable pub issue_time_script : String → ℕ → ℕ → Db → Db × ℕ
  issue_time_script grant micros ttl db =
      let t = next_micros grant micros db in (redis.set (clock_key grant) t ttl db, t)

  -- revokeAuthorizationScript.
  unfoldable pub revoke_script : String → ℕ → ℕ → Db → Db × ℕ
  revoke_script grant micros ttl db =
      let t = next_micros grant micros db in
      (redis.set (revocation_key grant) t ttl (redis.set (clock_key grant) t ttl db), t)

-- Calls by any instance, each with what Redis's clock shows, which may go back.
pub data GrantEvent : Type 0 where
  issues revokes : Network → (user client : String) → (ttl micros : ℕ) → GrantEvent

module _ {Db : Type 0} (redis : Redis ClockKey ℕ Db) (digest : String → String → String) where
  -- AuthorizationIssueTime.
  unfoldable pub authorization_issue_time : Network → String → String → ℕ → ℕ → Db → Db × Result ℕ
  authorization_issue_time n user client ttl micros db =
      let sent = send n db (issue_time_script redis (digest user client) micros ttl db) in
      if ttl == 0 then (db, err invalid_ttl) else clock_answer sent

  -- RevokeUserClientAuthorization.
  unfoldable pub revoke_user_client_authorization :
      Network → String → String → ℕ → ℕ → Db → Db × Result ℕ
  revoke_user_client_authorization n user client ttl micros db =
      let sent = send n db (revoke_script redis (digest user client) micros ttl db) in
      if ttl == 0 then (db, err invalid_ttl) else clock_answer sent

  -- IsUserClientAuthorizationRevoked.
  unfoldable pub is_user_client_authorization_revoked :
      Network → String → String → ℕ → Db → Result Bool
  is_user_client_authorization_revoked delivered user client issued_at db =
      ok (revoked_answer issued_at (redis.get (revocation_key (digest user client)) db))
  is_user_client_authorization_revoked unreachable user client issued_at db = err unavailable
  is_user_client_authorization_revoked reply_lost user client issued_at db = err unavailable

  unfoldable pub grant_step : GrantEvent → Db → Db
  unfolding authorization_issue_time revoke_user_client_authorization
  grant_step (issues n user client ttl micros) db =
      (authorization_issue_time n user client ttl micros db).0
  grant_step (revokes n user client ttl micros) db =
      (revoke_user_client_authorization n user client ttl micros db).0

  unfoldable pub grant_run : List GrantEvent → Db → Db
  unfolding grant_step
  grant_run [] db = db
  grant_run (e ∷ es) db = grant_run es (grant_step e db)
