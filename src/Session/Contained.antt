-- ===== src/Session/Contained.antt =====
-- internal/session/store.go: a revocation that reached Redis, and the grants issued before it.
use nyauth.Common.{ℕ, ◌<◌, ◌≡◌, ◌≢◌, false, List, arith, String, ◌==◌, le→leb}
use nyauth.Redis.{Redis, Network, delivered, unreachable, reply_lost}
use nyauth.Session.Codes.{ok}
use nyauth.Session.Clock.{
  ClockKey, revocation_key, next_micros, revoke_script, revoke_user_client_authorization,
  is_user_client_authorization_revoked, GrantEvent, grant_run,
}
use nyauth.Session.Revocation.{Bounds, Marked, next-clock}
use nyauth.Session.Revoked.{run_keeps, step-Marked, events-All}

module _ {Db : Type 0} (redis : Redis ClockKey ℕ Db) (digest : String → String → String)
    (user client : String) (i : ℕ) where
  -- A revocation whose request reaches Redis marks the grant above every time issued.
  pub delivered_revocation :
      (ttl micros : ℕ) (db : Db)
      → 0 < ttl
      → Bounds redis (digest user client) i db
      → Marked redis
          (digest user client)
          i
          (revoke_user_client_authorization redis digest delivered user client ttl micros db).0
  unfolding revoke_user_client_authorization revoke_script
  delivered_revocation ttl micros db t (v, e, l) =
      let g = digest user client in
      let above = next-clock redis g micros v db e in
      let z : (ttl == 0) ≡ false = ground (arith, t) in
      rw z (
        next_micros redis g micros db,
        redis.get-set (revocation_key g) _ ttl _ t,
        omega (arith, above, l),
      )

  -- No reading of the mark says that the grant stands.
  pub Marked-grant :
      (n : Network) (es : List GrantEvent) (db : Db)
      → Marked redis (digest user client) i db
      → is_user_client_authorization_revoked redis digest n user client i
          (grant_run redis digest es db)
        ≢ ok false
  unfolding is_user_client_authorization_revoked
  Marked-grant unreachable es db at = λ h. cc
  Marked-grant reply_lost es db at = λ h. cc
  Marked-grant delivered es db at =
      let g = digest user client in
      let (v, is, above) : Marked redis g i (grant_run redis digest es db) =
        run_keeps redis digest (Marked redis g i) _ (step-Marked redis digest g i) es db
          (events-All redis digest es) at in
      rw (is, le→leb i v above) (λ h. cc)
