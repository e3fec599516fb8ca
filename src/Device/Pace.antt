-- ===== src/Device/Pace.antt =====
-- internal/deviceauthorization/store.go: how fast a device may poll.
use nyauth.Common.{ℕ, ◌+◌, ◌*◌, ◌<◌, ◌≡◌, ◌⊎◌, inl, inr, refl, Option, none, some, arith, String}
use nyauth.Redis.{Redis, Network, Reply, replied, send_cases}
use nyauth.Device.{
  pending, Record, Key, record_key, Value, record_value, waited, slowed, poll_script, PollReply,
}
use nyauth.Device.Cases.{poll_cases}
use nyauth.Device.Store.{
  authorization_pending, slow_down, not_found, value_mismatch, access_denied, invalid_input,
  unavailable, exhausted, Digests, slow_down_step,
}
use nyauth.Device.Decisions.{Polled, poll_failed, poll_ok, polled, poll}

-- A pending record that no poll may find before `due`, with an interval of `seconds`.
abbrev pub Paced : ℕ → ℕ → Option Value → Type 0
Paced due seconds found =
    (r : Record) × (found ≡ some (record_value r))
    × (r.status ≡ pending)
    × (r.next_poll_at ≡ due)
    × (r.interval_seconds ≡ seconds)

-- What a poll at `now` leaves where it answers that the request is pending or polled too fast.
abbrev pub LeavesPaced : {Db : Type 0} → (Db → Option Value) → ℕ → Db × Polled → Type 0
LeavesPaced found now (db, poll_failed authorization_pending s) =
    Paced (now + s * 1000) s (found db)
LeavesPaced found now (db, poll_failed slow_down s) = Paced (now + s * 1000) s (found db)
LeavesPaced found now (db, poll_failed not_found s) = Unit
LeavesPaced found now (db, poll_failed value_mismatch s) = Unit
LeavesPaced found now (db, poll_failed access_denied s) = Unit
LeavesPaced found now (db, poll_failed invalid_input s) = Unit
LeavesPaced found now (db, poll_failed unavailable s) = Unit
LeavesPaced found now (db, poll_failed exhausted s) = Unit
LeavesPaced found now (db, poll_ok r s) = Unit

-- What a poll before its time may answer: to slow down to `seconds`, or that nothing is there, or that
-- Redis failed.
abbrev pub SlowsTo : ℕ → Polled → Type 0
SlowsTo seconds (poll_failed slow_down s) = s ≡ seconds
SlowsTo seconds (poll_failed not_found s) = Unit
SlowsTo seconds (poll_failed unavailable s) = Unit
SlowsTo seconds (poll_failed authorization_pending s) = ⊥
SlowsTo seconds (poll_failed value_mismatch s) = ⊥
SlowsTo seconds (poll_failed access_denied s) = ⊥
SlowsTo seconds (poll_failed invalid_input s) = ⊥
SlowsTo seconds (poll_failed exhausted s) = ⊥
SlowsTo seconds (poll_ok r s) = ⊥

module _ {Db : Type 0} (redis : Redis Key Value Db) (ds : Digests) where
  poll-LeavesPaced :
      (n : Network) (code client : String) (now : ℕ) (db : Db)
      → let key = record_key (ds.code_digest code) in
        LeavesPaced (redis.get key) now (poll redis ds n code client now db)
  unfolding poll
  poll-LeavesPaced n code client now db =
      let key = record_key (ds.code_digest code) in
      let P : Db × Reply PollReply → Type 0 =
        λ s. LeavesPaced (redis.get key) now (s.0, polled s.1) in
      send_cases P n db (poll_script redis key client now slow_down_step db) tt
        (poll_cases redis db (λ s. P (s.0, replied s.1)) key client now slow_down_step
          (record {
            missing = λ _. tt;
            error = tt;
            mismatch = tt;
            refused = λ _ _ _. tt;
            granted = λ _ _ _ _. tt;
            expired = λ _ _ _. tt;
            waits = λ r _ s _ t. (
              waited now r,
              redis.get-set key (record_value (waited now r)) _ db t,
              s,
              refl,
              refl,
            );
            slows = λ r _ s _ t.
                let r' = slowed now slow_down_step r in
                (r', redis.get-set key (record_value r') _ db t, s, refl, refl);
          }))
        tt

  poll-SlowsTo :
      (n : Network) (code client : String) (now due seconds : ℕ) (db : Db)
      → let key = record_key (ds.code_digest code) in
        (redis.get key db ≡ none) ⊎ Paced due seconds (redis.get key db)
        → now < due
        → SlowsTo (seconds + slow_down_step) (poll redis ds n code client now db).1
  unfolding poll
  poll-SlowsTo n code client now due seconds db paced early =
      let key = record_key (ds.code_digest code) in
      let P : Reply PollReply → Type 0 = λ s. SlowsTo (seconds + slow_down_step) (polled s) in
      send_cases (λ s. P s.1) n db (poll_script redis key client now slow_down_step db) tt
        (poll_cases redis db (λ s. P (replied s.1)) key client now slow_down_step
          (record {
            missing = λ _. tt;
            error = tt;
            mismatch = tt;
            refused = λ r e s. let (s', _, _) = the_record r e in absurd (cc);
            granted = λ r e s _. let (s', _, _) = the_record r e in absurd (cc);
            expired = λ _ _ _. tt;
            waits = λ r e _ h _. let (_, d, _) = the_record r e in absurd (omega (arith, h, d));
            slows = λ r e _ _ _. let (_, _, i) = the_record r e in rw i refl;
          }))
        tt
    where
      the_record :
          (r : Record)
          → redis.get (record_key (ds.code_digest code)) db ≡ some (record_value r)
          → (r.status ≡ pending) × (r.next_poll_at ≡ due) × (r.interval_seconds ≡ seconds)
      the_record r e = elim paced [
        | inl gone ↦ absurd (cc)
        | inr (r', e', s, d, i) ↦ let same : r ≡ r' = cc in rw same (s, d, i)
      ]

-- A poll at `now` answered authorization_pending or slow_down with an interval of s seconds. Then, after
-- any lapse of time with no other call, a poll of the same device whose clock shows less than
-- `now` plus s seconds is answered by slow_down with s + 5 seconds, or finds nothing, or fails
-- with Redis: it never reads a decision.
pub too_fast :
    {Db : Type 0} (redis : Redis Key Value Db) (ds : Digests) (n : Network) (code client : String)
    (now : ℕ) (db : Db) {db' : Db} {seconds : ℕ} (passed : ℕ) (n' : Network) (client' : String)
    (now' : ℕ)
    → (poll redis ds n code client now db ≡ (db', poll_failed authorization_pending seconds))
      ⊎ (poll redis ds n code client now db ≡ (db', poll_failed slow_down seconds))
    → now' < now + seconds * 1000
    → SlowsTo
        (seconds + slow_down_step)
        (poll redis ds n' code client' now' (redis.elapse passed db')).1
too_fast redis ds n code client now db {db'} {seconds} passed n' client' now' answered early =
    let key = record_key (ds.code_digest code) in
    let paced : Paced (now + seconds * 1000) seconds (redis.get key db') = elim answered [
      | inl e ↦ rw e at (poll-LeavesPaced redis ds n code client now db)
      | inr e ↦ rw e at (poll-LeavesPaced redis ds n code client now db)
    ] in
    poll-SlowsTo redis ds n' code client' now' (now + seconds * 1000) seconds
      (redis.elapse passed db')
      (elim (redis.get-elapse key passed db') [
        | inl gone ↦ inl gone
        | inr same ↦ inr (rw same paced)
      ])
      early
