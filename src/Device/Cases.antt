-- ===== src/Device/Cases.antt =====
-- internal/deviceauthorization/store.go: the scripts, branch by branch.
use nyauth.Common.{
  ℕ, ◌+◌, ◌≤◌, ◌<◌, ◌≡◌, refl, Bool, true, Option, none, some, arith, String, ltb, leb, str_eq,
  str_eq_iff, if_cases, ltb→lt, ltb→ge, ◌&&◌,
}
use nyauth.Redis.{Redis}
use nyauth.Device.{
  Status, pending, approved, denied, unknown_status, Record, Key, Value, record_value, device_value,
  PollReply, poll_missing, poll_mismatch, poll_denied, poll_error, poll_wait, poll_slower,
  poll_granted, ScriptReply, script_missing, script_mismatch, script_done, script_error, is_pending,
  is_approved, waited, slowed, create_values, create_script, store_polled, poll_pending,
  poll_status, poll_value, poll_script, allowed_replacement, decide_stored, decide_value,
  decide_script, consume_value, consume_script,
}

module _ {κ} {Db : Type 0} (redis : Redis Key Value Db) (db : Db) where
  pub create_cases :
      (P : Db × ScriptReply → Type κ) (key code_key : Key) (r : Record) (ttl : ℕ) (id : String)
      → P (db, script_missing)
      → (redis.get key db ≡ none
          → redis.get code_key db ≡ none
          → P (
            redis.set code_key (device_value id) ttl (redis.set key (record_value r) ttl db),
            script_done,
          ))
      → P (create_script redis key code_key r ttl id db)
  unfolding create_script create_values
  create_cases P key code_key r ttl id taken free =
      by_values (redis.get key db) (redis.get code_key db) refl refl
    where
      by_values :
          (found found' : Option Value)
          → redis.get key db ≡ found
          → redis.get code_key db ≡ found'
          → P (create_values redis key code_key r ttl id found found' db)
      by_values (some v) found' e e' = taken
      by_values none (some v) e e' = taken
      by_values none none e e' = free e e'

  pub record PollRules (P : Db × PollReply → Type κ) (key : Key) (client : String) (now step : ℕ)
      : Type κ where
    pub missing : redis.get key db ≡ none → P (db, poll_missing)
    pub error : P (db, poll_error)
    pub mismatch : P (db, poll_mismatch)
    pub refused :
        (r : Record)
        → redis.get key db ≡ some (record_value r)
        → r.status ≡ denied
        → P (redis.del key db, poll_denied)
    pub granted :
        (r : Record)
        → redis.get key db ≡ some (record_value r)
        → r.status ≡ approved
        → r.client_id ≡ client
        → P (db, poll_granted r)
    pub expired :
        (r : Record)
        → redis.get key db ≡ some (record_value r)
        → r.status ≡ pending
        → P (redis.del key db, poll_missing)
    pub waits :
        (r : Record)
        → redis.get key db ≡ some (record_value r)
        → r.status ≡ pending
        → r.next_poll_at ≤ now
        → 0 < redis.pttl key db
        → P (
          redis.set key (record_value (waited now r)) (redis.pttl key db) db,
          poll_wait r.interval_seconds,
        )
    pub slows :
        (r : Record)
        → redis.get key db ≡ some (record_value r)
        → r.status ≡ pending
        → now < r.next_poll_at
        → 0 < redis.pttl key db
        → P (
          redis.set key (record_value (slowed now step r)) (redis.pttl key db) db,
          poll_slower (r.interval_seconds + step),
        )

  store_polled_cases :
      (P : Db × PollReply → Type κ) (key : Key) (r : Record) (reply : PollReply)
      → P (redis.del key db, poll_missing)
      → (0 < redis.pttl key db → P (redis.set key (record_value r) (redis.pttl key db) db, reply))
      → P (store_polled redis key r reply db)
  unfolding store_polled
  store_polled_cases P key r reply expired stored =
      if_cases P (leb (redis.pttl key db) 0) (λ _. expired) (λ e. stored (ground arith))

  module _ (P : Db × PollReply → Type κ) (key : Key) (client : String) (now step : ℕ)
      (rules : PollRules P key client now step) where
    poll_pending_cases :
        (r : Record)
        → redis.get key db ≡ some (record_value r)
        → r.status ≡ pending
        → P (poll_pending redis key now step r db)
    unfolding poll_pending
    poll_pending_cases r e s =
        if_cases P (ltb now r.next_poll_at)
          (λ early.
            store_polled_cases P key (slowed now step r) (poll_slower (r.interval_seconds + step))
              (rules.expired r e s) (rules.slows r e s (ltb→lt now r.next_poll_at early)))
          (λ due.
            store_polled_cases P key (waited now r) (poll_wait r.interval_seconds)
              (rules.expired r e s) (rules.waits r e s (ltb→ge now r.next_poll_at due)))

    poll_status_cases :
        (r : Record) (s : Status)
        → r.status ≡ s
        → redis.get key db ≡ some (record_value r)
        → r.client_id ≡ client
        → P (poll_status redis key now step s r db)
    unfolding poll_status
    poll_status_cases r pending h e c = poll_pending_cases r e h
    poll_status_cases r approved h e c = rules.granted r e h c
    poll_status_cases r denied h e c = rules.refused r e h
    poll_status_cases r unknown_status h e c = rules.mismatch

    pub poll_cases : P (poll_script redis key client now step db)
    unfolding poll_script poll_value
    poll_cases = by_value (redis.get key db) refl
      where
        by_value :
            (found : Option Value)
            → redis.get key db ≡ found
            → P (poll_value redis key client now step found db)
        by_value none e = rules.missing e
        by_value (some (device_value d)) e = rules.error
        by_value (some (record_value r)) e =
            if_cases P (str_eq r.client_id client)
              (λ c. poll_status_cases r r.status refl e ((str_eq_iff r.client_id client).0 c))
              (λ _. rules.mismatch)

  pub record DecideRules (P : Db × ScriptReply → Type κ) (key code_key : Key) (version : String)
      (new : Record) : Type κ where
    pub missing : redis.get key db ≡ none → P (db, script_missing)
    pub error : P (db, script_error)
    pub mismatch : P (db, script_mismatch)
    pub expired :
        (r : Record)
        → redis.get key db ≡ some (record_value r)
        → r.status ≡ pending
        → P (redis.del code_key (redis.del key db), script_missing)
    pub decided :
        (r : Record)
        → redis.get key db ≡ some (record_value r)
        → r.status ≡ pending
        → r.record_version ≡ version
        → allowed_replacement r new ≡ true
        → 0 < redis.pttl key db
        → P (
          redis.del code_key (redis.set key (record_value new) (redis.pttl key db) db),
          script_done,
        )

  pub decide_cases :
      (P : Db × ScriptReply → Type κ) (key code_key : Key) (version : String) (new : Record)
      → DecideRules P key code_key version new
      → P (decide_script redis key code_key version new db)
  unfolding decide_script decide_value decide_stored
  decide_cases P key code_key version new rules = by_value (redis.get key db) refl
    where
      tests :
          (a b : Bool) (s : Status)
          → (a && (is_pending s && b)) ≡ true
          → (a ≡ true) × (s ≡ pending) × (b ≡ true)
      tests a b pending h = (ground arith, refl, ground arith)
      tests a b approved h = absurd (ground arith)
      tests a b denied h = absurd (ground arith)
      tests a b unknown_status h = absurd (ground arith)

      by_value :
          (found : Option Value)
          → redis.get key db ≡ found
          → P (decide_value redis key code_key version new found db)
      by_value none e = rules.missing e
      by_value (some (device_value d)) e = rules.error
      by_value (some (record_value r)) e =
          if_cases P
            (str_eq r.record_version version && (is_pending r.status && allowed_replacement r new))
            (λ c.
              let (v, s, a) =
                tests (str_eq r.record_version version) (allowed_replacement r new) r.status c in
              if_cases P (leb (redis.pttl key db) 0) (λ _. rules.expired r e s)
                (λ t.
                  rules.decided r e s ((str_eq_iff r.record_version version).0 v) a (ground arith)))
            (λ _. rules.mismatch)

  pub consume_cases :
      (P : Db × ScriptReply → Type κ) (key code_key : Key) (version : String)
      → (redis.get key db ≡ none → P (db, script_missing))
      → P (db, script_error)
      → P (db, script_mismatch)
      → ((r : Record)
          → redis.get key db ≡ some (record_value r)
          → r.record_version ≡ version
          → r.status ≡ approved
          → P (redis.del code_key (redis.del key db), script_done))
      → P (consume_script redis key code_key version db)
  unfolding consume_script consume_value
  consume_cases P key code_key version missing error mismatch done =
      by_value (redis.get key db) refl
    where
      tests : (a : Bool) (s : Status) → (a && is_approved s) ≡ true → (a ≡ true) × (s ≡ approved)
      tests a approved h = (ground arith, refl)
      tests a pending h = absurd (ground arith)
      tests a denied h = absurd (ground arith)
      tests a unknown_status h = absurd (ground arith)

      by_value :
          (found : Option Value)
          → redis.get key db ≡ found
          → P (consume_value redis key code_key version found db)
      by_value none e = missing e
      by_value (some (device_value d)) e = error
      by_value (some (record_value r)) e =
          if_cases P (str_eq r.record_version version && is_approved r.status)
            (λ c.
              let (v, s) = tests (str_eq r.record_version version) r.status c in
              done r e ((str_eq_iff r.record_version version).0 v) s)
            (λ _. mismatch)
