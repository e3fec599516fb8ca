-- ===== src/Device/Grants.antt =====
-- internal/deviceauthorization/store.go: what follows a decision, and what follows a consumption.
use nyauth.Common.{
  ℕ, ◌≡◌, ◌≢◌, inl, inr, refl, ◌∙◌, true, false, List, none, some, String, str_eq, All, if_cases,
  leb, ◌||◌,
}
use nyauth.Redis.{Redis, Network, replied, send, send_cases}
use nyauth.Device.{
  pending, approved, denied, Record, Key, record_key, user_code_key, Value, record_value,
  is_pending, poll_script, ScriptReply,
}
use nyauth.Device.Cases.{poll_cases, decide_cases, consume_cases}
use nyauth.Device.Store.{
  Result, ok, err, not_found, value_mismatch, authorization_pending, slow_down, access_denied,
  invalid_input, unavailable, exhausted, Digests, slow_down_step,
}
use nyauth.Device.Decisions.{
  Approval, approved_record, denied_record, decision_result, Polled, poll_failed, poll_ok, polled,
  Event, run, approve, deny, poll, consume_approved, run_decision,
}
use nyauth.Device.Frozen.{keys_differ, GoneOr, Kept, NotDrawn, run-Kept}

-- What a call that returns no error leaves.
abbrev pub Leaves : {Db : Type 0} → (Db → Type 0) → Db × Result Unit → Type 0
Leaves P (db, ok u) = P db
Leaves P (db, err e) = Unit

module _ {Db : Type 0} (redis : Redis Key Value Db) where
  sent_result :
      (P : Db → Type 0) (n : Network) (db : Db) (r : Db × ScriptReply)
      → Leaves P (decision_result (r.0, replied r.1))
      → Leaves P (decision_result (send n db r))
  sent_result P n db r whole = send_cases (λ s. Leaves P (decision_result s)) n db r tt whole tt

  run_decision-Leaves :
      (n : Network) (r new : Record) (db : Db)
      → Leaves
          (λ db'. redis.get (record_key r.device_id) db' ≡ some (record_value new))
          (run_decision redis n r new db)
  unfolding run_decision
  run_decision-Leaves n r new db =
      let key = record_key r.device_id in
      let P : Db → Type 0 = λ db'. redis.get key db' ≡ some (record_value new) in
      sent_result P n db _ (
        decide_cases redis db (λ s. Leaves P (decision_result (s.0, replied s.1))) key
          (user_code_key r.user_code_digest) r.record_version new
          (record {
            missing = λ _. tt;
            error = tt;
            mismatch = tt;
            expired = λ _ _ _. tt;
            decided = λ _ _ _ _ _ t.
                redis.get-del_other key _ _ keys_differ
                ∙ redis.get-set key (record_value new) _ db t;
          }))

  approve-Leaves :
      (n : Network) (r : Record) (a : Approval) (db : Db)
      → Leaves
          (λ db'.
            redis.get (record_key r.device_id) db' ≡ some (record_value (approved_record r a)))
          (approve redis n r a db)
  unfolding approve
  approve-Leaves n r a db =
      let P : Db → Type 0 =
        λ db'. redis.get (record_key r.device_id) db' ≡ some (record_value (approved_record r a)) in
      if_cases (Leaves P)
        (str_eq a.user_id "" || (leb a.auth_version 0 || leb a.authorization_issued_at 0)) (λ _. tt)
        (λ _. run_decision-Leaves n r (approved_record r a) db)

  pub consume_approved-Leaves :
      (n : Network) (r : Record) (db : Db)
      → Leaves
          (λ db'. redis.get (record_key r.device_id) db' ≡ none)
          (consume_approved redis n r db)
  unfolding consume_approved
  consume_approved-Leaves n r db =
      let key = record_key r.device_id in
      let P : Db → Type 0 = λ db'. redis.get key db' ≡ none in
      sent_result P n db _ (
        consume_cases redis db (λ s. Leaves P (decision_result (s.0, replied s.1))) key
          (user_code_key r.user_code_digest) r.record_version (λ _. tt) tt tt
          (λ _ _ _ _. redis.get-del_other key _ _ keys_differ ∙ redis.get-del key db))

-- What a poll may answer once `q` was decided: `q` itself if it is an approval; and neither that the
-- request is pending nor that the device polls too fast.
abbrev pub Answers : Record → Polled → Type 0
Answers q (poll_ok r seconds) = (r ≡ q) × (q.status ≡ approved) × (seconds ≡ q.interval_seconds)
Answers q (poll_failed authorization_pending seconds) = ⊥
Answers q (poll_failed slow_down seconds) = ⊥
Answers q (poll_failed not_found seconds) = Unit
Answers q (poll_failed value_mismatch seconds) = Unit
Answers q (poll_failed access_denied seconds) = q.status ≡ denied
Answers q (poll_failed invalid_input seconds) = Unit
Answers q (poll_failed unavailable seconds) = Unit
Answers q (poll_failed exhausted seconds) = Unit

module _ {Db : Type 0} (redis : Redis Key Value Db) (ds : Digests) (id : String) (q : Record)
    (decided : is_pending q.status ≡ false) where
  the_record :
      (db : Db) (r : Record)
      → Kept redis id q decided db
      → redis.get (record_key id) db ≡ some (record_value r)
      → r ≡ q
  unfolding Kept
  the_record db r (inl gone) e = cc
  the_record db r (inr is) e = cc

  poll-Answers :
      (n : Network) (code client : String) (now : ℕ) (db : Db)
      → ds.code_digest code ≡ id
      → Kept redis id q decided db
      → Answers q (poll redis ds n code client now db).1
  unfolding poll
  poll-Answers n code client now db at kept = rw at (
      send_cases (λ s. Answers q (polled s.1)) n db
        (poll_script redis (record_key id) client now slow_down_step db) tt
        (poll_cases redis db (λ s. Answers q (polled (replied s.1))) (record_key id) client now
          slow_down_step
          (record {
            missing = λ _. tt;
            error = tt;
            mismatch = tt;
            refused = λ r e s. rw (the_record db r kept e) at s;
            granted =
                λ r e s _. let same = the_record db r kept e in (same, rw same at s, rw same refl);
            expired = λ _ _ _. tt;
            waits = λ r e s _ _. not_pending r (the_record db r kept e) s;
            slows = λ r e s _ _. not_pending r (the_record db r kept e) s;
          }))
        tt)
    where
      not_pending : {A : Type 0} (r : Record) → r ≡ q → r.status ≡ pending → A
      not_pending r same s =
          let no : is_pending r.status ≡ false = rw same decided in
          let yes : is_pending r.status ≡ true = rw s refl in absurd (cc)

-- After an approval that returned no error, in any sequence of later calls and any lapse of time, with
-- Redis requests that fail or lose their replies, and with no Create that draws the same device code, a
-- poll of that device answers exactly the record that was approved, or an error that is neither
-- authorization_pending, slow_down nor access_denied.
pub approve_then_poll :
    {Db : Type 0} (redis : Redis Key Value Db) (ds : Digests) (n : Network) (r : Record)
    (a : Approval) (db : Db) {db' : Db} (es : List Event) (n' : Network) (code client : String)
    (now : ℕ)
    → approve redis n r a db ≡ (db', ok tt)
    → All (NotDrawn ds r.device_id) es
    → ds.code_digest code ≡ r.device_id
    → Answers (approved_record r a) (poll redis ds n' code client now (run redis ds es db')).1
unfolding Kept
approve_then_poll redis ds n r a db {db'} es n' code client now e hs at =
    let q = approved_record r a in
    let stored : redis.get (record_key r.device_id) db' ≡ some (record_value q) =
      rw e at (approve-Leaves redis n r a db) in
    poll-Answers redis ds r.device_id q refl n' code client now (run redis ds es db') at
      (run-Kept redis ds r.device_id q refl es db' hs (inr stored))

-- After a denial that returned no error, whatever calls and time follow, with no Create that draws the
-- same device code, no poll of that device returns a record.
pub deny_then_poll :
    {Db : Type 0} (redis : Redis Key Value Db) (ds : Digests) (n : Network) (r : Record) (db : Db)
    {db' : Db} (es : List Event) (n' : Network) (code client : String) (now : ℕ)
    → deny redis n r db ≡ (db', ok tt)
    → All (NotDrawn ds r.device_id) es
    → ds.code_digest code ≡ r.device_id
    → (granted : Record) (seconds : ℕ)
    → (poll redis ds n' code client now (run redis ds es db')).1 ≢ poll_ok granted seconds
unfolding Kept deny
deny_then_poll redis ds n r db {db'} es n' code client now e hs at granted seconds h =
    let q = denied_record r in
    let stored : redis.get (record_key r.device_id) db' ≡ some (record_value q) =
      rw e at (run_decision-Leaves redis n r q db) in
    let answer =
      poll-Answers redis ds r.device_id q refl n' code client now (run redis ds es db') at
        (run-Kept redis ds r.device_id q refl es db' hs (inr stored)) in
    let (_, s, _) : Answers q (poll_ok granted seconds) = rw h at answer in cc

consume_gone :
    {Db : Type 0} (redis : Redis Key Value Db) (n : Network) (r : Record) (q : Record) (db : Db)
    → is_pending q.status ≡ false
    → q.status ≢ approved
    → GoneOr q (redis.get (record_key r.device_id) db)
    → Leaves (λ _. ⊥) (consume_approved redis n r db)
unfolding consume_approved
consume_gone redis n r q db d other kept =
    sent_result redis (λ _. ⊥) n db _
      (consume_cases redis db (λ s. Leaves (λ _. ⊥) (decision_result (s.0, replied s.1)))
        (record_key r.device_id) (user_code_key r.user_code_digest) r.record_version (λ _. tt) tt tt
        (λ r' e _ s. absurd (not_approved kept r' e s)))
  where
    not_approved :
        GoneOr q (redis.get (record_key r.device_id) db)
        → (r' : Record) → redis.get (record_key r.device_id) db ≡ some (record_value r')
        → r'.status ≡ approved
        → ⊥
    not_approved (inl gone) r' e s = cc
    not_approved (inr is) r' e s = let same : r' ≡ q = cc in other (rw same at s)

-- After a ConsumeApproved that returned no error, whatever calls and time follow, with no Create that
-- draws the same device code, every ConsumeApproved of that device id, with any version, returns an
-- error: one approval gives tokens at most once.
pub consume_once :
    {Db : Type 0} (redis : Redis Key Value Db) (ds : Digests) (n : Network) (r : Record) (db : Db)
    {db' db'' : Db} (es : List Event) (n' : Network) (r' : Record)
    → consume_approved redis n r db ≡ (db', ok tt)
    → All (NotDrawn ds r.device_id) es
    → r'.device_id ≡ r.device_id
    → consume_approved redis n' r' (run redis ds es db') ≢ (db'', ok tt)
unfolding Kept
consume_once redis ds n r db {db'} {db''} es n' r' e hs same h =
    let q = denied_record r in
    let gone : redis.get (record_key r.device_id) db' ≡ none =
      rw e at (consume_approved-Leaves redis n r db) in
    let kept : GoneOr q (redis.get (record_key r.device_id) (run redis ds es db')) =
      run-Kept redis ds r.device_id q refl es db' hs (inl gone) in
    rw h at (consume_gone redis n' r' q (run redis ds es db') refl (λ s. cc) (rw same kept))
