-- ===== src/Device/Frozen.antt =====
-- internal/deviceauthorization/store.go: what later calls may do to a record that was decided.
use nyauth.Common.{
  ℕ, zero, suc, ◌≡◌, ◌≢◌, ◌⊎◌, inl, inr, refl, true, false, List, [], ◌∷◌, Option, none, some,
  String, str_eq, str_eq_iff, Bool-cases, All, if_cases, leb, ◌||◌,
}
use nyauth.Redis.{Redis, Network, Reply, replied, no_reply, send, send_cases}
use nyauth.Device.{
  pending, Record, Key, record_key, user_code_key, Value, record_value, is_pending, create_script,
  ScriptReply, script_missing, script_mismatch, script_done, script_error, poll_script,
  decide_script, consume_script,
}
use nyauth.Device.Cases.{create_cases, poll_cases, decide_cases, consume_cases}
use nyauth.Device.Store.{
  CreateInput, Attempt, Digests, create, create_loop, create_ends, attempt, slow_down_step, Result,
  Created,
}
use nyauth.Device.Decisions.{
  Event, creates, approves, denies, polls, consumes, passes, step, run, approve, deny, poll,
  consume_approved, run_decision, approved_record, denied_record, decision_result,
}

-- The record of a device id is gone, or is `q`.
abbrev pub GoneOr : Record → Option Value → Type 0
GoneOr q found = (found ≡ none) ⊎ (found ≡ some (record_value q))

pub record_key_injective : {a b : String} → record_key a ≡ record_key b → a ≡ b
record_key_injective h = cc

pub keys_differ : {a b : String} → record_key a ≢ user_code_key b
keys_differ h = cc

module _ {Db : Type 0} (redis : Redis Key Value Db) (id : String) (q : Record)
    (decided : is_pending q.status ≡ false) where
  unfoldable pub Kept : Db → Type 0
  Kept db = GoneOr q (redis.get (record_key id) db)

  when_gone : (db : Db) → redis.get (record_key id) db ≡ none → Kept db
  unfolding Kept
  when_gone db gone = inl gone

  when_same :
      (db db' : Db)
      → redis.get (record_key id) db' ≡ redis.get (record_key id) db
      → Kept db
      → Kept db'
  unfolding Kept
  when_same db db' same kept = rw same kept

  other_set :
      (k : Key) (v : Value) (ttl : ℕ) (db : Db)
      → record_key id ≢ k
      → Kept db
      → Kept (redis.set k v ttl db)
  unfolding Kept
  other_set k v ttl db h kept = rw (redis.get-set_other (record_key id) k v ttl db h) kept

  deleted_code : (c : String) (db : Db) → Kept db → Kept (redis.del (user_code_key c) db)
  unfolding Kept
  deleted_code c db kept =
      rw (redis.get-del_other (record_key id) (user_code_key c) db keys_differ) kept

  deleted_record : (d : String) (db : Db) → Kept db → Kept (redis.del (record_key d) db)
  unfolding Kept
  deleted_record d db kept = elim (Bool-cases (str_eq id d)) [
    | inl e ↦
        let same : id ≡ d = (str_eq_iff id d).0 e in inl (rw same (redis.get-del (record_key d) db))
    | inr e ↦ rw (redis.get-del_other (record_key id) (record_key d) db (differs d e)) kept
  ]
    where
      differs : (d : String) → str_eq id d ≡ false → record_key id ≢ record_key d
      differs d e h =
          let yes : str_eq id d ≡ true = (str_eq_iff id d).1 (record_key_injective h) in cc

  -- A pending record stands under another id.
  elsewhere :
      (d : String) (r : Record) (db : Db)
      → Kept db
      → redis.get (record_key d) db ≡ some (record_value r)
      → r.status ≡ pending
      → record_key id ≢ record_key d
  unfolding Kept
  elsewhere d r db (inl gone) e s h =
      let e' : redis.get (record_key id) db ≡ some (record_value r) = rw h e in cc
  elsewhere d r db (inr is) e s h =
      let e' : redis.get (record_key id) db ≡ some (record_value r) = rw h e in
      let same : r ≡ q = cc in
      let no : is_pending r.status ≡ false = rw same decided in
      let yes : is_pending r.status ≡ true = rw s refl in cc

  decide-Kept :
      (d c v : String) (new : Record) (db : Db)
      → Kept db
      → Kept (decide_script redis (record_key d) (user_code_key c) v new db).0
  decide-Kept d c v new db kept =
      decide_cases redis db (λ r. Kept r.0) (record_key d) (user_code_key c) v new
        (record {
          missing = λ _. kept;
          error = kept;
          mismatch = kept;
          expired = λ _ _ _. deleted_code c _ (deleted_record d db kept);
          decided = λ r e s _ _ _.
              deleted_code c _ (other_set (record_key d) _ _ db (elsewhere d r db kept e s) kept);
        })

  consume-Kept :
      (d c v : String) (db : Db)
      → Kept db
      → Kept (consume_script redis (record_key d) (user_code_key c) v db).0
  consume-Kept d c v db kept =
      consume_cases redis db (λ r. Kept r.0) (record_key d) (user_code_key c) v (λ _. kept) kept
        kept (λ _ _ _ _. deleted_code c _ (deleted_record d db kept))

  poll-Kept :
      (d client : String) (now slower : ℕ) (db : Db)
      → Kept db
      → Kept (poll_script redis (record_key d) client now slower db).0
  poll-Kept d client now slower db kept =
      poll_cases redis db (λ r. Kept r.0) (record_key d) client now slower
        (record {
          missing = λ _. kept;
          error = kept;
          mismatch = kept;
          refused = λ _ _ _. deleted_record d db kept;
          granted = λ _ _ _ _. kept;
          expired = λ _ _ _. deleted_record d db kept;
          waits = λ r e s _ _. other_set (record_key d) _ _ db (elsewhere d r db kept e s) kept;
          slows = λ r e s _ _. other_set (record_key d) _ _ db (elsewhere d r db kept e s) kept;
        })

  create-Kept :
      (d c : String) (r : Record) (ttl : ℕ) (db : Db)
      → id ≢ d
      → Kept db
      → Kept (create_script redis (record_key d) (user_code_key c) r ttl d db).0
  create-Kept d c r ttl db h kept =
      create_cases redis db (λ r. Kept r.0) (record_key d) (user_code_key c) r ttl d kept
        (λ _ _.
          other_set (user_code_key c) _ _ _ keys_differ
            (other_set (record_key d) _ _ db (λ e. h (record_key_injective e)) kept))

  send-Kept :
      {A : Type 0} (n : Network) (db : Db) (r : Db × A) → Kept db → Kept r.0 → Kept (send n db r).0
  send-Kept n db r kept kept' = send_cases (λ r. Kept r.0) n db r kept kept' kept'

-- No attempt of a Create draws the device code of this id.
abbrev pub NotDrawn : Digests → String → Event → Type 0
NotDrawn ds id (creates input blank draw) = (i : ℕ) → id ≢ ds.code_digest (draw i).device_code
NotDrawn ds id (approves n r a) = Unit
NotDrawn ds id (denies n r) = Unit
NotDrawn ds id (polls n code client now) = Unit
NotDrawn ds id (consumes n r) = Unit
NotDrawn ds id (passes t) = Unit

module _ {Db : Type 0} (redis : Redis Key Value Db) (ds : Digests) (id : String) (q : Record)
    (decided : is_pending q.status ≡ false) where
  abbrev Stays : Db → Type 0
  Stays = Kept redis id q decided

  create_loop-Kept :
      (n : ℕ) (input : CreateInput) (draw : ℕ → Attempt) (db : Db)
      → ((i : ℕ) → id ≢ ds.code_digest (draw i).device_code)
      → Stays db
      → Stays (create_loop redis ds n input draw db).0
  unfolding create_loop
  create_loop-Kept zero input draw db h kept = kept
  create_loop-Kept (suc n) input draw db h kept =
      ends (attempt redis ds input (draw 0) db)
        (if_cases {A = Db × Reply ScriptReply} (λ r. Stays r.0) (draw 0).random_failed (λ _. kept)
          (λ _.
            send-Kept redis id q decided (draw 0).network db _ kept
              (create-Kept redis id q decided _ _ _ _ db (h 0) kept)))
        (λ db'. create_loop-Kept n input (λ i. draw (suc i)) db' (λ i. h (suc i)))
    where
      ends :
          (r : Db × Reply ScriptReply)
          → Stays r.0
          → ((db' : Db)
              → Stays db'
              → Stays (create_loop redis ds n input (λ i. draw (suc i)) db').0)
          → Stays
              (create_ends redis ds input
                (draw 0)
                r
                (create_loop redis ds n input (λ i. draw (suc i)))).0
      ends (db', no_reply) kept' again = kept'
      ends (db', replied script_done) kept' again = kept'
      ends (db', replied script_error) kept' again = kept'
      ends (db', replied script_missing) kept' again = again db' kept'
      ends (db', replied script_mismatch) kept' again = again db' kept'

  result-Kept : (r : Db × Reply ScriptReply) → Stays r.0 → Stays (decision_result r).0
  result-Kept (db', no_reply) kept = kept
  result-Kept (db', replied script_done) kept = kept
  result-Kept (db', replied script_missing) kept = kept
  result-Kept (db', replied script_mismatch) kept = kept
  result-Kept (db', replied script_error) kept = kept

  run_decision-Kept :
      (n : Network) (r new : Record) (db : Db) → Stays db → Stays (run_decision redis n r new db).0
  unfolding run_decision
  run_decision-Kept n r new db kept =
      result-Kept _ (
        send-Kept redis id q decided n db _ kept (decide-Kept redis id q decided _ _ _ new db kept))

  step-Kept : (e : Event) (db : Db) → NotDrawn ds id e → Stays db → Stays (step redis ds e db)
  unfolding step create approve deny poll consume_approved
  step-Kept (creates input blank draw) db h kept =
      if_cases {A = Db × Result Created} (λ r. Stays r.0) blank (λ _. kept)
        (λ _. create_loop-Kept 8 input draw db h kept)
  step-Kept (approves n r a) db h kept =
      if_cases {A = Db × Result Unit} (λ r. Stays r.0)
        (str_eq a.user_id "" || (leb a.auth_version 0 || leb a.authorization_issued_at 0))
        (λ _. kept) (λ _. run_decision-Kept n r (approved_record r a) db kept)
  step-Kept (denies n r) db h kept = run_decision-Kept n r (denied_record r) db kept
  step-Kept (polls n code client now) db h kept =
      send-Kept redis id q decided n db _ kept
        (poll-Kept redis id q decided (ds.code_digest code) client now slow_down_step db kept)
  step-Kept (consumes n r) db h kept =
      result-Kept _
        (send-Kept redis id q decided n db _ kept (consume-Kept redis id q decided _ _ _ db kept))
  step-Kept (passes t) db h kept = elapsed (redis.get-elapse (record_key id) t db) kept
    where
      elapsed :
          (redis.get (record_key id) (redis.elapse t db) ≡ none)
            ⊎ (redis.get (record_key id) (redis.elapse t db) ≡ redis.get (record_key id) db)
          → Stays db
          → Stays (redis.elapse t db)
      elapsed (inl gone) kept = when_gone redis id q decided _ gone
      elapsed (inr same) kept = when_same redis id q decided _ _ same kept

  pub run-Kept :
      (es : List Event) (db : Db) → All (NotDrawn ds id) es → Stays db → Stays (run redis ds es db)
  unfolding run
  run-Kept [] db hs kept = kept
  run-Kept (e ∷ es) db (h, hs) kept = run-Kept es (step redis ds e db) hs (step-Kept e db h kept)
