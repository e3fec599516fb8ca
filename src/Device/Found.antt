-- ===== src/Device/Found.antt =====
-- internal/deviceauthorization/store.go: reading what Create stored.
use nyauth.Common.{
  ℕ, zero, suc, ◌<◌, ◌≡◌, refl, sym, ap, ◌∙◌, Bool, true, false, some, arith, str_eq, str_eq_refl,
  ◌==◌, ==_iff, if_cases, lt→leb_false,
}
use nyauth.Common.Text.{Text, len}
use nyauth.Redis.{Redis, delivered, Reply, replied, no_reply, send_cases}
use nyauth.Device.{
  pending, Record, Key, record_key, user_code_key, Value, record_value, device_value, create_script,
  ScriptReply, script_missing, script_mismatch, script_done, script_error,
}
use nyauth.Device.Cases.{create_cases}
use nyauth.Device.Codes.{normalize_user_code}
use nyauth.Device.Store.{
  Result, ok, err, CreateInput, Attempt, Created, Digests, effective_ttl, new_record, attempt,
  create_ends, create_loop, create, user_digest, checked_record, read_record, get_by_id,
  pending_with, resolve_code, resolve_request, find_pending_by_user_code, pending_version,
  get_pending,
}
use nyauth.Device.Frozen.{keys_differ}

ttl_positive : (ttl : ℕ) → 0 < effective_ttl ttl
ttl_positive ttl = ground arith

module _ {Db : Type 0} (redis : Redis Key Value Db) (ds : Digests) where
  -- The two entries of a created authorization.
  abbrev Entries : Db → Record → Type 0
  Entries db r =
      (redis.get (record_key r.device_id) db ≡ some (record_value r))
      × (redis.get (user_code_key r.user_code_digest) db ≡ some (device_value r.device_id))

  abbrev Stored : Db × Result Created → Type 0
  Stored (db, err e) = Unit
  Stored (db, ok c) =
      Entries db c.stored
      × (c.stored.user_code_digest ≡ user_digest redis ds c.user_code)
      × (c.stored.status ≡ pending)

  abbrev Replied : CreateInput → Attempt → Db × Reply ScriptReply → Type 0
  Replied input a (db, no_reply) = Unit
  Replied input a (db, replied script_done) = Entries db (new_record redis ds input a)
  Replied input a (db, replied script_missing) = Unit
  Replied input a (db, replied script_mismatch) = Unit
  Replied input a (db, replied script_error) = Unit

  attempt-Replied :
      (input : CreateInput) (a : Attempt) (db : Db) → Replied input a (attempt redis ds input a db)
  attempt-Replied input a db =
      let r = new_record redis ds input a in
      let key = record_key r.device_id in
      let code_key = user_code_key r.user_code_digest in
      let ttl = effective_ttl input.ttl in
      let positive = ttl_positive input.ttl in
      if_cases (Replied input a) a.random_failed (λ _. tt)
        (λ _.
          send_cases (Replied input a) a.network db
            (create_script redis key code_key r ttl r.device_id db) tt
            (create_cases redis db (λ s. Replied input a (s.0, replied s.1)) key code_key r ttl
              r.device_id tt
              (λ _ _. (
                redis.get-set_other key code_key _ ttl _ keys_differ
                    ∙ redis.get-set key (record_value r) ttl db positive,
                redis.get-set code_key (device_value r.device_id) ttl _ positive,
              )))
            tt)

  create_loop-Stored :
      (n : ℕ) (input : CreateInput) (draw : ℕ → Attempt) (db : Db)
      → Stored (create_loop redis ds n input draw db)
  unfolding create_loop
  create_loop-Stored zero input draw db = tt
  create_loop-Stored (suc n) input draw db =
      ends (attempt redis ds input (draw 0) db) (attempt-Replied input (draw 0) db)
        (create_loop-Stored n input (λ i. draw (suc i)))
    where
      ends :
          (r : Db × Reply ScriptReply)
          → Replied input (draw 0) r
          → ((db' : Db) → Stored (create_loop redis ds n input (λ i. draw (suc i)) db'))
          → Stored (
              create_ends redis ds input
                (draw 0)
                r
                (create_loop redis ds n input (λ i. draw (suc i))))
      ends (db', no_reply) entries again = tt
      ends (db', replied script_done) entries again = (entries, refl, refl)
      ends (db', replied script_error) entries again = tt
      ends (db', replied script_missing) entries again = again db'
      ends (db', replied script_mismatch) entries again = again db'

  create-Stored :
      (input : CreateInput) (blank_client : Bool) (draw : ℕ → Attempt) (db : Db)
      → Stored (create redis ds input blank_client draw db)
  unfolding create
  create-Stored input blank_client draw db =
      if_cases Stored blank_client (λ _. tt) (λ _. create_loop-Stored 8 input draw db)

  by_id :
      (r : Record) (now : ℕ) (db : Db)
      → redis.get (record_key r.device_id) db ≡ some (record_value r)
      → str_eq r.record_version "" ≡ false
      → now < r.expires_at
      → get_by_id redis ds delivered r.device_id now db ≡ ok r
  unfolding get_by_id read_record checked_record
  by_id r now db e named alive =
      rw (e, str_eq_refl r.device_id, named, lt→leb_false r.expires_at now alive) refl

-- Create returned a device authorization. A user code that is typed in any spelling that normalises to
-- the code returned, eight bytes long, finds the record that was created, and so does its device id with
-- its version, as long as Redis answers, the record has not expired and its version is not empty.
pub create-find :
    {Db : Type 0} (redis : Redis Key Value Db) (ds : Digests) (input : CreateInput)
    (blank_client : Bool) (draw : ℕ → Attempt) (db : Db) {db' : Db} {c : Created} (typed : Text)
    (now : ℕ)
    → create redis ds input blank_client draw db ≡ (db', ok c)
    → normalize_user_code ds.unicode_upper typed ≡ normalize_user_code ds.unicode_upper c.user_code
    → len (normalize_user_code ds.unicode_upper typed) ≡ 8
    → str_eq c.stored.record_version "" ≡ false
    → now < c.stored.expires_at
    → (find_pending_by_user_code redis ds delivered delivered typed now db' ≡ ok c.stored)
      × (get_pending redis ds delivered c.stored.device_id c.stored.record_version now db'
          ≡ ok c.stored)
unfolding find_pending_by_user_code resolve_request resolve_code pending_with get_pending
    pending_version
create-find redis ds input blank_client draw db {db'} {c} typed now e same eight named alive =
    let r = c.stored in
    let ((there, code), digest, status) : Stored redis ds (db', ok c) =
      rw e at (create-Stored redis ds input blank_client draw db) in
    let found = by_id redis ds r now db' there named alive in
    let typed_digest : user_digest redis ds typed ≡ r.user_code_digest =
      ap ds.text_digest same ∙ sym digest in
    let is_eight : (len (normalize_user_code ds.unicode_upper typed) == 8) ≡ true =
      (==_iff (len (normalize_user_code ds.unicode_upper typed)) 8).1 eight in
    (
      rw (is_eight, typed_digest, code, found, status, str_eq_refl r.user_code_digest) refl,
      rw (found, status, str_eq_refl r.record_version) refl,
    )
