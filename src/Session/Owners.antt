-- ===== src/Session/Owners.antt =====
-- internal/session/store.go: who may consume a consent, and what a saved code gives back.
use nyauth.Common.{
  ℕ, ◌<◌, ◌≡◌, ◌⊎◌, inl, inr, refl, false, none, some, arith, String, str_eq, str_eq_refl, if_cases,
  ◌==◌,
}
use nyauth.Redis.{Redis, Network, delivered, Reply, replied, no_reply, send_cases}
use nyauth.Session.{
  AuthorizationData, ConsentData, Key, code_key, consent_key, Value, authorization_value,
  consent_value, Consumption, consume_consent_script, consume_matching_value,
  consume_matching_script,
}
use nyauth.Session.Codes.{
  not_found, value_mismatch, authorization_code_reuse, consent_user_mismatch, invalid_token_data,
  invalid_ttl, unavailable, Result, ok, err, live, set_json, answered, decode_code, get_code_json,
  save_authorization_code, get_authorization_code, consume_authorization_code_if_match,
}
use nyauth.Session.Consents.{consumed_consent, consume_consent_for_user}
use nyauth.Session.Events.{consent_cases}

-- What a consumption of a consent by a user does. It returns a consent of that user, which was stored and
-- no longer is; or it returns an error and changes nothing, unless Redis failed, and then it either
-- changed nothing or removed a consent of that user.
abbrev pub TakenByUser :
    {Db : Type 0} → Redis Key Value Db → Key → String → Db → Db × Result ConsentData → Type 0
TakenByUser redis key user db (db', ok c) =
    (c.user_id ≡ user) × (redis.get key db ≡ some (consent_value c)) × (redis.get key db' ≡ none)
TakenByUser redis key user db (db', err unavailable) =
    (db' ≡ db)
    ⊎ ((c : ConsentData) × (c.user_id ≡ user) × (redis.get key db ≡ some (consent_value c)))
TakenByUser redis key user db (db', err not_found) = db' ≡ db
TakenByUser redis key user db (db', err value_mismatch) = ⊥
TakenByUser redis key user db (db', err authorization_code_reuse) = ⊥
TakenByUser redis key user db (db', err consent_user_mismatch) = db' ≡ db
TakenByUser redis key user db (db', err invalid_token_data) = ⊥
TakenByUser redis key user db (db', err invalid_ttl) = ⊥

-- ConsumeConsentForUser returns only a consent of the given user, and takes it away in the same step. It
-- returns an error otherwise, and then a consent of another user stands as it did, also when the
-- reply of Redis is lost.
pub consume_consent_for_user-TakenByUser :
    {Db : Type 0} (redis : Redis Key Value Db) (digest : String → String) (n : Network)
    (challenge user : String) (db : Db)
    → TakenByUser redis
        (consent_key (digest challenge))
        user
        db
        (consume_consent_for_user redis digest n challenge user db)
unfolding consume_consent_for_user
consume_consent_for_user-TakenByUser {Db} redis digest n challenge user db =
    let key = consent_key (digest challenge) in
    let P : Db × Reply (Consumption ConsentData) → Type 0 =
      λ s. TakenByUser redis key user db (consumed_consent s) in
    send_cases P n db (consume_consent_script redis key user db) (inl refl)
      (consent_cases redis db (λ s. P (s.0, replied s.1)) key user refl (inl refl) refl
        (λ c e u. (u, e, redis.get-del key db)))
      (consent_cases redis db (λ s. P (s.0, no_reply)) key user (inl refl) (inl refl) (inl refl)
        (λ c e u. inr (c, u, e)))

-- What a save leaves.
abbrev pub Saved :
    {Db : Type 0}
    → Redis Key Value Db
    → (String → String)
    → String
    → AuthorizationData
    → ℕ
    → Db × Result Unit
    → Type 0
Saved redis digest code d used_ttl (db, err e) = Unit
Saved redis digest code d used_ttl (db, ok u) =
    (get_authorization_code redis digest delivered delivered code db ≡ live d)
    × ((consume_authorization_code_if_match redis digest delivered code d.record_version used_ttl
          db).1
        ≡ ok d)

-- If SaveAuthorizationCode returns no error, then a lookup of the code shows the data with the fresh
-- version as live, and a consumption with that version returns it. The version is not empty, and the
-- marker's time to live is positive.
pub save_authorization_code-Saved :
    {Db : Type 0} (redis : Redis Key Value Db) (digest : String → String) (n : Network)
    (version code : String) (d : AuthorizationData) (ttl used_ttl : ℕ) (db : Db)
    → str_eq version "" ≡ false
    → 0 < used_ttl
    → Saved redis digest code
        (record d { record_version = version })
        used_ttl
        (save_authorization_code redis digest n (some version) code d ttl db)
unfolding save_authorization_code set_json get_authorization_code get_code_json decode_code
    consume_authorization_code_if_match consume_matching_script consume_matching_value
save_authorization_code-Saved {Db} redis digest n version code d ttl used_ttl db named positive =
    let key = code_key (digest code) in
    let d' : AuthorizationData = record d { record_version = version } in
    let P : Db × Result Unit → Type 0 = Saved redis digest code d' used_ttl in
    if_cases P (ttl == 0) (λ _. tt)
      (λ z.
        let stored : redis.get key (redis.set key (authorization_value d') ttl db)
            ≡ some (authorization_value d') =
          redis.get-set key (authorization_value d') ttl db (ground (arith, z)) in
        let no : (used_ttl == 0) ≡ false = ground (arith, positive) in
        send_cases (λ s. P (answered s)) n db (redis.set key (authorization_value d') ttl db, tt) tt
          (rw (stored, named, no, str_eq_refl version) (refl, refl)) tt)
