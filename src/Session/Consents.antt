-- ===== src/Session/Consents.antt =====
-- internal/session/store.go: the methods of Store on consents.
use nyauth.Common.{ℕ, Option, none, some, String}
use nyauth.Redis.{
  Redis, Network, delivered, unreachable, reply_lost, Reply, replied, no_reply, send,
}
use nyauth.Session.{
  ConsentData, Key, consent_key, Value, authorization_value, consent_value, Consumption, missing,
  mismatched, used, undecodable, taken, consume_consent_script,
}
use nyauth.Session.Codes.{Result, ok, err, not_found, consent_user_mismatch, unavailable, set_json}

abbrev pub consumed_consent :
    {Db : Type 0} → Db × Reply (Consumption ConsentData) → Db × Result ConsentData
consumed_consent (db, no_reply) = (db, err unavailable)
consumed_consent (db, replied missing) = (db, err not_found)
consumed_consent (db, replied mismatched) = (db, err consent_user_mismatch)
consumed_consent (db, replied used) = (db, err unavailable)
consumed_consent (db, replied undecodable) = (db, err unavailable)
consumed_consent (db, replied (taken c)) = (db, ok c)

abbrev pub decode_consent : Option Value → Result ConsentData
decode_consent none = err not_found
decode_consent (some (authorization_value d)) = err unavailable
decode_consent (some (consent_value c)) = ok c

abbrev pub received : Reply (Option Value) → Result ConsentData
received no_reply = err unavailable
received (replied found) = decode_consent found

module _ {Db : Type 0} (redis : Redis Key Value Db) (digest : String → String) where
  -- SaveConsent.
  unfoldable pub save_consent : Network → String → ConsentData → ℕ → Db → Db × Result Unit
  unfolding set_json
  save_consent n challenge c ttl db =
      set_json redis n (consent_key (digest challenge)) (consent_value c) ttl db

  -- GetConsent.
  unfoldable pub get_consent : Network → String → Db → Result ConsentData
  get_consent delivered challenge db =
      decode_consent (redis.get (consent_key (digest challenge)) db)
  get_consent unreachable challenge db = err unavailable
  get_consent reply_lost challenge db = err unavailable

  -- ConsumeConsentForUser.
  unfoldable pub consume_consent_for_user : Network → String → String → Db → Db × Result ConsentData
  consume_consent_for_user n challenge user db =
      consumed_consent
        (send n db (consume_consent_script redis (consent_key (digest challenge)) user db))

  -- ConsumeConsent, by GETDEL.
  unfoldable pub consume_consent : Network → String → Db → Db × Result ConsentData
  consume_consent n challenge db =
      let key = consent_key (digest challenge) in
      let sent = send n db (redis.del key db, redis.get key db) in (sent.0, received sent.1)
