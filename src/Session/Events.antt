-- ===== src/Session/Events.antt =====
-- internal/session/store.go: any order of calls, and the scripts branch by branch.
use nyauth.Common.{
  ℕ, ◌≡◌, ◌≢◌, refl, true, List, [], ◌∷◌, Option, none, some, String, str_eq, str_eq_iff, if_cases,
}
use nyauth.Redis.{Redis, Network}
use nyauth.Session.{
  AuthorizationData, ConsentData, Key, Value, authorization_value, consent_value, Consumption,
  missing, mismatched, used, undecodable, taken, match_used, consume_matching_value,
  consume_matching_script, consume_consent_value, consume_consent_script,
}
use nyauth.Session.Codes.{
  save_authorization_code, consume_authorization_code_if_match, consume_authorization_code,
}
use nyauth.Session.Consents.{save_consent, consume_consent_for_user, consume_consent}

-- What may happen to the keyspace, in the order in which Redis runs it.
pub data Event : Type 0 where
  saves_code : Network → Option String → (code : String) → AuthorizationData → (ttl : ℕ) → Event
  consumes_match : Network → (code version : String) → (used_ttl : ℕ) → Event
  consumes_code : Network → (code : String) → Event
  saves_consent : Network → (challenge : String) → ConsentData → (ttl : ℕ) → Event
  consumes_for_user : Network → (challenge user : String) → Event
  consumes_consent : Network → (challenge : String) → Event
  passes : (milliseconds : ℕ) → Event

module _ {Db : Type 0} (redis : Redis Key Value Db) (digest : String → String) where
  unfoldable pub step : Event → Db → Db
  unfolding save_authorization_code consume_authorization_code_if_match consume_authorization_code
      save_consent consume_consent_for_user consume_consent
  step (saves_code n v code d ttl) db = (save_authorization_code redis digest n v code d ttl db).0
  step (consumes_match n code v ttl) db =
      (consume_authorization_code_if_match redis digest n code v ttl db).0
  step (consumes_code n code) db = (consume_authorization_code redis digest n code db).0
  step (saves_consent n challenge c ttl) db = (save_consent redis digest n challenge c ttl db).0
  step (consumes_for_user n challenge user) db =
      (consume_consent_for_user redis digest n challenge user db).0
  step (consumes_consent n challenge) db = (consume_consent redis digest n challenge db).0
  step (passes t) db = redis.elapse t db

  unfoldable pub run : List Event → Db → Db
  unfolding step
  run [] db = db
  run (e ∷ es) db = run es (step e db)

-- No event saves a code with this digest.
abbrev pub NotSaved : (String → String) → String → Event → Type 0
NotSaved digest id (saves_code n v code d ttl) = id ≢ digest code
NotSaved digest id (consumes_match n code v ttl) = Unit
NotSaved digest id (consumes_code n code) = Unit
NotSaved digest id (saves_consent n challenge c ttl) = Unit
NotSaved digest id (consumes_for_user n challenge user) = Unit
NotSaved digest id (consumes_consent n challenge) = Unit
NotSaved digest id (passes t) = Unit

module _ {κ} {Db : Type 0} (redis : Redis Key Value Db) (db : Db) where
  pub record MatchRules (P : Db × Consumption AuthorizationData → Type κ) (key used_key : Key)
      (version : String) (ttl : ℕ) : Type κ where
    pub gone : redis.get key db ≡ none → P (db, match_used version (redis.get used_key db))
    pub error : P (db, undecodable)
    pub mismatch :
        (d : AuthorizationData)
        → redis.get key db ≡ some (authorization_value d)
        → P (db, mismatched)
    pub took :
        (d : AuthorizationData)
        → redis.get key db ≡ some (authorization_value d)
        → d.record_version ≡ version
        → P (redis.del key (redis.set used_key (authorization_value d) ttl db), taken d)

  pub match_cases :
      (P : Db × Consumption AuthorizationData → Type κ) (key used_key : Key) (version : String)
      (ttl : ℕ)
      → MatchRules P key used_key version ttl
      → P (consume_matching_script redis key used_key version ttl db)
  unfolding consume_matching_script consume_matching_value
  match_cases P key used_key version ttl rules = by_value (redis.get key db) refl
    where
      by_value :
          (found : Option Value)
          → redis.get key db ≡ found
          → P (consume_matching_value redis key used_key version ttl found db)
      by_value none e = rules.gone e
      by_value (some (consent_value c)) e = rules.error
      by_value (some (authorization_value d)) e =
          if_cases P (str_eq d.record_version version)
            (λ v. rules.took d e ((str_eq_iff d.record_version version).0 v))
            (λ _. rules.mismatch d e)

  pub consent_cases :
      (P : Db × Consumption ConsentData → Type κ) (key : Key) (user : String)
      → P (db, missing)
      → P (db, undecodable)
      → P (db, mismatched)
      → ((c : ConsentData)
          → redis.get key db ≡ some (consent_value c)
          → c.user_id ≡ user
          → P (redis.del key db, taken c))
      → P (consume_consent_script redis key user db)
  unfolding consume_consent_script consume_consent_value
  consent_cases P key user gone error mismatch took = by_value (redis.get key db) refl
    where
      by_value :
          (found : Option Value)
          → redis.get key db ≡ found
          → P (consume_consent_value redis key user found db)
      by_value none e = gone
      by_value (some (authorization_value d)) e = error
      by_value (some (consent_value c)) e =
          if_cases P (str_eq c.user_id user) (λ v. took c e ((str_eq_iff c.user_id user).0 v))
            (λ _. mismatch)

pub match_used_cases {κ} :
    (P : Consumption AuthorizationData → Type κ) (version : String) (found : Option Value)
    → P missing
    → P undecodable
    → ((d : AuthorizationData)
        → found ≡ some (authorization_value d)
        → d.record_version ≡ version
        → P used)
    → ((d : AuthorizationData)
        → found ≡ some (authorization_value d)
        → d.record_version ≢ version
        → P mismatched)
    → P (match_used version found)
unfolding match_used
match_used_cases P version none gone error same differs = gone
match_used_cases P version (some (consent_value c)) gone error same differs = error
match_used_cases P version (some (authorization_value d)) gone error same differs =
    if_cases P (str_eq d.record_version version)
      (λ v. same d refl ((str_eq_iff d.record_version version).0 v))
      (λ n. differs d refl λ v.
        let yes : str_eq d.record_version version ≡ true =
          (str_eq_iff d.record_version version).1 v in
        cc)
