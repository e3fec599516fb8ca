-- ===== src/Session/Spent.antt =====
-- internal/session/store.go: what later calls may do to a code that was consumed.
use nyauth.Common.{
  ℕ, ◌≡◌, ◌≢◌, ◌⊎◌, inl, inr, true, false, List, [], ◌∷◌, Option, none, some, String, str_eq,
  str_eq_iff, Bool-cases, All, if_cases, ◌==◌,
}
use nyauth.Redis.{Redis, Network, replied, send, send_cases}
use nyauth.Session.{
  AuthorizationData, ConsentData, Key, code_key, code_used_key, consent_key, Value,
  authorization_value, consent_value, Consumption, missing, mismatched, used, undecodable, taken,
  consume_matching_script, consume_consent_script,
}
use nyauth.Session.Codes.{
  Result, set_json, answered, consumed_code, consumed_any, save_authorization_code,
  consume_authorization_code_if_match, consume_authorization_code,
}
use nyauth.Session.Consents.{
  consumed_consent, save_consent, consume_consent_for_user, consume_consent,
}
use nyauth.Session.Events.{
  Event, saves_code, consumes_match, consumes_code, saves_consent, consumes_for_user,
  consumes_consent, passes, step, run, NotSaved, match_cases, consent_cases,
}

code_differs : {a b : String} → str_eq a b ≡ false → code_key a ≢ code_key b
code_differs {a} {b} n h =
    let same : a ≡ b = cc in let yes : str_eq a b ≡ true = (str_eq_iff a b).1 same in cc

used_differs : {a b : String} → str_eq a b ≡ false → code_used_key a ≢ code_used_key b
used_differs {a} {b} n h =
    let same : a ≡ b = cc in let yes : str_eq a b ≡ true = (str_eq_iff a b).1 same in cc

pub live_used : {a b : String} → code_key a ≢ code_used_key b
live_used h = cc

pub used_live : {a b : String} → code_used_key a ≢ code_key b
used_live h = cc

live_consent : {a b : String} → code_key a ≢ consent_key b
live_consent h = cc

used_consent : {a b : String} → code_used_key a ≢ consent_key b
used_consent h = cc

module _ {Db : Type 0} (redis : Redis Key Value Db) (digest : String → String) (id : String)
    (d : AuthorizationData) where
  -- The code is gone, and its marker is gone or holds the record that was consumed.
  unfoldable pub Spent : Db → Type 0
  Spent db =
      (redis.get (code_key id) db ≡ none)
      × ((redis.get (code_used_key id) db ≡ none)
          ⊎ (redis.get (code_used_key id) db ≡ some (authorization_value d)))

  untouched_set :
      (k : Key) (v : Value) (ttl : ℕ) (db : Db)
      → code_key id ≢ k
      → code_used_key id ≢ k
      → Spent db
      → Spent (redis.set k v ttl db)
  unfolding Spent
  untouched_set k v ttl db l u spent =
      rw
        (
          redis.get-set_other (code_key id) k v ttl db l,
          redis.get-set_other (code_used_key id) k v ttl db u,
        )
        spent

  untouched_del :
      (k : Key) (db : Db)
      → code_key id ≢ k
      → code_used_key id ≢ k
      → Spent db
      → Spent (redis.del k db)
  unfolding Spent
  untouched_del k db l u spent =
      rw (redis.get-del_other (code_key id) k db l, redis.get-del_other (code_used_key id) k db u)
        spent

  del_code : (c : String) (db : Db) → Spent db → Spent (redis.del (code_key c) db)
  unfolding Spent
  del_code c db spent = elim (Bool-cases (str_eq id c)) [
    | inl e ↦
        let same : id ≡ c = (str_eq_iff id c).0 e in
        (
          rw same (redis.get-del (code_key c) db),
          rw (redis.get-del_other (code_used_key id) (code_key c) db used_live) spent.1,
        )
    | inr n ↦ untouched_del (code_key c) db (code_differs n) used_live spent
  ]

  match-Spent :
      (c v : String) (ttl : ℕ) (db : Db)
      → Spent db
      → Spent (consume_matching_script redis (code_key c) (code_used_key c) v ttl db).0
  unfolding Spent
  match-Spent c v ttl db spent =
      match_cases redis db (λ r. Spent r.0) (code_key c) (code_used_key c) v ttl
        (record {
          gone = λ _. spent;
          error = spent;
          mismatch = λ _ _. spent;
          took = λ d' e _. del_code c _ (
              untouched_set (code_used_key c) _ ttl db live_used
                (used_differs (elsewhere c d' db spent e)) spent);
        })
    where
      elsewhere :
          (c : String) (d' : AuthorizationData) (db : Db)
          → Spent db
          → redis.get (code_key c) db ≡ some (authorization_value d')
          → str_eq id c ≡ false
      elsewhere c d' db (gone, _) e = elim (Bool-cases (str_eq id c)) [
        | inl y ↦
            let same : id ≡ c = (str_eq_iff id c).0 y in
            let gone' : redis.get (code_key c) db ≡ none = rw same at gone in absurd (cc)
        | inr n ↦ n
      ]

  consent-Spent :
      (c user : String) (db : Db)
      → Spent db
      → Spent (consume_consent_script redis (consent_key c) user db).0
  consent-Spent c user db spent =
      consent_cases redis db (λ r. Spent r.0) (consent_key c) user spent spent spent
        (λ _ _ _. untouched_del (consent_key c) db live_consent used_consent spent)

  set_json-Spent :
      (n : Network) (k : Key) (v : Value) (ttl : ℕ) (db : Db)
      → code_key id ≢ k
      → code_used_key id ≢ k
      → Spent db
      → Spent (set_json redis n k v ttl db).0
  unfolding set_json
  set_json-Spent n k v ttl db l u spent =
      if_cases {A = Db × Result Unit} (λ r. Spent r.0) (ttl == 0) (λ _. spent)
        (λ _.
          send_cases (λ r. Spent (answered r).0) n db (redis.set k v ttl db, tt) spent
            (untouched_set k v ttl db l u spent) (untouched_set k v ttl db l u spent))

  code_result-Spent :
      (n : Network) (db : Db) (r : Db × Consumption AuthorizationData)
      → Spent db
      → Spent r.0
      → Spent (consumed_code (send n db r)).0
  code_result-Spent n db r spent spent' =
      send_cases (λ s. Spent (consumed_code s).0) n db r spent (by_reply r.1) spent'
    where
      by_reply :
          (reply : Consumption AuthorizationData) → Spent (consumed_code (r.0, replied reply)).0
      by_reply missing = spent'
      by_reply mismatched = spent'
      by_reply used = spent'
      by_reply undecodable = spent'
      by_reply (taken d) = spent'

  consent_result-Spent :
      (n : Network) (db : Db) (r : Db × Consumption ConsentData)
      → Spent db
      → Spent r.0
      → Spent (consumed_consent (send n db r)).0
  consent_result-Spent n db r spent spent' =
      send_cases (λ s. Spent (consumed_consent s).0) n db r spent (by_reply r.1) spent'
    where
      by_reply : (reply : Consumption ConsentData) → Spent (consumed_consent (r.0, replied reply)).0
      by_reply missing = spent'
      by_reply mismatched = spent'
      by_reply used = spent'
      by_reply undecodable = spent'
      by_reply (taken d) = spent'

  any_result-Spent :
      (n : Network) (db : Db) (r : Db × Option Value)
      → Spent db
      → Spent r.0
      → Spent (consumed_any (send n db r)).0
  any_result-Spent n db r spent spent' =
      send_cases (λ s. Spent (consumed_any s).0) n db r spent (by_reply r.1) spent'
    where
      by_reply : (reply : Option Value) → Spent (consumed_any (r.0, replied reply)).0
      by_reply none = spent'
      by_reply (some (authorization_value d)) = spent'
      by_reply (some (consent_value d)) = spent'

  elapse-Spent : (t : ℕ) (db : Db) → Spent db → Spent (redis.elapse t db)
  unfolding Spent
  elapse-Spent t db (gone, marker) = (
    elim (redis.get-elapse (code_key id) t db) [ inl h ↦ h | inr same ↦ rw same gone ],
    elim (redis.get-elapse (code_used_key id) t db) [ inl h ↦ inl h | inr same ↦ rw same marker ],
  )

  step-Spent :
      (e : Event) (db : Db) → NotSaved digest id e → Spent db → Spent (step redis digest e db)
  unfolding step save_authorization_code consume_authorization_code_if_match
      consume_authorization_code save_consent consume_consent_for_user consume_consent
  step-Spent (saves_code n none code a ttl) db h spent = spent
  step-Spent (saves_code n (some v) code a ttl) db h spent =
      set_json-Spent n (code_key (digest code)) _ ttl db (λ e. h (cc)) used_live spent
  step-Spent (consumes_match n code v ttl) db h spent =
      if_cases {A = Db × Result AuthorizationData} (λ r. Spent r.0) (str_eq v "") (λ _. spent)
        (λ _.
          if_cases {A = Db × Result AuthorizationData} (λ r. Spent r.0) (ttl == 0) (λ _. spent)
            (λ _. code_result-Spent n db _ spent (match-Spent (digest code) v ttl db spent)))
  step-Spent (consumes_code n code) db h spent =
      any_result-Spent n db _ spent (del_code (digest code) db spent)
  step-Spent (saves_consent n challenge c ttl) db h spent =
      set_json-Spent n (consent_key (digest challenge)) _ ttl db live_consent used_consent spent
  step-Spent (consumes_for_user n challenge user) db h spent =
      consent_result-Spent n db _ spent (consent-Spent (digest challenge) user db spent)
  step-Spent (consumes_consent n challenge) db h spent =
      send_cases (λ r. Spent r.0) n db _ spent
        (untouched_del (consent_key (digest challenge)) db live_consent used_consent spent)
        (untouched_del (consent_key (digest challenge)) db live_consent used_consent spent)
  step-Spent (passes t) db h spent = elapse-Spent t db spent

  pub run-Spent :
      (es : List Event) (db : Db)
      → All (NotSaved digest id) es
      → Spent db
      → Spent (run redis digest es db)
  unfolding run
  run-Spent [] db hs spent = spent
  run-Spent (e ∷ es) db (h, hs) spent =
      run-Spent es (step redis digest e db) hs (step-Spent e db h spent)
