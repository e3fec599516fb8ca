-- ===== src/Session/Once.antt =====
-- internal/session/store.go: what an exchange leaves of a code, and a consumption of a consent.
use nyauth.Common.{
  ℕ, ◌≡◌, ◌≢◌, ◌⊎◌, inl, inr, refl, ◌∙◌, List, some, arith, String, str_eq, str_eq_iff, Bool-cases,
  All, if_cases, ◌==◌,
}
use nyauth.Redis.{Redis, Network, delivered, unreachable, reply_lost, replied, send, send_cases}
use nyauth.Session.{
  AuthorizationData, Key, code_key, code_used_key, Value, authorization_value, Consumption,
  consume_matching_script,
}
use nyauth.Session.Codes.{
  not_found, value_mismatch, authorization_code_reuse, consent_user_mismatch, invalid_token_data,
  invalid_ttl, unavailable, Result, ok, err, Lookup, live, reused, lookup_failed, consumed_code,
  consumed_any, decode_code, get_code_json, get_authorization_code,
  consume_authorization_code_if_match, consume_authorization_code,
}
use nyauth.Session.Events.{Event, run, NotSaved, match_cases, match_used_cases}
use nyauth.Session.Spent.{Spent, run-Spent, used_live}

-- What consuming a code that was spent as `d` may return: no record; ErrAuthorizationCodeReuse only for
-- the version of `d`.
abbrev pub Refuses : AuthorizationData → String → Result AuthorizationData → Type 0
Refuses d version (ok d') = ⊥
Refuses d version (err authorization_code_reuse) = d.record_version ≡ version
Refuses d version (err not_found) = Unit
Refuses d version (err value_mismatch) = d.record_version ≢ version
Refuses d version (err consent_user_mismatch) = ⊥
Refuses d version (err invalid_token_data) = version ≡ ""
Refuses d version (err invalid_ttl) = Unit
Refuses d version (err unavailable) = Unit

-- What looking up a code that was spent as `d` may return.
abbrev pub ShowsSpent : AuthorizationData → Lookup → Type 0
ShowsSpent d (live d') = ⊥
ShowsSpent d (reused d') = d' ≡ d
ShowsSpent d (lookup_failed e) = (e ≡ not_found) ⊎ (e ≡ unavailable)

-- A consumption that returns a record leaves the code spent.
abbrev pub Spends :
    {Db : Type 0} → (Db → AuthorizationData → Type 0) → Db × Result AuthorizationData → Type 0
Spends P (db, ok d) = P db d
Spends P (db, err e) = Unit

module _ {Db : Type 0} (redis : Redis Key Value Db) (digest : String → String) where
  consumed_code-Spends :
      (P : Db → AuthorizationData → Type 0) (n : Network) (db : Db)
      (r : Db × Consumption AuthorizationData)
      → Spends P (consumed_code (r.0, replied r.1))
      → Spends P (consumed_code (send n db r))
  consumed_code-Spends P n db r whole =
      send_cases (λ s. Spends P (consumed_code s)) n db r tt whole tt

  pub consume-Spends :
      (n : Network) (code version : String) (used_ttl : ℕ) (db : Db)
      → Spends
          (λ db' d.
            Spent redis digest (digest code) d db'
            × (d.record_version ≡ version)
            × (redis.get (code_key (digest code)) db ≡ some (authorization_value d)))
          (consume_authorization_code_if_match redis digest n code version used_ttl db)
  unfolding consume_authorization_code_if_match Spent
  consume-Spends n code version used_ttl db =
      let P : Db → AuthorizationData → Type 0 = λ db' d.
        Spent redis digest (digest code) d db'
        × (d.record_version ≡ version)
        × (redis.get (code_key (digest code)) db ≡ some (authorization_value d)) in
      let key = code_key (digest code) in
      let used_key = code_used_key (digest code) in
      if_cases (Spends P) (str_eq version "") (λ _. tt)
        (λ _. elim (Bool-cases (used_ttl == 0)) [
          | inl z ↦ rw z tt
          | inr z ↦ rw z (
              consumed_code-Spends P n db _ (
                match_cases redis db (λ s. Spends P (consumed_code (s.0, replied s.1))) key used_key
                  version used_ttl
                  (record {
                    gone = λ _.
                        match_used_cases (λ u. Spends P (consumed_code (db, replied u))) version
                          (redis.get used_key db) tt tt (λ _ _ _. tt) (λ _ _ _. tt);
                    error = tt;
                    mismatch = λ _ _. tt;
                    took = λ d e v. (
                      (
                        redis.get-del key _,
                        inr (
                            redis.get-del_other used_key key _ used_live
                            ∙ redis.get-set used_key (authorization_value d) used_ttl db
                                (ground (arith, z))),
                      ),
                      v,
                      e,
                    );
                  })))
        ])

module _ {Db : Type 0} (redis : Redis Key Value Db) (digest : String → String)
    (d : AuthorizationData) where
  pub consume-Refuses :
      (n : Network) (code version : String) (used_ttl : ℕ) (db : Db)
      → Spent redis digest (digest code) d db
      → Refuses d version
          (consume_authorization_code_if_match redis digest n code version used_ttl db).1
  unfolding consume_authorization_code_if_match Spent
  consume-Refuses n code version used_ttl db (gone, marker) =
      let key = code_key (digest code) in
      let used_key = code_used_key (digest code) in
      if_cases {A = Db × Result AuthorizationData} (λ r. Refuses d version r.1) (str_eq version "")
        (λ e. (str_eq_iff version "").0 e)
        (λ _.
          if_cases {A = Db × Result AuthorizationData} (λ r. Refuses d version r.1) (used_ttl == 0)
            (λ _. tt)
            (λ _.
              send_cases (λ s. Refuses d version (consumed_code s).1) n db
                (consume_matching_script redis key used_key version used_ttl db) tt
                (match_cases redis db (λ s. Refuses d version (consumed_code (s.0, replied s.1)).1)
                  key used_key version used_ttl
                  (record {
                    gone = λ _.
                        match_used_cases (λ u. Refuses d version (consumed_code (db, replied u)).1)
                          version (redis.get used_key db) tt tt
                          (λ d' e v. rw (the_record d' e) at v)
                          (λ d' e v. rw (the_record d' e) at v);
                    error = tt;
                    mismatch = λ d' e. absurd (cc);
                    took = λ d' e _. absurd (cc);
                  }))
                tt))
    where
      the_record :
          (d' : AuthorizationData)
          → redis.get (code_used_key (digest code)) db ≡ some (authorization_value d')
          → d' ≡ d
      the_record d' e = elim marker [ inl none_left ↦ cc | inr is ↦ cc ]

  any-Refuses :
      (n : Network) (code : String) (db : Db)
      → Spent redis digest (digest code) d db
      → Refuses d d.record_version (consume_authorization_code redis digest n code db).1
  unfolding consume_authorization_code Spent
  any-Refuses n code db (gone, marker) =
      let key = code_key (digest code) in
      send_cases (λ s. Refuses d d.record_version (consumed_any s).1) n db
        (redis.del key db, redis.get key db) tt (rw gone tt) tt

  pub lookup-ShowsSpent :
      (n n' : Network) (code : String) (db : Db)
      → Spent redis digest (digest code) d db
      → ShowsSpent d (get_authorization_code redis digest n n' code db)
  unfolding get_authorization_code get_code_json decode_code Spent
  lookup-ShowsSpent unreachable n' code db spent = inr refl
  lookup-ShowsSpent reply_lost n' code db spent = inr refl
  lookup-ShowsSpent delivered unreachable code db (gone, marker) = rw gone (inr refl)
  lookup-ShowsSpent delivered reply_lost code db (gone, marker) = rw gone (inr refl)
  lookup-ShowsSpent delivered delivered code db (gone, marker) = elim marker [
    | inl none_left ↦ rw (gone, none_left) (inl refl)
    | inr is ↦ rw (gone, is) refl
  ]

-- A ConsumeAuthorizationCodeIfMatch returned a record. Then, whatever calls and time follow, with no
-- Save of a code with the same digest, no consumption of the code returns a record again, neither by
-- version nor by GETDEL; ErrAuthorizationCodeReuse is returned for the version consumed only,
-- and ErrValueMismatch for another version only.
pub code_consumed_once :
    {Db : Type 0} (redis : Redis Key Value Db) (digest : String → String) (n : Network)
    (code version : String) (used_ttl : ℕ) (db : Db) {db' : Db} {d : AuthorizationData}
    (es : List Event) (n' : Network) (version' : String) (used_ttl' : ℕ)
    → consume_authorization_code_if_match redis digest n code version used_ttl db ≡ (db', ok d)
    → All (NotSaved digest (digest code)) es
    → let after = run redis digest es db' in
      Refuses d version'
        (consume_authorization_code_if_match redis digest n' code version' used_ttl' after).1
      × Refuses d d.record_version (consume_authorization_code redis digest n' code after).1
code_consumed_once redis digest n code version used_ttl db {db'} {d} es n' version' used_ttl' e hs =
    let (spent, _, _) : Spent redis digest (digest code) d db'
        × (d.record_version ≡ version)
        × (redis.get (code_key (digest code)) db ≡ some (authorization_value d)) =
      rw e at (consume-Spends redis digest n code version used_ttl db) in
    let after = run-Spent redis digest (digest code) d es db' hs spent in
    (
      consume-Refuses redis digest d n' code version' used_ttl' _ after,
      any-Refuses redis digest d n' code _ after,
    )

-- A ConsumeAuthorizationCodeIfMatch returned a record. Then, whatever calls and time follow, with no
-- Save of a code with the same digest, a lookup of the code never returns it as live: it shows the
-- very record that was consumed with ErrAuthorizationCodeReuse, or an error for a missing value
-- or a failure of Redis.
pub code_lookup_after :
    {Db : Type 0} (redis : Redis Key Value Db) (digest : String → String) (n : Network)
    (code version : String) (used_ttl : ℕ) (db : Db) {db' : Db} {d : AuthorizationData}
    (es : List Event) (n' n'' : Network)
    → consume_authorization_code_if_match redis digest n code version used_ttl db ≡ (db', ok d)
    → All (NotSaved digest (digest code)) es
    → ShowsSpent d (get_authorization_code redis digest n' n'' code (run redis digest es db'))
code_lookup_after redis digest n code version used_ttl db {db'} {d} es n' n'' e hs =
    let (spent, _, _) : Spent redis digest (digest code) d db'
        × (d.record_version ≡ version)
        × (redis.get (code_key (digest code)) db ≡ some (authorization_value d)) =
      rw e at (consume-Spends redis digest n code version used_ttl db) in
    lookup-ShowsSpent redis digest d n' n'' code _
      (run-Spent redis digest (digest code) d es db' hs spent)
