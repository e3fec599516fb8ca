-- ===== src/Mail/VersionCases.antt =====
-- store.go: the ways in which RecordTest, Activate, Rollback and Disable end.
use nyauth.Common.{
  ℕ, ◌≡◌, ◌≢◌, ◌⊎◌, inl, inr, refl, Bool, true, false, not, List, ◌∷◌, Option, none, some, arith,
  ◌==◌, String, str_eq, str_eq_iff, if_cases,
}
use nyauth.Common.Text.{Text, codes}
use nyauth.Mail.{
  Mode, fallback, active, disabled, Error, database, candidate_not_found, candidate_changed,
  no_previous_version, Result, ok, State, AuditEvent, circuit_recovered_event, tested_event,
  activated_event, rolled_back_event, disabled_event, NoticeKind, tested, activated, rolled_back,
  disabled_notice, Db, Faults, Step, settle, publish, enqueue, is_open, update,
}
use nyauth.Mail.Versions.{
  normalize_test_result, with_candidate, newest_success, test_refusal, refuse_or, activated_row,
  rolled_back_row, disabled_row, tested_row, test_row, record_test, record_test_body, recovered_if,
  activate, reinstall, rollback_versions, rollback, disable, is_disabled,
}
use nyauth.Mail.Cases.{
  Faulty, audited, update_cases, enqueue_cases, publish_cases, stop_cases, or_error_cases,
}

abbrev pub recovery_audit : Bool → AuditEvent → List AuditEvent → List AuditEvent
recovery_audit true event outbox = event ∷ outbox
recovery_audit false event outbox = outbox

-- What an Activate or Rollback leaves.
abbrev pub installed : Db → State → NoticeKind → AuditEvent → Text → Text → Db
installed db row kind event target reason = record db {
  state = row;
  outbox =
      recovery_audit (is_open db.state.circuit) (circuit_recovered_event target reason)
        (event ∷ db.outbox);
  notices = (kind, row.revision) ∷ db.notices;
}

module _ (f : Faults) (db : Db) (P : Db × Result State → Type 0) (faulty : Faulty f db P) where
  candidate_cases :
      (candidate : Option String) (version : String) (rest : Step State)
      → (candidate ≡ some version → P (settle db rest))
      → P (settle db (with_candidate candidate version rest))
  candidate_cases none version rest k = faulty.refused candidate_not_found
  candidate_cases (some c) version rest k =
      stop_cases f db P faulty (not (str_eq c version)) candidate_changed rest
        λ h. k (ap_some c version ((str_eq_iff c version).0 (ground arith)))
    where
      ap_some : (a b : String) → a ≡ b → some a ≡ some b
      ap_some a b e = ground arith

  refuse_cases :
      (refusal : Option Error) (rest : Step State)
      → (refusal ≡ none → P (settle db rest))
      → P (settle db (refuse_or refusal rest))
  refuse_cases none rest k = k refl
  refuse_cases (some e) rest k = faulty.refused e

  recovered_cases :
      (opened : Bool) (event : AuditEvent) (db' : Db) (kind : NoticeKind)
      → P (
        record db' {
          outbox = recovery_audit opened event db'.outbox;
          notices = (kind, db'.state.revision) ∷ db'.notices;
        },
        ok db'.state,
      )
      → P (settle db (recovered_if opened f event db' λ d. publish f kind d d.state))
  recovered_cases true event db' kind done =
      enqueue_cases f db P faulty event db' (λ d. publish f kind d d.state)
        (publish_cases f db P faulty kind (record db' { outbox = event ∷ db'.outbox }) db'.state
          done)
  recovered_cases false event db' kind done = publish_cases f db P faulty kind db' db'.state done

module _ (f : Faults) (db : Db) (P : Db × Result State → Type 0) (faulty : Faulty f db P) where
  audit_from_state :
      (db' : Db) (row : State) (event : AuditEvent) (kind : NoticeKind)
      → P (audited db' row kind event, ok row)
      → P (settle db (update f row db' λ d. enqueue f event d λ d'. publish f kind d' d'.state))
  audit_from_state db' row event kind done =
      let written_row : Db = record db' { state = row } in
      let rest : Db → Step State = λ d. publish f kind d d.state in
      update_cases f db P faulty row db' (λ d. enqueue f event d rest)
        (enqueue_cases f db P faulty event written_row rest (
          publish_cases f db P faulty kind (record written_row { outbox = event ∷ db'.outbox }) row
            done))

  install_cases :
      (row : State) (event : AuditEvent) (target reason : Text) (kind : NoticeKind)
      → P (installed db row kind event target reason, ok row)
      → P (
          settle db (
            update f row db λ db'. enqueue f event db' λ d.
              recovered_if
                (is_open db.state.circuit)
                f
                (circuit_recovered_event target reason)
                d
                λ d'. publish f kind d' d'.state))
  install_cases row event target reason kind done =
      let written_row : Db = record db { state = row } in
      let recovery = circuit_recovered_event target reason in
      let last : Db → Step State = λ d'. publish f kind d' d'.state in
      let rest : Db → Step State = λ d. recovered_if (is_open db.state.circuit) f recovery d last in
      update_cases f db P faulty row db (λ d. enqueue f event d rest)
        (enqueue_cases f db P faulty event written_row rest (
          recovered_cases f db P faulty (is_open db.state.circuit) recovery
            (record written_row { outbox = event ∷ db.outbox }) kind done))

module _ (f : Faults) (now : ℕ) (db : Db) (P : Db × Result State → Type 0)
    (faulty : Faulty f db P) where
  -- RecordTest adds one test of the candidate.
  pub record_test_cases :
      (available audit_valid : Bool) (expected : ℕ) (version : String) (hash_length : ℕ)
      (result : Text) (category : Option Text)
      → ((c : Option Text)
          → db.state.revision ≡ expected
          → db.state.candidate_version ≡ some version
          → normalize_test_result result category ≡ ok c
          → let row = tested_row now db.state in
            let db' : Db = record db { tests = test_row now version result c ∷ db.tests } in
            P (audited db' row tested (tested_event version), ok row))
      → P (record_test f now db available audit_valid expected version hash_length result category)
  unfolding record_test
  record_test_cases available audit_valid expected version hash_length result category done =
      if_cases P (not available) (λ _. faulty.refused _)
        λ _.
          if_cases P (str_eq version "") (λ _. faulty.refused _)
            λ _.
              if_cases P (not audit_valid) (λ _. faulty.refused _)
                λ _. or_error_cases f db P faulty (normalize_test_result result category) _ λ c e.
                  if_cases P (not (hash_length == 32)) (λ _. faulty.refused _)
                    λ _. body c (λ r m. done c r m e)
    where
      body :
          (c : Option Text)
          → (db.state.revision ≡ expected
              → db.state.candidate_version ≡ some version
              → let row = tested_row now db.state in
                let db' : Db = record db { tests = test_row now version result c ∷ db.tests } in
                P (audited db' row tested (tested_event version), ok row))
          → P (settle db (record_test_body f now db expected version result c))
      body c k = stop_cases f db P faulty f.begin_tx database _ λ _.
          stop_cases f db P faulty f.lock_row database _ λ _.
            stop_cases f db P faulty (not (db.state.revision == expected)) _ _ λ r.
              candidate_cases f db P faulty db.state.candidate_version version _ λ m.
                stop_cases f db P faulty f.insert database _ λ _.
                  audit_from_state f db P faulty
                    (record db { tests = test_row now version result c ∷ db.tests })
                    (tested_row now db.state) (tested_event version) tested (k (ground arith) m)

module _ (uuid_text : String → Text) (f : Faults) (now : ℕ) (db : Db)
    (P : Db × Result State → Type 0) (faulty : Faulty f db P) where
  -- Activate installs the candidate, if its newest successful test allows that.
  pub activate_cases :
      (available audit_valid : Bool) (expected : ℕ) (version : String)
      → (db.state.revision ≡ expected
          → db.state.candidate_version ≡ some version
          → test_refusal now (newest_success version db.tests) ≡ none
          → let row = activated_row now version db.state in
            let reason = codes "configuration_activated" in
            P (
              installed db row activated (activated_event version) (uuid_text version) reason,
              ok row,
            ))
      → P (activate uuid_text f now db available audit_valid expected version)
  unfolding activate
  activate_cases available audit_valid expected version done =
      if_cases P (not available) (λ _. faulty.refused _)
        λ _.
          if_cases P (str_eq version "") (λ _. faulty.refused _)
            λ _.
              if_cases P (not audit_valid) (λ _. faulty.refused _)
                λ _. stop_cases f db P faulty f.begin_tx database _ λ _.
                  stop_cases f db P faulty f.lock_row database _ λ _.
                    stop_cases f db P faulty (not (db.state.revision == expected)) _ _ λ r.
                      candidate_cases f db P faulty db.state.candidate_version version _ λ m.
                        stop_cases f db P faulty f.query database _ λ _.
                          refuse_cases f db P faulty
                            (test_refusal now (newest_success version db.tests)) _
                            λ t. install_cases f db P faulty _ _ _ _ _ (done (ground arith) m t)

  -- Rollback installs the previous version of an active or disabled configuration.
  pub rollback_cases :
      (available audit_valid : Bool) (expected : ℕ)
      → ((version : String) (previous : Option String)
          → db.state.revision ≡ expected
          → db.state.previous_version ≡ some version
          → ((db.state.mode ≡ active) × (db.state.active_version ≡ previous) × (previous ≢ none))
            ⊎ ((db.state.mode ≡ disabled) × (previous ≡ none))
          → let row = rolled_back_row now version previous db.state in
            let reason = codes "configuration_rolled_back" in
            P (
              installed db row rolled_back (rolled_back_event version) (uuid_text version) reason,
              ok row,
            ))
      → P (rollback uuid_text f now db available audit_valid expected)
  unfolding rollback
  rollback_cases available audit_valid expected done =
      if_cases P (not available) (λ _. faulty.refused _)
        λ _.
          if_cases P (not audit_valid) (λ _. faulty.refused _)
            λ _. stop_cases f db P faulty f.begin_tx database _ λ _.
              stop_cases f db P faulty f.lock_row database _ λ _.
                stop_cases f db P faulty (not (db.state.revision == expected)) _ _ λ r.
                  by_mode (ground arith) db.state.mode db.state.previous_version
                    db.state.active_version refl refl refl
    where
      install :
          (version : String) (previous : Option String)
          → P (
            installed db
                (rolled_back_row now version previous db.state)
                rolled_back
                (rolled_back_event version)
                (uuid_text version)
                (codes "configuration_rolled_back"),
            ok (rolled_back_row now version previous db.state),
          )
          → P (settle db (reinstall uuid_text f now db version previous))
      install version previous p = install_cases f db P faulty _ _ _ _ _ p

      by_mode :
          db.state.revision ≡ expected
          → (m : Mode) (p a : Option String) → db.state.mode ≡ m
          → db.state.previous_version ≡ p
          → db.state.active_version ≡ a
          → P (settle db (rollback_versions uuid_text f now db m p a))
      by_mode r m none a em ep ea = faulty.refused no_previous_version
      by_mode r active (some v) none em ep ea = faulty.refused no_previous_version
      by_mode r active (some v) (some from) em ep ea =
          install v (some from) (done v (some from) r ep (inl (em, ea, ground arith)))
      by_mode r disabled (some v) a em ep ea = install v none (done v none r ep (inr (em, refl)))
      by_mode r fallback (some v) a em ep ea = faulty.refused no_previous_version

module _ (f : Faults) (now : ℕ) (db : Db) (P : Db × Result State → Type 0)
    (faulty : Faulty f db P) where
  pub disable_cases :
      (available audit_valid : Bool) (registration : Option Bool) (expected : ℕ)
      → (db.state.revision ≡ expected
          → registration ≡ some true
          → is_disabled db.state.mode ≡ false
          → let row = disabled_row now db.state in
            P (audited db row disabled_notice disabled_event, ok row))
      → P (disable f now db available audit_valid registration expected)
  unfolding disable
  disable_cases available audit_valid none expected done =
      if_cases P (not available) (λ _. faulty.refused _)
        λ _. if_cases P (not audit_valid) (λ _. faulty.refused _) (λ _. faulty.refused database)
  disable_cases available audit_valid (some closed) expected done =
      if_cases P (not available) (λ _. faulty.refused _)
        λ _.
          if_cases P (not audit_valid) (λ _. faulty.refused _)
            λ _. stop_cases f db P faulty f.begin_tx database _ λ _.
              stop_cases f db P faulty (not closed) _ _ λ c.
                stop_cases f db P faulty f.lock_row database _ λ _.
                  stop_cases f db P faulty (not (db.state.revision == expected)) _ _ λ r.
                    stop_cases f db P faulty (is_disabled db.state.mode) _ _ λ m.
                      audit_from_state f db P faulty db (disabled_row now db.state) disabled_event
                        disabled_notice (done (ground arith) (ground arith) m)
