-- ===== src/Mail/Versions.antt =====
-- store.go: RecordTest, Activate, Rollback and Disable.
use nyauth.Common.{
  ℕ, ◌+◌, Bool, true, false, not, ◌&&◌, List, [], ◌∷◌, Option, none, some, ltb, ◌==◌, if◌then◌else◌,
  str_eq, String,
}
use nyauth.Common.Text.{Text, codes, text_eq, is_empty, trim_space, to_lower}
use nyauth.Mail.Outcome.{valid_error_category}
use nyauth.Mail.Circuit.{recovered_row}
use nyauth.Mail.{
  Mode, fallback, active, disabled, Error, store_unavailable, invalid_config, candidate_not_found,
  candidate_changed, state_conflict, candidate_test_required, candidate_test_expired,
  no_previous_version, already_disabled, registration_open, database, invalid_audit, Result, ok,
  err, State, AuditEvent, circuit_recovered_event, tested_event, activated_event, rolled_back_event,
  disabled_event, tested, activated, rolled_back, disabled_notice, TestRecord, Db, Faults, Step,
  failed, settle, or_error, publish, enqueue, update, is_open, candidate_test_validity,
}

abbrev pub success : Text
success = codes "success"

abbrev pub failure : Text
failure = codes "failure"

abbrev failed_category : Text → Result (Option Text)
failed_category c = if valid_error_category c true then ok (some c) else err invalid_config

-- normalizeTestResult.
unfoldable pub normalize_test_result : Text → Option Text → Result (Option Text)
unfolding trim_space to_lower valid_error_category
normalize_test_result result none =
    if text_eq (trim_space result) success then ok none else err invalid_config
normalize_test_result result (some c) =
    if text_eq (trim_space result) success
    then if not (is_empty (trim_space c)) then err invalid_config else ok none
    else if not (text_eq (trim_space result) failure)
    then err invalid_config
    else failed_category (to_lower (trim_space c))

-- `state.CandidateVersionID == nil`, and then `*state.CandidateVersionID != input.VersionID`.
abbrev pub with_candidate {ℓ} : {A : Type ℓ} → Option String → String → Step A → Step A
with_candidate none version rest = failed candidate_not_found
with_candidate (some c) version rest =
    if not (str_eq c version) then failed candidate_changed else rest

-- The later of two times.
abbrev pub later : ℕ → Option ℕ → Option ℕ
later a none = some a
later a (some b) = if ltb a b then some b else some a

-- The newest test of the version that succeeded: `ORDER BY created_at DESC LIMIT 1`.
unfoldable pub newest_success : String → List TestRecord → Option ℕ
newest_success version [] = none
newest_success version (t ∷ ts) =
    let rest = newest_success version ts in
    if str_eq t.version version && text_eq t.result success then later t.created_at rest else rest

-- The checks of the test's age; `none` is that the version may be activated.
abbrev pub test_refusal : ℕ → Option ℕ → Option Error
test_refusal now none = some candidate_test_required
test_refusal now (some t) =
    if ltb now t
    then some candidate_test_required
    else if ltb (t + candidate_test_validity) now
    then some candidate_test_expired
    else none

abbrev pub refuse_or {ℓ} : {A : Type ℓ} → Option Error → Step A → Step A
refuse_or (some e) rest = failed e
refuse_or none rest = rest

-- The previous version that Activate and Disable store.
abbrev pub next_previous : Mode → State → Option String
next_previous active s = s.active_version
next_previous m s = s.previous_version

abbrev pub activated_row : ℕ → String → State → State
activated_row now version s = record (recovered_row now s) {
  mode = active;
  active_version = some version;
  candidate_version = none;
  previous_version = next_previous s.mode s;
}

abbrev pub rolled_back_row : ℕ → String → Option String → State → State
rolled_back_row now to_version previous s = record (recovered_row now s) {
  mode = active;
  active_version = some to_version;
  previous_version = previous;
}

abbrev pub disabled_row : ℕ → State → State
disabled_row now s = record (recovered_row now s) {
  mode = disabled;
  active_version = none;
  previous_version = next_previous s.mode s;
}

abbrev pub tested_row : ℕ → State → State
tested_row now s = record s { revision = s.revision + 1; updated_at = now }

-- The row of `mail_config_tests` that RecordTest inserts.
abbrev pub test_row : ℕ → String → Text → Option Text → TestRecord
test_row now version result category = record {
  version = version;
  result = trim_space result;
  error_category = category;
  created_at = now;
}

module _ (f : Faults) (now : ℕ) (db : Db) where
  insert_test : String → TestRecord → Step State
  unfolding publish
  insert_test version test =
      let rest =
        update f (tested_row now db.state) (record db { tests = test ∷ db.tests })
          λ db'. enqueue f (tested_event version) db' λ d. publish f tested d d.state in
      if f.insert then failed database else rest

  unfoldable pub record_test_body : ℕ → String → Text → Option Text → Step State
  unfolding insert_test
  record_test_body expected version result category =
      if f.begin_tx
      then failed database
      else if f.lock_row
      then failed database
      else if not (db.state.revision == expected)
      then failed state_conflict
      else with_candidate db.state.candidate_version version
          (insert_test version (test_row now version result category))

  -- RecordTest: `audit_valid` is ValidateEvent's verdict, `hash_length` the length of the recipient
  -- hash, and an empty version stands for uuid.Nil.
  unfoldable pub record_test : Bool → Bool → ℕ → String → ℕ → Text → Option Text → Db × Result State
  unfolding record_test_body
  record_test available audit_valid expected version hash_length result category =
      if not available
      then (db, err store_unavailable)
      else if str_eq version ""
      then (db, err invalid_config)
      else if not audit_valid
      then (db, err invalid_audit)
      else or_error db (normalize_test_result result category) λ c.
        if not (hash_length == 32)
        then (db, err invalid_config)
        else settle db (record_test_body expected version result c)

-- The audit record of the recovery, when the circuit was open.
abbrev pub recovered_if : Bool → Faults → AuditEvent → Db → (Db → Step State) → Step State
recovered_if true f event db rest = enqueue f event db rest
recovered_if false f event db rest = rest db

module _ (uuid_text : String → Text) (f : Faults) (now : ℕ) (db : Db) where
  unfoldable pub activate_body : ℕ → String → Step State
  unfolding publish newest_success
  activate_body expected version =
      if f.begin_tx
      then failed database
      else if f.lock_row
      then failed database
      else if not (db.state.revision == expected)
      then failed state_conflict
      else with_candidate db.state.candidate_version version
          (checked (test_refusal now (newest_success version db.tests)))
    where
      install : Step State
      install = update f (activated_row now version db.state) db λ db'.
          enqueue f (activated_event version) db' λ d.
            recovered_if (is_open db.state.circuit) f
              (circuit_recovered_event (uuid_text version) (codes "configuration_activated")) d
              λ d'. publish f activated d' d'.state

      checked : Option Error → Step State
      checked refusal =
          let rest = refuse_or refusal install in if f.query then failed database else rest

  -- Activate.
  unfoldable pub activate : Bool → Bool → ℕ → String → Db × Result State
  unfolding activate_body
  activate available audit_valid expected version =
      if not available
      then (db, err store_unavailable)
      else if str_eq version ""
      then (db, err invalid_config)
      else if not audit_valid
      then (db, err invalid_audit)
      else settle db (activate_body expected version)

  -- The UPDATE of Rollback and what follows it.
  unfoldable pub reinstall : String → Option String → Step State
  unfolding publish
  reinstall to_version previous =
      update f (rolled_back_row now to_version previous db.state) db λ db'.
        enqueue f (rolled_back_event to_version) db' λ d.
          recovered_if (is_open db.state.circuit) f
            (circuit_recovered_event (uuid_text to_version) (codes "configuration_rolled_back")) d
            λ d'. publish f rolled_back d' d'.state

  unfoldable pub rollback_versions : Mode → Option String → Option String → Step State
  unfolding reinstall
  rollback_versions m none a = failed no_previous_version
  rollback_versions active (some to_version) none = failed no_previous_version
  rollback_versions active (some to_version) (some from) = reinstall to_version (some from)
  rollback_versions disabled (some to_version) a = reinstall to_version none
  rollback_versions fallback (some to_version) a = failed no_previous_version

  unfoldable pub rollback_body : ℕ → Step State
  unfolding rollback_versions
  rollback_body expected =
      if f.begin_tx
      then failed database
      else if f.lock_row
      then failed database
      else if not (db.state.revision == expected)
      then failed state_conflict
      else rollback_versions db.state.mode db.state.previous_version db.state.active_version

  -- Rollback.
  unfoldable pub rollback : Bool → Bool → ℕ → Db × Result State
  unfolding rollback_body
  rollback available audit_valid expected =
      if not available
      then (db, err store_unavailable)
      else if not audit_valid
      then (db, err invalid_audit)
      else settle db (rollback_body expected)

abbrev pub is_disabled : Mode → Bool
is_disabled disabled = true
is_disabled m = false

module _ (f : Faults) (now : ℕ) (db : Db) where
  unfoldable pub disable_body : Option Bool → ℕ → Step State
  unfolding publish
  disable_body none expected = failed database
  disable_body (some registration_closed) expected =
      if f.begin_tx
      then failed database
      else if not registration_closed
      then failed registration_open
      else if f.lock_row
      then failed database
      else if not (db.state.revision == expected)
      then failed state_conflict
      else if is_disabled db.state.mode
      then failed already_disabled
      else update f (disabled_row now db.state) db
          λ db'. enqueue f disabled_event db' λ d. publish f disabled_notice d d.state

  -- Disable. `registration` is what the registration lock and LoadRegistrationTx find in the same
  -- transaction: whether the mode is closed, or `none` where one of them fails.
  unfoldable pub disable : Bool → Bool → Option Bool → ℕ → Db × Result State
  unfolding disable_body
  disable available audit_valid registration expected =
      if not available
      then (db, err store_unavailable)
      else if not audit_valid
      then (db, err invalid_audit)
      else settle db (disable_body registration expected)
