-- ===== src/Mail/Preserve.antt =====
-- What calls leave of the CHECK constraints of `mail_runtime_state`.
use nyauth.Common.{ℕ, ◌<◌, Bool, arith, String}
use nyauth.Common.Text.{Text}
use nyauth.Mail.Outcome.{normalize_delivery_outcome_failure}
use nyauth.Mail.{Result, State, Db, Faults}
use nyauth.Mail.Circuit.{window_start, next_count}
use nyauth.Mail.Cases.{Faulty, delivery_cases}
use nyauth.Mail.ProbeCases.{claim_cases, probe_cases}
use nyauth.Mail.VersionCases.{record_test_cases, activate_cases, rollback_cases, disable_cases}
use nyauth.Mail.Calls.{
  Call, delivers, claims, probes, tests_version, activates, rolls_back, disables, Event, outcome,
  dispatch, perform,
}
use nyauth.Mail.Constraints.{
  IsConsistent, ClockAhead, valid_reason-is_nonblank, reset_row-IsConsistent,
  permanent_row-IsConsistent, transport_open_row-IsConsistent, transport_count_row-IsConsistent,
  recovered_row-IsConsistent, probe_row-IsConsistent, due-ClockAhead, delivery_category_permanent,
  tested_row-IsConsistent, activated_row-IsConsistent, rolled_back_row-IsConsistent,
  disabled_row-IsConsistent,
}

next_count_pos : (s : State) (now : ℕ) → 0 < next_count s now
next_count_pos s now = omega arith

module _ (uuid_text : String → Text) (a : Bool) (f : Faults) (now : ℕ) (db : Db)
    (v : IsConsistent db.state) where
  abbrev Kept : {A : Type 0} → Db × Result A → Type 0
  Kept r = IsConsistent (outcome r).0.state

  faults_Kept : {A : Type 0} → Faulty {A = A} f db (Kept {A = A})
  faults_Kept = record { refused = λ e. v; unheard = λ db' a lost kept. kept }

  dispatch-IsConsistent :
      (c : Call)
      → ClockAhead now db.state.opened_at
      → IsConsistent (dispatch uuid_text c a f now db).0.state
  unfolding dispatch
  dispatch-IsConsistent (delivers o) k =
      delivery_cases uuid_text f now db Kept o
        (record {
          faulty = faults_Kept;
          ignored = v;
          reset = λ c _ _. reset_row-IsConsistent now db.state c v;
          opened_permanent = λ c r closed s n not_recipient not_transport.
              let (d, valid) = normalize_delivery_outcome_failure o s n in
              permanent_row-IsConsistent now c r db.state
                (delivery_category_permanent c d not_recipient not_transport)
                (valid_reason-is_nonblank r valid) v;
          opened_transport = λ c r closed s n is_transport enough.
              transport_open_row-IsConsistent now r (window_start db.state.window_started now)
                (next_count db.state now) db.state
                (valid_reason-is_nonblank r (normalize_delivery_outcome_failure o s n).1) enough v;
          counted = λ c r closed s n is_transport few.
              transport_count_row-IsConsistent now (window_start db.state.window_started now)
                (next_count db.state now) db.state closed (next_count_pos db.state now) v;
        })
        a
  dispatch-IsConsistent (claims s) k =
      claim_cases f now db Kept
        (record {
          faulty = faults_Kept;
          claimed = λ opened due.
              probe_row-IsConsistent now db.state opened (due-ClockAhead now db.state opened due v)
                v;
        })
        s a
  dispatch-IsConsistent (probes o) k =
      probe_cases uuid_text f now db Kept o
        (record {
          faulty = faults_Kept;
          recovered = λ _ _ _. recovered_row-IsConsistent now db.state v;
          postponed = λ opened _ _. probe_row-IsConsistent now db.state opened k v;
        })
        a
  dispatch-IsConsistent (tests_version w e id n r c) k =
      record_test_cases f now db Kept faults_Kept a w e id n r c
        λ c' _ _ _. tested_row-IsConsistent now db.state v
  dispatch-IsConsistent (activates w e id) k =
      activate_cases uuid_text f now db Kept faults_Kept a w e id
        λ _ c _. activated_row-IsConsistent now id db.state c v
  dispatch-IsConsistent (rolls_back w e) k =
      rollback_cases uuid_text f now db Kept faults_Kept a w e
        λ id p _ c m. rolled_back_row-IsConsistent now id p db.state c m v
  dispatch-IsConsistent (disables w r e) k =
      disable_cases f now db Kept faults_Kept a w r e
        λ _ _ _. disabled_row-IsConsistent now db.state v

-- If the row meets the CHECK constraints of `mail_runtime_state` (modes with their version pointers,
-- distinct pointers, the failure window, and the fields of a closed or open circuit), and the caller's
-- clock is not 30 seconds or more behind the opening of an open circuit, then the row meets them too
-- after a delivery outcome, a claim or an outcome of a probe, RecordTest, Activate, Rollback or
-- Disable.
pub perform-IsConsistent :
    (uuid_text : String → Text) (e : Event) (db : Db)
    → ClockAhead e.now db.state.opened_at
    → IsConsistent db.state
    → IsConsistent (perform uuid_text e db).0.state
unfolding perform
perform-IsConsistent uuid_text e db k v =
    dispatch-IsConsistent uuid_text e.available e.faults e.now db v e.call k
