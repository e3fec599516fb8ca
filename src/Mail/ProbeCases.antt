-- ===== src/Mail/ProbeCases.antt =====
-- circuit.go: the ways in which ClaimProbe and RecordProbeOutcome end.
use nyauth.Common.{ℕ, ◌≡◌, Bool, true, false, not, arith, ◌==◌, String, if_cases}
use nyauth.Common.Text.{Text, codes}
use nyauth.Mail.Outcome.{validate_source, source_matches_state, normalize_probe_outcome}
use nyauth.Mail.{
  database, Result, ok, EffectiveSource, ProbeOutcome, Transition, ProbeClaim,
  circuit_recovered_event, probe_claimed, probe_failed, circuit_recovered, Db, Faults, settle,
  is_open,
}
use nyauth.Mail.Circuit.{
  source_target_id, moved, probe_row, recovered_row, not_due, claim_probe, record_probe_outcome,
  probe_body,
}
use nyauth.Mail.Cases.{
  Faulty, written, audited, write_cases, audit_cases, stop_cases, or_error_cases,
}

-- ClaimProbe writes in one way: it moves the next probe of an open circuit that is due.
pub record ClaimCases (f : Faults) (now : ℕ) (db : Db) (P : Db × Result ProbeClaim → Type 0)
    : Type 0 where
  pub faulty : Faulty f db P
  pub claimed :
      is_open db.state.circuit ≡ true
      → not_due db.state.next_probe_at now ≡ false
      → let row = probe_row now db.state in
        P (
          written db row probe_claimed,
          ok (record { acquired = true; expected_revision = row.revision; state = row }),
        )

module _ (f : Faults) (now : ℕ) (db : Db) (P : Db × Result ProbeClaim → Type 0)
    (k : ClaimCases f now db P) (source : EffectiveSource) where
  pub claim_cases : (available : Bool) → P (claim_probe f now db available source)
  unfolding claim_probe
  claim_cases available =
      if_cases P (not available) (λ _. k.faulty.refused _)
        λ _.
          if_cases P (not (validate_source source)) (λ _. k.faulty.refused _)
            λ _. stop_cases f db P k.faulty f.begin_tx database _ λ _.
              stop_cases f db P k.faulty f.lock_row database _ λ _.
                stop_cases f db P k.faulty (not (source_matches_state source db.state)) _ _ λ _.
                  stop_cases f db P k.faulty (not (is_open db.state.circuit)) _ _ λ c.
                    stop_cases f db P k.faulty (not_due db.state.next_probe_at now) _ _
                      λ d. write_cases f db P k.faulty _ _ _ (k.claimed (ground arith) d)

-- RecordProbeOutcome closes the circuit or puts the next probe off, and only at the revision that the
-- caller expects.
pub record ProbeCases (uuid_text : String → Text) (f : Faults) (now : ℕ) (db : Db)
    (o : ProbeOutcome) (P : Db × Result Transition → Type 0) : Type 0 where
  pub faulty : Faulty f db P
  pub recovered :
      is_open db.state.circuit ≡ true
      → o.success ≡ true
      → db.state.revision ≡ o.expected_revision
      → let row = recovered_row now db.state in
        let event =
          circuit_recovered_event (source_target_id uuid_text o.source) (codes "probe_succeeded") in
        P (
          audited db row circuit_recovered event,
          ok (record { state = row; changed = true; opened = false; recovered = true }),
        )
  pub postponed :
      is_open db.state.circuit ≡ true
      → o.success ≡ false
      → db.state.revision ≡ o.expected_revision
      → let row = probe_row now db.state in P (written db row probe_failed, ok (moved row false))

module _ (uuid_text : String → Text) (f : Faults) (now : ℕ) (db : Db)
    (P : Db × Result Transition → Type 0) (o : ProbeOutcome)
    (k : ProbeCases uuid_text f now db o P) where
  body_cases : P (settle db (probe_body uuid_text f now db o))
  unfolding probe_body
  body_cases = stop_cases f db P k.faulty f.begin_tx database _ λ _.
      stop_cases f db P k.faulty f.lock_row database _ λ _.
        stop_cases f db P k.faulty (not (db.state.revision == o.expected_revision)) _ _ λ r.
          stop_cases f db P k.faulty (not (source_matches_state o.source db.state)) _ _ λ _.
            stop_cases f db P k.faulty (not (is_open db.state.circuit)) _ _ λ c.
              if_cases (λ s. P (settle db s)) o.success
                (λ s.
                  audit_cases f db P k.faulty _ _ _ _ (k.recovered (ground arith) s (ground arith)))
                λ s. write_cases f db P k.faulty _ _ _ (k.postponed (ground arith) s (ground arith))

  pub probe_cases : (available : Bool) → P (record_probe_outcome uuid_text f now db available o)
  unfolding record_probe_outcome
  probe_cases available =
      if_cases P (not available) (λ _. k.faulty.refused _)
        λ _.
          if_cases P (not (validate_source o.source)) (λ _. k.faulty.refused _)
            λ _. or_error_cases f db P k.faulty (normalize_probe_outcome o) _ λ c e. body_cases
