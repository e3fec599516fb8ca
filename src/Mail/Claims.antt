-- ===== src/Mail/Claims.antt =====
-- circuit.go: when ClaimProbe may claim the next probe.
use nyauth.Common.{
  ℕ, ◌+◌, ◌≤◌, ◌<◌, ◌≡◌, refl, Bool, true, false, List, [], ◌∷◌, Option, some, arith, String, All,
}
use nyauth.Common.Text.{Text}
use nyauth.Mail.{
  Result, ok, EffectiveSource, ProbeClaim, Db, Faults, circuit_probe_interval, is_open,
}
use nyauth.Mail.Circuit.{not_due, claim_probe}
use nyauth.Mail.Versions.{later}
use nyauth.Mail.Cases.{Faulty, delivery_cases}
use nyauth.Mail.ProbeCases.{claim_cases}
use nyauth.Mail.VersionCases.{record_test_cases}
use nyauth.Mail.Calls.{
  Call, delivers, claims, probes, tests_version, activates, rolls_back, disables, Event, outcome,
  dispatch, perform, run,
}
use nyauth.Mail.Probes.{Refused, Claimed, claimed_lem, not_yet}

-- The circuit is open and its next probe is not due before `t`.
abbrev WaitsUntil : ℕ → Db → Type 0
WaitsUntil t db =
    (is_open db.state.circuit ≡ true) × ((n : ℕ) × (db.state.next_probe_at ≡ some n) × (t ≤ n))

-- The calls that neither end a probe nor change the configuration in effect.
abbrev LeavesProbe : Call → Type 0
LeavesProbe (delivers o) = Unit
LeavesProbe (claims s) = Unit
LeavesProbe (probes o) = ⊥
LeavesProbe (tests_version v e id n r c) = Unit
LeavesProbe (activates v e id) = ⊥
LeavesProbe (rolls_back v e) = ⊥
LeavesProbe (disables v r e) = ⊥

abbrev pub BetweenProbes : Event → Type 0
BetweenProbes e = LeavesProbe e.call

module _ (uuid_text : String → Text) (t : ℕ) where
  abbrev Kept : {A : Type 0} → Db × Result A → Type 0
  Kept r = WaitsUntil t (outcome r).0

  faulty-Kept :
      {A : Type 0} (f : Faults) (db : Db) → WaitsUntil t db → Faulty {A = A} f db (Kept {A = A})
  faulty-Kept f db waits = record { refused = λ e. waits; unheard = λ db' a lost kept. kept }

  dispatch-WaitsUntil :
      (c : Call) (available : Bool) (f : Faults) (now : ℕ) (db : Db)
      → LeavesProbe c
      → WaitsUntil t db
      → WaitsUntil t (dispatch uuid_text c available f now db).0
  unfolding dispatch
  dispatch-WaitsUntil (delivers o) available f now db leaves (opened, waits) =
      delivery_cases uuid_text f now db Kept o
        (record {
          faulty = faulty-Kept f db (opened, waits);
          ignored = (opened, waits);
          reset = λ closed _ _. absurd (cc);
          opened_permanent = λ _ _ closed _ _ _ _. absurd (cc);
          opened_transport = λ _ _ closed _ _ _ _. absurd (cc);
          counted = λ _ _ closed _ _ _ _. absurd (cc);
        })
        available
  dispatch-WaitsUntil (claims s) available f now db leaves (opened, (n, next, later)) =
      claim_cases f now db Kept
        (record {
          faulty = faulty-Kept f db (opened, (n, next, later));
          claimed = λ _ due. (
            opened,
            (
              now + circuit_probe_interval,
              refl,
              reached db.state.next_probe_at now n next due later,
            ),
          );
        })
        s available
    where
      reached :
          (o : Option ℕ) (now n : ℕ)
          → o ≡ some n
          → not_due o now ≡ false
          → t ≤ n
          → t ≤ now + circuit_probe_interval
      reached o now n e due h = ground arith
  dispatch-WaitsUntil (tests_version v e id n r c) available f now db leaves waits =
      record_test_cases f now db Kept (faulty-Kept f db waits) available v e id n r c
        λ _ _ _ _. waits
  dispatch-WaitsUntil (probes o) available f now db leaves waits = absurd leaves
  dispatch-WaitsUntil (activates v e id) available f now db leaves waits = absurd leaves
  dispatch-WaitsUntil (rolls_back v e) available f now db leaves waits = absurd leaves
  dispatch-WaitsUntil (disables v r e) available f now db leaves waits = absurd leaves

  run-WaitsUntil :
      (es : List Event) (db : Db)
      → All BetweenProbes es
      → WaitsUntil t db
      → WaitsUntil t (run uuid_text es db)
  unfolding run perform
  run-WaitsUntil [] db leaves waits = waits
  run-WaitsUntil (e ∷ es) db (leaves, more) waits =
      run-WaitsUntil es (perform uuid_text e db).0 more
        (dispatch-WaitsUntil e.call e.available e.faults e.now db leaves waits)

-- A probe is claimed at time `now`, and then delivery outcomes, claims and tests of a candidate follow,
-- any number of them by any instances with any clocks. Then a claim by a clock before `now` plus 30
-- seconds is refused and changes nothing.
pub claim_exclusive :
    (uuid_text : String → Text) (f : Faults) (now : ℕ) (db : Db) (source : EffectiveSource)
    (available : Bool) {db' : Db} {c : ProbeClaim} (es : List Event) (f' : Faults) (then_at : ℕ)
    (source' : EffectiveSource) (available' : Bool)
    → claim_probe f now db available source ≡ (db', ok c)
    → All BetweenProbes es
    → then_at < now + circuit_probe_interval
    → let db'' = run uuid_text es db' in
      Refused db'' (claim_probe f' then_at db'' available' source')
claim_exclusive uuid_text f now db source available {db'} {c} es f' then_at source' available' e
      leaves h =
    let claim : Claimed now db (db', ok c) = rw e at (claimed_lem f now db source available) in
    let (_, next, opened) = claim in
    let (_, (n, due, later)) =
      run-WaitsUntil uuid_text (now + circuit_probe_interval) es db' leaves
        (opened, (now + circuit_probe_interval, next, omega arith)) in
    not_yet f' then_at (run uuid_text es db') source' available' n due (omega (arith, h, later))
