-- ===== src/Mail/Audit.antt =====
-- What a call of the mail runtime does to the revision and to the notifications.
use nyauth.Common.{ℕ, ◌+◌, ◌≡◌, ◌⊎◌, inl, inr, refl, Bool, true, ◌∷◌, Option, none, some, String}
use nyauth.Common.Text.{Text}
use nyauth.Mail.{
  Error, database, Result, NoticeKind, circuit_reset, circuit_opened, circuit_failure,
  probe_claimed, probe_failed, circuit_recovered, tested, activated, rolled_back, disabled_notice,
  Db, Faults,
}
use nyauth.Mail.Cases.{Faulty, delivery_cases}
use nyauth.Mail.ProbeCases.{claim_cases, probe_cases}
use nyauth.Mail.VersionCases.{record_test_cases, activate_cases, rollback_cases, disable_cases}
use nyauth.Mail.Calls.{
  Call, delivers, claims, probes, tests_version, activates, rolls_back, disables, Event, outcome,
  dispatch, perform,
}

-- A committed change.
pub record Advances (db db' : Db) : Type 0 where
  pub revision : db'.state.revision ≡ db.state.revision + 1
  pub kind : NoticeKind
  pub announced : db'.notices ≡ (kind, db'.state.revision) ∷ db.notices

-- What a call did: it leaves the database alone or commits one change, and where it returns an error
-- it commits one only if the reply to its Commit is lost.
abbrev pub Atomic : Faults → Db → Db × Option Error → Type 0
Atomic f db (db', none) = (db' ≡ db) ⊎ Advances db db'
Atomic f db (db', some e) = (db' ≡ db) ⊎ ((f.commit_lost ≡ true) × (e ≡ database) × Advances db db')

-- What the loss of a reply makes of a call.
unheard_call :
    (f : Faults) (db db' : Db)
    → f.commit_lost ≡ true
    → (db' ≡ db) ⊎ Advances db db'
    → Atomic f db (db', some database)
unheard_call f db db' lost (inl same) = inl same
unheard_call f db db' lost (inr advances) = inr (lost, refl, advances)

-- What is left is `written` or `audited`, whose revision and notification show by computation.
advance :
    (db db' : Db) (k : NoticeKind)
    → db'.state.revision ≡ db.state.revision + 1
    → db'.notices ≡ (k, db'.state.revision) ∷ db.notices
    → (db' ≡ db) ⊎ Advances db db'
advance db db' k r n = inr (record { revision = r; kind = k; announced = n })

module _ (uuid_text : String → Text) (a : Bool) (f : Faults) (now : ℕ) (db : Db) where
  abbrev Kept : {A : Type 0} → Db × Result A → Type 0
  Kept r = Atomic f db (outcome r)

  faults_Kept : {A : Type 0} → Faulty {A = A} f db (Kept {A = A})
  faults_Kept = record {
    refused = λ e. inl refl;
    unheard = λ db' a lost kept. unheard_call f db db' lost kept;
  }

  dispatch-Atomic : (c : Call) → Atomic f db (dispatch uuid_text c a f now db)
  unfolding dispatch
  dispatch-Atomic (delivers o) =
      delivery_cases uuid_text f now db Kept o
        (record {
          faulty = faults_Kept;
          ignored = inl refl;
          reset = λ _ _ _. advance db _ circuit_reset refl refl;
          opened_permanent = λ c r _ _ _ _ _. advance db _ circuit_opened refl refl;
          opened_transport = λ c r _ _ _ _ _. advance db _ circuit_opened refl refl;
          counted = λ c r _ _ _ _ _. advance db _ circuit_failure refl refl;
        })
        a
  dispatch-Atomic (claims s) =
      claim_cases f now db Kept
        (record { faulty = faults_Kept; claimed = λ _ _. advance db _ probe_claimed refl refl }) s a
  dispatch-Atomic (probes o) =
      probe_cases uuid_text f now db Kept o
        (record {
          faulty = faults_Kept;
          recovered = λ _ _ _. advance db _ circuit_recovered refl refl;
          postponed = λ _ _ _. advance db _ probe_failed refl refl;
        })
        a
  dispatch-Atomic (tests_version v e id n r c) =
      record_test_cases f now db Kept faults_Kept a v e id n r c
        λ c' _ _ _. advance db _ tested refl refl
  dispatch-Atomic (activates v e id) =
      activate_cases uuid_text f now db Kept faults_Kept a v e id
        λ _ _ _. advance db _ activated refl refl
  dispatch-Atomic (rolls_back v e) =
      rollback_cases uuid_text f now db Kept faults_Kept a v e
        λ id p _ _ _. advance db _ rolled_back refl refl
  dispatch-Atomic (disables v r e) =
      disable_cases f now db Kept faults_Kept a v r e
        λ _ _ _. advance db _ disabled_notice refl refl

-- A call that returns no error either changes nothing, or raises the revision by exactly one and adds
-- exactly one notification, which carries the new revision. A call that returns an error changes
-- nothing, unless the reply to its Commit is lost: then the error is that of the database, and it
-- may have made that one change. It holds whatever statement PostgreSQL refuses.
pub perform-Atomic :
    (uuid_text : String → Text) (e : Event) (db : Db) → Atomic e.faults db (perform uuid_text e db)
unfolding perform
perform-Atomic uuid_text e db = dispatch-Atomic uuid_text e.available e.faults e.now db e.call
