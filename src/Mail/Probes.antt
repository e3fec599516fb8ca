-- ===== src/Mail/Probes.antt =====
-- circuit.go and store.go: what the revision guards, who may probe, and what may be activated.
use nyauth.Common.{
  ℕ, ◌+◌, ◌≤◌, ◌<◌, ◌≡◌, ◌≢◌, ◌⊎◌, inl, inr, refl, Bool, true, false, List, [], ◌∷◌, Option, none,
  some, arith, String, ◌&&◌, ltb, str_eq, str_eq_iff, Bool-cases, sym, subst, if_cases,
}
use nyauth.Common.Text.{Text, text_eq, text_eq→eq}
use nyauth.Mail.{
  Error, Result, ok, err, State, EffectiveSource, ProbeOutcome, ProbeClaim, TestRecord, Db, Faults,
  circuit_probe_interval, candidate_test_validity, is_open,
}
use nyauth.Mail.Circuit.{claim_probe, record_probe_outcome}
use nyauth.Mail.Versions.{activate, later, newest_success, test_refusal, success}
use nyauth.Mail.Cases.{Faulty}
use nyauth.Mail.ProbeCases.{claim_cases, probe_cases}
use nyauth.Mail.VersionCases.{activate_cases}
use nyauth.Mail.Calls.{Event, perform, run}
use nyauth.Mail.Audit.{Atomic, perform-Atomic}

abbrev pub IsError {ℓ} : {A : Type ℓ} → Result A → Type 0
IsError (ok a) = ⊥
IsError (err e) = Unit

-- A call that is refused, and what it leaves.
abbrev pub Refused {ℓ} : {A : Type ℓ} → Db → Db × Result A → Type 0
Refused db (db', r) = (db' ≡ db) × IsError r

faulty_Refused : {A : Type 0} (f : Faults) (db : Db) → Faulty {A = A} f db (Refused db)
faulty_Refused f db = record {
  refused = λ e. (refl, tt);
  unheard = λ db' a lost kept. absurd kept.1;
}

Atomic-revision :
    (f : Faults) (db : Db) (r : Db × Option Error)
    → Atomic f db r
    → (r.0 ≡ db) ⊎ (db.state.revision < r.0.state.revision)
Atomic-revision f db (db', none) (inl same) = inl same
Atomic-revision f db (db', none) (inr a) = inr (omega (arith, a.revision))
Atomic-revision f db (db', some e) (inl same) = inl same
Atomic-revision f db (db', some e) (inr (lost, of_database, a)) = inr (omega (arith, a.revision))

-- Any sequence of calls leaves the database as it was, or at a greater revision.
pub run-revision :
    (uuid_text : String → Text) (es : List Event) (db : Db)
    → (run uuid_text es db ≡ db) ⊎ (db.state.revision < (run uuid_text es db).state.revision)
unfolding run
run-revision uuid_text [] db = inl refl
run-revision uuid_text (e ∷ es) db =
    let db' = (perform uuid_text e db).0 in
    elim (Atomic-revision e.faults db (perform uuid_text e db) (perform-Atomic uuid_text e db)) [
      | inl same ↦
          subst
            (λ d.
              (run uuid_text es d ≡ db) ⊎ (db.state.revision < (run uuid_text es d).state.revision))
            (sym same) (run-revision uuid_text es db)
      | inr more ↦ elim (run-revision uuid_text es db') [
        | inl same ↦ inr (rw same more)
        | inr further ↦ inr (omega arith)
      ]
    ]

module _ (uuid_text : String → Text) (f : Faults) (now : ℕ) (db : Db) (o : ProbeOutcome) where
  other_revision :
      (available : Bool)
      → db.state.revision ≢ o.expected_revision
      → Refused db (record_probe_outcome uuid_text f now db available o)
  other_revision available h =
      probe_cases uuid_text f now db (Refused db) o
        (record {
          faulty = faulty_Refused f db;
          recovered = λ _ _ r. absurd (h r);
          postponed = λ _ _ r. absurd (h r);
        })
        available

abbrev pub Claimed : ℕ → Db → Db × Result ProbeClaim → Type 0
Claimed now db (db', err e) = Unit
Claimed now db (db', ok c) =
    (c.expected_revision ≡ db'.state.revision)
    × (db'.state.next_probe_at ≡ some (now + circuit_probe_interval))
    × (is_open db'.state.circuit ≡ true)

pub claimed_lem :
    (f : Faults) (now : ℕ) (db : Db) (source : EffectiveSource) (available : Bool)
    → Claimed now db (claim_probe f now db available source)
claimed_lem f now db source available =
    claim_cases f now db (Claimed now db)
      (record {
        faulty = record { refused = λ e. tt; unheard = λ _ _ _ _. tt };
        claimed = λ opened _. (refl, refl, opened);
      })
      source available

-- A probe is claimed, and then other calls, any number of them by any instance, change the database in
-- some way. Then the outcome of that probe, recorded with the revision of the claim, is refused and
-- changes nothing.
pub stale_probe :
    (uuid_text : String → Text) (f : Faults) (now : ℕ) (db : Db) (source : EffectiveSource)
    (available : Bool) {db' : Db} {c : ProbeClaim} (es : List Event) (f' : Faults) (then_at : ℕ)
    (o : ProbeOutcome) (available' : Bool)
    → claim_probe f now db available source ≡ (db', ok c)
    → run uuid_text es db' ≢ db'
    → o.expected_revision ≡ c.expected_revision
    → let db'' = run uuid_text es db' in
      Refused db'' (record_probe_outcome uuid_text f' then_at db'' available' o)
stale_probe uuid_text f now db source available {db'} {c} es f' then_at o available' e moved_on at =
    let claim : Claimed now db (db', ok c) = rw e at (claimed_lem f now db source available) in
    elim (run-revision uuid_text es db') [
      | inl same ↦ absurd (moved_on same)
      | inr more ↦
          other_revision uuid_text f' then_at (run uuid_text es db') o available'
            λ r. omega (arith, r, at, claim.0)
    ]

module _ (f : Faults) (now : ℕ) (db : Db) (source : EffectiveSource) where
  pub not_yet :
      (available : Bool) (t : ℕ)
      → db.state.next_probe_at ≡ some t
      → now < t
      → Refused db (claim_probe f now db available source)
  not_yet available t n h =
      claim_cases f now db (Refused db)
        (record { faulty = faulty_Refused f db; claimed = λ _ due. absurd (ground arith) }) source
        available

-- One of the tests shows that the version works.
abbrev pub HasSuccess : String → ℕ → List TestRecord → Type 0
HasSuccess version at [] = ⊥
HasSuccess version at (t ∷ ts) =
    ((t.version ≡ version) × (t.result ≡ success) × (t.created_at ≡ at)) ⊎ HasSuccess version at ts

later_cases :
    (version : String) (t : TestRecord) (ts : List TestRecord) (at : ℕ) (rest : Option ℕ)
    → t.version ≡ version
    → t.result ≡ success
    → (rest ≡ some at → HasSuccess version at ts)
    → later t.created_at rest ≡ some at
    → HasSuccess version at (t ∷ ts)
later_cases version t ts at none v r ih h = inl (v, r, ground arith)
later_cases version t ts at (some b) v r ih h = elim (Bool-cases (ltb t.created_at b)) [
  | inl e ↦ inr (ih (rw e at h))
  | inr e ↦ let e' : some t.created_at ≡ some at = rw e at h in inl (v, r, ground arith)
]

newest_success-HasSuccess :
    (version : String) (ts : List TestRecord) (at : ℕ)
    → newest_success version ts ≡ some at
    → HasSuccess version at ts
unfolding newest_success
newest_success-HasSuccess version [] at = λ h. cc
newest_success-HasSuccess version (t ∷ ts) at =
    if_cases (λ r. r ≡ some at → HasSuccess version at (t ∷ ts))
      (str_eq t.version version && text_eq t.result success)
      (λ c.
        let (v, r) = both (str_eq t.version version) (text_eq t.result success) c in
        later_cases version t ts at (newest_success version ts) ((str_eq_iff t.version version).0 v)
          (text_eq→eq t.result success r) (newest_success-HasSuccess version ts at))
      (λ _ h. inr (newest_success-HasSuccess version ts at h))
  where
    both : (a b : Bool) → (a && b) ≡ true → (a ≡ true) × (b ≡ true)
    both a b h = ground arith

-- The activated version was the candidate, and a test of it succeeded at `at`, at most ten minutes
-- before `now` and not after it.
abbrev pub Activated : ℕ → String → Db → Db → Type 0
Activated now version db db' =
    (db.state.candidate_version ≡ some version)
    × (db'.state.active_version ≡ some version)
    × (db'.state.candidate_version ≡ none)
    × (is_open db'.state.circuit ≡ false)
    × ((at : ℕ) × HasSuccess version at db.tests
        × (at ≤ now)
        × (now ≤ at + candidate_test_validity))

abbrev pub ActivatedAfterTest : Faults → ℕ → String → Db → Db × Result State → Type 0
ActivatedAfterTest f now version db (db', err e) =
    (db' ≡ db) ⊎ ((f.commit_lost ≡ true) × Activated now version db db')
ActivatedAfterTest f now version db (db', ok s) = Activated now version db db'

test_refusal-none :
    (now : ℕ) (tested : Option ℕ)
    → test_refusal now tested ≡ none
    → (at : ℕ) × (tested ≡ some at) × (at ≤ now) × (now ≤ at + candidate_test_validity)
test_refusal-none now none h = absurd (cc)
test_refusal-none now (some t) h = (t, refl, ground arith, ground arith)

-- Activate either returns an error and changes nothing, or the reply to its Commit is lost or it returns
-- no error, and then the version given was the candidate, a test
-- of it succeeded within the last ten minutes, and it becomes the active version, with no candidate and
-- a closed circuit.
pub activate-ActivatedAfterTest :
    (uuid_text : String → Text) (f : Faults) (now : ℕ) (db : Db) (available audit_valid : Bool)
    (expected : ℕ) (version : String)
    → ActivatedAfterTest f now version db
        (activate uuid_text f now db available audit_valid expected version)
activate-ActivatedAfterTest uuid_text f now db available audit_valid expected version =
    activate_cases uuid_text f now db (ActivatedAfterTest f now version db)
      (record { refused = λ e. inl refl; unheard = λ db' a lost done. inr (lost, done) }) available
      audit_valid expected version
      λ _ candidate allowed.
        let (at, newest, past, recent) =
          test_refusal-none now (newest_success version db.tests) allowed in
        (
          candidate,
          refl,
          refl,
          refl,
          (at, newest_success-HasSuccess version db.tests at newest, past, recent),
        )
