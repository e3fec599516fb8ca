-- ===== src/Mail/Cases.antt =====
-- circuit.go: the ways in which its three methods end, as rules for proving a property of what they
-- leave and return.
use nyauth.Common.{
  ℕ, ◌≤◌, ◌<◌, ◌≡◌, ◌≢◌, refl, Bool, true, false, not, ◌||◌, ◌∷◌, arith, leb, ◌==◌, String, leb→le,
  leb→gt, if_cases, if◌then◌else◌,
}
use nyauth.Common.Text.{Text, text_eq}
use nyauth.Mail.Outcome.{
  transport, recipient, validate_source, source_matches_state, normalize_delivery_outcome,
}
use nyauth.Mail.{
  Error, Result, ok, err, State, EffectiveSource, DeliveryOutcome, Transition, circuit_opened_event,
  circuit_reset, circuit_opened, circuit_failure, NoticeKind, AuditEvent, Db, Faults, settle,
  or_error, publish, is_open, enqueue, update, failed, database, Step,
}
use nyauth.Mail.Circuit.{
  source_target_id, unchanged, moved, reset_row, permanent_row, transport_open_row,
  transport_count_row, window_start, next_count, record_delivery_outcome, delivery_body,
  record_success, record_permanent, record_transport,
}

-- What a transaction that commits leaves: the row, and one notification of its revision.
abbrev pub written : Db → State → NoticeKind → Db
written db row kind = record db { state = row; notices = (kind, row.revision) ∷ db.notices }

abbrev pub audited : Db → State → NoticeKind → AuditEvent → Db
audited db row kind event = record db {
  state = row;
  outbox = event ∷ db.outbox;
  notices = (kind, row.revision) ∷ db.notices;
}

-- A property that holds where a call is refused, and where the reply to the Commit of one that did
-- something is lost.
pub record Faulty {A : Type 0} (f : Faults) (db : Db) (P : Db × Result A → Type 0) : Type 0 where
  pub refused : (e : Error) → P (db, err e)
  pub unheard : (db' : Db) (a : A) → f.commit_lost ≡ true → P (db', ok a) → P (db', err database)

module _ {A : Type 0} (f : Faults) (db : Db) (P : Db × Result A → Type 0)
    (faulty : Faulty f db P) where
  pub publish_cases :
      (kind : NoticeKind) (db' : Db) (a : A)
      → P (record db' { notices = (kind, db'.state.revision) ∷ db'.notices }, ok a)
      → P (settle db (publish f kind db' a))
  unfolding publish
  publish_cases kind db' a done =
      if_cases (λ s. P (settle db s)) f.notify (λ _. faulty.refused database)
        λ _.
          if_cases (λ s. P (settle db s)) f.commit (λ _. faulty.refused database)
            λ _.
              if_cases (λ s. P (settle db s)) f.commit_lost (λ lost. faulty.unheard _ a lost done)
                (λ _. done)

  pub update_cases :
      (row : State) (db' : Db) (rest : Db → Step A)
      → P (settle db (rest (record db' { state = row })))
      → P (settle db (update f row db' rest))
  update_cases row db' rest done =
      if_cases (λ s. P (settle db s)) f.update (λ _. faulty.refused database) (λ _. done)

  pub enqueue_cases :
      (event : AuditEvent) (db' : Db) (rest : Db → Step A)
      → P (settle db (rest (record db' { outbox = event ∷ db'.outbox })))
      → P (settle db (enqueue f event db' rest))
  enqueue_cases event db' rest done =
      if_cases (λ s. P (settle db s)) f.audit (λ _. faulty.refused database) (λ _. done)

  -- One UPDATE, then NOTIFY and COMMIT.
  pub write_cases :
      (row : State) (kind : NoticeKind) (a : A)
      → P (written db row kind, ok a)
      → P (settle db (update f row db λ db'. publish f kind db' a))
  write_cases row kind a done =
      update_cases row db (λ db'. publish f kind db' a)
        (publish_cases kind (record db { state = row }) a done)

  -- The same with an audit record, from what the transaction has written so far.
  pub audit_from :
      (db' : Db) (row : State) (event : AuditEvent) (kind : NoticeKind) (a : A)
      → P (audited db' row kind event, ok a)
      → P (settle db (update f row db' λ d. enqueue f event d λ d'. publish f kind d' a))
  audit_from db' row event kind a done =
      let written_row : Db = record db' { state = row } in
      let rest : Db → Step A = λ d. publish f kind d a in
      update_cases row db' (λ d. enqueue f event d rest)
        (enqueue_cases event written_row rest
          (publish_cases kind (record written_row { outbox = event ∷ db'.outbox }) a done))

  pub audit_cases :
      (row : State) (event : AuditEvent) (kind : NoticeKind) (a : A)
      → P (audited db row kind event, ok a)
      → P (settle db (update f row db λ db'. enqueue f event db' λ db''. publish f kind db'' a))
  audit_cases = audit_from db

  pub or_error_cases :
      {B : Type 0} (r : Result B) (rest : B → Db × Result A)
      → ((b : B) → r ≡ ok b → P (rest b))
      → P (or_error db r rest)
  or_error_cases (err e) rest k = faulty.refused e
  or_error_cases (ok b) rest k = k b refl

  -- An early error return, or the rest.
  pub stop_cases :
      (b : Bool) (e : Error) (rest : Step A)
      → (b ≡ false → P (settle db rest))
      → P (settle db (if b then failed e else rest))
  stop_cases b e rest k = if_cases (λ s. P (settle db s)) b (λ _. faulty.refused e) k

module _ (uuid_text : String → Text) (f : Faults) (now : ℕ) (db : Db)
    (P : Db × Result Transition → Type 0) (faulty : Faulty f db P) where
  success_cases :
      P (db, ok (unchanged db.state))
      → (db.state.failure_count ≢ 0
          → let row = reset_row now db.state in
            P (written db row circuit_reset, ok (moved row false)))
      → P (settle db (record_success uuid_text f now db))
  unfolding record_success
  success_cases idle reset =
      if_cases (λ s. P (settle db s)) (db.state.failure_count == 0) (λ _. idle)
        λ h. write_cases f db P faulty _ _ _ (reset (ground arith))

  permanent_cases :
      (source : EffectiveSource) (category reason : Text)
      → (let row = permanent_row now category reason db.state in
          let event = circuit_opened_event (source_target_id uuid_text source) category reason in
          P (audited db row circuit_opened event, ok (moved row true)))
      → P (settle db (record_permanent uuid_text f now db source category reason))
  unfolding record_permanent
  permanent_cases source category reason opened = audit_cases f db P faulty _ _ _ _ opened

  transport_cases :
      (source : EffectiveSource) (reason : Text)
      → (3 ≤ next_count db.state now
          → let row =
              transport_open_row now reason
                (window_start db.state.window_started now)
                (next_count db.state now)
                db.state in
            let event = circuit_opened_event (source_target_id uuid_text source) transport reason in
            P (audited db row circuit_opened event, ok (moved row true)))
      → (next_count db.state now < 3
          → let row =
              transport_count_row now
                (window_start db.state.window_started now)
                (next_count db.state now)
                db.state in
            P (written db row circuit_failure, ok (moved row false)))
      → P (settle db (record_transport uuid_text f now db source reason))
  unfolding record_transport
  transport_cases source reason opened counted =
      if_cases (λ s. P (settle db s)) (leb 3 (next_count db.state now))
        (λ h. audit_cases f db P faulty _ _ _ _ (opened (leb→le _ _ h)))
        λ h. write_cases f db P faulty _ _ _ (counted (leb→gt _ _ h))

-- The four ways in which RecordDeliveryOutcome writes, and what each requires; else it writes nothing.
pub record DeliveryCases (uuid_text : String → Text) (f : Faults) (now : ℕ) (db : Db)
    (o : DeliveryOutcome) (P : Db × Result Transition → Type 0) : Type 0 where
  pub faulty : Faulty f db P
  pub ignored : P (db, ok (unchanged db.state))
  pub reset :
      is_open db.state.circuit ≡ false
      → o.success ≡ true
      → db.state.failure_count ≢ 0
      → let row = reset_row now db.state in P (written db row circuit_reset, ok (moved row false))
  pub opened_permanent :
      (category reason : Text)
      → is_open db.state.circuit ≡ false
      → o.success ≡ false
      → normalize_delivery_outcome o ≡ ok (category, reason)
      → text_eq category recipient ≡ false
      → text_eq category transport ≡ false
      → let row = permanent_row now category reason db.state in
        let event = circuit_opened_event (source_target_id uuid_text o.source) category reason in
        P (audited db row circuit_opened event, ok (moved row true))
  pub opened_transport :
      (category reason : Text)
      → is_open db.state.circuit ≡ false
      → o.success ≡ false
      → normalize_delivery_outcome o ≡ ok (category, reason)
      → text_eq category transport ≡ true
      → 3 ≤ next_count db.state now
      → let row =
          transport_open_row now reason
            (window_start db.state.window_started now)
            (next_count db.state now)
            db.state in
        let event = circuit_opened_event (source_target_id uuid_text o.source) transport reason in
        P (audited db row circuit_opened event, ok (moved row true))
  pub counted :
      (category reason : Text)
      → is_open db.state.circuit ≡ false
      → o.success ≡ false
      → normalize_delivery_outcome o ≡ ok (category, reason)
      → text_eq category transport ≡ true
      → next_count db.state now < 3
      → let row =
          transport_count_row now
            (window_start db.state.window_started now)
            (next_count db.state now)
            db.state in
        P (written db row circuit_failure, ok (moved row false))

or_false : (a b : Bool) → (a || b) ≡ false → (a ≡ false) × (b ≡ false)
or_false a b h = ground arith

module _ (uuid_text : String → Text) (f : Faults) (now : ℕ) (db : Db)
    (P : Db × Result Transition → Type 0) (o : DeliveryOutcome)
    (k : DeliveryCases uuid_text f now db o P) where
  body_cases :
      (category reason : Text)
      → normalize_delivery_outcome o ≡ ok (category, reason)
      → P (settle db (delivery_body uuid_text f now db o category reason))
  unfolding delivery_body
  body_cases category reason e = stop_cases f db P k.faulty f.begin_tx database _ λ _.
      stop_cases f db P k.faulty f.lock_row database _ λ _.
        stop_cases f db P k.faulty (not (source_matches_state o.source db.state)) _ _ λ _.
          if_cases (λ s. P (settle db s)) (is_open db.state.circuit || text_eq category recipient)
            (λ _. k.ignored)
            λ h.
              let (closed, other) =
                or_false (is_open db.state.circuit) (text_eq category recipient) h in
              if_cases (λ s. P (settle db s)) o.success
                (λ s. success_cases uuid_text f now db P k.faulty k.ignored (k.reset closed s))
                λ s.
                  if_cases (λ s. P (settle db s)) (not (text_eq category transport))
                    (λ t.
                      permanent_cases uuid_text f now db P k.faulty o.source category reason
                        (k.opened_permanent category reason closed s e other (ground arith)))
                    λ t.
                      transport_cases uuid_text f now db P k.faulty o.source reason
                        (k.opened_transport category reason closed s e (ground arith))
                        (k.counted category reason closed s e (ground arith))

  pub delivery_cases :
      (available : Bool) → P (record_delivery_outcome uuid_text f now db available o)
  unfolding record_delivery_outcome
  delivery_cases available =
      if_cases P (not available) (λ _. k.faulty.refused _)
        λ _.
          if_cases P (not (validate_source o.source)) (λ _. k.faulty.refused _)
            λ _.
              or_error_cases f db P k.faulty (normalize_delivery_outcome o) _
                λ c e. body_cases c.0 c.1 e
