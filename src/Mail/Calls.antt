-- ===== src/Mail/Calls.antt =====
-- The transactions of the mail runtime as one step function: what an instance may call next.
use nyauth.Common.{ℕ, Bool, List, [], ◌∷◌, Option, none, some, String}
use nyauth.Common.Text.{Text}
use nyauth.Mail.{Error, Result, ok, err, EffectiveSource, DeliveryOutcome, ProbeOutcome, Db, Faults}
use nyauth.Mail.Circuit.{record_delivery_outcome, claim_probe, record_probe_outcome}
use nyauth.Mail.Versions.{record_test, activate, rollback, disable}

pub data Call : Type 0 where
  delivers : DeliveryOutcome → Call
  claims : EffectiveSource → Call
  probes : ProbeOutcome → Call
  tests_version :
      (audit_valid : Bool) (expected : ℕ) (version : String) (hash_length : ℕ) (result : Text)
      → Option Text
      → Call
  activates : (audit_valid : Bool) (expected : ℕ) → String → Call
  rolls_back : (audit_valid : Bool) → ℕ → Call
  disables : (audit_valid : Bool) → Option Bool → ℕ → Call

-- A call with the clock of the instance that makes it and the faults that its transaction meets.
pub record Event : Type 0 where
  pub available : Bool
  pub faults : Faults
  pub now : ℕ
  pub call : Call

-- What a call leaves, and the error that it returns.
abbrev pub outcome : {A : Type 0} → Db × Result A → Db × Option Error
outcome (db, ok a) = (db, none)
outcome (db, err e) = (db, some e)

module _ (uuid_text : String → Text) where
  unfoldable pub dispatch : Call → Bool → Faults → ℕ → Db → Db × Option Error
  dispatch (delivers o) a f now db = outcome (record_delivery_outcome uuid_text f now db a o)
  dispatch (claims s) a f now db = outcome (claim_probe f now db a s)
  dispatch (probes o) a f now db = outcome (record_probe_outcome uuid_text f now db a o)
  dispatch (tests_version v e id n r c) a f now db = outcome (record_test f now db a v e id n r c)
  dispatch (activates v e id) a f now db = outcome (activate uuid_text f now db a v e id)
  dispatch (rolls_back v e) a f now db = outcome (rollback uuid_text f now db a v e)
  dispatch (disables v r e) a f now db = outcome (disable f now db a v r e)

  unfoldable pub perform : Event → Db → Db × Option Error
  unfolding dispatch
  perform e db = dispatch e.call e.available e.faults e.now db

  unfoldable pub run : List Event → Db → Db
  unfolding perform
  run [] db = db
  run (e ∷ es) db = run es (perform e db).0
