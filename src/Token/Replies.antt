-- ===== src/Token/Replies.antt =====
-- internal/auth/handler.go: what the token endpoint writes where it grants nothing.
use nyauth.Common.{ℕ, Option, none, some, String}
use nyauth.Token.Clients.{Authenticated}
use nyauth.Token.Exec.{Outcome, finished, failed}

-- AuditTokenGrantFailed and AuditRefreshTokenReuse.
pub data AuditEvent : Type 0 where
  grant_failed refresh_reuse : AuditEvent

-- A call of recordGrantAudit, whose grant type is the handler's and whose result is "failure".
pub record Audit : Type 0 where
  pub event : AuditEvent
  pub client_id : String
  pub risk : String
  pub reason : String

-- The call of recordGrantAudit, where there is one, the status and the error code.
pub record Refusal : Type 0 where
  pub audit : Option Audit
  pub status : ℕ
  pub error : String

abbrev pub refusal : (client_id risk reason : String) → ℕ → (error : String) → Refusal
refusal client_id risk reason status error = record {
  audit =
      some (record { event = grant_failed; client_id = client_id; risk = risk; reason = reason });
  status = status;
  error = error;
}

-- writeTokenError alone.
abbrev pub quiet : ℕ → String → Refusal
quiet status error = record { audit = none; status = status; error = error }

-- writeInvalidClient.
abbrev pub invalid_client : (client_id risk : String) → Refusal
invalid_client client_id risk = refusal client_id risk "invalid_client" 401 "invalid_client"

abbrev pub client_or : Refusal → Outcome Unit Authenticated → Outcome Refusal Authenticated
client_or e (finished who) = finished who
client_or e (failed u) = failed e
