-- ===== src/Mail/Constraints.antt =====
-- The CHECK constraints of `mail_runtime_state` (migrations/000001_baseline.up.sql) on the rows that
-- circuit.go and store.go write. A comparison with NULL passes a CHECK, as in PostgreSQL.
use nyauth.Common.{
  ℕ, ◌+◌, ◌≤◌, ◌<◌, ◌≡◌, ◌||◌, ◌≢◌, ◌⊎◌, Bool, true, false, not, ◌&&◌, ◌==◌, [], ◌∷◌, Option, none,
  some, arith, String, if◌then◌else◌,
}
use nyauth.Common.Text.{Text, text_eq}
use nyauth.Mail.Outcome.{
  configuration, authentication, tls, transport, delivery_category, valid_reason, is_reason_rune,
  all_reason_runes, recipient, unknown,
}
use nyauth.Mail.{
  Mode, fallback, active, disabled, CircuitState, circuit_closed, circuit_open, State,
  circuit_probe_interval, is_open,
}
use nyauth.Mail.Circuit.{
  reset_row, permanent_row, transport_open_row, transport_count_row, window_start, probe_row,
  recovered_row, not_due,
}
use nyauth.Mail.Versions.{tested_row, activated_row, rolled_back_row, disabled_row}

-- mode_consistent.
abbrev pub ModeConsistent : Mode → Option String → Option String → Type 0
ModeConsistent fallback a p = (a ≡ none) × (p ≡ none)
ModeConsistent active a p = a ≢ none
ModeConsistent disabled a p = a ≡ none

abbrev pub Apart : Option String → Option String → Type 0
Apart (some a) (some b) = a ≢ b
Apart (some a) none = Unit
Apart none b = Unit

-- The times of an open circuit: next_probe_at > circuit_opened_at.
abbrev pub ProbesLater : Option ℕ → Option ℕ → Type 0
ProbesLater (some opened) (some probe) = opened < probe
ProbesLater (some opened) none = ⊥
ProbesLater none p = ⊥

-- The categories that open the circuit at once.
abbrev pub is_permanent : Text → Bool
is_permanent c = text_eq c configuration || (text_eq c authentication || text_eq c tls)

-- circuit_consistent's list of categories, open_transport_consistent and open_permanent_consistent.
abbrev pub Counted : Option Text → ℕ → Option ℕ → Type 0
Counted none n w = Unit
Counted (some c) n w =
    ((c ≡ transport) × (3 ≤ n)) ⊎ ((is_permanent c ≡ true) × (n ≡ 0) × (w ≡ none))

-- btrim(r) <> ''.
unfoldable pub is_nonblank : Text → Bool
is_nonblank [] = false
is_nonblank (c ∷ s) = not (c == 32) || is_nonblank s

abbrev pub Reasoned : Option Text → Type 0
Reasoned none = Unit
Reasoned (some r) = is_nonblank r ≡ true

-- circuit_consistent, open_transport_consistent and open_permanent_consistent.
abbrev pub CircuitConsistent : CircuitState → State → Type 0
CircuitConsistent circuit_closed s =
    (s.open_reason ≡ none)
    × (s.open_category ≡ none)
    × (s.opened_at ≡ none)
    × (s.next_probe_at ≡ none)
CircuitConsistent circuit_open s =
    Reasoned s.open_reason
    × Counted s.open_category s.failure_count s.window_started
    × ProbesLater s.opened_at s.next_probe_at

pub record IsConsistent (s : State) : Type 0 where
  pub modes : ModeConsistent s.mode s.active_version s.previous_version
  pub candidate_active : Apart s.candidate_version s.active_version
  pub candidate_previous : Apart s.candidate_version s.previous_version
  pub active_previous : Apart s.active_version s.previous_version
  pub window_empty : s.window_started ≡ none → s.failure_count ≡ 0
  pub window_used : s.window_started ≢ none → 0 < s.failure_count
  pub circuit_fields : CircuitConsistent s.circuit s

-- A machine-readable reason has a character that is no space.
pub valid_reason-is_nonblank : (r : Text) → valid_reason r ≡ true → is_nonblank r ≡ true
unfolding valid_reason all_reason_runes is_reason_rune is_nonblank
valid_reason-is_nonblank [] h = absurd (cc)
valid_reason-is_nonblank (c ∷ s) h = nonblank c (is_nonblank s) (first_rune h)
  where
    nonblank : (c : ℕ) (rest : Bool) → is_reason_rune c ≡ true → (not (c == 32) || rest) ≡ true
    nonblank c rest k = ground arith

    first_rune : valid_reason (c ∷ s) ≡ true → is_reason_rune c ≡ true
    first_rune k = ground arith

pub reset_row-IsConsistent :
    (now : ℕ) (s : State)
    → is_open s.circuit ≡ false
    → IsConsistent s
    → IsConsistent (reset_row now s)
reset_row-IsConsistent now s c v = ground arith

pub permanent_row-IsConsistent :
    (now : ℕ) (category reason : Text) (s : State)
    → is_permanent category ≡ true
    → is_nonblank reason ≡ true
    → IsConsistent s
    → IsConsistent (permanent_row now category reason s)
permanent_row-IsConsistent now category reason s c r v = ground arith

window_start-some : (w : Option ℕ) (now : ℕ) → some (window_start w now) ≢ none
window_start-some w now e = ground arith

pub transport_open_row-IsConsistent :
    (now : ℕ) (reason : Text) (started count : ℕ) (s : State)
    → is_nonblank reason ≡ true
    → 3 ≤ count
    → IsConsistent s
    → IsConsistent (transport_open_row now reason started count s)
transport_open_row-IsConsistent now reason started count s r c v = ground arith

pub transport_count_row-IsConsistent :
    (now started count : ℕ) (s : State)
    → is_open s.circuit ≡ false
    → 0 < count
    → IsConsistent s
    → IsConsistent (transport_count_row now started count s)
transport_count_row-IsConsistent now started count s c p v = ground arith

pub recovered_row-IsConsistent :
    (now : ℕ) (s : State) → IsConsistent s → IsConsistent (recovered_row now s)
recovered_row-IsConsistent now s v = ground arith

-- The clock of the caller is not so far behind that the next probe would precede the opening.
abbrev pub ClockAhead : ℕ → Option ℕ → Type 0
ClockAhead now none = Unit
ClockAhead now (some opened) = opened < now + circuit_probe_interval

pub probe_row-IsConsistent :
    (now : ℕ) (s : State)
    → is_open s.circuit ≡ true
    → ClockAhead now s.opened_at
    → IsConsistent s
    → IsConsistent (probe_row now s)
probe_row-IsConsistent now s c a v = ground arith

pub due-ClockAhead :
    (now : ℕ) (s : State)
    → is_open s.circuit ≡ true
    → not_due s.next_probe_at now ≡ false
    → IsConsistent s
    → ClockAhead now s.opened_at
due-ClockAhead now s c d v = ground arith

permanent_of :
    (a b c t r u : Bool)
    → ((if a || (b || (c || t)) then true else if r || u then true else false) && not u) ≡ true
    → r ≡ false
    → t ≡ false
    → (a || (b || c)) ≡ true
permanent_of a b c t r u h p q = ground arith

pub delivery_category_permanent :
    (c : Text)
    → delivery_category c ≡ true
    → text_eq c recipient ≡ false
    → text_eq c transport ≡ false
    → is_permanent c ≡ true
unfolding delivery_category
delivery_category_permanent c d r t =
    permanent_of (text_eq c configuration) (text_eq c authentication) (text_eq c tls)
      (text_eq c transport) (text_eq c recipient) (text_eq c unknown) d r t

pub tested_row-IsConsistent :
    (now : ℕ) (s : State) → IsConsistent s → IsConsistent (tested_row now s)
tested_row-IsConsistent now s v = ground arith

pub activated_row-IsConsistent :
    (now : ℕ) (version : String) (s : State)
    → s.candidate_version ≡ some version
    → IsConsistent s
    → IsConsistent (activated_row now version s)
activated_row-IsConsistent now version s c v = ground arith

pub rolled_back_row-IsConsistent :
    (now : ℕ) (version : String) (previous : Option String) (s : State)
    → s.previous_version ≡ some version
    → ((s.mode ≡ active) × (s.active_version ≡ previous) × (previous ≢ none))
      ⊎ ((s.mode ≡ disabled) × (previous ≡ none))
    → IsConsistent s
    → IsConsistent (rolled_back_row now version previous s)
rolled_back_row-IsConsistent now version previous s p m v = ground arith

pub disabled_row-IsConsistent :
    (now : ℕ) (s : State) → IsConsistent s → IsConsistent (disabled_row now s)
disabled_row-IsConsistent now s v = ground arith
