-- ===== src/Mail/Outcome.antt =====
-- circuit.go and store.go: which outcomes and sources are accepted.
use nyauth.Common.{
  ℕ, ◌≡◌, Bool, true, false, not, ◌&&◌, ◌||◌, [], ◌∷◌, Option, none, some, arith, ltb, leb, ◌==◌,
  if◌then◌else◌, String, subst,
}
use nyauth.Common.Text.{Text, codes, text_eq, is_empty, len, trim_space, to_lower}
use nyauth.Mail.{
  Mode, fallback, active, disabled, invalid_outcome, Result, ok, err, State, EffectiveSource,
  DeliveryOutcome, ProbeOutcome, version_eq,
}

abbrev pub configuration : Text
configuration = codes "configuration"

abbrev pub authentication : Text
authentication = codes "authentication"

abbrev pub tls : Text
tls = codes "tls"

abbrev pub transport : Text
transport = codes "transport"

abbrev pub recipient : Text
recipient = codes "recipient"

abbrev pub unknown : Text
unknown = codes "unknown"

-- validErrorCategory.
unfoldable pub valid_error_category : Text → Bool → Bool
valid_error_category value allow_recipient_and_unknown =
    if text_eq value configuration
      || (text_eq value authentication || (text_eq value tls || text_eq value transport))
    then true
    else if text_eq value recipient || text_eq value unknown
    then allow_recipient_and_unknown
    else false

unfoldable pub is_reason_rune : ℕ → Bool
is_reason_rune c =
    (leb b'a' c && leb c b'z')
    || ((leb b'0' c && leb c b'9') || (c == b'.' || (c == b'_' || c == b'-')))

unfoldable pub all_reason_runes : Text → Bool
unfolding is_reason_rune
all_reason_runes [] = true
all_reason_runes (c ∷ s) = is_reason_rune c && all_reason_runes s

-- validReason.
unfoldable pub valid_reason : Text → Bool
unfolding all_reason_runes len
valid_reason value = if is_empty value || ltb 64 (len value) then false else all_reason_runes value

-- validateSource; `true` is a nil error.
source_check : Mode → Option String → Bool
source_check fallback none = true
source_check fallback (some v) = false
source_check active (some v) = true
source_check active none = false
source_check disabled v = false

unfoldable pub validate_source : EffectiveSource → Bool
unfolding source_check
validate_source s = source_check s.mode s.version

-- sourceMatchesState.
source_matches : Mode → Mode → Option String → Option String → Bool
source_matches fallback fallback v none = true
source_matches fallback fallback v (some a) = false
source_matches active active v a = version_eq v a
source_matches disabled disabled v a = version_eq v a
source_matches m n v a = false

unfoldable pub source_matches_state : EffectiveSource → State → Bool
unfolding source_matches
source_matches_state s st = source_matches s.mode st.mode s.version st.active_version

abbrev accept_failure : Bool → Bool → Text → Text → Result (Text × Text)
accept_failure accepted valid c r =
    if not accepted
    then err invalid_outcome
    else if not valid
    then err invalid_outcome
    else ok (c, r)

accept_failure-ok :
    (a v : Bool) (c' r' : Text) {c r : Text}
    → accept_failure a v c' r' ≡ ok (c, r)
    → (a ≡ true) × (v ≡ true) × (c' ≡ c) × (r' ≡ r)
accept_failure-ok a v c' r' h = ground arith

-- The part that normalizeDeliveryOutcome and normalizeProbeOutcome share: `accepts` is what each asks
-- of the category.
unfoldable pub normalize_outcome : (Text → Bool) → Bool → Text → Text → Result (Text × Text)
unfolding trim_space to_lower valid_reason
normalize_outcome accepts success category reason =
    let c = to_lower (trim_space category) in
    let r = to_lower (trim_space reason) in
    if success
    then if not (is_empty (trim_space category)) || not (is_empty (trim_space reason))
      then err invalid_outcome
      else ok ([], [])
    else accept_failure (accepts c) (valid_reason r) c r

-- `!validErrorCategory(category, true) || category == ErrorCategoryUnknown`, negated.
unfoldable pub delivery_category : Text → Bool
unfolding valid_error_category
delivery_category c = valid_error_category c true && not (text_eq c unknown)

unfoldable pub probe_category : Text → Bool
unfolding valid_error_category
probe_category c = valid_error_category c false

-- normalizeDeliveryOutcome.
unfoldable pub normalize_delivery_outcome : DeliveryOutcome → Result (Text × Text)
unfolding normalize_outcome delivery_category
normalize_delivery_outcome o = normalize_outcome delivery_category o.success o.category o.reason

-- normalizeProbeOutcome.
unfoldable pub normalize_probe_outcome : ProbeOutcome → Result (Text × Text)
unfolding normalize_outcome probe_category
normalize_probe_outcome o = normalize_outcome probe_category o.success o.category o.reason

-- An accepted failure has a category that the caller accepts and a machine-readable reason.
normalize_outcome_failure :
    (accepts : Text → Bool) (category reason : Text) {c r : Text}
    → normalize_outcome accepts false category reason ≡ ok (c, r)
    → (accepts c ≡ true) × (valid_reason r ≡ true)
unfolding normalize_outcome
normalize_outcome_failure accepts category reason h =
    let c' = to_lower (trim_space category) in
    let r' = to_lower (trim_space reason) in
    let (a, v, same_c, same_r) = accept_failure-ok (accepts c') (valid_reason r') c' r' h in
    (subst (λ x. accepts x ≡ true) same_c a, subst (λ x. valid_reason x ≡ true) same_r v)

pub normalize_delivery_outcome_failure :
    (o : DeliveryOutcome) {c r : Text}
    → o.success ≡ false
    → normalize_delivery_outcome o ≡ ok (c, r)
    → (delivery_category c ≡ true) × (valid_reason r ≡ true)
unfolding normalize_delivery_outcome
normalize_delivery_outcome_failure o {c} {r} failure h =
    normalize_outcome_failure delivery_category o.category o.reason
      (subst (λ b. normalize_outcome delivery_category b o.category o.reason ≡ ok (c, r)) failure h)
