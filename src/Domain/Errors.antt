-- ===== src/Domain/Errors.antt =====
-- The errors of the domain: the classes of domain/values.py and domain/events.py, and the two
-- built-in ones that a lookup or a field access could raise.
use claude_code_codex_review.Prelude.{Bool, if◌then◌else◌}
use claude_code_codex_review.Domain.States.{State}
use claude_code_codex_review.Domain.Events.Types.{EventType}
use claude_code_codex_review.Domain.Values.Codes.{IllegalStateCode, IllegalEventCode}

pub data Error : Type 0 where
  illegal_machine_state : IllegalStateCode → Error
  illegal_event : IllegalEventCode → Error
  transition_rejected : State → EventType → Error
  registry_integrity : Error
  key_error : Error
  attribute_error : Error

pub data Result {ℓ} (A : Type ℓ) : Type ℓ where
  err : Error → Result A
  ok : A → Result A

-- A call that raises ends the calls after it.
infixl 5 ◌>>=◌
abbrev pub ◌>>=◌ {ℓ κ} : {A : Type ℓ} {B : Type κ} → Result A → (A → Result B) → Result B
err raised >>= next = err raised
ok answer >>= next = next answer

-- `if bad: raise IllegalMachineStateError(code, ...)`.
abbrev pub raise_if : Bool → IllegalStateCode → Result (Unit {0})
raise_if bad code = if bad then err (Error.illegal_machine_state code) else ok tt

-- `raise IllegalEventError(code, ...)` when the test holds.
abbrev pub refuse_if : Bool → IllegalEventCode → Result (Unit {0})
refuse_if bad code = if bad then err (Error.illegal_event code) else ok tt

-- A check before the rest of a call.
infixl 5 ◌>>◌
abbrev pub ◌>>◌ {ℓ} : {B : Type ℓ} → Result (Unit {0}) → Result B → Result B
check >> rest = check >>= λ _. rest
