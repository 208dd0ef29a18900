-- ===== src/Domain/Validity/Shape.antt =====
-- What the checks of a state say of its fields, and the states without any but an awaited response.
use claude_code_codex_review.Prelude.{
  Option, none, some, [], ◌∷◌, Bool, true, false, ◌&&◌, not, ◌==◌, ◌≡◌, refl, sym, arith, elem,
  list_eq,
}
use claude_code_codex_review.Prelude.Sort.Canonical.{canonicalize-fixed}
use claude_code_codex_review.Domain.States.{State, state_eq, terminal_states}
use claude_code_codex_review.Domain.Errors.{Result, ok, err, ◌>>◌}
use claude_code_codex_review.Domain.Values.Responses.{Awaiting, awaiting_eq, awaiting_home}
use claude_code_codex_review.Domain.Values.Blocks.{Procedure, binding_text}
use claude_code_codex_review.Domain.Values.Integrity.{canonicalize_integrity, evidence_eq}
use claude_code_codex_review.Domain.Values.Machine.{
  MachineState, bare, make, check_canonical_deferred, check_terminal_bare, check_block_scope,
  check_recovery_scope, check_return_scope, check_procedure_shape, check_deferred_scope,
  check_pending_home, check_awaiting_home,
}

-- The nine checks, each passed.
pub record Checks (ms : MachineState) : Type 0 where
  pub canonical_deferred : check_canonical_deferred ms ≡ ok tt
  pub terminal_bare : check_terminal_bare ms ≡ ok tt
  pub block_scope : check_block_scope ms ≡ ok tt
  pub recovery_scope : check_recovery_scope ms ≡ ok tt
  pub return_scope : check_return_scope ms ≡ ok tt
  pub procedure_shape : check_procedure_shape ms ≡ ok tt
  pub deferred_scope : check_deferred_scope ms ≡ ok tt
  pub pending_home : check_pending_home ms ≡ ok tt
  pub awaiting_home : check_awaiting_home ms ≡ ok tt

pub make-Checks : (ms : MachineState) → Checks ms → make ms ≡ ok ms
unfolding make
make-Checks ms c = rw (
  c.canonical_deferred, c.terminal_bare, c.block_scope, c.recovery_scope, c.return_scope,
  c.procedure_shape, c.deferred_scope, c.pending_home, c.awaiting_home,
)

pub passed :
    {A : Type 0} (m : Result (Unit {0})) (rest : Result A) {a : A}
    → (m >> rest) ≡ ok a
    → (m ≡ ok tt) × (rest ≡ ok a)
passed (ok tt) rest h = (refl, h)
passed (err e) rest h = cc

pub Checks-make : (ms : MachineState) {after : MachineState} → make ms ≡ ok after → Checks ms
unfolding make
Checks-make ms h =
    let a = passed _ _ h in
    let b = passed _ _ a.1 in
    let c = passed _ _ b.1 in
    let d = passed _ _ c.1 in
    let e = passed _ _ d.1 in
    let f = passed _ _ e.1 in
    let g = passed _ _ f.1 in
    let i = passed _ _ g.1 in
    let j = passed _ _ i.1 in
    record {
      canonical_deferred = a.0;
      terminal_bare = b.0;
      block_scope = c.0;
      recovery_scope = d.0;
      return_scope = e.0;
      procedure_shape = f.0;
      deferred_scope = g.0;
      pending_home = i.0;
      awaiting_home = j.0;
    }

pub block_none :
    (ms : MachineState) → Checks ms → (ms.state == State.blocked) ≡ false → ms.block ≡ none
unfolding check_block_scope
block_none ms c h = let p = c.block_scope in ground arith

pub return_none :
    (ms : MachineState)
    → Checks ms
    → (ms.state == State.awaiting_tool_permission) ≡ false
    → ms.return_to ≡ none
unfolding check_return_scope
return_none ms c h = let p = c.return_scope in ground arith

pub recovery_none :
    (ms : MachineState) → Checks ms → (ms.state == State.failed) ≡ false → ms.recovery_to ≡ none
unfolding check_recovery_scope
recovery_none ms c h = let p = c.recovery_scope in ground arith

pub deferred_none :
    (ms : MachineState)
    → Checks ms
    → ms.procedure ≡ Procedure.normal
    → (ms.state == State.merging) ≡ false
    → ms.deferred_integrity ≡ []
unfolding check_deferred_scope
deferred_none ms c n h = let p = c.deferred_scope in ground arith

pub blocked-awaiting :
    (ms : MachineState) → Checks ms → ms.state ≡ State.blocked → ms.awaiting ≡ none
unfolding check_block_scope
blocked-awaiting ms c h = let p = c.block_scope in ground arith

-- A state of the normal workflow: no block, no recovery, no permission, no merge under way.
abbrev pub plain : State → Bool
plain s =
    not
      (elem s (State.merging ∷ State.blocked ∷ State.failed ∷ State.awaiting_tool_permission ∷ []))

abbrev pub waits : State → Option Awaiting → MachineState
waits s a = record (bare s) { awaiting = a }

-- The state can stand with this response awaited and nothing else.
abbrev pub fits : State → Option Awaiting → Bool
fits s none = not (elem s (State.blocked ∷ State.awaiting_tool_permission ∷ []))
fits s (some a) =
    elem s (awaiting_home a)
    && not
        (elem s (State.blocked ∷ State.awaiting_tool_permission ∷ State.failed ∷ terminal_states))

-- A sequence of violations in canonical form passes the first check.
pub canonical-ok :
    (ms : MachineState)
    → canonicalize_integrity ms.deferred_integrity ≡ ms.deferred_integrity
    → check_canonical_deferred ms ≡ ok tt
unfolding check_canonical_deferred
canonical-ok ms h = rw (
    (list_eq.beq_iff ms.deferred_integrity (canonicalize_integrity ms.deferred_integrity)).1
      (sym h))

pub canonicalize-nil : canonicalize_integrity [] ≡ []
unfolding canonicalize_integrity
canonicalize-nil = canonicalize-fixed binding_text [] tt

pub waits-Checks : (s : State) (a : Option Awaiting) → fits s a ≡ true → Checks (waits s a)
unfolding check_terminal_bare check_block_scope check_recovery_scope check_return_scope
    check_procedure_shape check_deferred_scope check_pending_home check_awaiting_home elem
waits-Checks s none h = record {
  canonical_deferred = canonical-ok (waits s none) canonicalize-nil;
  terminal_bare = ground arith;
  block_scope = ground arith;
  recovery_scope = refl;
  return_scope = ground arith;
  procedure_shape = refl;
  deferred_scope = refl;
  pending_home = refl;
  awaiting_home = refl;
}
waits-Checks s (some a) h = record {
  canonical_deferred = canonical-ok (waits s (some a)) canonicalize-nil;
  terminal_bare = ground arith;
  block_scope = ground arith;
  recovery_scope = refl;
  return_scope = ground arith;
  procedure_shape = refl;
  deferred_scope = refl;
  pending_home = refl;
  awaiting_home = ground arith;
}
