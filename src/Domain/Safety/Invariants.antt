-- ===== src/Domain/Safety/Invariants.antt =====
-- domain/values.py: the states of a run.
use claude_code_codex_review.Prelude.{◌≡◌, ◌⊎◌, true, false, elem, [], arith, some, none, is_empty}
use claude_code_codex_review.Domain.States.{State, state_eq, terminal_states}
use claude_code_codex_review.Domain.Values.Kinds.{RecordKind, record_kind_eq}
use claude_code_codex_review.Domain.Values.Records.{PendingRecord}
use claude_code_codex_review.Domain.Values.Responses.{
  Awaiting, awaiting_eq, merge_outcome_awaitings,
}
use claude_code_codex_review.Domain.Values.Blocks.{Procedure}
use claude_code_codex_review.Domain.Values.Machine.{
  MachineState, bare, check_terminal_bare, check_deferred_scope, check_pending_home, check_pending,
  is_cancelling, is_recording, holds,
}
use claude_code_codex_review.Domain.Validity.Shape.{Checks, Checks-make}
use claude_code_codex_review.Domain.Safety.Violations.{InOrder, Checks-InOrder}
use claude_code_codex_review.Domain.Safety.Transition.{Reachable, Reachable-IsValid}

reached : (ms : MachineState) → Reachable ms → Checks ms
reached ms r = Checks-make ms (Reachable-IsValid ms r).made

bare-terminal :
    (ms : MachineState) → Checks ms → elem ms.state terminal_states ≡ true → ms ≡ bare ms.state
unfolding check_terminal_bare
bare-terminal ms c t =
    let h = c.terminal_bare in
    let p : ms.procedure ≡ Procedure.normal = ground arith in
    let a : ms.awaiting ≡ none = ground arith in
    let q : ms.pending_record ≡ none = ground arith in
    let d : ms.deferred_integrity ≡ [] = ground arith in
    let r : ms.return_to ≡ none = ground arith in
    let f : ms.recovery_to ≡ none = ground arith in
    let b : ms.block ≡ none = ground arith in
    λ i. record {
      state = ms.state;
      procedure = p i;
      awaiting = a i;
      pending_record = q i;
      deferred_integrity = d i;
      return_to = r i;
      recovery_to = f i;
      block = b i;
    }

-- A run that reaches MERGED or CANCELLED has left nothing open there: no procedure, no awaited
-- response, no record to persist, no deferred violation, no return or recovery target, no block.
pub Reachable-bare :
    (ms : MachineState) → Reachable ms → elem ms.state terminal_states ≡ true → ms ≡ bare ms.state
Reachable-bare ms r t = bare-terminal ms (reached ms r) t

-- In every state of a run, a violation that is deferred is deferred for a reason: a cancellation
-- or an incident record is under way, or a merge is and its outcome is awaited; and the deferred
-- violations are in strictly ascending order of their bindings.
pub Reachable-deferred :
    (ms : MachineState)
    → Reachable ms
    → is_empty ms.deferred_integrity ≡ false
    → InOrder ms.deferred_integrity
      × ((is_cancelling ms.procedure ≡ true)
          ⊎ ((is_recording ms.procedure ≡ true)
              ⊎ ((ms.procedure ≡ Procedure.normal)
                  × ((ms.state ≡ State.merging)
                      × (holds (λ a. elem a merge_outcome_awaitings) ms.awaiting ≡ true)))))
unfolding check_deferred_scope
Reachable-deferred ms r d =
    let c = reached ms r in let h = c.deferred_scope in (Checks-InOrder ms c, ground arith)

-- In every state of a run where a record waits to be persisted while a response is awaited, that
-- record is a user's cancel request.
pub Reachable-exclusive :
    (ms : MachineState) (p : PendingRecord) (a : Awaiting)
    → Reachable ms
    → ms.pending_record ≡ some p
    → ms.awaiting ≡ some a
    → p.kind ≡ RecordKind.user_cancel
unfolding check_pending_home check_pending
Reachable-exclusive ms p a r e w =
    let h = (reached ms r).pending_home in
    (record_kind_eq.beq_iff p.kind RecordKind.user_cancel).0 (ground arith)
