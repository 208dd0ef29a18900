-- ===== src/Domain/Workflow/Effects.antt =====
-- domain/_rules_workflow.py: the effects of the main workflow. `replace` checks the new state, so an
-- effect raises where that check does; a field that an event of another class lacks is an
-- AttributeError.
use claude_code_codex_review.Prelude.{Option, none, some, List, [], ◌∷◌, Bool, if◌then◌else◌}
use claude_code_codex_review.Domain.States.{State}
use claude_code_codex_review.Domain.Commands.{Command}
use claude_code_codex_review.Domain.Errors.{Error, Result, ok, err, ◌>>=◌}
use claude_code_codex_review.Domain.Events.Types.{EventType}
use claude_code_codex_review.Domain.Events.Data.{Event, verified_evidence}
use claude_code_codex_review.Domain.Values.Responses.{Awaiting}
use claude_code_codex_review.Domain.Values.Blocks.{
  BlockContext, BlockedContinuation, make_progress_block,
}
use claude_code_codex_review.Domain.Values.Machine.{MachineState, make}
use claude_code_codex_review.Domain.Rules.Match.{Outcome, Effect}
use claude_code_codex_review.Domain.Rules.Guards.{event_report}
use claude_code_codex_review.Domain.Rules.Tables.{
  drive_table, budget_events, cont_external_dependency,
}

-- `return replace(...), commands`.
abbrev pub returns : Result MachineState → List Command → Result Outcome
returns made commands = made >>= λ ms. ok (ms, commands)

-- A field of the value that is there; AttributeError on None.
abbrev pub field_of {ℓ} : {A : Type ℓ} → Option A → Result A
field_of none = err Error.attribute_error
field_of (some a) = ok a

-- A key of a table; KeyError where it is missing.
abbrev pub key_of {ℓ} : {A : Type ℓ} → Option A → Result A
key_of none = err Error.key_error
key_of (some a) = ok a

-- `ms.state if to is None else to`.
abbrev pub target : Option State → State → State
target none state = state
target (some to) state = to

unfoldable pub advance : Option State → Option Awaiting → List Command → Effect
advance to awaiting_after commands ms event =
    returns
      (make (record ms {
        state = target to ms.state;
        awaiting = awaiting_after;
        pending_record = none;
      }))
      commands

unfoldable pub produced_effect : Bool → Effect
produced_effect keep_awaiting ms (Event.record_produced kind binding) =
    returns
      (make (record ms {
        awaiting = if keep_awaiting then ms.awaiting else none;
        pending_record = some (record { kind = kind; binding = binding; source_state = ms.state });
      }))
      (Command.persist_record kind binding ∷ [])
produced_effect keep_awaiting ms _ = err Error.attribute_error

unfoldable pub progress_block_effect : EventType → BlockedContinuation → List Command → Effect
unfolding verified_evidence event_report budget_events make_progress_block
progress_block_effect event_type continuation entry_commands ms event = do
  budget ← key_of (budget_events event_type)
  evidence ← field_of (verified_evidence event)
  report ← field_of (event_report event)
  block ← make_progress_block (record {
    binding = evidence.binding;
    head = report.head;
    continuation = continuation;
    reason = report.progress;
    budget = budget;
    counter_snapshot = report.counter_snapshot;
    fingerprint = report.fingerprint;
  })
  returns
      (make (record ms {
        state = State.blocked;
        awaiting = none;
        pending_record = none;
        block = some (BlockContext.progress block);
      }))
      entry_commands

unfoldable pub permission_effect : State → Effect
permission_effect return_to ms event =
    returns
      (make (record ms {
        state = State.awaiting_tool_permission;
        awaiting = some Awaiting.user_input_permission;
        pending_record = none;
        return_to = some return_to;
      }))
      []

unfoldable pub permission_resume_effect : Effect
unfolding drive_table
permission_resume_effect ms event = do
  return_to ← key_of ms.return_to
  (commands, awaiting) ← key_of (drive_table return_to)
  returns (make (record ms { state = return_to; awaiting = some awaiting; return_to = none }))
      commands

unfoldable pub external_dependency_effect : Effect
external_dependency_effect ms (Event.external_dependency_verified evidence head) =
    returns
      (make (record ms {
        state = State.blocked;
        awaiting = none;
        pending_record = none;
        block = some (
            BlockContext.external_dependency (record {
              binding = evidence.binding;
              head = head;
              continuation = cont_external_dependency;
              evidence = evidence;
            }));
      }))
      []
external_dependency_effect ms _ = err Error.attribute_error
