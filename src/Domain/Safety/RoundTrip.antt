-- ===== src/Domain/Safety/RoundTrip.antt =====
-- A run that fails while it waits for a response, and is resumed.
use claude_code_codex_review.Prelude.{
  ◌≡◌, refl, sym, ap, ◌∙◌, true, false, elem, keep, [], arith, some, none, ◌==◌, option_eq,
}
use claude_code_codex_review.Domain.States.{State, state_eq, active_states}
use claude_code_codex_review.Domain.Errors.{ok}
use claude_code_codex_review.Domain.Events.Data.{Event, event_type}
use claude_code_codex_review.Domain.Values.Responses.{Awaiting, awaiting_eq}
use claude_code_codex_review.Domain.Values.Blocks.{Procedure}
use claude_code_codex_review.Domain.Values.Machine.{MachineState, make}
use claude_code_codex_review.Domain.Rules.Kinds.{procedure_kind_eq, pending_match_eq}
use claude_code_codex_review.Domain.Rules.Match.{matches}
use claude_code_codex_review.Domain.Rules.Guards.{derive_guard_key, procedure_kind, derive_pending}
use claude_code_codex_review.Domain.Rules.Tables.{awaiting_commands}
use claude_code_codex_review.Domain.Workflow.Effects.{returns}
use claude_code_codex_review.Domain.Recovery.Cancel.{rule_f_01}
use claude_code_codex_review.Domain.Recovery.Effects.{fail_to_recovery, resume_awaiting_failed}
use claude_code_codex_review.Domain.Recovery.Resume.{rule_r_a1, any_awaiting}
use claude_code_codex_review.Domain.Validity.{IsValid}
use claude_code_codex_review.Domain.Validity.Shape.{Checks-make, make-Checks, recovery_none}
use claude_code_codex_review.Domain.Machine.{registry, transition}
use claude_code_codex_review.Domain.Safety.Resume.{failing-Checks, resume_failed_at}
use claude_code_codex_review.Domain.Safety.Selection.{transition-fires}

-- The state in FAILED that remembers where the run was.
abbrev pub failed_from : MachineState → MachineState
failed_from ms = record ms { state = State.failed; recovery_to = some ms.state }

failing :
    (ms : MachineState)
    → ms.procedure ≡ Procedure.normal
    → elem ms.state active_states ≡ true
    → (ms.state == State.merging) ≡ false
    → transition ms Event.run_failed ≡ fail_to_recovery ms Event.run_failed
failing ms n a s =
    transition-fires 82 rule_f_01 ms Event.run_failed (unfold registry in refl)
      (unfold elem keep in ground arith)
      (unfold matches derive_guard_key procedure_kind elem keep event_type in ground arith)

resuming :
    (ms : MachineState) (a : Awaiting)
    → ms.procedure ≡ Procedure.normal
    → ms.awaiting ≡ some a
    → ms.pending_record ≡ none
    → transition (failed_from ms) Event.resume_validated
      ≡ resume_awaiting_failed (failed_from ms) Event.resume_validated
resuming ms a n w p =
    transition-fires 113 rule_r_a1 (failed_from ms) Event.resume_validated (unfold registry in refl)
      (unfold elem keep in refl)
      (unfold matches derive_guard_key derive_pending procedure_kind event_type in
        rw (n, w, p, awaited a) (unfold elem in refl))
  where
    awaited : (a : Awaiting) → elem (some a) any_awaiting ≡ true
    awaited Awaiting.codex_code_review = unfold elem in refl
    awaited _ = unfold elem in refl

-- A run that fails while it waits for a response in a working state (not in the merge, nothing to
-- persist, no procedure) stops in FAILED without a command, and resuming it brings back exactly the
-- state that it had, with the commands that ask for the same response again.
pub fail-resume :
    (ms : MachineState) (a : Awaiting)
    → IsValid ms
    → ms.procedure ≡ Procedure.normal
    → elem ms.state active_states ≡ true
    → (ms.state == State.merging) ≡ false
    → ms.awaiting ≡ some a
    → ms.pending_record ≡ none
    → (transition ms Event.run_failed ≡ ok (failed_from ms, []))
      × (transition (failed_from ms) Event.resume_validated ≡ ok (ms, awaiting_commands a))
unfolding fail_to_recovery
fail-resume ms a v n s m w p =
    let c = Checks-make ms v.made in
    (
      failing ms n s m ∙ rw (make-Checks (failed_from ms) (failing-Checks ms c n s m)) refl,
      resuming ms a n w p
          ∙ resume_failed_at (failed_from ms) Event.resume_validated ms.state a refl w
          ∙ ap (λ r. returns (make (record ms { recovery_to = r })) (awaiting_commands a))
              (sym (recovery_none ms c (unfold elem keep in ground arith)))
          ∙ rw v.made refl,
    )
