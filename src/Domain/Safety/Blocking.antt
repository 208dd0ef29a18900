-- ===== src/Domain/Safety/Blocking.antt =====
-- The rules of the main workflow that stop in BLOCKED or wait for a permission, and the way back.
use claude_code_codex_review.Prelude.{
  Option, none, some, List, [], ◌∷◌, true, false, ◌==◌, ◌≡◌, ◌⊎◌, refl, ap, arith, elem, elem-all,
  elem-singleton, all, inl, inr, subst,
}
use claude_code_codex_review.Domain.States.{State, state_eq}
use claude_code_codex_review.Domain.Commands.{Command}
use claude_code_codex_review.Domain.Errors.{ok}
use claude_code_codex_review.Domain.Events.Types.{EventType}
use claude_code_codex_review.Domain.Events.Data.{Event, verified_evidence}
use claude_code_codex_review.Domain.Values.Kinds.{Progress, Budget, progress_eq}
use claude_code_codex_review.Domain.Values.Responses.{Awaiting, awaiting_eq}
use claude_code_codex_review.Domain.Values.Records.{RecordEvidence, ProgressReport}
use claude_code_codex_review.Domain.Values.Blocks.{
  BlockContext, BlockedContinuation, ProgressBlock, Procedure, make_progress_block,
}
use claude_code_codex_review.Domain.Values.Machine.{
  MachineState, bare, make, check_terminal_bare, check_block_scope, check_recovery_scope,
  check_return_scope, check_procedure_shape, check_deferred_scope, check_pending_home,
  check_awaiting_home,
}
use claude_code_codex_review.Domain.Rules.Kinds.{ProcedureKind, PendingMatch}
use claude_code_codex_review.Domain.Rules.Match.{Match, allows_some}
use claude_code_codex_review.Domain.Rules.Guards.{derive_guard_key, event_report, report_progress}
use claude_code_codex_review.Domain.Rules.Tables.{blocked_continuations, budget_events}
use claude_code_codex_review.Domain.Workflow.Effects.{
  returns, progress_block_effect, permission_effect, permission_resume_effect,
  external_dependency_effect,
}
use claude_code_codex_review.Domain.Workflow.Builders.{bounded}
use claude_code_codex_review.Domain.Validity.{IsValid, IsBlock, IsEntry, Succeeds}
use claude_code_codex_review.Domain.Validity.Shape.{
  Checks, Checks-make, make-Checks, plain, canonical-ok, canonicalize-nil, block_none,
  recovery_none, deferred_none, waits,
}
use claude_code_codex_review.Domain.Safety.Rule.{
  SoundWith, Fires-normal, Succeeds-make, settled_with, waits-IsValid,
}
use claude_code_codex_review.Domain.Safety.Events.{IsOf-match, external_inv, Fires-absent}

abbrev pub blocked_with : BlockContext → MachineState
blocked_with block = record (bare State.blocked) { block = some block }

-- A blocked state with nothing beside its block.
pub blocked_with-Checks : (block : BlockContext) → Checks (blocked_with block)
unfolding check_terminal_bare check_block_scope check_recovery_scope check_return_scope
    check_procedure_shape check_deferred_scope check_pending_home check_awaiting_home elem
blocked_with-Checks block = record {
  canonical_deferred = canonical-ok (blocked_with block) canonicalize-nil;
  terminal_bare = refl;
  block_scope = refl;
  recovery_scope = refl;
  return_scope = refl;
  procedure_shape = refl;
  deferred_scope = refl;
  pending_home = refl;
  awaiting_home = refl;
}

pub blocked_with-Succeeds :
    (block : BlockContext) (commands : List Command)
    → IsBlock block
    → Succeeds (returns (make (blocked_with block)) commands)
blocked_with-Succeeds block commands h = Succeeds-make (blocked_with block) commands (record {
  made = make-Checks _ (blocked_with-Checks block);
  block_made = h;
  procedure_made = tt;
})

-- From a plain state into a block.
pub block_entry-Succeeds :
    (ms : MachineState) (block : BlockContext) (commands : List Command)
    → IsValid ms
    → ms.procedure ≡ Procedure.normal
    → plain ms.state ≡ true
    → IsBlock block
    → Succeeds (
        returns
          (make (record ms {
            state = State.blocked;
            awaiting = none;
            pending_record = none;
            block = some block;
          }))
          commands)
block_entry-Succeeds ms block commands v n p h =
    let e = settled_with ms (Checks-make ms v.made) n p State.blocked none none in
    rw (ap (λ (s : MachineState). record s { block = some block }) e)
      (blocked_with-Succeeds block commands h)

report_evidence :
    (event : Event) (report : ProgressReport)
    → event_report event ≡ some report
    → (evidence : RecordEvidence) × (verified_evidence event ≡ some evidence)
unfolding event_report verified_evidence
report_evidence (Event.review_blocking_verified e r) report h = (e, refl)
report_evidence (Event.ci_code_failure_verified e r) report h = (e, refl)
report_evidence (Event.fix_result_verified e r) report h = (e, refl)
report_evidence (Event.clarification_question_verified e r) report h = (e, refl)
report_evidence (Event.verdict_resubmit_verified e r) report h = (e, refl)
report_evidence _ report h = cc

bounded_report :
    (o : Option ProgressReport)
    → allows_some bounded (report_progress o) ≡ true
    → (report : ProgressReport) × (o ≡ some report)
      × ((report.progress == Progress.continue) ≡ false)
unfolding elem
bounded_report none h = cc
bounded_report (some report) h = (report, refl, ground arith)

progress_block_made :
    (b : ProgressBlock) → (b.reason == Progress.continue) ≡ false → make_progress_block b ≡ ok b
unfolding make_progress_block
progress_block_made b h = rw h

pub progress_block_sound :
    (m : Match) (t : EventType) (continuation : BlockedContinuation) (commands : List Command)
    (budget : Budget)
    → m.procedures ≡ ProcedureKind.normal ∷ []
    → m.progress ≡ bounded
    → budget_events t ≡ some budget
    → all plain m.states ≡ true
    → IsEntry continuation blocked_continuations
    → SoundWith m (progress_block_effect t continuation commands)
unfolding progress_block_effect derive_guard_key
progress_block_sound m t continuation commands budget n pr bu p c ms event v l f =
    let (report, er, nc) =
      bounded_report (event_report event)
        (subst (λ s. allows_some s (report_progress (event_report event)) ≡ true) pr f.progress) in
    let (evidence, ee) = report_evidence event report er in
    let block : ProgressBlock = record {
      binding = evidence.binding;
      head = report.head;
      continuation = continuation;
      reason = report.progress;
      budget = budget;
      counter_snapshot = report.counter_snapshot;
      fingerprint = report.fingerprint;
    } in
    rw (bu, ee, er)
      (rw (progress_block_made block nc) (
        block_entry-Succeeds ms (BlockContext.progress block) commands v
          (Fires-normal m ms event n f) (elem-all plain ms.state m.states f.states p)
          (progress_block_made block nc, c)))

-- A state that waits for a tool permission and returns to `s`.
abbrev permitting : State → MachineState
permitting s = record (waits State.awaiting_tool_permission (some Awaiting.user_input_permission)) {
  return_to = some s;
}

permitting-Checks :
    (s : State)
    → elem s (State.running_review ∷ State.applying_fixes ∷ []) ≡ true
    → Checks (permitting s)
unfolding check_terminal_bare check_block_scope check_recovery_scope check_return_scope
    check_procedure_shape check_deferred_scope check_pending_home check_awaiting_home elem
permitting-Checks s h = record {
  canonical_deferred = canonical-ok (permitting s) canonicalize-nil;
  terminal_bare = refl;
  block_scope = refl;
  recovery_scope = refl;
  return_scope = ground arith;
  procedure_shape = refl;
  deferred_scope = refl;
  pending_home = refl;
  awaiting_home = refl;
}

pub permission_sound :
    (m : Match) (s : State)
    → m.procedures ≡ ProcedureKind.normal ∷ []
    → all plain m.states ≡ true
    → elem s (State.running_review ∷ State.applying_fixes ∷ []) ≡ true
    → SoundWith m (permission_effect s)
unfolding permission_effect
permission_sound m s n p h ms event v l f =
    let e =
      settled_with ms (Checks-make ms v.made) (Fires-normal m ms event n f)
        (elem-all plain ms.state m.states f.states p) State.awaiting_tool_permission
        (some Awaiting.user_input_permission) none in
    rw (ap (λ (x : MachineState). record x { return_to = some s }) e) (
      Succeeds-make (permitting s) [] (record {
        made = make-Checks _ (permitting-Checks s h);
        block_made = tt;
        procedure_made = tt;
      }))

pub external_dependency_sound :
    (m : Match)
    → m.procedures ≡ ProcedureKind.normal ∷ []
    → m.event_type ≡ EventType.external_dependency_verified
    → all plain m.states ≡ true
    → SoundWith m external_dependency_effect
unfolding external_dependency_effect
external_dependency_sound m n t p ms event v l f =
    let (evidence, head, e) = external_inv event (IsOf-match m ms event _ t f) in
    rw e (
      block_entry-Succeeds ms _ [] v (Fires-normal m ms event n f)
        (elem-all plain ms.state m.states f.states p) (inr (inr (inr (inr (inr (inl refl)))))))

-- A waiting state with no pending record and no deferred violation, back in a plain state.
returning :
    (ms : MachineState)
    → Checks ms
    → ms.procedure ≡ Procedure.normal
    → ms.pending_record ≡ none
    → ms.state ≡ State.awaiting_tool_permission
    → (s : State) (a : Option Awaiting)
    → record ms { state = s; awaiting = a; return_to = none } ≡ waits s a
unfolding elem
returning ms c n e h s a =
    let d = deferred_none ms c n (ground arith) in
    let r = recovery_none ms c (ground arith) in
    let b = block_none ms c (ground arith) in
    λ i. record {
      state = s;
      procedure = n i;
      awaiting = a;
      pending_record = e i;
      deferred_integrity = d i;
      return_to = none;
      recovery_to = r i;
      block = b i;
    }

permission_target :
    (ms : MachineState)
    → Checks ms
    → ms.state ≡ State.awaiting_tool_permission
    → (ms.return_to ≡ some State.running_review) ⊎ (ms.return_to ≡ some State.applying_fixes)
unfolding check_return_scope elem
permission_target ms c h = let p = c.return_scope in ground arith

pub permission_resume_sound :
    (m : Match)
    → m.procedures ≡ ProcedureKind.normal ∷ []
    → m.states ≡ State.awaiting_tool_permission ∷ []
    → m.pending ≡ some (PendingMatch.absent ∷ [])
    → SoundWith m permission_resume_effect
unfolding permission_resume_effect
permission_resume_sound m n q a ms event v l f =
    let s : ms.state ≡ State.awaiting_tool_permission =
      elem-singleton ms.state _ (subst (λ x. elem ms.state x ≡ true) q f.states) in
    let c = Checks-make ms v.made in
    let back = returning ms c (Fires-normal m ms event n f) (Fires-absent m ms event f a) s in
    elim (permission_target ms c s) [
      | inl e ↦ rw e (
          rw (back State.running_review (some Awaiting.codex_code_review)) (
            Succeeds-make _ _ (
              waits-IsValid State.running_review (some Awaiting.codex_code_review)
                (unfold elem in refl))))
      | inr e ↦ rw e (
          rw (back State.applying_fixes (some Awaiting.host_apply_findings)) (
            Succeeds-make _ _ (
              waits-IsValid State.applying_fixes (some Awaiting.host_apply_findings)
                (unfold elem in refl))))
    ]
