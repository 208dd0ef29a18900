-- ===== src/Domain/Safety/Procedures.antt =====
-- The driving command of a recovered state, and the commands that a procedure reissues.
use claude_code_codex_review.Prelude.{
  Option, none, some, List, [], ◌∷◌, true, false, ◌==◌, ◌≡◌, refl, sym, ap, ◌∙◌, arith, elem, keep,
  subst, option_eq,
}
use claude_code_codex_review.Domain.States.{State, state_eq, active_states}
use claude_code_codex_review.Domain.Commands.{Command}
use claude_code_codex_review.Domain.Errors.{ok, ◌>>=◌}
use claude_code_codex_review.Domain.Events.Data.{Event}
use claude_code_codex_review.Domain.Values.Kinds.{IncidentTarget, record_kind_eq}
use claude_code_codex_review.Domain.Values.Opaque.{OpaqueBinding}
use claude_code_codex_review.Domain.Values.Responses.{Awaiting, awaiting_eq}
use claude_code_codex_review.Domain.Values.Records.{PendingRecord}
use claude_code_codex_review.Domain.Values.Blocks.{Procedure, RecordIntegrityBlock, bindings_of}
use claude_code_codex_review.Domain.Values.Machine.{MachineState, make, check_recovery_scope}
use claude_code_codex_review.Domain.Rules.Kinds.{
  ProcedureKind, PendingMatch, procedure_kind_eq, pending_match_eq,
}
use claude_code_codex_review.Domain.Rules.Match.{Match}
use claude_code_codex_review.Domain.Rules.Guards.{derive_guard_key, procedure_kind}
use claude_code_codex_review.Domain.Rules.Tables.{drive_table}
use claude_code_codex_review.Domain.Workflow.Effects.{returns, target, field_of, key_of}
use claude_code_codex_review.Domain.Validity.{Succeeds}
use claude_code_codex_review.Domain.Validity.Shape.{
  Checks, Checks-make, block_none, return_none, deferred_none, waits, fits,
}
use claude_code_codex_review.Domain.Safety.Rule.{SoundWith, Fires, Fires-normal}
use claude_code_codex_review.Domain.Safety.Events.{Fires-absent}
use claude_code_codex_review.Domain.Recovery.Effects.{
  cancel_attempt, procedure_audit, resume_drive, reissue_halt_for_cancel, reissue_halt_for_block,
  reissue_incident_request, reissue_persist,
}
use claude_code_codex_review.Domain.Safety.Events.{Fires-present}
use claude_code_codex_review.Domain.Safety.Merge.{waits-Succeeds, state_is}
use claude_code_codex_review.Domain.Safety.Resume.{Fires-recovery}
use claude_code_codex_review.Domain.Safety.Cancel.{Fires-cancelling}

drive-fits :
    (s : State)
    → elem s active_states ≡ true
    → (s == State.merging) ≡ false
    → (commands : List Command) × (a : Awaiting) × (drive_table s ≡ some (commands, a))
      × (fits s (some a) ≡ true)
unfolding drive_table elem keep
drive-fits State.running_review h k = (_, _, refl, refl)
drive-fits State.changes_requested h k = (_, _, refl, refl)
drive-fits State.applying_fixes h k = (_, _, refl, refl)
drive-fits State.clarifying_review h k = (_, _, refl, refl)
drive-fits State.reviewing_decision_request h k = (_, _, refl, refl)
drive-fits State.generating_report h k = (_, _, refl, refl)
drive-fits _ h k = cc

recovery_target :
    (ms : MachineState) (s : State)
    → Checks ms
    → ms.recovery_to ≡ some s
    → (elem s active_states ≡ true) × ((s == State.merging) ≡ false)
unfolding check_recovery_scope
recovery_target ms s c e = let p = c.recovery_scope in ground arith

driven :
    (ms : MachineState)
    → Checks ms
    → ms.procedure ≡ Procedure.normal
    → ms.state ≡ State.failed
    → ms.pending_record ≡ none
    → (s : State) (a : Option Awaiting)
    → record ms { state = s; awaiting = a; recovery_to = none } ≡ waits s a
driven ms c n h e s a =
    let d = deferred_none ms c n (rw h refl) in
    let t = return_none ms c (rw h refl) in
    let b = block_none ms c (rw h refl) in
    λ i. record {
      state = s;
      procedure = n i;
      awaiting = a;
      pending_record = e i;
      deferred_integrity = d i;
      return_to = t i;
      recovery_to = none;
      block = b i;
    }

drive_at :
    (ms : MachineState) (event : Event) (s : State) (commands : List Command) (a : Awaiting)
    → ms.recovery_to ≡ some s
    → drive_table s ≡ some (commands, a)
    → resume_drive ms event
      ≡ returns (make (record ms { state = s; awaiting = some a; recovery_to = none })) commands
unfolding resume_drive
drive_at ms event s commands a r t =
    ap
      (λ (o : Option State). key_of o >>= λ s. key_of (drive_table s) >>= λ (c, a).
        returns (make (record ms { state = s; awaiting = some a; recovery_to = none })) c)
      r
    ∙ ap
        (λ (o : Option (List Command × Awaiting)). key_of o >>= λ (c, a).
          returns (make (record ms { state = s; awaiting = some a; recovery_to = none })) c)
        t

pub resume_drive_sound :
    (m : Match)
    → m.procedures ≡ ProcedureKind.normal ∷ []
    → m.states ≡ State.failed ∷ []
    → m.pending ≡ some (PendingMatch.absent ∷ [])
    → m.recovery_present ≡ some true
    → SoundWith m resume_drive
resume_drive_sound m n q pe r ms event v l f =
    let c = Checks-make ms v.made in
    let (s, x) = Fires-recovery m ms event r f in
    let t = recovery_target ms s c x in
    let (commands, a, y, z) = drive-fits s t.0 t.1 in
    rw (drive_at ms event s commands a x y) (
      rw
        (driven ms c (Fires-normal m ms event n f) (state_is m ms event State.failed q f)
          (Fires-absent m ms event f pe) s (some a))
        (waits-Succeeds s (some a) commands z))

pub reissue_cancel_sound :
    (m : Match) → m.procedures ≡ ProcedureKind.cancelling ∷ [] → SoundWith m reissue_halt_for_cancel
unfolding reissue_halt_for_cancel
reissue_cancel_sound m n ms event v l f =
    let (binding, e) = Fires-cancelling m ms event n f in
    subst (λ p. Succeeds (field_of (cancel_attempt p) >>= λ b. ok (ms, Command.halt_run b ∷ [])))
      (sym e) v

-- The procedure of a rule of the halt gate, or of the record of an incident.
pub Fires-halting :
    (m : Match) (ms : MachineState) (event : Event)
    → m.procedures ≡ ProcedureKind.halting_for_block ∷ []
    → Fires m ms event
    → (block : RecordIntegrityBlock) × (binding : OpaqueBinding) × (ms.procedure
        ≡ Procedure.halting_for_block block binding)
unfolding derive_guard_key procedure_kind elem
Fires-halting m ms event n f =
    go ms.procedure (subst (λ x. elem (procedure_kind ms.procedure) x ≡ true) n f.procedures)
  where
    go :
        (p : Procedure)
        → elem (procedure_kind p) (ProcedureKind.halting_for_block ∷ []) ≡ true
        → (block : RecordIntegrityBlock) × (binding : OpaqueBinding) × (p
            ≡ Procedure.halting_for_block block binding)
    go (Procedure.halting_for_block block binding) h = (block, binding, refl)
    go Procedure.normal h = cc
    go (Procedure.cancelling _) h = cc
    go (Procedure.recording_incident _ _) h = cc

pub Fires-recording :
    (m : Match) (ms : MachineState) (event : Event)
    → m.procedures ≡ ProcedureKind.recording_incident ∷ []
    → Fires m ms event
    → (target : IncidentTarget) × (audit : Option PendingRecord) × (ms.procedure
        ≡ Procedure.recording_incident target audit)
unfolding derive_guard_key procedure_kind elem
Fires-recording m ms event n f =
    go ms.procedure (subst (λ x. elem (procedure_kind ms.procedure) x ≡ true) n f.procedures)
  where
    go :
        (p : Procedure)
        → elem (procedure_kind p) (ProcedureKind.recording_incident ∷ []) ≡ true
        → (target : IncidentTarget) × (audit : Option PendingRecord) × (p
            ≡ Procedure.recording_incident target audit)
    go (Procedure.recording_incident target audit) h = (target, audit, refl)
    go Procedure.normal h = cc
    go (Procedure.cancelling _) h = cc
    go (Procedure.halting_for_block _ _) h = cc

pub reissue_block_sound :
    (m : Match)
    → m.procedures ≡ ProcedureKind.halting_for_block ∷ []
    → SoundWith m reissue_halt_for_block
unfolding reissue_halt_for_block
reissue_block_sound m n ms event v l f =
    let (block, binding, e) = Fires-halting m ms event n f in
    subst (λ p. Succeeds (field_of (cancel_attempt p) >>= λ b. ok (ms, Command.halt_run b ∷ [])))
      (sym e) v

pub reissue_incident_sound :
    (m : Match)
    → m.procedures ≡ ProcedureKind.recording_incident ∷ []
    → SoundWith m reissue_incident_request
unfolding reissue_incident_request
reissue_incident_sound m n ms event v l f =
    let (target, audit, e) = Fires-recording m ms event n f in
    subst
      (λ p. Succeeds (
        field_of (procedure_audit p) >>= λ audit.
        ok (ms, Command.record_integrity_incident (bindings_of ms.deferred_integrity) audit ∷ [])))
      (sym e) v

pub reissue_persist_sound :
    (m : Match) → m.pending ≡ some (PendingMatch.present ∷ []) → SoundWith m reissue_persist
unfolding reissue_persist
reissue_persist_sound m q ms event v l f =
    let (p, e) = Fires-present m ms event PendingMatch.present refl q f in
    subst
      (λ o. Succeeds (field_of o >>= λ p. ok (ms, Command.persist_record p.kind p.binding ∷ [])))
      (sym e) v
