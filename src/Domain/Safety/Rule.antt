-- ===== src/Domain/Safety/Rule.antt =====
-- What a rule has to guarantee, and what its match part says of the state.
use claude_code_codex_review.Prelude.{Option, none, List, [], ◌∷◌, true, ◌≡◌, arith, elem}
use claude_code_codex_review.Domain.States.{State, state_eq}
use claude_code_codex_review.Domain.Commands.{Command}
use claude_code_codex_review.Domain.Events.Data.{Event}
use claude_code_codex_review.Domain.Events.Checks.{IsLegal}
use claude_code_codex_review.Domain.Values.Responses.{Awaiting, awaiting_eq}
use claude_code_codex_review.Domain.Values.Records.{PendingRecord}
use claude_code_codex_review.Domain.Values.Blocks.{Procedure}
use claude_code_codex_review.Domain.Values.Machine.{MachineState, bare, make}
use claude_code_codex_review.Domain.Rules.Kinds.{ProcedureKind, procedure_kind_eq, pending_match_eq}
use claude_code_codex_review.Domain.Rules.Match.{Rule, Match, Effect}
use claude_code_codex_review.Domain.Rules.Guards.{derive_guard_key, procedure_kind}
use claude_code_codex_review.Domain.Workflow.Effects.{returns}
use claude_code_codex_review.Domain.Validity.{IsValid, Succeeds}
use claude_code_codex_review.Domain.Validity.Shape.{
  Checks, make-Checks, waits, fits, waits-Checks, plain, block_none, return_none, recovery_none,
  deferred_none,
}
use claude_code_codex_review.Domain.Machine.Disjoint.{Matched}

abbrev pub Fires : Match → MachineState → Event → Type 0
Fires m ms event = Matched m ms.state event (derive_guard_key ms event)

-- The effect succeeds wherever the match part holds.
abbrev pub SoundWith : Match → Effect → Type 0
SoundWith m effect =
    (ms : MachineState) (event : Event)
    → IsValid ms
    → IsLegal event
    → Fires m ms event
    → Succeeds (effect ms event)

abbrev pub IsSound : Rule → Type 0
IsSound rule = SoundWith rule.guard rule.effect

pub Fires-normal :
    (m : Match) (ms : MachineState) (event : Event)
    → m.procedures ≡ ProcedureKind.normal ∷ []
    → Fires m ms event
    → ms.procedure ≡ Procedure.normal
unfolding derive_guard_key procedure_kind elem
Fires-normal m ms event n f =
    let p : elem (procedure_kind ms.procedure) m.procedures ≡ true = f.procedures in ground arith

-- The new state is right once its checks are.
pub Succeeds-make :
    (ms : MachineState) (commands : List Command)
    → IsValid ms
    → Succeeds (returns (make ms) commands)
Succeeds-make ms commands v = rw v.made v

pub waits-IsValid : (s : State) (a : Option Awaiting) → fits s a ≡ true → IsValid (waits s a)
waits-IsValid s a h = record {
  made = make-Checks (waits s a) (waits-Checks s a h);
  block_made = tt;
  procedure_made = tt;
}

-- A plain state outside procedures holds no more than a pending record and an awaited response.
pub settled_with :
    (ms : MachineState)
    → Checks ms
    → ms.procedure ≡ Procedure.normal
    → plain ms.state ≡ true
    → (s : State) (a : Option Awaiting) (p : Option PendingRecord)
    → record ms { state = s; awaiting = a; pending_record = p }
      ≡ record (bare s) { awaiting = a; pending_record = p }
unfolding elem
settled_with ms c n h s a p =
    let d = deferred_none ms c n (ground arith) in
    let r = return_none ms c (ground arith) in
    let f = recovery_none ms c (ground arith) in
    let b = block_none ms c (ground arith) in
    λ i. record {
      state = s;
      procedure = n i;
      awaiting = a;
      pending_record = p;
      deferred_integrity = d i;
      return_to = r i;
      recovery_to = f i;
      block = b i;
    }

pub settled :
    (ms : MachineState)
    → Checks ms
    → ms.procedure ≡ Procedure.normal
    → plain ms.state ≡ true
    → (s : State) (a : Option Awaiting)
    → record ms { state = s; awaiting = a; pending_record = none } ≡ waits s a
settled ms c n h s a = settled_with ms c n h s a none
