-- ===== src/Domain/Safety/Advance.antt =====
-- The rules of the main workflow that consume the pending record and move on.
use claude_code_codex_review.Prelude.{Option, List, [], ◌∷◌, true, ◌≡◌, all, elem-all}
use claude_code_codex_review.Domain.States.{State, state_eq}
use claude_code_codex_review.Domain.Commands.{Command}
use claude_code_codex_review.Domain.Values.Responses.{Awaiting}
use claude_code_codex_review.Domain.Rules.Kinds.{ProcedureKind}
use claude_code_codex_review.Domain.Rules.Match.{Match}
use claude_code_codex_review.Domain.Workflow.Effects.{advance, target}
use claude_code_codex_review.Domain.Validity.Shape.{Checks-make, waits, fits, plain}
use claude_code_codex_review.Domain.Safety.Rule.{
  SoundWith, Fires-normal, Succeeds-make, waits-IsValid, settled,
}

pub advance_sound :
    (m : Match) (to : Option State) (awaiting_after : Option Awaiting) (commands : List Command)
    → m.procedures ≡ ProcedureKind.normal ∷ []
    → all plain m.states ≡ true
    → all (λ s. fits (target to s) awaiting_after) m.states ≡ true
    → SoundWith m (advance to awaiting_after commands)
unfolding advance
advance_sound m to awaiting_after commands n p q ms event v l f =
    rw
      (settled ms (Checks-make ms v.made) (Fires-normal m ms event n f)
        (elem-all plain ms.state m.states f.states p) (target to ms.state) awaiting_after)
      (Succeeds-make (waits (target to ms.state) awaiting_after) commands (
        waits-IsValid (target to ms.state) awaiting_after
          (elem-all (λ s. fits (target to s) awaiting_after) ms.state m.states f.states q)))
