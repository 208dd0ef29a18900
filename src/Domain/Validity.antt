-- ===== src/Domain/Validity.antt =====
-- The states that the program can hold: those that their checks accept, inner values included.
pub mod Shape
use claude_code_codex_review.Prelude.{Option, none, some, List, [], ◌∷◌, ◌≡◌, ◌⊎◌, String}
use claude_code_codex_review.Domain.Errors.{Result, ok, err}
use claude_code_codex_review.Domain.Values.Blocks.{
  BlockContext, BlockedContinuation, Procedure, make_progress_block, make_integrity_block,
  make_halting,
}
use claude_code_codex_review.Domain.Values.Machine.{MachineState, make}
use claude_code_codex_review.Domain.Rules.Match.{Outcome}
use claude_code_codex_review.Domain.Rules.Tables.{blocked_continuations}

-- The value of some entry of a table.
abbrev pub IsEntry : {A : Type 0} → A → List (String × A) → Type 0
IsEntry a [] = ⊥
IsEntry a ((key, b) ∷ entries) = (a ≡ b) ⊎ IsEntry a entries

-- A block that its class accepts, with a continuation of the table.
abbrev pub IsBlock : BlockContext → Type 0
IsBlock (BlockContext.progress b) =
    (make_progress_block b ≡ ok b) × IsEntry b.continuation blocked_continuations
IsBlock (BlockContext.external_dependency b) = IsEntry b.continuation blocked_continuations
IsBlock (BlockContext.record_integrity b) = make_integrity_block b.violations ≡ ok b

abbrev pub IsBlockOption : Option BlockContext → Type 0
IsBlockOption none = Unit
IsBlockOption (some block) = IsBlock block

abbrev pub IsProcedure : Procedure → Type 0
IsProcedure (Procedure.halting_for_block block binding) =
    (make_integrity_block block.violations ≡ ok block)
    × (make_halting block binding ≡ ok (Procedure.halting_for_block block binding))
IsProcedure _ = Unit

pub record IsValid (ms : MachineState) : Type 0 where
  pub made : make ms ≡ ok ms
  pub block_made : IsBlockOption ms.block
  pub procedure_made : IsProcedure ms.procedure

-- The call did not raise, and its state is valid.
abbrev pub Succeeds : Result Outcome → Type 0
Succeeds (ok outcome) = IsValid outcome.0
Succeeds (err e) = ⊥
