-- ===== src/Domain/Safety/Replay.antt =====
-- The ways out of a block that replay its continuation.
use claude_code_codex_review.Prelude.{
  Option, none, some, [], ◌∷◌, Bool, true, false, ◌≡◌, refl, ap, elem, elem-singleton, inl, inr,
  subst, option_eq,
}
use claude_code_codex_review.Domain.States.{state_eq}
use claude_code_codex_review.Domain.Errors.{◌>>=◌}
use claude_code_codex_review.Domain.Values.Kinds.{record_kind_eq}
use claude_code_codex_review.Domain.Values.Responses.{awaiting_eq}
use claude_code_codex_review.Domain.Values.Blocks.{BlockContext, BlockedContinuation}
use claude_code_codex_review.Domain.Values.Machine.{bare, make}
use claude_code_codex_review.Domain.Rules.Kinds.{procedure_kind_eq, pending_match_eq}
use claude_code_codex_review.Domain.Rules.Match.{Match, allows_some}
use claude_code_codex_review.Domain.Rules.Guards.{derive_guard_key}
use claude_code_codex_review.Domain.Workflow.Effects.{returns}
use claude_code_codex_review.Domain.Validity.{Succeeds}
use claude_code_codex_review.Domain.Validity.Shape.{fits}
use claude_code_codex_review.Domain.Safety.Rule.{SoundWith}
use claude_code_codex_review.Domain.Rules.Kinds.{BlockKind, block_kind_eq}
use claude_code_codex_review.Domain.Rules.Guards.{block_kind_of}
use claude_code_codex_review.Domain.Rules.Tables.{blocked_continuations}
use claude_code_codex_review.Domain.Workflow.Effects.{field_of}
use claude_code_codex_review.Domain.Validity.{IsEntry, IsBlockOption}
use claude_code_codex_review.Domain.Integrity.Effects.{replay_continuation, continuation_of}
use claude_code_codex_review.Domain.Safety.Merge.{waits-Succeeds}

-- Every continuation of the table is a state that can wait for its response.
pub entry-fits :
    (cont : BlockedContinuation)
    → IsEntry cont blocked_continuations
    → fits cont.resume_state cont.awaiting ≡ true
unfolding elem
entry-fits cont (inl e) = rw e refl
entry-fits cont (inr (inl e)) = rw e refl
entry-fits cont (inr (inr (inl e))) = rw e refl
entry-fits cont (inr (inr (inr (inl e)))) = rw e refl
entry-fits cont (inr (inr (inr (inr (inl e))))) = rw e refl
entry-fits cont (inr (inr (inr (inr (inr (inl e)))))) = rw e refl
entry-fits cont (inr (inr (inr (inr (inr (inr e)))))) = absurd e

-- A block whose kind is not a violation of the record.
abbrev pub replays : BlockKind → Bool
replays BlockKind.record_integrity = false
replays _ = true

pub replay_sound :
    (m : Match) (kind : BlockKind)
    → m.block_kinds ≡ some (kind ∷ [])
    → replays kind ≡ true
    → SoundWith m replay_continuation
unfolding replay_continuation derive_guard_key
replay_sound m kind n r ms event v l f =
    go ms.block v.block_made
      (subst (λ x. allows_some x (block_kind_of ms.block) ≡ true) n f.block_kinds)
  where
    go :
        (o : Option BlockContext)
        → IsBlockOption o
        → allows_some (some (kind ∷ [])) (block_kind_of o) ≡ true
        → Succeeds (
            field_of (continuation_of o) >>= λ cont.
            returns
              (make (record (bare cont.resume_state) { awaiting = cont.awaiting }))
              cont.commands)
    go none b h = cc
    go (some (BlockContext.progress block)) b h =
        waits-Succeeds block.continuation.resume_state block.continuation.awaiting
          block.continuation.commands (entry-fits block.continuation b.1)
    go (some (BlockContext.external_dependency block)) b h =
        waits-Succeeds block.continuation.resume_state block.continuation.awaiting
          block.continuation.commands (entry-fits block.continuation b)
    go (some (BlockContext.record_integrity block)) b h =
        absurd (cc (r, ap replays (elem-singleton BlockKind.record_integrity kind h)))
