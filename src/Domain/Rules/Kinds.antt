-- ===== src/Domain/Rules/Kinds.antt =====
-- domain/_ruledefs.py: the finite discriminators of a guard key.
use claude_code_codex_review.Prelude.{ℕ, List, [], ◌∷◌, some, ◌≡◌, refl, Eq, enum_eq, get_elem?}

pub data ProcedureKind : Type 0 where
  normal cancelling halting_for_block recording_incident : ProcedureKind

abbrev pub procedure_kind_code : ProcedureKind → ℕ
procedure_kind_code ProcedureKind.normal = 0
procedure_kind_code ProcedureKind.cancelling = 1
procedure_kind_code ProcedureKind.halting_for_block = 2
procedure_kind_code ProcedureKind.recording_incident = 3

abbrev pub procedure_kind_values : List ProcedureKind
procedure_kind_values =
    ProcedureKind.normal ∷ ProcedureKind.cancelling ∷ ProcedureKind.halting_for_block
    ∷ ProcedureKind.recording_incident ∷ []

pub procedure_kind_values_lem :
    (a : ProcedureKind) → get_elem? procedure_kind_values (procedure_kind_code a) ≡ some a
procedure_kind_values_lem ProcedureKind.normal = refl
procedure_kind_values_lem _ = refl

instance abbrev pub procedure_kind_eq : Eq ProcedureKind
procedure_kind_eq = enum_eq procedure_kind_code procedure_kind_values procedure_kind_values_lem

pub data PendingMatch : Type 0 where
  absent match mismatch present : PendingMatch

abbrev pub pending_match_code : PendingMatch → ℕ
pending_match_code PendingMatch.absent = 0
pending_match_code PendingMatch.match = 1
pending_match_code PendingMatch.mismatch = 2
pending_match_code PendingMatch.present = 3

abbrev pub pending_match_values : List PendingMatch
pending_match_values =
    PendingMatch.absent ∷ PendingMatch.match ∷ PendingMatch.mismatch ∷ PendingMatch.present ∷ []

pub pending_match_values_lem :
    (a : PendingMatch) → get_elem? pending_match_values (pending_match_code a) ≡ some a
pending_match_values_lem PendingMatch.absent = refl
pending_match_values_lem _ = refl

instance abbrev pub pending_match_eq : Eq PendingMatch
pending_match_eq = enum_eq pending_match_code pending_match_values pending_match_values_lem

pub data BindingMatch : Type 0 where
  match mismatch : BindingMatch

abbrev pub binding_match_code : BindingMatch → ℕ
binding_match_code BindingMatch.match = 0
binding_match_code BindingMatch.mismatch = 1

abbrev pub binding_match_values : List BindingMatch
binding_match_values = BindingMatch.match ∷ BindingMatch.mismatch ∷ []

pub binding_match_values_lem :
    (a : BindingMatch) → get_elem? binding_match_values (binding_match_code a) ≡ some a
binding_match_values_lem BindingMatch.match = refl
binding_match_values_lem _ = refl

instance abbrev pub binding_match_eq : Eq BindingMatch
binding_match_eq = enum_eq binding_match_code binding_match_values binding_match_values_lem

pub data BlockKind : Type 0 where
  progress external_dependency record_integrity : BlockKind

abbrev pub block_kind_code : BlockKind → ℕ
block_kind_code BlockKind.progress = 0
block_kind_code BlockKind.external_dependency = 1
block_kind_code BlockKind.record_integrity = 2

abbrev pub block_kind_values : List BlockKind
block_kind_values =
    BlockKind.progress ∷ BlockKind.external_dependency ∷ BlockKind.record_integrity ∷ []

pub block_kind_values_lem :
    (a : BlockKind) → get_elem? block_kind_values (block_kind_code a) ≡ some a
block_kind_values_lem BlockKind.progress = refl
block_kind_values_lem _ = refl

instance abbrev pub block_kind_eq : Eq BlockKind
block_kind_eq = enum_eq block_kind_code block_kind_values block_kind_values_lem
