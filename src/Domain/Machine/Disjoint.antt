-- ===== src/Domain/Machine/Disjoint.antt =====
-- Two match parts that no state and event fulfil both: a test on their sets alone.
use claude_code_codex_review.Prelude.{
  Option, none, some, List, [], ◌∷◌, Bool, true, false, ◌&&◌, ◌||◌, not, ◌==◌, Eq, elem, all, ◌≡◌,
  sym, ◌∙◌, inl, inr, ||-true, &&-true, not-true, true-false, elem-all, option_eq, arith,
}
use claude_code_codex_review.Domain.States.{State, state_eq}
use claude_code_codex_review.Domain.Events.Types.{EventType, event_type_eq}
use claude_code_codex_review.Domain.Events.Data.{Event, event_type}
use claude_code_codex_review.Domain.Values.Kinds.{record_kind_eq, progress_eq, incident_coverage_eq}
use claude_code_codex_review.Domain.Values.Responses.{awaiting_eq}
use claude_code_codex_review.Domain.Rules.Kinds.{
  procedure_kind_eq, pending_match_eq, binding_match_eq, block_kind_eq,
}
use claude_code_codex_review.Domain.Rules.Match.{
  Match, GuardKey, Rule, matches, allows, allows_some, agrees,
}

module _ {A : Type 0} ⦃e : Eq A⦄ where
  abbrev pub apart : List A → List A → Bool
  apart xs ys = all (λ a. not (elem a ys)) xs

  pub apart_lem :
      (a : A) (xs ys : List A) → apart xs ys ≡ true → elem a xs ≡ true → elem a ys ≡ true → ⊥
  apart_lem a xs ys d p q =
      true-false (elem a ys) q (not-true (elem a ys) (elem-all (λ x. not (elem x ys)) a xs p d))

  abbrev pub apart_opt : Option (List A) → Option (List A) → Bool
  apart_opt (some xs) (some ys) = apart xs ys
  apart_opt _ _ = false

  pub allows_lem :
      (a : A) (xs ys : Option (List A))
      → apart_opt xs ys ≡ true
      → allows xs a ≡ true
      → allows ys a ≡ true
      → ⊥
  allows_lem a none ys d p q = cc
  allows_lem a (some xs) none d p q = cc
  allows_lem a (some xs) (some ys) d p q = apart_lem a xs ys d p q

  pub allows_some_lem :
      (a : Option A) (xs ys : Option (List A))
      → apart_opt xs ys ≡ true
      → allows_some xs a ≡ true
      → allows_some ys a ≡ true
      → ⊥
  allows_some_lem a none ys d p q = cc
  allows_some_lem a (some xs) none d p q = cc
  allows_some_lem none (some xs) (some ys) d p q = cc
  allows_some_lem (some a) (some xs) (some ys) d p q = apart_lem a xs ys d p q

abbrev pub apart_flag : Option Bool → Option Bool → Bool
apart_flag (some true) (some false) = true
apart_flag (some false) (some true) = true
apart_flag _ _ = false

pub agrees_lem :
    (b : Bool) (x y : Option Bool)
    → apart_flag x y ≡ true
    → agrees x b ≡ true
    → agrees y b ≡ true
    → ⊥
agrees_lem b x y d p q = ground arith

-- The components of a match that hold when it matches.
pub record Matched (m : Match) (state : State) (event : Event) (key : GuardKey) : Type 0 where
  pub states : elem state m.states ≡ true
  pub event_type : (event_type event == m.event_type) ≡ true
  pub procedures : elem key.procedure m.procedures ≡ true
  pub awaiting : allows m.awaiting key.awaiting ≡ true
  pub pending : allows m.pending key.pending ≡ true
  pub record_kinds : allows_some m.record_kinds key.record_kind ≡ true
  pub progress : allows_some m.progress key.progress ≡ true
  pub deferred_nonempty : agrees m.deferred_nonempty key.deferred_nonempty ≡ true
  pub binding : allows_some m.binding key.binding ≡ true
  pub block_kinds : allows_some m.block_kinds key.block_kind ≡ true
  pub block_reasons : allows_some m.block_reasons key.block_reason ≡ true
  pub coverage : allows_some m.coverage key.coverage ≡ true
  pub recovery_present : agrees m.recovery_present key.recovery_present ≡ true

-- A conjunction of thirteen tests, taken apart.
pub matches-Matched :
    (m : Match) (state : State) (event : Event) (key : GuardKey)
    → matches m state event key ≡ true
    → Matched m state event key
unfolding matches
matches-Matched m state event key h =
    let a = &&-true _ _ h in
    let b = &&-true _ _ a.1 in
    let c = &&-true _ _ b.1 in
    let d = &&-true _ _ c.1 in
    let e = &&-true _ _ d.1 in
    let f = &&-true _ _ e.1 in
    let g = &&-true _ _ f.1 in
    let i = &&-true _ _ g.1 in
    let j = &&-true _ _ i.1 in
    let k = &&-true _ _ j.1 in
    let l = &&-true _ _ k.1 in
    let n = &&-true _ _ l.1 in
    record {
      states = a.0;
      event_type = b.0;
      procedures = c.0;
      awaiting = d.0;
      pending = e.0;
      record_kinds = f.0;
      progress = g.0;
      deferred_nonempty = i.0;
      binding = j.0;
      block_kinds = k.0;
      block_reasons = l.0;
      coverage = n.0;
      recovery_present = n.1;
    }

abbrev pub disjoint : Match → Match → Bool
disjoint m n =
    not (m.event_type == n.event_type)
    || (apart m.states n.states
        || (apart m.procedures n.procedures
            || (apart_opt m.awaiting n.awaiting
                || (apart_opt m.pending n.pending
                    || (apart_opt m.record_kinds n.record_kinds
                        || (apart_opt m.progress n.progress
                            || (apart_flag m.deferred_nonempty n.deferred_nonempty
                                || (apart_opt m.binding n.binding
                                    || (apart_opt m.block_kinds n.block_kinds
                                        || (apart_opt m.block_reasons n.block_reasons
                                            || (apart_opt m.coverage n.coverage
                                                || apart_flag m.recovery_present
                                                    n.recovery_present)))))))))))

same_event : (t a b : EventType) → not (a == b) ≡ true → (t == a) ≡ true → (t == b) ≡ true → ⊥
same_event t a b d p q =
    true-false (a == b)
      ((event_type_eq.beq_iff a b).1
        (sym ((event_type_eq.beq_iff t a).0 p) ∙ (event_type_eq.beq_iff t b).0 q))
      (not-true (a == b) d)

cases : (a b : Bool) → (a || b) ≡ true → (a ≡ true → ⊥) → (b ≡ true → ⊥) → ⊥
cases a b h p q = elim (||-true a b h) [ inl x ↦ p x | inr y ↦ q y ]

exclusive :
    (m n : Match) (state : State) (event : Event) (key : GuardKey)
    → Matched m state event key
    → Matched n state event key
    → disjoint m n ≡ true
    → ⊥
exclusive m n state event key a b d =
    cases _ _ d
      (λ h. same_event (event_type event) m.event_type n.event_type h a.event_type b.event_type)
      λ d.
        cases _ _ d (λ h. apart_lem _ _ _ h a.states b.states)
          λ d.
            cases _ _ d (λ h. apart_lem _ _ _ h a.procedures b.procedures)
              λ d.
                cases _ _ d (λ h. allows_lem _ _ _ h a.awaiting b.awaiting)
                  λ d.
                    cases _ _ d (λ h. allows_lem _ _ _ h a.pending b.pending)
                      λ d.
                        cases _ _ d (λ h. allows_some_lem _ _ _ h a.record_kinds b.record_kinds)
                          λ d.
                            cases _ _ d (λ h. allows_some_lem _ _ _ h a.progress b.progress)
                              λ d.
                                cases (apart_flag m.deferred_nonempty n.deferred_nonempty) _ d
                                  (λ h.
                                    agrees_lem key.deferred_nonempty m.deferred_nonempty
                                      n.deferred_nonempty h a.deferred_nonempty b.deferred_nonempty)
                                  λ d.
                                    cases _ _ d (λ h. allows_some_lem _ _ _ h a.binding b.binding)
                                      λ d.
                                        cases _ _ d
                                          (λ h. allows_some_lem _ _ _ h a.block_kinds b.block_kinds)
                                          λ d.
                                            cases _ _ d
                                              (λ h.
                                                allows_some_lem _ _ _ h a.block_reasons
                                                  b.block_reasons)
                                              λ d.
                                                cases _ _ d
                                                  (λ h.
                                                    allows_some_lem _ _ _ h a.coverage b.coverage)
                                                  λ h.
                                                    agrees_lem key.recovery_present
                                                      m.recovery_present n.recovery_present h
                                                      a.recovery_present b.recovery_present

pub disjoint_lem :
    (m n : Match) (state : State) (event : Event) (key : GuardKey)
    → disjoint m n ≡ true
    → matches m state event key ≡ true
    → matches n state event key ≡ true
    → ⊥
disjoint_lem m n state event key d p q =
    exclusive m n state event key (matches-Matched m state event key p)
      (matches-Matched n state event key q) d

-- Every two rules of the list, tested in the order of the list.
unfoldable pub pairwise_disjoint : List Rule → Bool
pairwise_disjoint [] = true
pairwise_disjoint (rule ∷ rules) =
    all (λ other. disjoint rule.guard other.guard) rules && pairwise_disjoint rules
