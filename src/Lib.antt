-- ===== src/Lib.antt =====
-- A model of the controller of claude-code-codex-review-loop: the pure domain machine that decides,
-- for every state of a review run and every event, the next state and the commands to carry out; and
-- the verification of what is fetched from a pull request: the chain of records, the decisions of
-- users, and the approvals that a resumed run may build on.
--
-- The program. The package src/claude_code_codex_review_loop has a pure core, domain/, and around it
-- state/, workflow/, identity/, schema/, transport/, policy/, process/ and runtime/, which verify
-- records, keep them on disk and in a pull request, and launch the agents. They turn what they
-- have verified into events, call `initialize` once and then `transition`, and carry out the
-- commands. This library models domain/ as a whole (every state, event, value, rule and effect), and
-- of the packages that verify: identity/'s record chain, actors and allowlists, state/'s head
-- reconciliation and direct answers, and what these use of schema/ and transport/.
--
-- The files and the code (paths below src/claude_code_codex_review_loop).
--   Domain/States, Domain/Commands: domain/states.py and domain/commands.py.
--   Domain/Errors: the exceptions of domain/values.py and domain/events.py, as values; `raise` is
--     `err`, and KeyError and AttributeError are errors too, so that a missing case shows.
--   Domain/Values: domain/values.py. Values/Machine has `MachineState` and the nine checks of its
--     construction (`make`), Values/Blocks the blocks and procedures with theirs, Values/Integrity
--     `canonicalize_integrity`.
--   Domain/Events: domain/events.py, the classes of events and the checks of their construction.
--   Domain/Rules: domain/_ruledefs.py, `Match`, `Rule`, `derive_guard_key` and the tables.
--   Domain/Workflow: domain/_rules_workflow.py. Domain/Recovery: domain/_rules_recovery.py.
--   Domain/Integrity: domain/_rules_integrity.py. Each has Effects, and one file per list of rules.
--   Domain/Machine: domain/machine.py, `REGISTRY`, `check_registry`, `initialize`, `select_rule`
--     and `transition`; Machine/Disjoint has a test that tells when two rules cannot both fire.
--   Domain/Validity: when a state, its block and its procedure have passed their checks.
--   Domain/Safety: the proofs. One file per family of effects shows that they succeed wherever
--     their rule fires, WorkflowRules, RecoveryRules and IntegrityRules apply these to every rule,
--     Registry joins them, and the files after it are about `transition` and its runs.
--   Schema: Json has the values that json.loads answers; Encoding is json.dumps with sorted keys, as
--     schema/projection.py and identity/ call it; Projection is the codec of schema/projection.py;
--     Kinds has the texts of the kinds of records; Unquote and Numerals are lemmas on Encoding.
--   Transport/Fetched: the records of transport/conversation.py, marker.py and pull_request.py.
--   Identity/Actor, Identity/Allowlist, Identity/Decision: identity/actor.py and allowlist.py, with
--     the proofs on decisions below Identity/Decision.
--   Identity/Marker, Identity/Chain: identity/record_chain.py. Marker has the parser, Compose the
--     composition, Attach the `attach_marker` of transport/marker.py, RoundTrip the way from the one
--     to the other; Chain the conditions, Chain/Stages the loops, Chain/Verification the whole; the
--     other files below Chain follow the candidates through the stages.
--   State/Reconcile, State/DirectAnswer: state/reconcile.py and state/direct_answer.py, with Gate,
--     Approvals and SoleAnswer about them.
--   Prelude: Boolean tests, equality, lists, texts, and sorting by a text key.
--
-- How the code is modelled. A record or an enum is a record or a data type of the same names. A
-- frozen set is a list of its elements. A call of `replace` is a record update and `make`, which
-- runs every check again. Opaque values are texts, and are only compared. Text is ordered by code
-- points. An effect is a function from a state and an event to a result. An event is legal when
-- its construction does not raise. Blocks hold one of the six continuations of the table, as the
-- rules build no other. Lists are walked by recursion, without fuel; only the digits of a number n are
-- made with fuel, n + 1 rounds, since each divides by ten. A loop that collects results and
-- violations is a list of steps, of which both are read. A dict is a list in the order of insertion;
-- IdentityError and KeyError are values. A hash is a text that is compared: none is computed. The
-- regular expressions are Boolean functions of the characters. `lower` and `upper` treat the ASCII
-- letters, and `upper` the two other characters that can become part of the reserved token.
--
-- Not modelled: the sections and descriptions of rules, which are documentation; the texts of the
-- exceptions and other sentences for the user, of which codes, stages or reasons are kept; the calls of
-- gh, among them the probing of known records; the building of projections, which validates against
-- the JSON schemas; and workflow/, policy/, process/, runtime/ and the rest of state/, schema/ and
-- transport/, which do input and output or are not reached yet.
pub mod Prelude
pub mod Domain
pub mod Schema
pub mod Transport
pub mod Identity
pub mod State
