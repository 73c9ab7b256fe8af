-- ===== src/Lib.antt =====
-- auto-code carries a ticket through a fixed sequence of stages, from analysis to review. One
-- record, the run state, holds everything it knows of a run. The supervisor asks the router for the
-- next stage, executes it, and stores the state that results; a failure goes to the router, which
-- decides where the run continues. Every state is validated when it is made, and the store checks
-- each step from one state to the next before it writes it.
--
-- The modules, and the code that each is about:
--   Contracts           src/auto_code/contracts.py
--     Steps             StepResult, and what the supervisor reads of a ReviewResult
--     Enums, Evidence   the enumerations; EvidenceRef, Checkpoint, FailureRecord, StageOutput
--     Effects           RunState.validate_effect_ledger; an event has the payload of its kind
--     Effects/Protocol  the life of one effect, the specification of the ledger
--     Json              src/auto_code/hashing.py, with JSON values
--     Requests          McpActionRequest and PendingExternalRequest.reconstruct_request;
--                       Requests/Creation is McpActionRequest.create, with the pending record that
--                       src/auto_code/linear.py persists
--     Externals         what the contracts take from third-party code
--     Tasks, Authorizations, Bindings   the manifests and receipts that a run state holds
--     RunState          RunState; RunState/Validation is RunState.validate_state and model_copy,
--                       RunState/Iterations is can_start_iteration and begin_iteration
--   Router              src/auto_code/router.py: DEPENDENCIES, next_stage, invalidate_from
--     Routing           route_failure and apply_route
--     Graph, NextStage, Invalidation, Resume, Routing/Targets, Routing/Application   proofs
--   State               src/auto_code/state.py
--     Transitions       the checks of RunStateStore._validate_transition on iterations, tasks,
--                       authorizations and dispositions
--     Pending           _require_new_pending_matches_predecessor, and the state that
--                       src/auto_code/linear.py makes in persist_pending
--     Context           what a store is made with, its errors, and BridgeReceiptAuthority
--     Reconciliation    _validate_pending_lifecycle, _require_authenticated_pending_reconciliation
--     Receipts          _trusted_receipt_reconciliations and what is read from it
--     Repair            _verify_repair_activation
--     Preparation       _validate_preparation_transition
--     Validation        the fields that stay, _validate_initial_state, _is_exact_release_marker
--     Acceptance        _validate_transition as a whole
--     Acceptance/Inversion, Extends, Terminal, History, Clearing   proofs on accepted transitions
--     Transitions/Grants, Transitions/Routes, Transitions/Accepts   proofs
--     Digests           _is_sha256
--     Generations       the generation directory: load, compare_and_swap and what they call
--     Generations/Interruption   compare_and_swap when the second of its two writes fails
--     Generations/Records, Swap, Publication, Refusals, Orphans, Recovery, Runs   proofs
--   Supervisor          src/auto_code/supervisor.py: what a step needs and reports
--     Step              step, record_failure, execute_and_checkpoint and their helpers
--     Reports, Results, Sequence   proofs
--     OnDisk            the supervisor over the store and the registry below
--   Registry            src/auto_code/checkpoint.py: issue, matches and is_reusable
--     Issued            proofs
--   Index               src/auto_code/run_index.py: the records, their validation
--     Operations        lookup, reserve, probe_or_reserve
--     Release           release, load_verified_release
--     Operations/Entries, Operations/Reservations, Release/Inversion, Release/Tombstones   proofs
--   Linear              src/auto_code/linear.py: select_ticket and what it reads of the tickets
--     Selection         proofs
--   Manifests           src/auto_code/manifests.py: ProductChangeManifestBuilder, with the
--                       validation of a ProductChangeManifest
--     Denied, Built     proofs
--   Verification        src/auto_code/verification.py: run_all; with BuildIdentityFactory of
--                       src/auto_code/manifests.py
--     Builds            proofs
--   Common              shared names, Boolean tests, lists, results
--   Tests               runs at concrete inputs, and instances of the theorems
--
-- How the code is read. A model of pydantic is a record; its model validator is a list of tests with
-- the error of each, and the first that fails is the result, in the order of the code. model_copy
-- validates the updated record. The mapping of checkpoints and those of expectations are functions
-- of the stage, a set of stages is a list of its members, and a dictionary that a loop fills is an
-- association list. A raised exception is the err of a Result. Times are numbers. Texts are compared
-- as they are; the pattern of a field, its normalisation to lower case and the screen for secrets are
-- field validation and are taken to have happened. An effect's payload fixes its kind, so the branch
-- for a payload of another kind cannot arise.
--
-- One loop runs on fuel: that of _descendants gets ten rounds, one for each stage, and the
-- specification of descendants shows that these are enough.
--
-- The supervisor's methods are actions on a world, which stands for the store, the checkpoint
-- registry and whatever the executor touches. An action leaves a world behind when it raises, so
-- that a handler goes on from there. What the supervisor needs of the store is StoreLaws: the
-- generation that compare_and_swap returns holds the state that it was given, and is loaded from then
-- on. Supervisor/OnDisk fills these laws with the operations of State/Generations.
--
-- A directory of generations, of checkpoints or of the index is a value that holds the files by what
-- their names and contents are: a file that does not parse is a constructor of its own, but a
-- release receipt on file is one that parses. An operation
-- that holds a lock is one step, so an interleaving of processes is a sequence of operations. Each
-- write of a file happens or does not (a link or a rename); interrupted_swap is a swap whose first write
-- happens and whose second does not, so that it raises and leaves a new generation behind. The content of
-- a generation file is an Envelope: the JSON value of the state, which the digest and the screen for
-- unsafe values read, and the fields that it parses to. Where a
-- theorem needs that a digest is sixty-four hexadecimal digits in lower case, that is a hypothesis on
-- the Hasher and on str.lower (Digests, Drawn).
--
-- Third-party code is a parameter: the JSON encoder and SHA-256 (Hasher), the digest of a public key
-- and the field validation of a request (Externals), the verification of a signed authorization
-- (Verifier). A store's context (StoreContext) adds the parsed receipts and their HMAC, the receipts
-- of a repair activation, an Ed25519 check, the screen for unsafe values and the repository that a run
-- is bound to, all read outside the checks; a generation on disk is read through GenerationLoader. The
-- router's view of the checkpoint registry is the interface CheckpointAuthority.
--
-- What git reports of a worktree is an argument of the builder of manifests (GitManifestInputs);
-- the hasher, str.lower, and the validation of a file's single fields and of a baseline are
-- parameters (ManifestContext).
--
-- The commands of a verification run through VerificationContext.run, an action on a world; Reliable
-- is the hypothesis that each run returns with the evidence of its outputs.
--
-- A response of Linear is a JSON value. The tuple that orders tickets is compared as a list of numbers,
-- the code points of its last text at the end. str.strip, str.isspace and fromisoformat are parameters
-- (LinearContext).
--
-- The activation of a reservation and its journal are two operations of the index's context, of which
-- no theorem asks anything; what the clock, uuid4 and the secrets give to a call is its Draw.
--
-- Not modelled: the bytes of files, locks, processes, git, the browser, the model providers, the
-- command line and configuration; of contracts.py the validation of the transport receipts; of
-- run_index.py the activation of a reservation and its journal; of linear.py the gateway but for the
-- pending record; of manifests.py the review manifest;
-- preparation, finalization and repair.
pub mod Common
pub mod Contracts
pub mod Router
pub mod Registry
pub mod State
pub mod Supervisor
pub mod Index
pub mod Linear
pub mod Manifests
pub mod Verification
mod Tests
