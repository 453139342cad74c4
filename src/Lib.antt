-- ===== src/Lib.antt =====
-- CLIHarbor runs curated commands of official command-line tools for a local browser. This library
-- models the part that decides what runs and what is kept of it: the validation of packs, the discovery
-- of tools, the planner, the approvals, the run manager, the audit journal, and the parser and limits of
-- a run's output.
--
-- How the parts interact. A pack (Packs) declares commands, and validation (Packs/Validation) refuses
-- one that the planner could not serve; discovery (Discovery) finds the executables of its tools and
-- says which are ready. The planner (Planner) turns a request into a plan: an executable, its arguments and standard
-- input, a risk. The run manager (Runs) builds plans for Preview and Start. A plan that changes
-- something needs an approval (Approvals): Preview issues it, Start consumes it, and the audit journal
-- (Audit) has to take it first. A started run is executed in its own goroutine; the executor (Executor)
-- hands its events to the manager, which numbers them and keeps them within a budget, and at the end
-- the output may be parsed into declared fields (Structured). Errors for the browser come from a
-- closed set (AppError).
--
-- Files and code:
--   Packs, Packs/Registry: internal/packs/model.go, internal/packs/registry.go.
--   Packs/Validation and its definitions in Inputs, Arguments, Impacts, Templates, Executables, Installs,
--     Sessions, Semantics and Yaml: internal/packs/validation.go; validate_x is the function or loop of
--     that name, validate_semantics is validateSemantics. Packs/Validation/Probes:
--     internal/packs/tool_validation.go.
--   Discovery, Discovery/Files: internal/discovery/types.go, internal/discovery/executable_identity.go.
--   Discovery/Candidates, Discovery/Resolver: internal/discovery/resolver.go; resolve_tool is resolveTool,
--     cut into its steps, discover is Discover. Discovery/Versions: internal/discovery/probe.go.
--   Planner, Planner/Values, Planner/Argv, Planner/Build: internal/planner/planner.go; parse_value is
--     parseValue, render_argv the loop over command.Argv, build is Build.
--   Approvals, Approvals/Table: internal/runs/approval.go; prune, evict_oldest, issue and consume are
--     pruneApprovalsLocked, evictOldestApprovalLocked, issueApproval and consumeApprovalLocked.
--   Runs and its definitions in New, Events, Retention, Start, Execute and Query:
--     internal/runs/manager.go; admit is the second locked part of Start, settle the last one of
--     execute, append_event is recordEvent, make_room is makeRetentionRoomLocked.
--   Audit, Audit/Entry, Audit/Journal: the sink's interface of internal/runs/manager.go and
--     internal/audittrail/store.go (Append, readEntries, validEntry, Open, List). Audit/Sink makes the
--     journal an instance of the interface.
--   Structured: internal/structured/parser.go. AppError: internal/apperror/error.go.
--   Executor, Executor/Writer, Executor/Plans, Executor/Run: internal/executor/executor.go; run is Run
--     over a script of what the process, the clock and the contexts do, with the output that still
--     arrives where the process cannot be attached.
--   Go, Host: functions of the standard library and of the semver package that the code calls, as
--     parameters.
--   Prelude: shared lists, texts (lists of bytes), maps (association lists), results, integers.
--   The other files hold proofs, and Tests the concrete examples.
--
-- State. A Manager is the struct of the same name; a *record is the entry of its identifier in the
-- map of the runs, so that every holder of the pointer sees the changes. Sections under the lock are
-- single steps; Runs/Machine lets them interleave in any order, and Runs/Handlers shows that Start,
-- Preview and execute are made of them. Maps are visited in the order of
-- their list; what is shown does not depend on that order.
--
-- Bounds and fuel. make_room runs on fuel, one for each entry of the order, which is shown to be
-- enough; prefixed_matches runs on fuel, one more than the bytes of the output, which is shown to be
-- enough as well. Every other loop is structural. Sequence numbers and the byte counters of the event log
-- and of the output writers keep the wrap-around of 64-bit integers; lengths are natural numbers. Times are natural numbers, and 0 is the zero time.
--
-- Not modelled: the sentences of error messages; the copies that Go makes so that callers share no
-- memory; the process, the file system and the clock; the encoding of an entry as JSON, SHA-256, the
-- JSON decoder, regular expressions and Unicode tables, which are parameters; Base64 of an event's
-- payload, which is kept as bytes; the process of a version probe, whose output is a parameter; the
-- loading of packs, Parse around the validation, and the JSON schema; the HTTP server, tool installation, vendor
-- integrations and the web interface.
pub mod Prelude
pub mod Go
pub mod Host
pub mod Packs
pub mod Discovery
pub mod Planner
pub mod AppError
pub mod Structured
pub mod Executor
pub mod Audit
pub mod Approvals
pub mod Runs
pub mod Tests
