-- ===== src/Lib.antt =====
-- Observable agent workflow memory: a memory for agents in which only what was observed, checked and
-- promoted may be used. Events are appended to a log; memories are proposed from them as candidates;
-- a verification runs checkers on a candidate and issues a receipt; a promotion certifies a candidate
-- that has a passing receipt; retrieval, runs and tool calls use certified memories and receipts.
--
-- The parts and their files, with paths below src/observable_agent_workflow_memory/:
--   Json             core/canonical.py: JSON values, canonical text and digests. `Host` holds what the
--                    libraries supply.
--   Core             core/models.py and core/transitions.py: lanes, records, events, receipts,
--                    manifests, intents, contracts, and the moves between lanes.
--   Storage          adapters/sqlite_storage.py: the tables (`Db`), the methods as actions on a
--                    `World` (tables, clock, source of identifiers), and search.
--   Checkers         adapters/jsonschema_checker.py and adapters/semantic_checkers.py.
--   Gate             runtime/action_gate.py: which external effects may happen.
--   Receipts         adapters/receipt_verifier.py.
--   Promotion        runtime/promotion.py: verification and promotion.
--   Kernel           runtime/kernel.py with adapters/deterministic_proposer.py,
--                    adapters/fts_retriever.py, adapters/local_tools.py and
--                    runtime/self_improvement.py: the operations of an agent.
--   Qualified        qualified/: memories that a receiver may use on stated inputs. Wire, Lines and Native
--                    (native.py, with the models of wire.py in Model) are the bounded JSON, the registered
--                    tool and the reconstruction of a qualification from its sources; Journal is the event
--                    log of store.py with its replay; Eligibility and Decision are eligibility.py;
--                    Consumer is checker.py; Runtime and Use are the methods of runtime.py.
--   Warranted        the operations of Kernel and Promotion together: after any sequence of calls of the
--                    methods that Warranted/Histories.antt lists, the receipts behind the certified
--                    memories.
--   Examples         a host that computes, a session on it, and the theorems applied there.
--   Prelude, Result, Exec   lists, texts and numbers; exceptions as results; and methods that change
--                    a state and may raise, whose state survives the exception as in the source.
--
-- How they interact: the kernel calls the store, the gate and the pipeline; the pipeline calls the
-- checkers and the store; the gate sees the receipts that the kernel has read. A method of the source
-- is a function of the same name. `Keeps` says that an action keeps a property of the state on every
-- path, and `IsConsistent` is the property that the methods of the store keep: the events are numbered
-- without a gap and have the digests of their payloads, the full-text rows have the lanes of their
-- records, and the revisions form one history of each memory that ends in its present lane.
-- `IsWarranted` says that every certified memory names a passing receipt of the store for its update.
--
-- Parameters: a `Host` supplies SHA-256, the successive times and random identifiers, `repr`, pydantic's
-- coercion to an integer, and SQLite's MATCH and LIKE. `MatchesRows` says that MATCH returns rows of the
-- index. `Validation` supplies pydantic's validation of a manifest and jsonschema's messages. The
-- language model's completion and the registered tools are functions. For the qualified memory the host
-- also supplies Python's JSON parser, Fraction and casefold, and `Companion` holds the packages that the
-- source imports: their models, digests and checks, the pinned resources and the installed versions.
-- `NamesArtifact` says that the companion's model of a candidate requires the field artifact_digest.
-- A `Table` is the journal's table in the order of seq; a transaction is a function of it that returns a
-- new table or an exception, and in a use an arbitrary function stands for what others write between its
-- two transactions.
--
-- Recursion is structural, with two exceptions. The decimal digits of a number n are printed on fuel,
-- n + 1, which is more than the number has digits. The traversal of a parsed document runs on fuel 50001,
-- one more than the visits that the source allows.
--
-- Not modelled: the command line, plugins and the opening of a kernel, adapters of language models, the
-- creation of tables and the migration and upgrade of rows of older schema versions, action intents given
-- as mappings; of the qualified memory the opening of the database and its read-only connection, the
-- forming of a qualification and the proposal for a capability runtime, which only compose what the
-- companion packages construct, and economics.py, example.py and cli.py.
pub mod Prelude
pub mod Result
pub mod Exec
pub mod Json
pub mod Core
pub mod Storage
pub mod Gate
pub mod Receipts
pub mod Checkers
pub mod Promotion
pub mod Kernel
pub mod Qualified
pub mod Warranted
pub mod Examples
