-- ===== src/Lib.antt =====
-- CourseFuzz hardens an instructor's test suite: it runs the suite against programs with known
-- misconceptions, looks for an input on which a survivor disagrees with every accepted solution, and
-- proposes one regression test, which is written to a destination once the instructor has approved
-- its exact bytes.
--
-- The parts, and the files that model them:
--   * Models, Models/Atom: the records of src/coursefuzz/domain/models.py, and the values that
--     programs print (`str | int | float | bool`) with Python's equality. A finite double is an exact
--     multiple of 2 ^ -1074, so 1 == 1.0 == True holds and no rounding is lost.
--   * Oracle: src/coursefuzz/domain/oracle.py. Each oracle is a function into a reading, CompositeOracle
--     the function `decide`.
--   * Engine: src/coursefuzz/domain/engine.py. `run_batch` is _run_suite_batch, Engine/Measure is
--     _measure, Engine/Verify is _verify_hypotheses, Engine/Select the `min` of analyze, Engine/Patch
--     bind_candidate_payload and _build_patch, Engine/Analyze analyze and verify_applied_patch.
--   * Repository: src/coursefuzz/repositories/sqlite.py. The tables are a record, each method is one
--     transaction on it.
--   * Runs: src/coursefuzz/services/run_service.py. Runs/Analyze is create_run and analyze_run,
--     Runs/Apply approve and apply, Runs/Poll poll_external_ci, Runs/Recover recover_incomplete_runs.
--     The world is the repository's store, a count of the calls made outside, and a log of the calls
--     of DestinationCoordinator.apply.
--   * Destinations: src/coursefuzz/adapters/destinations.py, the requests of `_request`;
--     Destinations/Github is GitHubDestinationAdapter, Destinations/Coordinator
--     DestinationCoordinator, Destinations/Delivered the run service over them.
--   * Installations: src/coursefuzz/security/installations.py, the tables and the interface of a store.
--     Installations/Sqlite is the backend over SQLite, Installations/Payload is
--     src/coursefuzz/security/webhooks.py, Installations/Webhook the endpoint github_webhook of
--     src/coursefuzz/api/routes.py.
--   * Hypotheses: src/coursefuzz/adapters/generators.py; Hypotheses/Deterministic is
--     DeterministicHypothesisProvider of src/coursefuzz/adapters/hypotheses.py.
--   * Assignments: the assignment tables of src/coursefuzz/repositories/sqlite.py and
--     src/coursefuzz/services/assignment_service.py over them.
--   * Access: src/coursefuzz/security/access.py.
--   * RateLimit: src/coursefuzz/security/rate_limit.py. Coverage: src/coursefuzz/domain/coverage.py.
--   * Prelude: shared tests, lists, integers, dictionaries, texts and results. Examples: a small
--     assignment, stores and worlds, and the theorems at work on them.
--
-- How they interact: the run service calls the engine and the repository as the code does; the engine
-- calls the oracle; the repository holds the runs, their approvals and the trail of events. The
-- destinations are a port of the run service, which Destinations/Delivered fills with the coordinator.
--
-- Errors are values: `Result` carries Python's exceptions, and a `try` is `try_else`. What is not
-- in the repository's Python, or not modelled, is a parameter: `Env` has the clock, the
-- sandbox, the hypothesis provider, the AST analyzer, SHA-256, JSON and `repr`; `Ports` has the clock,
-- random tokens, the reading of an assignment, the destinations and the files; `Remote` has GitHub's
-- answers and the credentials, `Files` the disk, `Tools` what the assignment service is given. `Env`,
-- `Ports`, `Remote` and `Files` may answer differently at each call, by the number of calls made
-- before. Loops are structural recursion over the lists that the code walks; the attempts of an analysis are counted down from the code's constant,
-- so no fuel is needed. Instants are natural numbers. The arithmetic of the rate limit's floats is a
-- parameter (`Floats`). Texts are sequences of characters, so that a lone surrogate, which JSON can
-- escape, has no text here. An id that does not fit 64 bits raises where SQLite would bind it.
--
-- Not modelled: the HTTP API but for its webhook, both PostgreSQL stores, GitHub's credentials, the
-- language model, the subprocess and container runners, input validation by pydantic, and the evidence
-- dictionary's text. The UNIQUE constraint on random tokens is taken to hold. An operation of the run
-- service is one sequence of steps; other processes act between operations, and Repository/Claims
-- orders the single transactions in every way.
pub mod Prelude
pub mod Models
pub mod Oracle
pub mod Engine
pub mod Hypotheses
pub mod Assignments
pub mod Repository
pub mod Destinations
pub mod Installations
pub mod Runs
pub mod Access
pub mod RateLimit
pub mod Coverage
pub mod Examples
