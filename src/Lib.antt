-- ===== src/Lib.antt =====
-- lsstack: a task list for several users, as a web application with an outbox and a job queue.
--
-- The program (package app, under src/app) has three layers. src/app/domain checks and changes plain
-- values. src/app/application holds the use cases: each is called inside one transaction of its caller
-- and works on repositories. src/app/adapters implements the repositories on PostgreSQL, the security
-- helpers, the web handlers and middleware, and the relay and worker of the job queue. A web
-- request signs its caller in by the claims of the session cookie and runs one use case; creating a
-- task writes a message to the outbox in the same transaction; the relay claims messages under a
-- lease, queues a job for each and acknowledges it; the worker's job marks the task as processed.
-- src/app/config.py checks the settings before anything starts. Three programs under tools/ stand
-- beside the service: dev.py runs a local stack, hook_policy.py decides which shell commands an
-- agent may run, and seed.py fills a local database.
--
-- Which file models what (paths from the root of the repository):
--   Domain/Tasks, Users, Outbox          src/app/domain/tasks.py, users.py, outbox.py; errors.py: Exec
--   Persistence/Models                   src/app/adapters/persistence/models.py, the rows and constraints
--   Persistence/Users, Tasks, Outbox     the three repositories of src/app/adapters/persistence/repositories.py
--   Persistence/Engine                   TransactionRunner of src/app/adapters/persistence/engine.py
--   Security/Passwords, Sessions, PublicIds   src/app/adapters/security/
--   Application/Auth, Profiles, Tasks, Outbox   src/app/application/auth.py, profiles.py, tasks.py, outbox.py
--   Queue/Relay, Worker                  src/app/adapters/queue/relay.py, worker.py
--   Web/Forms, Views, Session, Accounts, TaskHandlers, Middleware   src/app/adapters/web/
--   Config, Config/Load                  src/app/config.py: the validators of Settings, and all of them
--   System                               the use cases as sequences of transactions
--   Tools/Shlex, HookPolicy              tools/hook_policy.py, with the lexer of Python that it uses
--   Tools/Dev/Ports, Dotenv, Worktrees   tools/dev.py: the choice of ports, read_dotenv and write_dotenv,
--                                        clean_worktree
--   Tools/Dev/Stack                      tools/dev.py: StackConfig, _config_from_values, load_config
--   Tools/Dev/Processes, Start, Requests   tools/dev.py: _stop_process, _start_process, and sequences of both
--   Tools/Seed                           tools/seed.py
-- Every function keeps its name from the code. The other files hold what is proved of these:
-- Persistence/Validity, Application/Soundness and System/Validity the well-formed database;
-- Persistence/Outbox/* and System/History the outbox; Application/Ownership, Application/Privacy,
-- Application/Confidential and System/Ownership the separation of users; Application/Auth/* and
-- Application/Profiles/* sign-in and sessions; Queue/Relay/Counts and Queue/Relay/Delivery the relay;
-- Persistence/Outbox/Running, Progress and Application/Outbox/Bounds the claims; Domain/Validation and
-- Domain/Emails the validators; Config/Security and Config/Fit the settings; Web/Anonymous the
-- handlers without a session; the children of the modules under Tools those programs; Tests the
-- theorems at concrete inputs.
--
-- How the code is written down. A call is an action of Exec: a function from a state to a result,
-- a value or an exception, and the state after it. The World is the database with the rows that
-- other transactions have locked, and two counters: how often the clock, the salt or a UUID was
-- read, and how often a password was checked. A table is a list of rows in the order of insertion,
-- and a statement is a function on it. Numbers are natural numbers, times are microseconds since
-- 1970, and text is the list of its code points. The code under src/app/ calls Unicode, clock, hash,
-- UUID, SHA-256 and Sqids functions of other packages: the record Platform holds them, and every
-- definition that uses them takes it. A transaction takes as a further input how it ends: it
-- commits, its commit fails, it commits but its answer is lost, or it is cancelled. The queue answers each call as an input says.
-- `urlparse` is an argument of the checks of settings, and what the tools ask of the machine (free
-- ports, files, the answers of git, gh, docker and ps) are arguments of theirs.
--
-- Bounds. Nothing runs on fuel: every loop of the code is over a list, but the one over the 500
-- blocks of ports, which counts them down, and the one that waits for a process to end, which counts
-- the rounds that its deadline leaves. Column widths (320, 200 and 5000 characters, 32-bit integers)
-- are the constraints that Persistence/Models checks.
--
-- Not modelled: waiting for a lock and deadlock, so a transaction sees the rows that are committed
-- when it begins; text with NUL characters; times outside of the range of datetime; the rounding of
-- a float beyond the timestamps of a session; the default of updated_at when an UPDATE does not
-- name it; the texts that the database gives its errors; the identity map of a database session;
-- logs, metrics, traces and templates; start-up and shutdown of the worker; how pydantic reads the environment, and that it reports all errors of
-- the fields at once; src/app/main.py, src/app/adapters/observability/ and migrations/; of
-- tools/dev.py the readiness of the stack, Docker, Playwright and the queries of telemetry;
-- that ports or files change while a tool looks at them; the main functions of the tools, which
-- read and print.
pub mod Prelude
pub mod Text
pub mod Exec
pub mod Values
pub mod Platform
pub mod Config
pub mod Tools
pub mod Domain
pub mod Persistence
pub mod Security
pub mod Application
pub mod Queue
pub mod Web
pub mod System
pub mod Tests
