-- ===== src/Lib.antt =====
-- A model of the backend's core logic: scans and their lifecycle, the findings that scans leave, the
-- sessions and tokens of users. The program keeps its state in PostgreSQL and Redis; a module here
-- models the part of that state that it reads and writes, as lists of rows, and each function of the
-- program is a function from that state to a result and the state it leaves.
--
-- How the parts interact. The HTTP services (app/modules/*/service.py) run in a database session:
-- they change its working rows, commit, and then publish an event, so that an event stands for
-- committed rows. Scans are created and dispatched by the service and move through the state machine
-- of app/modules/scans/state.py, whose claim, transition and reaper are conditional UPDATEs that the
-- workers compete with. A wake of a worker claims the oldest ready scan and runs the executor on it:
-- the graph scans with Nmap what the target gate lets through, parses the documents, drops repeated
-- findings and upserts the rest by identity into the vulnerabilities table; the reaper ends what a
-- dead worker leaves. The consumer loop reads the events back from a stream of Redis, with retries and
-- dead letters. Logins hand out an access token, whose id is tracked in Redis, and a refresh token,
-- whose hash is a row; refresh, logout, a change of password and the deactivation of a tenant revoke
-- them.
--
-- Files and code.
--   Prelude, Outcome, Sql, Paging, Json, Text: shared helpers. Outcome is what a function does: return or
--     raise. Sql is SELECT, UPDATE, DELETE and count over lists of rows. Paging is ORDER BY created_at
--     DESC, id DESC with OFFSET and LIMIT. Json is JSONB values, Text the methods of `str` on keys.
--   Database, Events: rows (app/modules/*/models.py), the session with what is committed and what the
--     transaction sees, and the events (app/event_schemas.py).
--   Scans.Status, Scans.State and below: app/modules/scans/state.py, one function per function there, with
--     the same names.
--   Scans.Config, with Reading and Accepted: `_validate_scan_config`; Scans.Service: get, cancel,
--     dispatch and delete; Scans.Authoring: create and update, of app/modules/scans/service.py.
--     Scans.Tenancy and Scans.Service.Once, over Used and Spent, put them together.
--   Vulnerabilities.Identity, Upsert, Service: `finding_identity`, `upsert_findings` and the service calls of
--     app/modules/vulnerabilities/service.py. Closing, Announcing, Isolation, Listing and Once prove.
--   Assets.Values, Assets.Service: `_validate_asset_value` and the calls of app/modules/assets/service.py.
--     Distinct, Stored, Links and Cascade prove.
--   Nmap.Targets, Command, Findings: app/modules/scans/targets.py and nmap/command.py, parser.py and
--     findings.py. Allowed, Argv and Families prove.
--   Pipeline.Graph, Executor, Worker: app/agents/scan_graph.py and runner.py, app/modules/scans/executor.py,
--     app/worker/tasks.py. Terminal, Finish, Atomic, Track, Dedup, Rows, Refines, Flight, Recovery and
--     Severities prove.
--   Bus: app/event_bus/bus.py and consumer.py, with `_consumer_loop` of app/main.py. Delivery and Drain prove.
--   Tenants.Slug, Service: app/modules/tenants/service.py. Search, Deactivation and Limits prove.
--   Users.Service, Router: app/modules/users/service.py and the policy of router.py. Rank and Escalation
--     prove.
--   Security.Roles, Tokens, Redis: app/core/security.py, with a Redis in which each command can raise.
--     Denials and Revocation prove.
--   Auth.Tokens, Sessions: app/modules/auth/service.py: refresh tokens with the session cap, login, refresh,
--     logout, change of a password. Cap, Rotation, SingleUse, Calls and Guards prove.
--   Access and Access.Contract: app/dependencies/cross_tenant.py, with the row-level security that the tenant
--     context steers.
--   CurrentUser: app/dependencies/auth.py; Refused proves.
--   Lock and Lock.Held: app/core/dist_lock.py: one key, its expiry, and the steps of the processes that
--     compete for it. RateLimit, Escalation and Lockout: app/core/rate_limit.py.
--   Samples in each part hold concrete states and requests.
--
-- Conventions. Identifiers, times, jtis and hashes are natural numbers; times are in seconds, scores in
-- tenths; texts that the program takes apart are lists of code points. What a call does not decide
-- itself (the clock, new ids, whether the commit, the publishing or a Redis command goes through,
-- whether a lock is acquired) is in the record `Env` or `AuthEnv`, or an argument, and the theorems
-- hold for every choice; so are, for a run of the executor, the step that raises or is cancelled and the
-- operations of the state machine that other transactions commit while Nmap runs; that the service
-- creates, edits, dispatches or deletes a scan meanwhile is left out. A raise is a value beside the
-- state it leaves. Rows that another transaction has locked are given to the claim and to the refresh
-- as a test. Loops are structural on lists; fuel is the number of digits of `str(n)`, one more than the
-- number, and the number of tests in the search for a slug, which Tenants.Search shows to be enough.
-- Parameters stand for code outside the repository: `repr` of nested JSON, the jwt package, bcrypt,
-- ipaddress and HttpUrl (`Libraries`), the resolver, the XML parser and the patterns of the findings
-- (`Patterns`), the NFKD normalisation and the pydantic model of the settings. Two settings stand at
-- their defaults: the lifetime of an access token (ACCESS_TOKEN_EXPIRE_MINUTES, in seconds) and the
-- three retries of an event (EVENT_MAX_RETRIES). A cascade of a foreign key is part of the delete that
-- sets it off.
--
-- Not modelled: routers and pydantic schemas (status codes and field limits), the Celery wiring, the
-- process that runs Nmap and its pipes, reports, enrichment, language models, the dashboard, the
-- publishing of events, the creation of consumer groups and the raises of the commands that read a
-- stream, configuration, logging and metrics, migrations, and the frontend. Below the services,
-- row-level security in PostgreSQL is a second layer under the predicates that they write, and is left
-- out there.
pub mod Prelude
pub mod Sql
pub mod Tenants
pub mod Users
pub mod Outcome
pub mod Paging
pub mod Json
pub mod Events
pub mod Database
pub mod Scans
pub mod Text
pub mod Vulnerabilities
pub mod Security
pub mod Auth
pub mod Access
pub mod Bus
pub mod CurrentUser
pub mod Assets
pub mod Nmap
pub mod Pipeline
pub mod Lock
pub mod RateLimit
