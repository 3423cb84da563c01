-- ===== src/Lib.antt =====
-- SentinelGPT: the security core of the scanning backend, in backend/src.
--
-- A user registers a target, which is normalized (domain/targets), attests to its authorization,
-- and asks for a scan (domain/scans). A worker (workers/scan_tasks.py) runs the scan's job, whose
-- pipeline makes HTTP exchanges from a sandbox. Each exchange follows a chain: the name is resolved
-- at scan time, every address of the record set is checked, a binding of name and addresses is
-- sealed, one address is pinned, and every redirect goes through the same chain again
-- (domain/scanning and scanning/sandbox). Users stay logged in with rotating refresh tokens
-- (domain/users/refresh_service.py). The modules follow these parts, and the words are the
-- source's.
--
-- - Common, with Equality, Lists, Ordered, Tests, Text and Table: texts are lists of code points, a
--   database table is a list of rows under their primary keys, and `Table.Keys.IsKeyed` says that
--   no two rows have the same one, and `Table.Distinct` is about unique constraints.
-- - Errors: the exceptions of domain/errors.py and the result of a call that may raise. Action:
--   calls that read and write a state; `Keeps` carries an invariant, `Outcome` a postcondition and
--   `Ends` a return through a do block.
-- - Network.IpAddress and IpPolicy: domain/scanning/ip_policy.py. An address is its integer. The
--   classes that the ipaddress module gives an address are written out from the tables of CPython
--   3.12.8 and later.
-- - Network.Binding: binding.py, egress.py and scanning/sandbox/policy.py. Network.Resolution:
--   resolution.py and resolver.py. Network.Contract: http_contract.py. Network.Redirects:
--   redirects.py.
-- - Network.Transport and Transport.Hops: scanning/sandbox/http_transport.py. The state records the
--   requests that the sandbox ran and the names that were looked up, newest first.
-- - Targets.Urls and Normalization: domain/targets/target_normalization.py. Hosts and Accepted say
--   what is accepted, Agreement compares the gate with the scan-time policy.
-- - Sessions.Store: refresh_session_repository.py. Sessions.Refresh: refresh_service.py.
--   `meanwhile` is what other requests commit between the read of a row and the atomic step.
-- - Organizations: organization_service.py and membership_repository.py; Rows is about the table of
--   memberships, Roster about the operations. Targets.Registry: target_service.py and
--   target_repository.py. Scans.Attestations: attestation_service.py and its repository.
--   Scans.Audit: the queries of domain/audit/audit_service.py. Scans.Comparison: compare_scans,
--   with Comparison.History on what the history of a target says.
-- - Scans.Lifecycle: domain/scans/lifecycle.py and lifecycle_finding.py. Scans.Store and
--   Store.Session: the rows of infrastructure/database/models and the statements of the
--   repositories; a session has a committed and a working database, a supply of keys and a clock,
--   and records the scans whose pipeline was run.
-- - Scans.Requests: create_scan, get_scan, list_scans, rescan_scan and cancel_scan of
--   scan_service.py. Scans.Findings: the history of findings. Scans.Inputs and Job:
--   execute_scan_job, whose transactions are the stages; Job.Rows is about the lookup tables that
--   the rows of findings need. Scans.Worker: workers/scan_tasks.py.
-- - Sandbox.Commands, Rules and Docker: scanning/sandbox/docker_sandbox.py. The state is that of
--   the object, with the commands sent so far and the supply of random names; Docker.Cleanup is
--   about the containers whose removal was not yet asked for, Docker.Verified about the receipt,
--   and Docker.Reads about what Docker said. Of the comparison of rules, Rules.Lines reads a line,
--   Rules.Enforced says which tables are in order, and Rules.Tables is about tables of the form
--   that the sandbox installs. Sandbox.Services and Executor: scanning/engines/services.py and
--   scanning/runner.py; an engine is an action on the sandbox.
-- - Engine: the analysis of one HTTP response. Findings: domain/scanning/findings.py. Headers,
--   Cookies and Analysis: scanning/engines/http_analysis.py, whose lists to be filled are the two
--   of a `Report`. Closed says what every report is built of, and Cuts how a cookie's text is read.
-- - Claims: domain/scanning/analysis, what a language model says of the findings. Json, Models,
--   Sections and Validator: models.py and validator.py, whose lists to be filled are those of a
--   `Section`. Service: service.py. Known and Grounded say what an assessment rests on, Outcomes
--   what the service returns, be it that it raises, and Calm when it does not.
-- - Tests: concrete inputs and runs.
--
-- Given to the definitions, and used through their types alone: the Unicode tables of Python,
-- urlsplit and urljoin, ip_address on texts, the resolver, the run of the sandbox with the coding
-- of its input and output, the hash of tokens, the tables of users, the pipeline, the fingerprint
-- function, what Docker replies to a command after those before it, the texts of keys in the audit
-- trail, the digest that makes an identity, the JSON text of the transport's evidence, the HTTP
-- client of an engine, the analyzer of the findings with its prompts, and the reading and writing
-- of JSON and of UTF-8, which may raise. What they answer is not assumed, unless a theorem says so.
--
-- Termination: every definition is structural. The redirect loop recurs on the hops that remain, so
-- it needs no fuel; the wait for a container recurs on the looks that the deadline leaves. Numbers
-- are natural numbers: addresses are below 2 ^ 32 and 2 ^ 128, times are counted in whole units,
-- and no machine arithmetic wraps in this code.
--
-- Not modelled: the script inside the container, fingerprinting, users and access tokens, the
-- prompts, the candidate groups and the fallback texts of the analysis by a language model,
-- reporting, and the HTTP interface. The results of the engine are values: their JSON views are
-- left out. Of the job, the evidence rows and the payload of the assessment are left out. Settings,
-- logging, the queue and the migrations are wiring.
pub mod Common
pub mod Errors
pub mod Action
pub mod Network
pub mod Targets
pub mod Sessions
pub mod Scans
pub mod Organizations
pub mod Sandbox
pub mod Engine
pub mod Claims
pub mod Tests
