-- ===== src/Lib.antt =====
-- ClusterGate is a gateway: administrators configure routes, and each request to a public path is
-- checked (breaker, rate limit, access) and forwarded to a target. This library models the parts of
-- the backend that decide something, as functions into results and states.
--
-- The parts and their files:
-- - Breaker (backend/src/services/circuitBreakerService.ts): `check_circuit_breaker`,
--   `record_success`, `record_failure`, `reset_circuit_breaker` and `get_circuit_breaker_status` on
--   the columns cbState, cbFailureCount, cbOpenedAt and cbLastFailureAt of a route. The proxy asks the
--   check before it forwards a request, and records the outcome after it: `run` of Breaker/Traces is
--   any sequence of these. The calls of incidentService, for which nobody waits, are part of
--   the result (`Notice`).
-- - RateLimit (backend/src/lib/rateLimitStore.ts): `check_rate_limit` on one counter for each route
--   and client, its upsert as the row that it leaves, and `cleanup_rate_limit_counters`.
-- - LoadBalancer (backend/src/services/loadBalancerService.ts): `select_target` with its three
--   strategies, the shared index lbRrIndex and the replica's rrIndexMap, and the operations on the
--   targets.
-- - OrgAccess (backend/src/services/orgAccessService.ts): who may see, manage and delete a route.
-- - ChangeRequest (backend/src/services/changeRequestService.ts): creation, approval, application,
--   rejection and deletion of change requests on the tables change_requests and routes, and the
--   policy that says who needs one and who decides (ChangeRequest/Policy), which reads the roles
--   of OrgAccess.
-- - Session (backend/src/services/sessionService.ts): `issue_session`, `validate_session`,
--   `revoke_session`, `revoke_other_sessions` and `cleanup_sessions` on the table of sessions and
--   the replica's map lastTouch; Session/Lifetime is tokenLifetimeMs. `run` of Session/Revoked is any
--   sequence of these.
-- - TwoFactor (backend/src/services/twoFactorService.ts): setup, enabling, verification with its lock
--   and its recovery codes, and disabling. What otpauth and bcryptjs answer is the parameter `Codes`.
-- - PathAllowlist (backend/src/lib/pathAllowlist.ts): the validation of patterns, and in
--   PathAllowlist/Match `request_segments`, `matches_pattern`, `is_path_allowed` and `route_sub_path`.
--   PathAllowlist/Decode is the language's `decodeURIComponent`.
-- - OrgMembers (backend/src/services/organizationService.ts): `add_org_member`,
--   `update_org_member_role` and `remove_org_member` on the list of memberships.
-- - Organizations (the same file): organizations and teams beside these memberships, with the unique
--   columns, foreign keys (but that of a new member to its organization) and cascades of
--   prisma/schema.prisma. `run` of Organizations/Owned is any sequence of the service's operations
--   but the change of a role.
-- - StreamCapture (backend/src/lib/streamCapture.ts): `new_capture`, `push`, `full` and `total_bytes`
--   on bytes, and in StreamCapture/Finish `finish`, which decodes what was kept; zlib and the decoding of
--   UTF-8 are the parameter `Node`.
-- - ApiKeys (backend/src/services/apiKeyService.ts): `verify_api_key` with its cache of validations,
--   the usage that is flushed later, the revocation epoch that the replicas poll, and in
--   ApiKeys/Manage the changes to a key. `run` of ApiKeys/Runs is any sequence of these on one
--   replica; ApiKeys/Race splits the revocation where it waits for the database. sha256, the drawn
--   keys and the ids are parameters.
-- - Users (backend/src/services/userService.ts, authService.ts and inviteService.ts): the users with
--   their guard on the last administrator in Users/Manage, login and setup in Users/Auth, and the
--   invites in Users/Invites. A login issues a session of Session. `run` of Users/Runs is any sequence
--   of these operations. bcryptjs and the normalization of an email are the parameter `Host`.
-- - Proxy (backend/src/services/proxyService.ts): a request through the gateway. Proxy/Admission is the
--   row of checks of `proxyRequest` (Breaker, Proxy/Address, PathAllowlist, RateLimit, Proxy/Auth with
--   ApiKeys), Proxy/Attempts its loop over the calls of axios, and Proxy/Serve the whole, with the choice
--   of LoadBalancer and what is told to it and to Breaker at the end. What axios answers, decryptSecret
--   and the webhook's HMAC are parameters. Proxy/Headers is which of the request's headers are forwarded,
--   with the Content-Length that a streamed request gets back, Proxy/Build the headers that the target is
--   sent before a route's transforms and what the log keeps of them;
--   Proxy/Location leads a target's redirects back below the public path, and Proxy/Harden is
--   backend/src/lib/proxySecurityHeaders.ts, which a response's headers go through before they are sent.
--   Proxy/Fields are the headers as an object. Proxy/Dispatch is `proxyHandler` of
--   backend/src/proxy/proxyHandler.ts, which finds the route of a request, and the URL that `proxyRequest`
--   makes of the path; the regular expressions of the rewrite rules are a parameter. The query of the
--   forwarded request, transforms and streamed responses are not modelled.
-- - Incidents (backend/src/services/incidentService.ts): incidents, their events, the two detectors and
--   the automatic resolution; `on_notice` takes the calls that Breaker asks for, and `run` of
--   Incidents/OneOpen is any sequence of what detectors and operators do.
-- - Cookies (backend/src/lib/cookies.ts): `strip_cookies`, which the proxy applies to the Cookie header
--   before it forwards a request.
-- - Targets (backend/src/lib/targetDenylist.ts, targetPolicy.ts, security.ts and
--   services/targetPolicyService.ts): which upstreams a route may point at. Targets/DenyList is the list
--   of rules, Targets/Policy an organization's allowlist, Targets/Metadata `is_metadata_ip`,
--   Targets/Check the checks of a saved target, the list that the process keeps, and `safe_lookup`, which
--   the proxy's agents resolve names with, and Targets/Access the test of a target without a route,
--   which reads the roles of OrgAccess. Node's URL, dns, net.isIP and net.BlockList, and toLowerCase and
--   Number, are the parameter `Platform`.
-- - Slugs (backend/src/lib/slug.ts): `slugify` and `looks_like_cuid`.
-- - Routes (backend/src/services/routeService.ts): the routes and their versions. Routes/Save creates a
--   route, after the check of its target by Targets, Routes/Change changes one, Routes/Archive publishes,
--   archives, restores and copies them, Routes/Metadata is the bulk change of their metadata, and
--   Routes/Names picks slugs by Slugs and marks archived names.
--   `run` of Routes/Runs is any sequence of these operations but that change of metadata. The target
--   policy, the test of regular expressions and the cipher are the record `Services`. Columns that
--   the service only stores stand together in `settings`; the export and the metric of active routes
--   are not modelled.
--
-- How the code is written here:
-- - A table that Prisma keeps is a value of `Table` (Prelude/Store): a type of states with the calls
--   that the services make, and the laws that are relied on (a row that was written is found under
--   its id; updateMany and deleteMany treat the rows that their condition selects). Prisma and the
--   database are not part of the repository. `memory` is such a table.
-- - A computation that may throw is a function from a state to a result and a state
--   (Prelude/Results): what was written before a throw stays written. Awaited calls are taken one
--   after another, so a run of a handler is one step; the interleaving of two handlers is not
--   modelled, except that each atomic statement (the counter's upsert, UPDATE … RETURNING) is
--   one step by itself, and that ApiKeys/Race has a check of a key between the steps of a revocation.
-- - Times are milliseconds in ℕ and counts are ℕ, without the bounds of the database's columns.
--   Where the code compares a difference of times, the difference is moved to the other
--   side. `Math.random()` is a fraction, and the weighted choice is computed without rounding.
-- - Loops are over a list, a text, or a number of attempts. Only `is_metadata_within` has fuel, two calls,
--   and `is_metadata_within-enough` says that more change nothing.
--
-- Not modelled: the other services of backend/src/services, of the proxy the query and the
-- streaming, transforms, WebSockets and the log, metrics, the HTTP framework and the routers,
-- listings that only read, the web client, and the deployment files.
mod Prelude
pub mod Breaker
pub mod RateLimit
pub mod LoadBalancer
pub mod OrgAccess
pub mod ChangeRequest
pub mod Routes
pub mod Session
pub mod Slugs
pub mod Targets
pub mod TwoFactor
pub mod Users
pub mod PathAllowlist
pub mod OrgMembers
pub mod Organizations
pub mod StreamCapture
pub mod ApiKeys
pub mod Proxy
pub mod Incidents
pub mod Cookies
