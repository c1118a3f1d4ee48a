-- ===== src/Lib.antt =====
-- ContractRadar: contractual notices of construction projects, from the deadline of a notice to the
-- record of its delivery.
--
-- The parts, and how they fit together. A request (a server action or API route) runs a service of
-- apps/web/src/server/services. The service asks the request's context for a capability, opens a
-- transaction on the tenant's rows, applies the rules of a package under packages, writes the rows
-- and a row of the audit log, and commits; what it throws undoes the transaction. The packages are
-- pure functions. They are modelled as such, and the services over a store with explicit state.
--
-- Which file models what:
--   Prelude          library names, Boolean tests on native numbers, lists as arrays, integers,
--                    strings as lists of UTF-16 code units, sorting
--   Service          what the services share: Result (apps/web/src/server/errors.ts, and do blocks),
--                    Context (server/authz/context.ts and server/db/tenant-context.ts: the context of
--                    a request, requireProjectCapability, withTenantTransaction), Rows (tables as lists)
--   Authz            packages/authz/src: Roles (roles.ts), Capabilities (capabilities.ts), Grants and
--                    Permissions (permissions.ts: the tables, and capabilitiesForTenantRole to
--                    resolveCapabilities); a `Set` is the list of its elements as they were added
--   Delivery         packages/notice-delivery/src/domain.ts and types.ts: Status
--                    (aggregateRecipientStatus), Retry (classifyRetry), Validate (validateCoverMessage,
--                    sanitizeDispatchHtml, validateRecipientsForDispatch, validateAttachmentChecksums),
--                    Risk (computeDeliveryRisk), Receipt (assessDeemedReceipt,
--                    assertAuthorizationDispatchable), Keys (buildIdempotencyKey,
--                    buildDispatchSnapshotChecksum)
--   Dispatch         apps/web/src/server/services/notice-delivery.ts: Types (the rows, as in
--                    apps/web/prisma/schema.prisma), Store (tables), Snapshot
--                    (createDispatchPackageSnapshot), Authorization (request, authorize, reject and
--                    revoke), Provider, Rows and Send (sendApprovedNoticeEmail,
--                    recordManualDispatch), Evidence (uploadDispatchEvidence to
--                    verifyAcknowledgment), Receipts (assessReceipt, confirmContractualService), Webhook
--                    (processDeliveryWebhook); Guards, Once, Bodies, Keeps, Confirm and Reach hold the
--                    theorems, Reach the requests as a step relation
--   Deadline         packages/contract-rules/src/deadline-engine.ts: Rule (validateExecutableRule),
--                    Calendar (isBusinessDay, adjustNonWorking, addBusinessDays), Steps and Engine
--                    (validateTriggerDate, validateCalendarRevision, calculateDeadline), and
--                    Engine/Compare (compareCalculationResults); the modules below Engine hold the
--                    theorems
--   Tracking         apps/web/src/server/services/deadlines.ts: Types (the rows), Store, Events
--                    (createProjectEvent, addProjectEventDate, verifyProjectEventDate,
--                    linkProjectEventEvidence, confirmProjectEvent), Rules (confirmRuleApplicability),
--                    Calendars (createProjectCalendar, createCalendarRevision,
--                    approveCalendarRevision), Calculation (calculateEventDeadline, which runs the
--                    engine of Deadline on rows of the tables), Deadlines (verifyDeadlineCalculation,
--                    createTrackedDeadline, recalculateDeadline); Traceable, Keeps, Makes, Replaces, Reach
--                    and Carried hold the theorems, Reach the requests as a step relation
--   Access           apps/web/src/server/authz/context.ts, services/tenants.ts, services/projects.ts
--                    and auth/active-tenant.ts: Cookie (signTenantId, verifySignedTenantValue,
--                    readActiveTenantId), Types (the rows, and the world of a request: its session,
--                    its cookie and the tables), Context (requireAuthenticatedUser to
--                    requireProjectCapability), Tenants (listAuthorizedTenants,
--                    selectActiveTenant), Projects (createProject, updateProject and the queries),
--                    Members (listProjectMembers, addProjectMember); Contexts, Refusals, Governed,
--                    Changes, Fairness, Reach, Allowed, Listed, Passed and Updates hold the theorems
--   RateLimit        apps/web/src/server/auth/rate-limit.ts: limitWithRedis, limitWithMemory,
--                    consumeRateLimit and the functions for each operation (consume)
-- The Tests modules run the definitions on concrete values.
--
-- Parameters. The package luxon is the record Luxon of its operations on an unknown type of times, zod
-- the record Zod of its answers, hashing and `JSON.stringify` are functions, a provider is a record of
-- its answers. Redis is its answers to `incr` and `ttl`. Nothing is assumed of them.
-- The digests of the cookie are the record Crypto, of which IsUsable says what two theorems rely on.
--
-- Bounds. The loops of addBusinessDays and adjustNonWorking stop after 5000 and 370 rounds in the source
-- and here: the rounds that are left are the structural argument. The search for a working day in
-- assessDeemedReceipt makes 14 rounds. Every other loop is over a list.
--
-- Numbers are native natural numbers, times are milliseconds since 1970. A duration is an integer of
-- ten-thousandths, which is what the column `Decimal(12, 4)` holds. An identifier of a row is a
-- number, and a new row gets a fresh one.
--
-- Not modelled: the sentences for people in traces and errors (a constructor stands for each), the
-- metadata of the audit log, row-level security (every query names its tenant), concurrent
-- transactions. The rest of the services and packages is listed in the manifest with the reason.
mod Prelude
pub mod Authz
pub mod Service
pub mod Delivery
pub mod Dispatch
pub mod Deadline
pub mod RateLimit
pub mod Access
pub mod Tracking
