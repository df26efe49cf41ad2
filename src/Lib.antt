-- ===== src/Lib.antt =====
-- Verification library of the hexagonal backend: a multi-tenant HTTP service with an outbox of
-- asynchronous jobs, webhooks, idempotent requests and sessions of users. Paths are from the
-- repository's root.
--
-- The parts and their files:
--
-- Jobs, src/modules/jobs. A use case writes a job into the outbox table, in its own transaction. The
-- relay worker claims due jobs, dispatches their envelopes and marks them published; the queue worker
-- reads the envelopes, and the handlers do the work in a transaction that also writes a receipt and
-- completes the job. Cleanup, inspection and replay are run by the operator.
--   Jobs/Entity       domain/entities: the job, the receipt and the job's transitions
--   Jobs/Policy       application/job-outbox-retry-policy.service.ts: the delays of retries
--   Jobs/Repository   infrastructure/persistence: the statements; `claim_pending_batch` is the
--                     UPDATE of the rows that the SELECT ... FOR UPDATE SKIP LOCKED chooses
--   Jobs/Relay        application/outbox-relay.service.ts: one claimed job, by what the dispatcher
--                     and the database answer
--   Jobs/Store        the tables, the transaction of both handlers, and their common admission
--   Jobs/Email        application/transactional-email-job.handler.ts
--   Jobs/WebhookDelivery   application/webhook-delivery-job.handler.ts
--   Jobs/Processor, Jobs/Worker   the processor and the queue worker: a message of the queue is
--                     parsed, processed, deleted or left
--   Jobs/Cleanup, Jobs/Replay, Jobs/Inspection   the services of these names
-- Webhooks, src/modules/webhooks. A delivery goes to an endpoint's URL, if the target policy allows it.
--   Webhooks/Endpoint   domain/entities: the endpoint that a delivery updates
--   Webhooks/Target   domain/webhook-target-policy.ts
--   Webhooks/Client   infrastructure/adapters/fetch-webhook-delivery-client.adapter.ts
--
-- Idempotency, src/modules/idempotency and src/common/http. The interceptor begins a request under
-- its key, runs the handler, and completes or releases it.
--   Idempotency/Request, Repository, Service, Interceptor   the entity, the statements, begin,
--                     complete and release, and the interceptor with the keys it makes
--   Idempotency/Steps the statements of many requests one after another
--   Idempotency/Cells what one key promises, without the table
--
-- Sessions, src/modules/iam/auth. A login makes a session and its refresh token, a refresh replaces
-- the token, a logout revokes one session or all of a user.
--   Sessions/Token    src/shared/domain/security/opaque-token.ts
--   Sessions/Entity, Repository, UseCases   the entity, the statements and the use cases
--   Sessions/Steps    the use cases one after another
--
-- Users, src/modules/iam/users, and ActionTokens, src/modules/iam/auth. A password reset and an email
-- verification hand out a token, which is spent on the change of the user.
--   Users/Entity, Repository   the entity, and the statements on users that exist
--   ActionTokens/Entity, Repository, UseCases   the token, its statements, and the four use cases:
--                     request-password-reset, reset-password, request-email-verification, verify-email
--   ActionTokens/Steps   the use cases one after another
--
-- ApiKeys, src/modules/iam/api-keys. A key stands for its owner in one organization, with scopes.
--   ApiKeys/Token     domain/security/api-key-token.ts
--   ApiKeys/Entity    domain/entities/api-key.entity.ts
--   ApiKeys/UseCases  create-api-key, authenticate-api-key and revoke-api-key
--   ApiKeys/Steps     the use cases one after another
-- ApiKeys/Tests also runs a use of a key that overlaps its revocation, and that makes it active again.
--
-- Invitations, src/modules/iam/organizations. An invitation's token makes its holder a member, once.
--   Invitations/Entity, Repository, UseCases   the invitation, its statements with the insertion of a
--                     member, and accept- and create-organization-invitation
--   Invitations/Steps   the use cases one after another
--
-- Usage, src/modules/usage-metering. A request with a key counts in the hour of its key, route and status.
--   Usage/Counter     the counter, its upsert and the service
--   Usage/Metering    src/common/http/interceptors/api-key-usage-metering.interceptor.ts
--
-- Access, src/common/http and src/common/tenant. A request passes the access guard, which asks for an
-- access token or a key, the permission guard, which asks for the member's role, and the tenant
-- interceptor, which sets the organization in which the handler runs.
--   Access/Request    common/http/authenticated-request.ts
--   Access/Authentication   modules/iam/auth/presentation/guards/access-auth.guard.ts
--   Access/Permissions   common/http/guards/permission.guard.ts and its adapter
--   Access/Tenant     common/tenant/tenant.interceptor.ts
--   Access/Chain      the three in their order
--
-- HttpLogs, src/modules/observability/http-logs. A payload is made safe before it is stored.
--   HttpLogs/Serializer   infrastructure/serialization/http-log.serializer.ts
--
-- Members, src/modules/iam/organizations. The role of a member is changed, or the member removed, if
-- the policy finds that an owner is left.
--   Members/Repository, Policy, UseCases   the entity and the statements, the policy, and the two use
--                     cases, change-member-role and remove-member
-- Members/Tests also runs two removals that overlap, and that leave an organization without an owner.
--
-- Shared: Base (lists, tests, outcomes, sorting), Table (rows with a primary key, and the object
-- mapper's `save` as an interface), Json (values of type `unknown`). Tests and Jobs/Samples hold
-- concrete runs.
--
-- Times are natural numbers of milliseconds, and the clock, random texts and what others write
-- between two statements are arguments. What the mail port, the HTTP client, the queue and the
-- database answer is an argument too, so that every failure is covered. A transaction that throws
-- leaves the tables as they were, but for the row of a new API key, whose repository writes in a
-- transaction of its own. The object mapper's `save`, JSON, `split`, `trim`, the hasher and
-- the clock's ISO text are parameters, with what is used of them as hypotheses. Every list is walked
-- by structural recursion, so no fuel is needed.
--
-- Not modelled: the framework's wiring, controllers and DTOs, the schema, the configuration and the
-- texts of emails, which hold no state of the program; the hash of a request's payload, which is a
-- field of the request; the organizations themselves and the exception filter; and the interleaving of two transactions beyond the statements
-- named above.
pub mod Access
pub mod ActionTokens
pub mod ApiKeys
pub mod Base
pub mod HttpLogs
pub mod Idempotency
pub mod Invitations
pub mod Jobs
pub mod Json
pub mod Members
pub mod Sessions
pub mod Table
pub mod Usage
pub mod Users
pub mod Webhooks
