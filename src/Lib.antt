-- ===== src/Lib.antt =====
-- A verification library for the core of openzigs-social: publishing scheduled posts, and the guards
-- around what an AI does in a conversation.
--
-- The program stores drafts in an outbox; a scheduler makes a poller claim the posts that are due and
-- publish them through adapters, with retries and a dead-letter queue. Inbound messages run through a
-- chain of rules, which asks who owns a thread (handoff) and asks a human for approval (approvals).
-- Calls of the platforms are held to a rate (token buckets, hard quotas, monthly and daily budgets),
-- and a smart router picks a local or a cloud model. A store of single-use states guards the
-- authorisation flows against forged callbacks, and a receiver deduplicates webhooks. Contacts, threads
-- and messages of all platforms are kept in one store; the CRM joins them to identities, scores them,
-- merges them and erases them. A draft of the AI is scored against a rulebook, and is sent or queued
-- for a human with a row in an audit table.
--
-- Files, and the code that they model:
--   Outbox/Types, Outbox/Repository    src/outbox/repository.ts: OutboxRepository, one function for each method
--   Outbox/Poller                      src/outbox/poller.ts, src/outbox/dispatch.ts: OutboxPoller, OutboxDispatch
--   Outbox/Scheduler                   src/outbox/scheduler.ts: OutboxScheduler
--   Outbox/Machine, Outbox/Errors      the calls of the repository as one step, and what each throws
--   PostLimits                         src/outbox/post-limits.ts: POST_LIMITS, validatePost
--   Retry/Backoff, Retry/Dlq           src/platform/retry/backoff.ts, src/platform/retry/dlq.ts
--   Approvals/Queue                    src/approvals/approval-queue.ts: ApprovalQueue
--   Handoff/Manager                    src/handoff/handoff-manager.ts: HandoffManager
--   RateLimit/Bucket                   src/platform/rate-limit/token-bucket.ts: TokenBucket
--   RateLimit/Broker                   src/platform/rate-limit/broker.ts: RateLimitBroker
--   Rules/Types, Rules/Engine, Rules/Facts  src/inbox/rules/types.ts, src/inbox/rules/engine.ts
--   Rules/Validate, Rules/Repository   src/inbox/rules/repository.ts: validateCondition, validateActions, RuleRepository
--   Quota/Twitter                      src/connectors/twitter/credit-tracker.ts, quota-guard.ts and tiers.ts beside it
--   Quota/Youtube                      src/connectors/youtube/quota.ts
--   Routing                            src/copilot/smart-router.ts, src/copilot/privacy.ts
--   Dispatcher                         src/platform/dm/dispatcher.ts: DmDispatcher, humanOwnedGuard
--   Oauth/Store                        src/platform/oauth/state-store.ts: OAuthStateStore
--   Webhooks/Registry, Webhooks/Receiver  src/platform/webhooks/handler-registry.ts, event-store.ts and router.ts
--                                      beside it
--   SocialBrain/Types, SocialBrain/Repository  src/platform/social-brain/repository.ts: SocialBrainRepository;
--                                      SocialBrain/Spec is what it promises
--   Personality/Profiler, Personality/Rulebook  src/personality/profiler.ts and rulebook-repository.ts
--   AutoReply/Decision, AutoReply/Audit, AutoReply/Pipeline, AutoReply/Retention  src/routing/decision.ts,
--                                      audit-repository.ts, pipeline.ts and retention-scheduler.ts
--   AutoReply/Flights                  histories of the halves of src/routing/pipeline.ts, in any interleaving
--   Crm/Email, Crm/LeadScore           src/crm/email.ts, src/crm/lead-score.ts
--   Crm/Types, Crm/Repository, Crm/Sync, Crm/Listing  src/crm/repository.ts: CrmRepository; for one identity,
--                                      what writes, and listContacts
--   Crm/Gdpr                           src/crm/gdpr.ts: deleteContact
--   Db/Migrator                        src/db/migrator.ts: migrate
--   Dispatcher/Reply, Dispatcher/Senders  src/platform/dm/dispatcher.ts: approvalGatedReply, and sender-registry.ts
--   Prelude, Effects, Sql              lists, maps, throwing methods and tables, which the others share
-- The files beside these hold lemmas about them, and the files named Tests run them on small inputs.
--
-- How the code is read:
--   * A class is a record, and a method a function from the state to a result and the state. A method
--     that throws gives an error; what it wrote before stays written.
--   * A stretch of code without an await is one step. Histories are lists of calls in any order, so
--     that interleavings of concurrent callers are among them.
--   * better-sqlite3 is synchronous: an SQL statement is a function on a table, whose rows stand in
--     the order of their AUTOINCREMENT key. JSON columns are kept decoded.
--   * Readings of the clock, random numbers and fresh ids are arguments. Numbers are natural numbers,
--     and ratios, rates and random numbers are fractions of them, so the arithmetic is exact where the
--     code's is in floating point. The waits of a token bucket can be a rounding error short in the
--     code, so nothing is stated of the instant at which one ends.
--   * Timestamps in the store of contacts and in the CRM are numbers of seconds; where messages are
--     sorted by them, the order is that of their texts. An INSERT that conflicts with a UNIQUE index takes no key,
--     and one that breaks a foreign key throws.
--   * Methods that await once (the pipeline of replies, the quota alert) are two halves, which other calls
--     may come between.
--   * Adapters of the platforms are functions from the number of the attempt to a result. Functions of
--     the JavaScript runtime on texts (toLowerCase, trim, length in UTF-16 units, Number, String,
--     JSON.parse, parseInt, Math.log1p, regular expressions) are parameters, and no property assumes anything of them.
--   * A promise is a number. A timer is armed by its request and fires by a call, if it is still armed.
--   * The publishing of the posts of a tick ends in an order that is a parameter.
--
-- Loops are structural, on a list or on the attempts that are left, so there is no fuel; the check of
-- a condition recurs on the levels left of the source's own limit of depth. A call of
-- `acquire` is its start and a round for each time it wakes.
--
-- Not modelled: log lines, listeners that call back into the object whose event they hear, texts of
-- reasons and alerts, a platform that is configured anew while a call of `acquire`
-- sleeps, the joining of repeated headers, and the parts of the program that are HTTP, files, sockets, encryption or the browser.
pub mod Prelude
pub mod Sql
pub mod Effects
pub mod Outbox
pub mod Retry
pub mod Approvals
pub mod RateLimit
pub mod Handoff
pub mod Rules
pub mod PostLimits
pub mod Quota
pub mod Routing
pub mod Dispatcher
pub mod Oauth
pub mod Webhooks
pub mod Personality
pub mod AutoReply
pub mod SocialBrain
pub mod Crm
pub mod Db
