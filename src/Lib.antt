-- ===== src/Lib.antt =====
-- Verification of the trust core of byok-business-autopilot: what an agent may spend, what it may do
-- without a person, how a chain of its steps moves on, and who may read the keys it works with.
--
-- Parts and how they interact. The router asks the cost gate before a task runs; the gate estimates the
-- cost, checks ceilings against its own ledger, and reserves in the durable store, which has the last
-- word. What a task wants to do afterwards goes through the approval queue: an effect runs only on a
-- person's verdict, and a draft skips review only by earned autonomy. Chains order several steps with
-- approval gates between them, and share the effect descriptors of the queue. The vault keeps the keys
-- that tasks and effects use: Brain keys for models, Hands keys for other services. Schedules of a tenant
-- start the recurring work, webhooks the work that another service asks for.
--
-- CostGate, for packages/cost-gate/src:
--   Pricing (pricing.ts), Estimator (estimator.ts), TierRouter (tierRouter.ts), Ledger (reservations.ts),
--   Ceilings (ceilings.ts), Gate (gate.ts: evaluateGateVerdict is evaluate_gate_verdict), Service
--   (costGate.ts: evaluateAndReserve, settle, release) and Store (durable/reservationStore.ts:
--   InMemoryDurableReservationStore in Store, PostgresReservationStore in Store/Postgres), Batches
--   (exhaustion.ts, durable/batchStore.ts).
-- ApprovalQueue, for packages/approval-queue/src:
--   Types (types.ts, denyList.ts), Autonomy (autonomyEngine.ts, durable/autonomyStore.ts; the SQL store in
--   Autonomy/Postgres), Store (durable/approvalStore.ts; the SQL store in Store/Postgres), Trail (the
--   state, events and audit of queue.ts and auditLog.ts, and the EffectExecutor interface) and Queue
--   (queue.ts: submitProposedAction, resolve, submitRecommendation, resolveRecommendation,
--   revokeAutonomy, acceptOffer).
-- Chains, for packages/chains/src:
--   Types (types.ts), Engine (chainEngine.ts) and Store (durable/chainStore.ts, in memory).
-- Router, for apps/router/src:
--   Types (types.ts, the entries of durable/ledgerStore.ts), State (the router's state, and what it makes
--   of a task; durable/dedupStore.ts and durable/ledgerStore.ts in memory) and Task (router.ts: submitTask
--   is submit_task). The agent's executor is a parameter, and the tags are an argument. Tagging is
--   tagging.ts, whose deriveTags makes the tags, and Task/Locked puts the two together.
-- Vault, for packages/vault/src:
--   Types (types.ts), Crypto (crypto.ts, kms.ts), Handle (fingerprint.ts, secretHandle.ts), Deks
--   (dekStore.ts, and durable/dekRecordStore.ts as steps of callers that race), Keys
--   (durable/vaultKeyStore.ts; the SQL store in Keys/Postgres), and vault.ts in State (the state, the
--   audit log, the hooks), Brain (the methods of Brain keys), Hands (those of Hands keys),
--   Hands/Refresh (the fresh credential of decryptHandsKey) and Calls (sequences of its methods).
-- Jobs, for packages/jobs/src:
--   Cadence (the cadences and their floor), Breaker (the circuit breaker), Sync (tenantScheduler.ts);
--   Sync/Desired is apps/api/src/scheduler/computeDesiredSchedule.ts.
-- Webhooks, for packages/webhooks/src: the check of an event, the event log, the secrets in memory.
-- Base holds what they share; Tests runs each part at concrete inputs.
--
-- Conventions. Ids and texts that are only compared or handed on are numbers; a payload is the list of
-- its UTF-16 units; tags are strings. Money is an exact integer in 1e-13 dollars, so the rounding of
-- floats and of NUMERIC(14,6) is left out. The wording of errors, reasons and refusals is left out: they
-- are constructors. Times are milliseconds. The ids that randomUUID draws, random
-- draws, the clock and the UTC day are arguments. A Map is an association list in insertion order. An
-- async method runs undisturbed to its end, apart from getOrCreateDek, whose steps interleave in
-- Deks/Race; a transaction runs whole on a copy. The executor of effects is a parameter, and the state
-- lists its calls. No function uses fuel: all recursion is on lists.
-- In the vault and the jobs a text is the list of its UTF-8 bytes. node's cipher, JSON and Date.parse are
-- fields of the Platform that the vault takes, and hypotheses say that a box opens under its own key and
-- additional data, and under no other additional data. The check of a webhook's signature is a parameter.
-- The queue of BullMQ is an interface with the laws of upserting and removing a schedule.
--
-- Not modelled: refreshes in flight that callers of the vault share, and the files of the master key;
-- the SQL stores of data keys, chains, router tasks and webhook secrets; the workers of the jobs; the
-- agents, their templates, prompts and model calls; the executors of effects; the database, sign-in,
-- mail, web and HTTP code. They are I/O or calls of third-party services, or lie outside of this core.
pub mod Base
pub mod CostGate
pub mod ApprovalQueue
pub mod Chains
pub mod Router
pub mod Vault
pub mod Jobs
pub mod Webhooks
pub mod Tests
