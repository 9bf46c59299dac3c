-- ===== src/Lib.antt =====
-- A NestJS transport over NATS JetStream: the parts that decide what happens to a message.
--
-- Messages of a stream enter a concurrency gate, which limits how many are in progress and parks the
-- rest. The gate hands a message to its route: the workqueue or the ordered event pipeline, or the
-- RPC router. A route finds the handler, decodes the payload, runs the handler with a context on
-- which it may wish for a retry or a termination, and settles the message (ack, nak, term). While a
-- handler runs, the acknowledgement extension pool tells the server that the message is still in
-- work. A message that has failed for the last time is captured: published to the dead letter queue,
-- or given to a callback.
--
-- A client publishes events and requests to the subjects under which the service that it targets has
-- registered its handlers; it keeps the requests that it waits for in a reply inbox. Before messages
-- flow, provisioning brings the streams and the consumers in order: it compares configurations,
-- makes and recovers consumers, binds what others manage, and recreates a stream by a migration
-- that copies its messages to a backup and back.
--
-- Files and code:
--   Gate                src/server/routing/concurrency-gate.ts; a method returns the new gate and the
--                       calls that it made. Gate/World adds the promises that are pending and what
--                       has arrived; Gate/Invariant and Gate/Laws prove, Gate/Progress is about
--                       promises that settle, Gate/Naks about the naks of its disposal.
--   AckPool             src/utils/ack-extension.ts; the pool with its one timer; proofs in
--                       AckPool/Invariant and AckPool/Tick.
--   Event/Actions       the calls that routing makes, and the effects of try, catch and finally.
--   Event/Context       src/context/rpc.context.ts: the wishes of a handler.
--   Event/Retry         src/utils/retry-delay.ts.
--   Event/Headers       the headers of a dead letter, from dead-letter-capture.ts.
--   Event/Capture       src/server/routing/dead-letter-capture.ts, with
--                       src/server/infrastructure/dlq-options.ts and src/utils/settle-quietly.ts.
--   Event/Settlement    src/server/routing/settlement.ts.
--   Event/Pipeline      src/server/routing/event-pipeline.ts; Verdict says which settlement a
--                       delivery deserves, Laws is about it, Shape about the order of calls.
--   Rpc                 src/server/routing/rpc.router.ts: one command and its race with a deadline;
--                       Rpc/Naks puts the router's gate in front of it.
--   Subject             src/server/infrastructure/subject-utils.ts, against the matching of subjects.
--   Inbox               src/client/rpc-reply-inbox.ts: the pending requests of a client, with
--                       Inbox/Watched on their timers. That a timer fires is the runtime's.
--   Record              src/client/jetstream.record.ts: records and their builder.
--   Client              src/client/jetstream.client.ts: subjects and headers; Client/Emit is the
--                       emission of an event, Client/Request a request of the JetStream mode, with
--                       what may happen to it while it waits (its deadline: Client/Deadline), Client/Core one of the core mode,
--                       Client/Session connecting, closing and the loss of the connection.
--   Names               src/server/infrastructure/name-resolver.ts and the naming functions of
--                       src/jetstream.constants.ts.
--   Registry            src/server/routing/pattern-registry.ts: the kind and subject of a handler.
--   StreamConfig        src/server/infrastructure/stream-config-diff.ts, with the decision that
--                       src/server/infrastructure/stream.provider.ts takes on a difference;
--                       StreamConfig/Shared merges the subjects of a shared stream.
--   Jsm                 the manager of streams and consumers that the client library gives, a
--                       parameter, with src/server/infrastructure/nats-error-codes.ts; Jsm/Rules
--                       reasons about the calls that a function makes of it.
--   Migration           src/server/infrastructure/stream-migration.ts; Migration/Ledger says what a
--                       sequence of calls may do and keep every message.
--   Management          src/server/infrastructure/management.ts: who manages an entity.
--   Binder              src/server/infrastructure/infrastructure-binder.ts.
--   Consumer            src/server/infrastructure/consumer.provider.ts; what the defaults and
--                       the user's overrides come to is a parameter. Consumer/Protocol says which
--                       calls a provisioning may make.
--   Messages            src/server/infrastructure/message.provider.ts: the flow of a consumer, which
--                       starts again whenever it ends.
--   Maps                maps from strings as association lists.
--   Prelude             shared tests and list functions, with their lemmas.
--
-- How it is modelled. An asynchronous function is the sequence of the calls that it makes, and the
-- exception that it ends with. What the surroundings answer is an argument: whether a settlement, a
-- publish, a header or a callback fails, what the codec makes of the payload, what the handler does
-- and wishes. JavaScript runs one callback at a time, so that interleavings are sequences of whole
-- operations: a gate's arrivals and completions are steps of a relation, timers of the pool and the
-- inbox are operations that may come at any time, and a command's fulfilment, rejection and deadline
-- are a list of events in any order. A route is taken not to call the gate again before it returns,
-- and a callback not to call the inbox again. Map and Set are lists in the order of insertion. Times
-- and counters are natural numbers; what is not a number, or negative, is a case of its own where
-- the code asks about it. No function runs on fuel: each loop runs over a list, counts down the
-- publishing attempts, or runs for the rounds that the world gives it before its deadline, and then
-- ends as the source ends at the deadline. The server that provisioning talks to is a parameter, of
-- which nothing is assumed: each call may answer anything and change the world.
--
-- Not modelled: tracing and metrics, which do not steer the code (spans are transparent); connecting,
-- the calls that make and update streams, the lifecycle and the module wiring.
pub mod Prelude
pub mod AckPool
pub mod Binder
pub mod Client
pub mod Consumer
pub mod Event
pub mod Gate
pub mod Inbox
pub mod Jsm
pub mod Management
pub mod Maps
pub mod Messages
pub mod Migration
pub mod Names
pub mod Record
pub mod Registry
pub mod Rpc
pub mod StreamConfig
pub mod Subject
