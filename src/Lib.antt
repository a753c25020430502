-- ===== src/Lib.antt =====
-- A model of gohex, a Go framework of event-sourced aggregates in hexagonal services, and of the
-- example services that are built on it.
--
-- The parts and how they interact. An aggregate raises domain events through the kernel; the
-- repository encodes them with the registry and appends them to the event store at the version
-- that the aggregate was loaded at. The relay reads the store by global position, translates
-- events into messages and publishes them to a broker behind a checkpoint. Consumers turn command
-- messages into commands of a bus, sagas turn integration events into recorded decisions, and
-- projections keep read tables from the store and from an inbox of foreign messages.
--
-- Which file models which code, by the paths from the repository's root:
--   Prelude             Go's strings and UTF-8, maps, integers and decimal printing; list lemmas
--   Kernel              kernel/: Errors (DomainError, errors.Is, errors.As), Result (a value beside an
--                       error, and panics), Event, Aggregate (Root, Raise, Rehydrate,
--                       TakeUncommitted), Id (ID, NewID, ParseID)
--   EventStore          eventstore/: Types and Contract (store.go), Memory (memory.go: Append is
--                       append, Load load, ReadAll read_all, Head head), Registry (registry.go),
--                       Repository (repository.go: Load is load_aggregate, Save save_aggregate),
--                       Checkpoint (checkpoint.go), Position (position.go, metadata.go), Postgres
--                       (eventstore-postgres/: store.go, and checkpoints.go in Postgres/Checkpoints)
--   Broker              broker/: Message (broker.go), Memory (memory.go: Subscribe is join, next_message,
--                       advance and leave, one for each locked section; Delivery has any number of calls of it
--                       side by side)
--   Cqrs                cqrs/: Command and Bus (command.go), Query (query.go), Wire and Consumer
--                       (wire.go: the func of Handler is consume), Postgres (cqrs-postgres/dedup.go)
--   Relay               relay/relay.go; Run has the loop of Run, one iteration of which is poll
--   Saga                saga/: saga.go, and Runner (runner.go: decide for the middle of process, process,
--                       and handle for the func of Handler)
--   Projection          projection/: projection.go, Inbox and Runners (inbox.go, catchup.go), Wait
--                       (wait.go), Postgres (projection-postgres/inbox.go); Runners/Log has what the
--                       port Inbox promises of ReadAll
--   O11y                o11y/: Backlog (backlog.go), Origin (worker.go, and Inject and Extract of o11y.go)
--   Example             gohex-example/: the services. Contracts (contracts/contracts.go), Handled (what
--                       the command handlers share), Billing, Inventory and Shipping (their domain
--                       packages, and Service for their app.go)
--   Example/Ordering    gohex-example/ordering/internal/: Values and Order (domain/order.go), Ports
--                       (ports/ports.go), Service (app/app.go), Fulfillment (app/saga.go), Summary
--                       (app/projection.go), Notifier (app/notifier.go), Postgres
--                       (adapters/postgres/: a statement is a function on the rows of its table)
--   Example/System      the four services around one order: the commands that the saga's append
--                       recorded, routed by their topic, decoded by the service's registry and
--                       executed, and the services' facts carried to the saga
--   Examples            concrete inputs for the theorems
-- A module below one of these holds what is proved of it.
--
-- How state is modelled. A method of a mutable struct is a function from its state to the new state
-- and the result; an in-memory implementation runs each method, or each locked section of it, under
-- its mutex, so that it is one step. A port is a record of operations over a state type, and its
-- documented contract a record of laws. A Go interface that a type implements is an instance
-- argument. Positions and versions are natural numbers: int64 counters from 1 that no run takes to
-- 2^63; numbers that a caller chooses are integers.
--
-- Bounds and fuel. A loop over data is structural. The retry loop of the command bus has as fuel the
-- attempts that its policy allows, and that of the saga runner its conflict retries, as the code does.
-- publishWithRetry has as fuel the number of waits that the context outlives: the code's loop ends when
-- the context does. The loops of the relay, the projections and the wait run over a list of turns,
-- one for each iteration, that say what the iteration meets: the store as it has grown, the
-- context's state, the waits that are left. A theorem quantifies over all lists, so over runs of any
-- length. The loop of the notifier runs over turns too. Example/System delivers messages on fuel, and
-- its theorem gives the number of deliveries after which none is left. The digits of a number have the
-- number and one as fuel, which is more than there are.
--
-- Parameters. encoding/json is a pair of functions, marshal and unmarshal, with the hypothesis IsCodec
-- (it reads back what it wrote for an event) where a theorem needs it, for the database columns with
-- IsJson, and for the commands of the example with IsCommandCodec. It fails where the marshaller of a
-- field does, and keeps a string only where it is valid UTF-8: IsMoneyJson and IsOrderCodec ask for no
-- more. The clock is an argument, as are the random bytes of NewID and the lengths of waits, which only
-- show as ended or not. So are the text map propagator and the meter of the telemetry library
-- (KeepsOrigin: the propagator leaves the keys of an origin alone), and which statements of the database
-- fail.
--
-- The database. A statement is a function on the rows of its table, of which a new one is the last;
-- one that fails, or a transaction whose commit fails, leaves the rows as they were. A jsonb column
-- holds the text as the database writes it back, so that what is stored is what was given up to the
-- layout of its JSON. Append of the PostgreSQL store is one step: it holds a lock for the whole store.
--
-- What is not modelled: the Kafka adapter (calls of a client library), the rest of o11y (spans and
-- metrics around the other parts), the DDL of the migrations, the conformance tests, and the HTTP
-- server and commands of the example. The concurrent Run of the saga runner is left out, and the
-- observer of a projection, which only derives a context. A panic of a handler ends the process and
-- is not caught anywhere.
pub mod Prelude
pub mod Kernel
pub mod EventStore
pub mod Broker
pub mod Cqrs
pub mod Relay
pub mod Saga
pub mod Projection
pub mod O11y
pub mod Examples
pub mod Example
