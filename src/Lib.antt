-- ===== src/Lib.antt =====
-- Locket, a service that keeps locks and presences for distributed components.
--
-- A client asks the gRPC service to Lock a resource: a key, its owner, a value and a type, for a time
-- to live. The handlers validate the request and pass it to the database layer, which keeps one row
-- per key in a SQL table and counts up the row's index at each grant. A granted lock is registered
-- with the expiration registry (lock pick), which starts a check per grant: when the TTL is over and
-- the row still has the index and the id of the grant, the check releases it. The burglar registers
-- what the table holds, at the start and at each tick, so that the locks of a former process expire
-- too. The metrics notifier counts rows. A client's runner keeps one lock or presence alive, and a
-- joint lock starts several such runners in turn, all but the first with a time to get ready in.
--
-- Beside the service there is the older client code for consul: a session, which is renewed and whose
-- lock is watched by goroutines of its own; the runners that keep a lock or a presence with such
-- sessions; a watcher that reports the keys that lose their sessions; and the registration of a service
-- with the agent.
--
-- The files, and the code that each one models:
--   Prelude            library names, shared lists, actions that may fail or panic, int64
--   Models             models/models.go, models/helpers.go, messages of models/locket.pb.go
--                      Models/Wire is the wire codec in models/locket.pb.go: Size, MarshalTo and
--                      Unmarshal of Resource and LockRequest over lists of bytes, and skipLocket;
--                      Models/Wire/Queries has MarshalTo and Unmarshal of the two Fetch requests
--   Sql                what db/lock_db.go uses of the SQL helpers and of the guid provider, which
--                      are outside this repository: operations, and laws on them (`IsSqlHelper`);
--                      the columns of db/queries.go. Sql/Memory is a database that keeps the laws
--   Db                 db/sqldb.go and db/lock_db.go. Db/Contract is the abstract table, with what
--                      each operation of the interface LockDB does to it and returns; Db/Refinement
--                      shows that SQLDB keeps it; Db/Roundtrip works over any LockDB
--   Expiration         expiration/: LockPick is RegisterTTL and the clean-up, Check is what
--                      checkExpiration does after its timer, Burglar is the burglar's Run
--   Handlers           handlers/handler.go: the four calls, over any LockDB. Handlers/Exclusion runs
--                      sequences of calls
--   Service            cmd/locket/main.go: handlers, expirations and burglar on one database and one
--                      registry, interleaved
--   Process            cmd/locket: Config is config/config.go; Host is what main.go calls outside this
--                      repository, with the answers that it gets, and the calls that it makes;
--                      Connection is appendExtraConnectionStringParam; Startup is main up to the end
--                      of the group of runners; Exit is the shutdown that a handler asks for, as a
--                      step relation; Listener is grpcserver/server.go, its runner and its goroutine
--   Runner             lock/lock.go: the runner's loop, over events
--   Joint              jointlock/: the timeout runner's two selects, and the members of a joint lock
--   Consul             the consul client code at the root of the repository. Session is session.go:
--                      its calls over a record of the consul client's (`ConsulClient`, with laws in
--                      Session/Create), its goroutines as a step relation in Session/Steps; Lock is
--                      lock.go, Presence is presence.go, Watcher is disappearance_watcher.go and
--                      Registration is registration_runner.go: the loops over what they receive
--   Metrics            metrics/metrics.go: a tick of the notifier
--   Examples           runs of the service over the database in memory, and tests
--
-- Functions keep the code's names in snake case. A definition such as `Lock` of db/lock_db.go is `lock`
-- on the state, and its parts are named for what they do: `lock_tx` is the function that it gives to
-- Transact, `claim` the tests on what fetchLock returned, `write_lock` the rest. A Go pointer or a nil
-- error is an `Option`; a call that may panic gives an `Outcome`. Shared state is passed explicitly:
-- the database (`Store`), the registry (`LockPick`), the handler's exit channel (`Server`).
--
-- Bounds: modified_index and the TTL are int64 with their wrap-around (`Prelude/Int64`), and the
-- conversion of a TTL to a duration wraps around too. A count is a natural number. The
-- loops go over a list of rows, of locks, of requests or of events; those of the codec that jump in a
-- slice run on fuel, the slice's length in Unmarshal and twice that in skipLocket, which is enough since
-- a round takes a byte or more (Models/Wire/Termination, where `stuck` is the fuel's end). Where
-- goroutines interleave, or a channel may have nothing to receive, the runs are a step relation.
--
-- A transaction either commits what its body wrote to the rows it found or leaves them as they were,
-- and gives the error that it fails with. It may have made attempts before that, which were rolled back
-- and left what they assigned to variables of the caller (`Attempted`). Any statement may fail with an error of the database, and a
-- scan may fail or end early.
--
-- Not modelled: logging; timers, tickers and contexts, which decide when a step happens but not what
-- it does; the codecs of ReleaseRequest and of the responses in models/locket.pb.go, which are
-- generated in the same pattern; LockSchemaPath of schema.go, one call of path.Join;
-- locket_client.go, which dials; the fakes of the tests. The ordered group of runners is outside this
-- repository: main gets from it the error that it exits with.
pub mod Prelude
pub mod Models
pub mod Sql
pub mod Db
pub mod Expiration
pub mod Handlers
pub mod Service
pub mod Runner
pub mod Joint
pub mod Consul
pub mod Process
pub mod Metrics
mod Examples
