-- ===== src/Lib.antt =====
-- A verification library of three small Go frameworks: CCache (a distributed cache), SuRPC (remote
-- calls with a registry) and SORM (an object-relational mapper).
--
-- Common holds what the components share: lists, association lists, 64-bit integers, outcomes and
-- strings. Go's `string` and `[]byte` are both a `Text`, a list of character codes. A Go function
-- that fails returns an `Outcome`: `ok`, `err` with the message, `panics`, `hangs` for a call that
-- never returns, or `exits` for the end of the program, which runs no deferred function. A Go map
-- is an association list with distinct keys. The methods take the state of their receiver and
-- return it changed. A section under a lock is one step. Where goroutines run at the same time,
-- their steps are constructors of a relation, taken in any order; elsewhere each call runs alone.
--
-- Lru is CCache/lru/lru.go. `Get`, `Add`, `RemoveOldest` and `Len` are `get`, `add`,
-- `remove_oldest` and `len`. The doubly linked list of container/list is a list of elements with
-- their pointers as numbers, and the map goes from keys to pointers. The loop of `Add` runs on
-- fuel, and two more than the number of entries is enough. Byte counts are 64-bit integers with
-- wrap-around. Lru/Elements has the lemmas on pointers, Lru/Invariant the validity of a cache and
-- `Get`, Lru/Store the first half of `Add`, Lru/Evict the loop, Lru/Add the whole of `Add`,
-- Lru/Runs any calls of both.
--
-- Group is CCache/byteview.go, CCache/cache.go, CCache/peers.go, CCache/ccache.go, and `Do` of
-- CCache/singleflight/singleflight.go as a single goroutine runs it alone: it keeps the key in a
-- map while its function runs, and a call that finds a key there waits for it. The getter, the
-- peers and `proto.Marshal` are parameters. Group/Cached is about the box around the cache,
-- Group/Load about one `Get`, Group/Run about many, Group/Peers about peers. Group/Groups is the
-- map of all groups.
--
-- Flight is CCache/singleflight/singleflight.go with any number of goroutines: the two sections
-- under the lock and the statements between them are steps (Flight/Moves), taken in any order.
-- What `fn` returns is up to each step, and it may panic. Flight/Growth and Flight/Invariant have
-- what the steps keep, Flight/Preservation that they do, Flight/Sharing one run for many callers,
-- Flight/Progress the end of a wait and Flight/Panics a wait without end.
--
-- ConsistentHash is CCache/consistenthash/consistent_hash.go: `NewMap`, `Add` and `Get`. The hash
-- is a parameter with values below 2 ^ 32. `sort.Ints` is an insertion sort and `sort.Search` a
-- binary search on fuel of one more than the length, which is enough since each round makes the
-- range smaller. ConsistentHash/Search is about the search, ConsistentHash/Sort the sort,
-- ConsistentHash/Ring distances, ConsistentHash/Owner `Add` and `Get`, and ConsistentHash/Moves a
-- new node.
--
-- Discovery is SuRPC/xclient/discovery.go and SuRPC/xclient/discovery_su.go: the list of servers
-- with the two ways to choose, and the refresh from a registry. `rand.Intn`, `http.Get` and the
-- time are parameters.
--
-- Registry is SuRPC/registry/registry.go: `putServer`, `aliveServers` and `ServeHTTP`. The order
-- in which Go walks the map is that of the association list; the theorems hold for every order.
-- The heartbeat of a server is a POST. Registry/Heartbeat has the goroutine of `Heartbeat` as
-- steps between other requests, where a heartbeat arrives within a delay of its tick and, as
-- `aliveServers` holds no lock, its tests and deletions are steps as well; Registry/Kept and
-- Registry/Listed are about the server in the list.
--
-- Logger is SORM/logger/log.go: the levels, and `Error`, which ends the program.
--
-- Clause is SORM/clause/clause.go and SORM/clause/generator.go: the generators of SQL and the type
-- `Clause` with `Set` and `Build`. A value of the empty interface is an `Arg`, a failing assertion
-- or index is a panic, and what fmt writes for an argument of a type that its verb does not expect
-- is a parameter. Clause/Questions counts the placeholders of a text, Clause/Placeholders those of
-- a clause, and Clause/Build those of a statement.
--
-- Pool is CCache/http.go: `NewHTTPPoolWithOpts`, `Set`, `PickPeer` over the ring of
-- ConsistentHash, and `ServeHTTP` over the groups of Group. Pool/Pick is about the peer that is
-- picked. Pool/Serve is about the answers of `ServeHTTP`, and Pool/Fetch is `httpGetter.Get` over
-- a network that is a parameter.
--
-- Schema is SORM/schema/schema.go with the SQLite dialect: a struct type is what `reflect` says of
-- it, and `Parse` makes a table of it. Schema/Columns is about the columns and the values of a
-- record, Schema/Fields the map of fields.
--
-- Session is SORM/session: Session itself is raw.go and transaction.go, Session/Hooks hook.go,
-- Session/Tables table.go, Session/Records record.go. The database is a record of functions on a
-- state of its own, and the hooks of a type are a function, so both are parameters. An error of
-- the database is logged with `Error`, so it ends the program. Session/Statements, Session/Inserts
-- and Session/Queries are about what is sent to the database.
--
-- Engine is SORM/sorm.go: `Transaction`, `difference` and `Migrate`. Engine/Transactions and
-- Engine/Difference are about the first two, Engine/Migration about the statements of the third.
-- Engine/Opening is `NewEngine` with the registry of SORM/dialect/dialect.go.
--
-- Client is SuRPC/client.go: `Go` hands a call to `send`, the goroutine `receive` completes calls,
-- and `Close` ends the client. Each holds the lock, so they are steps in some order; Client/Run
-- has the steps. What the codec reads is given in the steps. Client/Pending and Client/Receive
-- count the calls that are pending and completed, and Client/Dial is the options and the choice of
-- a protocol. Client/Context is `Call` when its context is done, Client/Connect the dialling over
-- a network that is a parameter, with what it writes to the connection, where it is given whether
-- a client comes in time, and Client/Handshake what the server makes of it. Client/Unavailable is
-- about closed clients.
--
-- Server is SuRPC/service.go and SuRPC/server.go. What `reflect` says of a type is a record, and
-- `token.IsExported` and the codec are parameters. Server/Requests is the loop of `ServerCodec`,
-- on fuel of one more than the headers that can be read, with the goroutines that it starts as a
-- list. Server/Handling is `handleRequest` with its goroutine and their channels, as steps in any
-- order. Server/Lookup is about `Register` and `findService`, Server/Answers about the responses
-- of a request, and Server/Unread about the body of an unknown request. Server/Http is `Accept`
-- and `ServeHTTP`, and what `DialHTTP` makes of its answer. Server/Connection has a connection
-- with the goroutines of its requests as steps in any order, Server/Counts and Server/Served what
-- it has read and written. The value that `newArgv` makes is what the codec's `read_body` returns.
-- Server/Debug is SuRPC/debug.go, with its template as a parameter, and the calls of methods that
-- it shows.
--
-- XClient is SuRPC/xclient/xclient.go: the discovery, the map from addresses to clients, and the
-- clients themselves on a heap, since the map and the calls share them. The part of a dial that
-- uses the network is a parameter. XClient/Cache and XClient/Dials are about the map, XClient/Run
-- about any sequence of dials, closings and steps of the clients (XClient/Keeps has the halves of
-- `dial`). XClient/Broadcasts has the goroutines of `Broadcast` as steps in any order; a call over
-- a client ends with a reply or an error. XClient/Errors is about a server that cannot be dialled,
-- and XClient/Replies about the reply.
--
-- Gob is SuRPC/codec/gob.go: the encoder, the buffer and the connection are a state with
-- parameters for what they do, and Gob/Writes has the laws that they are expected to have, where
-- the buffer may write through to the connection and each of them may fail with a part written,
-- and what a `Write` leaves.
--
-- Demo is the cache node and its API server in main.go, over Group and Pool; Demo/Api is about its
-- answers.
--
-- Not modelled: the generated messages, and the rest of main.go, which prints.
pub mod Common
pub mod Lru
pub mod Group
pub mod Flight
pub mod ConsistentHash
pub mod Discovery
pub mod Registry
pub mod Logger
pub mod Clause
pub mod Pool
pub mod Schema
pub mod Session
pub mod Engine
pub mod Client
pub mod Server
pub mod XClient
pub mod Gob
pub mod Demo
