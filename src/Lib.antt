-- ===== src/Lib.antt =====
-- A verification library for gno-ibc-relayer-api, the service that follows the IBC bridges which a
-- Voyager relayer moves between gno.land and other chains, and serves them over HTTP.
--
-- The program's parts. The indexer (internal/indexer) reads rows of the relayer's tables queue, done and
-- failed, on notifications and in catch-up passes. It parses each row's JSON item, decodes the ABI
-- payloads in it (internal/tools/ethabi) and tracks the bridges in its own table transfers
-- (internal/db). The server (internal/server) reads that table.
--
-- Which file models which part:
--   Abi        internal/tools/ethabi. Schema is types.go; Words and Decoder are decode.go (`decode` is
--              Decode, `tuple_at`, `value_at`, `static_value`, `array_at` and `bytes_at` the methods of
--              decoder); Hex and Zkgm are zkgm.go (`decode_zkgm_packet` is DecodeZkgmPacket, and so on).
--              Outcome has the results: a value, an error or a panic. Fits, Reads, Ends, Sound, Hostile,
--              Payloads, Orders and Hexed have the proofs. Encode is the encoding that Solidity's ABI
--              specifies, and Lengths, Located, Sizes, Trip, Loop, Nested, Arrays and RoundTrip have the
--              proofs that relate it to the decoder.
--   Json       encoding/json, and Strconv strconv, as far as the program relies on them.
--   Config     internal/config/config.go.
--   Db         internal/db/bridge.go and migrations. Record has the bridge record, World the tables, the
--              statements and their faults, Table the SQL, Bridge the methods of BridgeDB (`mark_done` is
--              MarkDone), Trees the statements of an action one by one. Statements, Calm, Advance, Writes, Unique, Listed and Dedupe have the
--              proofs, and Sample a concrete PostgreSQL.
--   Indexer    internal/indexer. Items, Render, Fields and Parser are parser.go; Batches and Sync are
--              sync.go; Marks and Events are listener.go and indexer.go, and Goroutines the goroutines that Run starts.
--              Routes, Agrees, Rows, Effects, Growth, Interleaved, Polled,
--              Handlers, Passes, Runs, Starts, Clean, CleanItems, Quiet, Relevant, Ordered, Tracked,
--              Cursors and Polls have the proofs.
--   Server     internal/server. Cache is ttlcache.go, one call at a time, and Flights its calls at the same
--              time. Handlers is handler.go and Router is server.go. Served, Windows, Steps, Shared, Live,
--              Once, Single, Routed and Status have the proofs.
--   Process    cmd/server/main.go and internal/db/pool.go.
--   Setup      cmd/setup-trigger/main.go. Catalog has the functions and triggers of a database and its
--              statements, Triggers the definitions and the loop of main. Functions, Rounds, Recovery
--              and Complete have the proofs.
--   Seed       cmd/seed/main.go. Draws has the random texts, Rows a sample row and Fill the loop of main.
--              Sampled and Filled have the proofs.
--   Prelude    names, lemmas on lists and numbers, and machine integers that the parts share.
--
-- How state and operations correspond. A function of the program that talks to a database is a function
-- of a World, the tables of both databases, to a result and the World after it. A statement either takes
-- effect as a whole or fails with the tables as they were; a list of Booleans in the World says which of
-- the coming statements fail. A panic is a result of its own, and ends a run. A run of the indexer is a
-- list of events: the start, ticks of the timer, notifications with any payload, and lost connections.
-- In `run` each event is handled whole before the next. In Indexer.Goroutines the poll loop and the three
-- listeners each handle events of their own, statement by statement: a tree of the statements (Db.Trees)
-- is what a goroutine has left of its event, and a list of moves says whose statement comes next, whether
-- it fails, when an event begins, and when the relayer changes its tables.
--
-- Machine integers. `int` and `uint64` have 64 bits; the words that the decoder reads are converted with
-- their wrap-around, and an allocation beyond 2^48 bytes panics as in the Go runtime on amd64. Positions
-- in the data are natural numbers, and theorems on them ask for data below 2^61 or 2^62 bytes. Row ids
-- and times are natural numbers.
--
-- Bounds and fuel. The decoder's recursion follows the schema, a finite tree, and keeps the depth limit
-- of 256. The tracing of a failed ancestor makes at most the 8 rounds of its loop. `digits` has fuel for
-- as many digits as the number has units, and a number has fewer.
--
-- What PostgreSQL leaves open (which row of several it returns, the order of rows of one time) is a
-- parameter, the record `Postgres`, with what its documentation promises as laws.
--
-- Concurrent calls of the cache are a list of moves of numbered calls, each what a call does between two
-- locks. singleflight's Group and chi's Mux are parameters, with what their documentation promises.
--
-- Not modelled: signals and the end of a serving process in cmd/server; the TOML, chi and pgx libraries,
-- which are parameters; http.ListenAndServe; logging; the text of errors; HTTP headers and JSON output.
pub mod Prelude
pub mod Abi
pub mod Json
pub mod Strconv
pub mod Config
pub mod Db
pub mod Indexer
pub mod Server
pub mod Setup
pub mod Seed
pub mod Process
