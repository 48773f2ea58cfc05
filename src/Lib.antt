-- ===== src/Lib.antt =====
-- The Essential node: it keeps the blocks of a chain in an SQLite database, syncs them from another
-- node, validates them in turn, and answers queries of the state that the blocks leave. Paths are from
-- the repository's root.
--
-- Parts, and the files that model them:
--   Types (crates/node-types/src): blocks, their address (Types/Addr: block/addr.rs), the big bang
--     block (Types/BigBang), the keys of the registries (Types/Registry) and the mutations that
--     register contracts and programs (Types/Register), all of lib.rs.
--   Blob: the conversions between words and the blobs of the database, from crates/node-db/src/lib.rs,
--     crates/node-types/src/lib.rs and crates/node-api/src/endpoint.rs.
--   Db (crates/node-db): the tables as lists of rows (Db, from crates/node-db-sql/sql/create), the
--     statements that write (Db/Statements), insert_block and the other operations that change the
--     database (Db/Insert), the queries (Db/Query), the lists of blocks (Db/Listing), the state that
--     finalized blocks leave (Db/Finalized: query_range/finalized.rs) and that at a block address
--     (Db/Address: query_range/address.rs), transactions (Db/Transaction),
--     subscribe_blocks (Db/Subscribe), the pool with its methods (Db/Pool: pool.rs), and how a pool is
--     opened and closed (Db/Pool/Open). Db/GetBlock, Db/Select, Db/Distinct, Db/Ascending
--     and Db/LatestBlock are lemmas on the reads;
--     Db/Stored holds what insert_block adds to the tables and what get_block reads of it.
--   RusqlitePool (crates/rusqlite-pool/src): the pool over a queue (lib.rs), the same behind a semaphore
--     (RusqlitePool/Tokio: tokio.rs), and the steps of its calls by several callers in any order
--     (RusqlitePool/Steps).
--   Validate (crates/node/src/validate.rs): reads of keys through a pool or through the cascade of a
--     dry run, key_range and next_key (Validate/NextKey), the predicates and programs of a solution
--     set (Validate/Registry), validate_inner (Validate/Inner) and the dry runs (Validate/DryRun).
--   Validation (crates/node/src/validation.rs): the errors and which of them end the stream
--     (Validation/Errors) and one round of the stream (Validation/Step).
--   Relayer (crates/relayer/src): sync_blocks (Relayer/Sync: sync.rs), the errors and the loop that
--     starts the stream again (Relayer/Errors: error.rs, lib.rs) and SseDecoder (Relayer/Decode:
--     sync/streams.rs).
--   Node (crates/node/src/lib.rs): ensure_big_bang_block, with its first run and the next one
--     (Node/Start), and run. Handles (crates/node/src/handles,
--     crates/relayer/src/handle.rs): how the streams are closed and joined.
--   Api (crates/node-api/src): the endpoints (Api/QueryState, Api/Blocks: endpoint.rs), the status
--     of a response (Api/Status) and the loop that accepts connections (Api/Server: lib.rs).
--   Cli (crates/node-cli/src/lib.rs): what the arguments of the command ask for.
-- The relayer and the validation share the database: the relayer inserts and finalizes blocks and
-- notifies, and the validation moves its progress over them or enters a failed block. The relayer of
-- one node reads what the API of another one yields from its subscription.
--
-- An operation that writes takes a database and gives the database after it, with a Result where it
-- can fail; a transaction keeps the database as it was where it fails. A pool is a database and
-- whether it was closed. A function that only reads gives its result. An async function is the
-- sequence of its steps, and a task that is spawned runs to its end. A stream is the list of its
-- items. A `HashMap` is an association list.
--
-- Parameters, for code outside the repository: Convert (the conversions of words and bytes, with
-- their documented behaviour as IsConvert, which Convert/BigEndian fills), Hashing and Predicates
-- (addresses and encodings), Checker (check_set_predicates), Text (UTF-8, trimming and JSON), Hex,
-- Engine (the order of rows that a statement leaves open, which SQLite does not document: IsScan says
-- that they are just those there, and IsPermutation that each comes as often as it is there), Failing
-- (how the reads fail that follow the move of the validation progress), Sqlite (opening connections),
-- ArrayQueue, Semaphore and JoinSet (their documented behaviour is
-- IsArrayQueue, IsSemaphore and IsJoinSet; RusqlitePool/Instances fills the first two), and Host (files
-- and directories).
--
-- Numbers: a Word is an integer with the bounds of an i64 where they matter (IsWord), and
-- saturating_add, checked_sub and the wrap of next_key are written out; the gas is a u64 whose sum is
-- checked; an integer that is bound to a statement must be below 2 ^ 63. Fuel: validate_available
-- takes the number of rounds of the inner loop of validation_stream, for which the distance to the
-- latest finalized block is enough; close (RusqlitePool) takes the pops of its loop, for which one more
-- than the queue holds is enough; the queries of Db/Address take the ancestors they visit, for which
-- the greatest id of a block is enough where a parent has a smaller id than its child; run
-- (Relayer/Errors) takes the outcomes of its rounds, and subscribe_blocks and serve what the calls in
-- them give. Every other loop is a recursion on its data.
--
-- Not modelled: HTTP servers and clients, channels, tracing, and the parser of the arguments. SQLite
-- failures other than those the code provokes (a missing row, a null column, an integer out of range,
-- a connection that does not open) occur in the model only where a write is in force before the step
-- that fails: in the reads of a validation round that follow the move of the progress.
mod Prelude
pub mod Convert
pub mod Blob
pub mod Types
pub mod Hashing
pub mod Errors
pub mod RusqlitePool
pub mod Db
pub mod Validate
pub mod Validation
pub mod Relayer
mod Samples
pub mod Node
pub mod Handles
pub mod Api
pub mod Cli
