-- ===== src/Lib.antt =====
-- massa-history: the Rust indexer in massa-indexer/src, which archives a Massa node's blocks,
-- operations, events and transfers in RocksDB and fills its gaps from peers.
--
-- How the program is put together. `ingest.rs` is the single writer: it applies the node's streams
-- and the patches that peers ship. `db.rs` holds the rows, under the keys that `keys.rs` lays out
-- from the identifiers of `ids.rs`. The backfill walker (`peer/backfill.rs`) sweeps the slots from
-- the FINAL head down and asks peers for what `needs_fetch` finds missing. A peer's answer is
-- applied by `peer/patch.rs`; where it contradicts a FINAL verdict of ours, the arbiter there
-- decides from the parent links of the neighbouring final blocks. `repair.rs` walks ranges of old
-- periods in passes of its own: it rebuilds transfers from stored operations, which the writer takes
-- as a patch like a peer's, and asks peers for parts that are missing.
--
-- What is modelled, and where.
--   Bytes        bytes as numbers below 256, with what keys.rs uses of Rust's standard library:
--                big-endian bytes, `!`, the order of slices, `starts_with`
--   Keys         massa-indexer/src/keys.rs, every function: Slot (slot keys and per-slot primary
--                keys), Index (builders), Parse (parsers); RoundTrip, Composite, Order and Scan
--                hold the theorems
--   Ids          massa-indexer/src/ids.rs: identifiers and addresses, over a parameter for the
--                crate bs58
--   Model        massa-indexer/src/model.rs: slot rows and completeness, the other rows in Rows,
--                Operations and Transfers
--   Error        massa-indexer/src/error.rs
--   Arbiter      massa-indexer/src/peer/patch.rs, from `Verdict` to `arbitrate_in_dead_fork`: one
--                function for each of the source, each loop a function of its own over the rounds
--                that are left; the store enters as the two reads of a `Reader`, which may fail
--   Db           massa-indexer/src/db.rs: the rows and the index keys as one state, each write with the
--                keys that it puts and deletes: Events (events and transfers), Calls (async messages
--                and deferred calls). An `Action` maps the state to a result and the state after it,
--                also where the result is an error; Frame takes runs apart
--   Reconcile    massa-indexer/src/ingest.rs, the two functions that derive the states of async messages
--                and deferred calls from transfers (LifeCycle, Deferred)
--   Patch        massa-indexer/src/peer/patch.rs from `apply_legacy_patch` on: Parts (what each part
--                writes), Apply (`apply_peer_patch` in its stages), Forced, Legacy. Verdict has the
--                ways a verdict is reached as a relation, Settle and Outcome a whole run, Arbitrates, Writes
--                and Runs why it comes to an end; Priority, Promotion,
--                Settled, Failure, Operator, PlacedAll and Archive hold the theorems
--   Backfill     massa-indexer/src/peer/backfill.rs: the configuration and `needs_fetch`
--   Codec        massa-indexer/src/codec.rs with massa-indexer/proto/indexer/v1/storage.proto: slot
--                rows, the metadata row and the status enums (Rows), over a parameter for the
--                crate prost
--   Ingest       massa-indexer/src/ingest.rs: the messages of the node that it reads
--                (massa-proto/proto, in Messages) and their decoding (Decode); one action for each of
--                `handle_block` (Blocks), `handle_exec` (Exec, with Pool for the async pool) and
--                `handle_transfers` (Transfers); Worker has the events and the two lanes of `run`.
--                Frame, Handlers, Rows and Total follow the writes of a handler; Moves is the abstract
--                view of a slot, Refines, Verdict, VerdictExec and Live relate the handlers to it;
--                Placed, Settles, Attribution, Lanes, Total and Reach hold the other theorems
--   Repair       massa-indexer/src/repair.rs: the patch that is rebuilt for a slot, with
--                `legacy_op_to_transfer` of massa-indexer/src/legacy/decode.rs, and which slots lack parts;
--                Passes, Windows and Needy have the two checkpointed passes as lists of what they do;
--                Resume, Needy, Payments and Rebuilt theorems
--   Registry     massa-indexer/src/peer/registry.rs: the routes to peers, each operation a function
--                on the registry; Steps runs them in any order
--
-- Conventions. A u64, u32 or u8 is a natural number; its range is a hypothesis where a theorem
-- needs it, and an addition that may wrap has its modulus written out. A fixed-size array is a list
-- of that length. A text is the list of its code points. `Result` and `?` are the type `Result` and
-- the bind of a `do` block.
--
-- Bounds. The loops over periods count their rounds, which the source fixes: 512 periods ahead or
-- back, 64 parent links. The passes of Repair count the periods of their range, and a pass that
-- goes down has at least a period in each window, so that `hi + 1` rounds are enough. `run` of
-- Ingest/Worker counts the turns of the writer, each of which takes an event, finds a lane empty or
-- retires one. Each recursion is structural. The indices of events and of rows in a slot are taken
-- modulo 2 ^ 32, a thread of the node modulo 2 ^ 8.
--
-- What the models of Db and Patch take as given. Reads and writes of RocksDB do not fail, and a row
-- that was written is read back as it was (a trail hash that is the empty string comes back as none
-- in the source); a key of a row stands for its identifier's bytes. A row
-- that a peer ships is what codec.rs decodes it to, and none where that fails. The text of an error
-- is left out, and so are log lines. base58-check, UTF-8, hexadecimal decoding and SHA-256 of the JSON
-- text are parameters (`Libs`).
--
-- The decoding of the node's bytes, the base64 of signed headers and UTF-8 with losses are parameters
-- of Ingest (`Wire`). The clock is an argument.
--
-- What is not modelled: RocksDB itself, the pages and cursors of db.rs, the codec of the other rows,
-- the scheduler behind the two lanes but for the order in which they are polled, the pauses of the
-- repair passes and what peers answer to them, the pass over legacy sub-transfers, the gRPC, HTTP and SSE servers, the
-- clients of the node and of peers, the command line, and the legacy importer but for
-- `legacy_op_to_transfer`. The `debug_assert`s of keys.rs are hypotheses on lengths. Log lines and
-- metrics are left out.
pub mod Base
pub mod Bytes
pub mod Keys
pub mod Ids
pub mod Ingest
pub mod Model
pub mod Error
pub mod Arbiter
pub mod Backfill
pub mod Codec
pub mod Registry
pub mod Repair
pub mod Db
pub mod Reconcile
pub mod Patch
