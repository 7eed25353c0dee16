-- ===== src/Lib.antt =====
-- Dhava, an offline-first synchronisation engine: nodes write to a local store, queue the operations,
-- and exchange them with a server when a link is up.
--
-- * VectorClock (vector_clock.py): causal clocks, their order, increment and merge. A dict is an
--   association list (Dict), of which the first item with a key counts.
-- * Models (models.py): operations, records, audit entries, sessions, their dicts and readers. Points
--   in time are natural numbers of microseconds, `V` is the type of the values in a payload.
-- * Conflict (conflict.py): `resolve`, with its audit detail.
-- * Backend (backends/sqlite.py): the tables as lists of rows, and transactions. A JSON column holds
--   the value that it encodes. Backend/Connection (also backends/inmemory.py) is the connection to a
--   file or a memory, with what sqlite3 documents of it: a closed connection takes no statement, and
--   closing one rolls an open transaction back.
-- * Store (store.py): the records, written by `apply_operation` and read by `get`, `query` and `count`.
-- * Outbox (outbox.py): the queue, from `enqueue` over `get_pending` to `mark_synced` and `purge_synced`.
-- * Framing (utils/serialization.py): the binary frame. SHA-256 is a parameter, of which only the
--   length of a digest is used.
-- * Crypto (crypto.py): compression and sealing. AES-GCM, gzip and zstd are parameters, and that each
--   undoes what it did is a hypothesis. Crypto/Keys has the keys, signatures and key agreement, over
--   the primitives of the library.
-- * Audit (audit.py): the trail, written by `log` and read by `query` and `count`, and its export
--   (Audit/Export).
-- * Engine (engine.py): local writes (apply, enqueue and log, in three transactions), the batch size and
--   the priority cutoff by bandwidth, and the loop over the operations that a pull brings.
-- * Protocol (protocol.py): the two messages, their factories, dicts and serialisation. The codec of
--   msgpack and the hash are parameters.
-- * Server (server.py): the answer to a push (Server), the delta for a peer (Server/Delta), the
--   registry of nodes (Server/Nodes), and the constructor and the factory (Server/Create).
-- * Transport (transports/base.py, transport.py): a link as an interface over the state of a world
--   (Transport/Base), the manager that chooses a link (Transport), and the calls that go over the
--   chosen one (Transport/Relay). Status callbacks are methods on that world.
-- * Links (transports/tcp.py, serial.py, http.py, file.py, loopback.py): the five links, each over an
--   interface of the operating system or of a client library whose calls may raise.
-- * Node (engine.py): the engine with its link manager, state and callbacks, its constructor and status,
--   and the factory that opens its database (Node/Create).
-- * Sync (engine.py): `sync_now` as it goes from the choice of a link to the session; what is read from
--   outside in one call is a record (Sync/Session). Sync/Loop is one turn of the background thread, and
--   Sync/Loop/Steps the steps of which the life of an engine consists.
-- * Cli (cli.py): the commands, over the files of a machine and what they print. The daemon is a list
--   of ticks: turns of the background thread, and looks at the status.
-- * Database (Database and below): how exchanges, writes and requests change the tables, as relations
--   between the database before and after.
--
-- A method that changes state is a function from the state to a result and the new state (Exec); what
-- was written before an exception stays written, unless a transaction rolls it back. Exec/Ensures,
-- Exec/Keeps and Exec/Succeeds are the rules by which a method that is put together keeps what its parts
-- keep, and returns where they return. Clock
-- readings and fresh identifiers are arguments. Times are exact here, in microseconds, and
-- floating-point numbers in the program. The sort of `ORDER BY` keeps the order of rows that compare as
-- equal, which SQL leaves open. Loops are structurally recursive, but for the one that reads from a
-- socket (Links/Stream): it has a bound on its turns, the number of bytes it is asked for, which is
-- enough since every turn that goes on adds a byte.
--
-- Not modelled: threads and locks (one method runs at a time), the parsing of arguments and the layout of
-- the console, directories and file permissions, the pragmas of SQLite, and the examples. JSON, msgpack,
-- CSV, sockets, serial ports, HTTP, files, and the primitives of cryptography are libraries or the
-- operating system, and stand here as parameters.
pub mod Audit
pub mod Backend
pub mod Cli
pub mod Common
pub mod Conflict
pub mod Crypto
pub mod Database
pub mod Dict
pub mod Engine
pub mod Exec
pub mod Framing
pub mod Links
pub mod Models
pub mod Node
pub mod Outbox
pub mod Protocol
pub mod Result
pub mod Server
pub mod Store
pub mod Sync
pub mod Tests
pub mod Transport
pub mod VectorClock
