-- ===== src/Lib.antt =====
-- mvclight: a light node (SPV client) for the MVC chain. It keeps block headers, checks them, and
-- asks full nodes for merkle blocks of the addresses that it watches.
--
-- The parts and their files, with the sources in src/light/ of the repository:
--   * Wire: the little-endian and CompactSize readers and writers that light_merkle.cpp,
--     light_sync.cpp, light_filter.cpp, light_peer.cpp, light_tx.cpp and light_header.cpp define each
--     for themselves. A cursor with its end is the list of the bytes that are not read yet.
--   * Sha256: light_sha256.cpp, the context with Write, Finalize and Hash, and SHA256D.
--   * Uint256: light_uint256.h, the identifiers as 32 bytes, with GetHex and SetHex.
--   * Arith256: light_arith_uint256.cpp, 256-bit numbers as eight words of 32 bits, the lowest first;
--     every operator is a function with its loop as a recursion on the words.
--   * Header: light_header.cpp, the header with its 80 bytes and its hash.
--   * Asert: light_asert.cpp, the next difficulty. Chain: light_chainstore.cpp, headers by height and
--     by hash, the median of the last times, and the accumulated work. Validation:
--     light_validation.cpp and light_checkpoints.cpp, the rules for one header and the checkpoint;
--     Validation/Target has the number that a compact form denotes, independently of the code.
--   * Merkle: light_merkle.cpp, roots of whole blocks, partial trees and the MERKLEBLOCK message.
--   * Filter: light_filter.cpp, MurmurHash3 and the Bloom filter.
--   * Tx: light_tx.cpp, transactions and CheckTransactionCommon. PendingTx: light_pendingtx.cpp, which
--     pairs transactions with merkle blocks. TxPool: light_txpool.cpp, the identifiers to be sent.
--   * Socket: light_socket.cpp, a connection over the answers of the operating system. Message:
--     light_message.cpp, the frames on it. Peer: light_peer.cpp, the handshake and, in
--     Peer/Heartbeat, pings, dispatch and the retry delay.
--   * WatchStore: light_watchstore.cpp, the transactions of the watched addresses in memory and in
--     LevelDB, which is a parameter. SendMonitor: light_sendmonitor.cpp, what was sent and is not
--     confirmed. Sync: light_sync.cpp, the exchange of headers. ConnMan: light_connman.cpp, the slots
--     of the candidate peers. Api: light_api.cpp with light_api.h and mvc_light.h, the C functions;
--     Text: the hexadecimal, address and decimal texts of light_api.cpp.
--   * State: light_state.cpp, the states of a connection and the allowed transitions, as a step
--     relation in State/Paths. Policy: light_peer_policy.cpp, the rate limits.
--   * NodeCore: light_nodecore.cpp, the start and the end of the upstream node inside the program, over
--     the objects that they make and free.
--   * Demo: demo/demo_win32.cpp of the repository, the graphical front end. Demo/Base58 has addresses and
--     their scripts, Demo/Parse raw transactions and blocks, Demo/Watched the transactions of the
--     watched addresses, Demo/FilterLoad the filter that is sent for them, Demo/SyncFile and
--     Demo/WatchFile the two files, Demo/Headers one HEADERS message, Demo/Run a whole run of the
--     worker (RunSyncCore, with its handshake unless it is given a connected peer), Demo/Ui the buttons of
--     the window.
--   * Base has the shared names: tests, lists, integers, bit operations and association lists over
--     the native numbers. Runs with its children, Merkle/Runs and Filter/Runs run the code on
--     concrete inputs.
-- The node computes the target of a header in Validation and its work in Chain with Arith256; the
-- hashes of headers, transactions and tree nodes come from Sha256 over the bytes of Wire. Api owns a
-- Peer, a WatchStore, a TxPool and a SendMonitor; a Peer reads and writes Message frames on its
-- Socket; Sync reads HEADERS from a Peer, checks each with Validation and Asert, and adds it to Chain;
-- SendMonitor asks WatchStore what has been seen; ConnMan holds many Peers. A run of Demo reads and
-- writes one Peer, keeps a Chain, a PendingTx and a WatchStore, and asks Policy and Validation.
--
-- How the code is represented: an unsigned number of w bits is a number with its wrap-around written
-- out, an int64_t is an integer, a byte string is a list of numbers below 256. A map is an
-- association list over a key with a Boolean equality; a walk over an unordered map goes in the
-- list's order. A result flag with an output parameter is an option. Undefined behaviour is a value
-- of its own: `fault` and `undefined` in Validation, `none` of the operations that change PendingTx.
-- The system under a socket is a list of what recv, send and the name lookup will answer; the clock and
-- the random numbers are arguments. Of LevelDB the model has the entries that an iterator visits and a
-- write of a batch, and relies on its documentation: each key is visited once, a batch is applied in
-- order and as a whole or not at all. A read out of bounds of a stored record is `out_of_bounds`.
-- The overflow of an int64_t in Asert and the division by a half-life of 0 are `none`. SendAll hands the
-- rest of its bytes to send with the code's cast to int. What the name lookup and the connection
-- answer depends on the host and the port that are dialled.
--
-- Fuel: the root loop of Merkle has the number of hashes, of which each turn keeps about half; the
-- search for the height of a partial tree has 31 turns, since a count has 32 bits; the padding of
-- Sha256 has 64, the size of a block. The loop
-- of PendingTx that enforces the size limit has the size of the map, of which each turn takes one.
-- The loops of Socket, Message, Peer and Sync that read or send have the number of bytes asked for, or
-- of all bytes that will ever arrive, of which each turn takes some. A printed number has 20 digits.
-- The division of Arith256 counts its 256 bits down, and the blocks of Sha256 are counted by bytes.
--
-- A run of Demo has the bounds of the code: 1024 batches with 60 attempts each. Its steady state takes
-- one turn for each reading of the clock that it is given; the stop flag is taken to be set only
-- behind the last one.
--
-- Not modelled: the sizing of a filter in floating point (Create of light_filter.cpp, an argument of
-- Demo/FilterLoad) and the jitter of a retry (NextRetryDelayMs of light_peer.cpp); the receive timeout
-- of light_socket.cpp, which only sets an option of the system, and the timeouts that Connect passes
-- on; the null context, the destructor and the copies of strings of light_api.cpp; what the upstream
-- node does behind the calls of light_nodecore.cpp, whose answers are the record Upstream; of the demo,
-- the drawing of the window, the log lines, the rotation of seeds, the standby connection and the
-- threads of the back-fill; the bundled LevelDB and upstream sources under third_party.
pub mod Base
pub mod Wire
pub mod Sha256
pub mod Uint256
pub mod Arith256
pub mod Header
pub mod Asert
pub mod Chain
pub mod Validation
pub mod State
pub mod Policy
pub mod TxPool
pub mod Tx
pub mod Merkle
pub mod Filter
pub mod PendingTx
pub mod Text
pub mod Socket
pub mod Message
pub mod Peer
pub mod WatchStore
pub mod SendMonitor
pub mod Sync
pub mod ConnMan
pub mod NodeCore
pub mod Demo
pub mod Api
pub mod Runs
