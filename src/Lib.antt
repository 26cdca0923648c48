-- ===== src/Lib.antt =====
-- Verification library for the Go implementation of event_work_balance, an event-driven network
-- engine: an event loop polls descriptors and hands ready connections to a task pool, whose workers
-- read and run the handlers, while any goroutine may send.
--
-- The parts and how they interact. A connection (go/connection.go) keeps a queue of output behind a
-- direct write; the engine (go/engine.go) folds readiness into it, submits it to the pool, and pauses
-- its reading while output is stuck; the pool (go/taskpool) runs each submitted connection on a
-- worker.
--
-- - Base holds the Boolean tests on numbers, and lists over the native numbers (length, get_elem?,
--   take, drop, set), which the library of the language has over another type.
-- - Conn.State: the structs Connection, sendBuffer, sendItem and fileSegment, and the readiness bits
--   as a record of Booleans. Fields of a Connection that only system calls use are left out.
-- - Conn.SendQueue: queueLocked, queueOwnedLocked, consumeLocked, rewindQueueLocked and the queueing
--   half of SendFile (go/sendfile_native.go). A queued buffer is its bytes, offset and pool mark.
-- - Conn.Engine: the commands, addPending and subPending, pauseDecision, refreshConnection,
--   closeWithError and closeAfterSendRaw. `World` is a connection with its engine, the commands it
--   has sent and the bytes that it has put on the wire.
-- - Conn.Transfer: Send, SendOwned, SendParts, SendFile, corking (drainInput), flushOutput and the
--   loop's closeConnection, as what happens under one hold of the connection's mutex; Interleaving is
--   the step relation of these, with those of Turns beside them. The results of system calls, the contents of
--   files and the growth of slices are arguments; `none` is a system call that has not returned.
-- - Conn.Sched: noteEvent, submitReady, RunTask and process, and the step relation of all who touch
--   a connection (Ownership); who gives a connection up, after a panic or a refusal of the pool, closes
--   it in a later hold of the mutex, so in a step of its own.
-- - Pool.Cond: the bounded ring of go/taskpool/cond.go, and the step relation of its goroutines:
--   a Signal is sent after the mutex is let go, so a step of its own delivers it. Pool.Sharded: the
--   shards of go/taskpool/sharded.go. Pool.Elastic: go/taskpool/elastic.go, with a channel as its buffer
--   and a goroutine that waits in a receive as a place more, and the step relation of its goroutines.
-- - Hpack: the integers, dynamic table, decoder and size announcements of go/internal/hpack/hpack.go;
--   strings are their bytes, and the static table, the Huffman decoder and emit are arguments.
-- - Quic: the integers of go/http3/internal/quic/varint.go, and of buffer.go beside it the spans, the
--   ranges of packet numbers and the buffers of sending and receiving.
-- - Websocket.Utf8: the incremental validator of go/websocket/utf8.go, with utf8.Valid as an argument;
--   WellFormed says what UTF-8 is by its bytes, CodePoints by what they encode, and Bulk compares write with its byte by byte loop.
-- - Websocket.Frame: the parser of go/websocket/frame.go. Frame reads a head; Next is `next`, by what
--   is read, whether the frame is whole, and its kind, with decompressMessage and keepWindow of
--   deflate.go; Feed is feedOne and Feed, the lending of buffers, ReleaseBorrowed and Reset; Marshal is
--   the writing of frames. utf8.Valid and compress/flate are arguments. A buffer holds the bytes as they
--   came, since what is unmasked in place is dropped before it is read again. The proofs stand beside
--   these, and Parts puts them together.
--
-- Bounds and fuel. Sizes and counters are natural numbers; the shard counter wraps at 2^32 as written
-- out. The loops over system calls take a list of their results: a flush that runs out of the list
-- has not returned, and Conn.Transfer.Flush.Ends says how many are enough.
--
-- A block of HPACK is decoded on fuel that is its length, which Hpack.Rounds shows is enough; the
-- bytes of an HPACK integer are written on a fuel of ten, as many as a uint64 has. The loops of feedOne and Feed
-- take a fuel, of which one more than there are bytes is enough (Websocket.Frame.Feeds).
--
-- Not modelled: pollers and other system-call glue, dialing and listening, TLS, HTTP/1 and HTTP/2,
-- the handshakes, connections and compressor of WebSocket, the rest of QUIC and HTTP/3, and the adaptive
-- pool.
pub mod Base
pub mod Conn
pub mod Hpack
pub mod Pool
pub mod Quic
pub mod Websocket
