-- ===== src/Lib.antt =====
-- commutil: a C++ library for sending messages over sockets and pipes.
--
-- A user's message travels as a frame: a header of 40 bytes (inc/msg/msg_header.h) and a payload, which is one
-- message or a batch of several (inc/msg/msg_batch_writer.h), compressed or not (src/msg/msg_frame_writer.cpp).
-- The transport delivers bytes in buffers of any size, which a segmented stream presents as one sequence
-- (src/io/segmented_input_stream.cpp); at the other end the frame reader takes a frame apart and calls the
-- listener for each message (src/msg/msg_frame_reader.cpp). A request takes a slot of the request pool
-- (src/msg/msg_request_pool.cpp), where its response finds it by index and id. The UDP server keeps its
-- connections in a hash table (inc/transport/concurrent_hash_table.h).
--
-- Parts and files:
--   Common  tests, lists and machine words that all parts share.
--   Err     inc/comm_util_err.h, and the outcome of a call: `ok`, `err` with a code, or `fault` for a run
--           that C++ does not define, such as a read through a null pointer.
--   Io      inc/io, src/io. Bytes: byte order; Stream: InputStream, as a record of operations and laws which
--           FixedInput (FixedInputStream) and Segmented (SegmentedInputStream) instantiate; FixedOutput:
--           FixedOutputStream; Serializable: the macros of serializable.h.
--           Search: commutil_strnstr of src/commutil_common.cpp, which both searchBytes call.
--   Msg     inc/msg, src/msg. Header: MsgHeader; Message: Msg and allocMsg; Batch: MsgBatchWriter,
--           MsgBatchReader and MsgBufferArrayWriter; Frame: MsgFrameWriter and MsgFrameReader;
--           Request, RequestPool: MsgRequest and MsgRequestPool, the slots of requests that wait for a response;
--           Assembler: MsgAssembler, the messages of each connection from the buffers that arrive;
--           Multiplexer: MsgMultiplexer, the queues from which threads hand messages on; Outgoing: how a client and a
--           server serialize a message into a buffer of the transport; Server: MsgServer, which composes the
--           assembler, the multiplexer and a data server that the program owns, by a pointer that may be null, with
--           its sessions; Client: MsgClient, which composes the data client, the assembler and the request pool,
--           with Arrivals for what other threads do before and during the wait of a transaction; Backlog:
--           MsgBacklog, the requests to be sent again.
--   Transport  inc/transport, src/transport. HashTable: ConcurrentHashTable; DataServer: DataServer, its run state
--           and connections, with Send for replies and callbacks; DataClient: DataClient, over the
--           same memory; Timers: DataLoopListener; Loop: stopTransportLoop and DataListener; Memory: what the
--           transport's allocator has given out. Each call, and each callback of libuv, is one step.
--   Tests   runs of the theorems on concrete inputs.
--
-- An operation is a function of the object's state. Fields keep the source's names without the prefix m_.
-- Numbers of 32 and 64 bits wrap around as `add32`, `sub32` and so on say; bytes are natural numbers. The host
-- is little-endian, as on every platform that the build files name. A loop over nodes or messages is recursion
-- on the list of these, or on the count that bounds it, so that no fuel can run out.
--
-- The loop that rounds the size of the hash table up has a bound of 64 rounds, after which the C++ variable is 0
-- and the loop would not end; a size of at most 2^31 needs 32.
--
-- The loop of onBytesReceived has its number of rounds as an argument, with `none` for a loop that has not
-- ended: two rounds for each message and two more suffice for bytes that do not end within a header.
--
-- The loop of pruneBacklog has a number of rounds in the same way; two suffice for one entry, after which it is
-- empty. A set of the backlog whose entries are not in the order that a call asks for is a fault.
--
-- Parameters: gzip-hpp (`Gzip`), operator new (`Allocate`), the user's listeners (`FrameListener`,
-- `MsgListener`, `DataListener`), and the answers of libuv and of the classes derived from DataServer
-- and DataClient (`Platform`). Not modelled: libuv and the sockets over it, logging, thread-local storage, and a
-- failed allocation of a list node in the segmented stream, which the source does not test. The sender of
-- messages is not part of this library, nor is the serialization of strings. A call of the hash table, of the
-- request pool, of a multiplexer's queue or of a data server or client is one step, without the interleavings
-- of several threads. The address of the first element of an empty vector, of which no byte is read, is
-- taken as defined.
pub mod Common
pub mod Err
pub mod Io
pub mod Msg
pub mod Transport
pub mod Tests
