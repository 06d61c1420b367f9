-- ===== src/Lib.antt =====
-- A verification library for drop-zone: a server that introduces two clients to each other, and a
-- client that sends files to its peer over TCP, over UDP with hole punching, or through the server.
--
-- The program's parts and the files that model them (paths are from the repository's root):
--   Base       Names and lemmas that the other modules share: numbers, lists, results, bit operations.
--   Wire       common/include/dz/endian.hpp, common/src/frame.cpp, Endpoint::from_sockaddr of
--              common/src/socket.cpp. A frame is a list of bytes. PayloadWriter is a list that grows
--              at its end, PayloadReader a parser monad on the bytes and the offset. Wire/Reads says
--              when a parser reads what a writer has put, Wire/Ensures what a parser that succeeds has
--              checked.
--   Protocol   common/src/protocol.cpp: user names, paths, and one file for each message with its
--              record, its `encode` and its `decode`.
--   Udp        client/src/reliable_udp.cpp: the packet header, sequence numbers that wrap at 32 bits,
--              the receive side (reorder buffer, delivery, read cursor) and, in Udp/Send, the send side
--              (pacing, window, timeouts) with Udp/Send/Ack (acknowledgements, round-trip estimate,
--              congestion window).
--              Udp/Send/Course is the relation of the states that its operations reach.
--   Server     server/src/session_table.cpp (Server/Claims, Server/Pairing, Server/Group): the names
--              that receivers claim, the pairings and the groups. Every operation holds one mutex and
--              so is one step on its map.
--              Server/Connection: server/src/connection.cpp, the input and the output buffer of a
--              connection; what recv() and send() answer is a list of answers.
--              Server/Store, Server/Action: the fields of every connection and the tables of the
--              server as one store, and a handler as a function on it that may fail. Server/Handle
--              (Hello, Introduce, Groups, Relay) and Server/Closing: the handlers of
--              server/src/server.cpp, `close_connection`, `run_maintenance` and the acceptance of
--              connections. Server/Consistent: the invariant of that store, and the relation of the
--              states that the server reaches.
--              Server/RateLimiter: server/src/rate_limiter.cpp, the token buckets. Server/Text:
--              `message_type_name` of common/src/frame.cpp.
--   Client     client/src/known_peers.cpp: the identity keys that are pinned to user names.
--   Tests      Every property at a concrete input.
--
-- How they interact: the messages of Protocol are the payloads of the frames of Wire; the session
-- table checks the names with `is_valid_username` of Protocol, and a connection takes apart what it
-- reads with the frame header of Wire. A handler of the server takes one frame of one connection,
-- decodes it with Protocol, asks the rate limiter and the session table, and puts frames in the output
-- buffers of this connection and of its peer.
--
-- Conventions: a std::string is the list of its bytes, a map a list of pairs, an integer of w bits a
-- native number with its wrap-around written out. A function that fails in the code returns a Result,
-- whose errors are the messages of the code. A shared_ptr to a connection is a number, a weak_ptr that
-- number with a function that says which connections exist when an operation runs.
--
-- Fuel: the loop over the components of a path has two rounds more than the path has bytes, as every
-- round passes a byte; the loop that delivers packets one more than the reorder buffer holds, as every
-- round takes one out; the loop that fills the send window one more than there are bytes to send, as
-- every packet carries a byte; the loop that chooses a pairing id two more than there are pairings, as
-- every round tries another id.
--
-- Parameters: `CRYPTO_memcmp` of libcrypto, behind `constant_time_equal`, is a function that says
-- whether two byte strings of one length are equal; `random_bytes` and the clocks are arguments. The
-- keyed hash of the rate limiter is a call of libcrypto, so a bucket has a number for its key. What
-- the rate limiter and the UDP channel do with a `double` is an interface of operations (Double,
-- Real), with laws only where a theorem names them. World holds what a handler takes from outside: the
-- limiter's answer, the comparison of keys, random numbers, the time and the options.
--
-- One handler is one step: the shards of the server run handlers of different connections at the same
-- time, and the steps of two handlers that interleave inside a handler are not modelled. A wake-up of
-- another shard is an entry in its wake queue.
--
-- Not modelled: cryptography, files, sockets, threads and the terminal, which are calls of other
-- libraries or of the system; the event loop of the server (`service_connection`,
-- `drain_wake_queue`, the poller) and its start-up; the handshake and the pump of the UDP channel, its
-- statistics and the losses that its tests switch on; and the client's programs.
pub mod Base
pub mod Wire
pub mod Protocol
pub mod Udp
pub mod Server
pub mod Client
pub mod Tests
