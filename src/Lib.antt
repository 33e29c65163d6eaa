-- ===== src/Lib.antt =====
-- A server that drives active-safety sensors of vehicles (ADAS and DMS) over TCP, in the framing
-- of JT/T 808. The server accepts connections and hands each to the manager; a connection reads
-- bytes until a sync byte ends them, decodes the packet and dispatches it by its opcode; it sends a
-- heartbeat every 8 seconds, settings on a status report, and requests for the files of an alarm.
--
-- Files:
-- - Common: tests on numbers, lists and text; Words and Int hold the unsigned and the signed
--   integers of include/Define.h with their bytes, Bits what bit_and and bit_or do to digits, Runs
--   the runs of code that may throw, Keeps what a run leaves as it was, and Halts the runs that end.
-- - Endian: swap_endian of src/Connection.cpp, include/ByteConverter.h and include/Endian.h.
-- - ByteBuffer: Packets/ByteBuffer.h. Access, Memcpy, Overwriting, Streams, Strings, Containers,
--   Maps and Operators hold what reading and writing do; Numbers is signed integers, float, double
--   and appendPackXYZ, PackedGuid and PackedTime the packed forms of numbers and times, Overloads
--   the functions that hand on to another one; Checksum is addCheckSum and getfirstdecodechecsum,
--   Escape is jt808encode and jt808decode, with a specification on lists of bytes in Escape.Spec;
--   Printing is Packets/ByteBuffer.cpp, the texts of the exceptions and hexlike; Bytes is about
--   sequences of calls. The operators of the element type of a container are an interface,
--   Containers.RoundTrip.IsSerial, which integers, strings and containers fill.
-- - WorldPacket: Packets/WorldPacket.h.
-- - Connection: include/Connection.h and src/Connection.cpp. Globals holds the global variables;
--   Outbox the queue of packets to write, Outbox.Line the queue with the strand and the socket, and
--   Outbox.Fifo what it promises; Packets and Requests the functions that send; Reads the reads of a
--   packet into variables; Config the settings; Media the files of an alarm, one function at a time,
--   Media.Transfer the pieces of one file and Media.Fetching the files of an alarm; Receive the
--   reads, the dispatch and the heartbeat, Receive.Bounds the receive buffer; Kept what the handlers
--   leave alone, Halting that they end; Life a connection from its start on, with everything that
--   may happen to it: Life.Posting and Life.Sending what its handlers send, Life.Keeping and
--   Life.Ending what it keeps of its input and that it ends, Life.Membership its place in the
--   manager, Life.Progress what does not throw; Unused the functions that nothing calls.
-- - ConnectionManager and Server: src/ConnectionManager.cpp and src/Server.cpp.
--   ConnectionManager.Relaying is about the global settings of two connections. Server.Running is the
--   whole program, main.cpp with the server, its manager and all connections: the accepts, what
--   happens to each connection and the shutdown are its events, which any order may interleave.
-- - Examples: the theorems at concrete inputs.
--
-- State is passed explicitly. A function that may throw is a function from its state to an Outcome:
-- done, throws with the state at the throw, undefined for what C++ leaves undefined, or diverges for
-- a loop that does not end. A byte is a number; sums of size_t, uint8 and uint16 keep their
-- wrap-around. Boost.Asio and the C library are not modelled: a connection records what it has asked
-- of them (handlers posted, writes and reads begun, timer and file calls) in the order of the calls,
-- and what they answer (an error, the bytes that arrived, the local time, the result of fopen) is an
-- argument of the handler. The global variables of src/Connection.cpp are a field of a connection;
-- the manager carries their one copy and sets it in a connection that it runs.
--
-- A float or a double is the pattern of its bits; localtime_r and mktime are arguments.
--
-- Loops: the checksum loop has 256 rounds, after which its uint8 counter has taken every value, so
-- that it has ended or never does; the encoder has one round for each byte, the decoder one more
-- than there are bytes, and so has hexlike; strings are read with one round for each byte that is
-- left; the packing of a 64-bit number has 9 rounds, for its 8 bytes and the test that ends the
-- loop; a number below 2 ^ 64 is printed in at most 20 digits. The other loops are recursions on
-- lists or on the number of rounds.
--
-- Not modelled: the capacity of a vector and _datasize, which nothing reads; what handlers print
-- beside their work, but for hexlike; functions without a statement; include/Session.h, whose class
-- nothing defines; members of Connection that nothing reads. A number that appendPackXYZ gets is the
-- quotient that it begins with. localtime is taken to answer with a year from 2000 on.
pub mod Common
pub mod Endian
pub mod ByteBuffer
pub mod WorldPacket
pub mod Connection
pub mod ConnectionManager
pub mod Server
pub mod Examples
