-- ===== src/Lib.antt =====
-- modbus_scanner: scanners that find MODBUS requests in a stream of bytes, and the sample servers
-- on top of them.
--
-- The program's parts. A user makes a scanner for one device address (modbus_scanner.cpp) and
-- hands it chunks of input, a `buffer_c` each (defs.h). The scanner finds the requests to its
-- device, whichever way they are cut into chunks, and calls back with a `pdu_c` for each of them,
-- or with `nonsense` where the input is no request. There are three scanners: for RTU and for TCP
-- as coroutines (slave_rtu_scanner.cpp, slave_tcp_scanner.cpp), and an older one for RTU as a state
-- machine of objects (slave_rtu_old.cpp). The RTU ones check a table-driven CRC-16
-- (crc_check.cpp); all put 16-bit numbers together with `combine` (scanner.cpp, endians.h). The
-- sample RTU server (rtu_server/rtu_server_data_handler.cpp) keeps coils and registers and
-- answers the requests that its scanner decodes; the sample TCP server
-- (tcp_server/server_connection.cpp, tcp_server/tcp_server.cpp) prints those that its own decodes.
--
-- The files.
--   Base, Base/Lists, Base/Xor, Base/Tests: library names passed on, lists over the native
--     numbers, exclusive or, Boolean tests.
--   Defs: defs.h. `add` past the end of the array is `none`. The calls of the callbacks are a log
--     of `Event`s; `m_err_cb` is never called by the source.
--   Crc, Crc/Tables: crc_check.cpp, the tables byte for byte. Crc/Reference: the bit by bit
--     CRC-16. Crc/Detection: which changes of a frame the checksum finds.
--   Scanner: scanner.h, scanner.cpp and endians.h. The platform's byte order is a parameter `Order`.
--   Coroutine, Coroutine/Chunks, Coroutine/Following: what the two coroutine scanners share.
--     boost::coroutines2 saves and resumes a body's place and locals; the place is a `Point`, one
--     for each read of the input, and the locals are fields of the scanner. A body reacts to one
--     byte (`step`), and `check_buf_end` suspends it at the end of a chunk; a jump to the initial
--     state suspends it at once and drops the rest of the chunk. A read outside the array is
--     `none`.
--   Request: a request and its bytes, which is what the scanners are compared with.
--   Rtu, Rtu/Frame, Rtu/Decode, Rtu/Stream: slave_rtu_scanner.cpp; one frame; whole streams.
--     Rtu/Spelled, Heard, HeardNumbers, Soundness, Unlogged, Logged: any stream, and the frames
--     in it that are told to the user.
--   Tcp, Tcp/Decode, Tcp/Stream, Tcp/Heard, HeardSteps, Soundness: slave_tcp_scanner.cpp in the
--     same way.
--   RtuOld, RtuOld/Decode, RtuOld/Stream, RtuOld/Heard, HeardSteps, HeardData, Soundness:
--     slave_rtu_old.cpp in the same way; the state objects are an enumeration and
--     `m_data_state.m_index` is a field of the scanner. RtuOld/EmptyWrites: write requests with
--     the byte count 0.
--   InOrder, Spelled: what the three scanners share there: the log of the calls against the bytes
--     that have been read, and a request spelled by the local variables that hold its bytes.
--   RtuServer: rtu_server/rtu_server_data_handler.cpp. RtuServer/Monad: the members as a record
--     and the methods as state passing, where `none` is a write past an array or a read past a
--     vector, and where an asynchronous operation is noted when it is started. RtuServer/Replies:
--     the replies and the handlers. RtuServer/Starting: the constructor, `open_port`, `start` and
--     the timer; what the operating system answers, the platform's masks and its speed functions
--     are a parameter `System`. RtuServer/Memory, Output, Sending: the two maps as memories, what
--     is appended to the output buffer, how a reply begins and ends. RtuServer/Cells: memories
--     that wrap at 2 ^ 16. RtuServer/Registers: replies to reads of registers. RtuServer/Writing,
--     WriteReplies: the loop that writes registers, and the replies to such requests.
--     RtuServer/Bits, CoilReads, CoilWrites, CoilsBack: coils and the bits of bytes, their
--     replies, and a write read back. RtuServer/Operations, OneEach: how many asynchronous
--     operations each method starts. RtuServer/Reading, Answers: `handle_read`, from a chunk of
--     input to the reply.
--   RtuServer/Device: the abstract device that the server stands for. RtuServer/Serving,
--     ServingAll, Session: one request, and a whole session, against it. A read of the port fills
--     the front of the input array with the chunk, whatever the array holds behind; a write sends
--     the first bytes of the buffer that it was given. With one request in a chunk, nothing is
--     changed behind the start of the write, so the buffer that `handle_read` leaves is the one that
--     the write has from its start on; RtuServer/Overlap, where this is not so, says what the buffer
--     holds at each start and not what goes out.
--   RtuServer/Silence, Framed: bytes with no frame for the server, and what it starts for any
--     bytes.
--   RtuServer/Alike, AlikeReplies, Contents: the server up to what is read in its maps, which the
--     handlers do not look behind. RtuServer/EachMethod: what holds of every method if it holds of
--     the small ones. RtuServer/Overlap: two requests in one chunk.
--   Getopt, RtuServer/Program: rtu_server/rtu_server.cpp, `main` up to `io_service.run`.
--   RtuServer/Loop, Balance: `io_service.run` as a step relation, in which the operations that
--     are pending end in any order, and how many of them there are.
--   TcpServer, TcpServer/Printing, Shown, Session, Program, Accepting: the connection and what its
--     callbacks put into `std::cout`; chunk after chunk; `main`, for which `stoi` and the acceptor
--     are parameters; accepts and reads that end in any order.
--   Api, Api/Agreement: modbus_scanner.cpp, where the `void*` is a sum of the three scanners;
--     whole sessions through it. HexUtils: hex_utils.cpp.
--   Tests and the modules below it: runs and examples.
--
-- Bounds. Bytes are numbers, with `% 256` and `% 65536` written where the source narrows to
-- uint8_t or uint16_t. No fuel is used: the scanners recur on the array, the server's loops on the
-- rounds that are left. `scan` of the old scanner counts in a uint16_t, and an array of 1024
-- bytes is below its bound.
--
-- Not modelled: logging under VERBOSE and the output of the RTU server's handlers; getopt, of which
-- the two programs take the result; the destructors, which only close and free; delete_scanner of
-- modbus_scanner.cpp; ascii_scanner.h and master_tcp_scanner.h, which declare nothing that is
-- implemented; the tests. A scanner's callbacks run before `scan` returns; in `handle_read` of the
-- RTU server the calls of one `scan` are answered in order behind it, which is the same, since the
-- replies touch neither the scanner nor its input.
pub mod Api
pub mod Base
pub mod Coroutine
pub mod Crc
pub mod Defs
pub mod Getopt
pub mod HexUtils
pub mod InOrder
pub mod Request
pub mod Rtu
pub mod RtuOld
pub mod RtuServer
pub mod Scanner
pub mod Spelled
pub mod Tcp
pub mod TcpServer
pub mod Tests
