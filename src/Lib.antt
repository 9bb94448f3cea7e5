-- ===== src/Lib.antt =====
-- Networking2011: sockets (proj1), a chain of stepping stones that fetch a file (proj2), a DNS
-- resolver (proj3), a library of sockets, streams, messages and a thread pool (scaling), and a log
-- with an event queue (scheduler).
--
-- The parts, their files here and their sources:
--   * Resolver: proj3/myresolver.cpp and proj3/common.hpp. main makes a question for a host name,
--     and attempt sends it from server to server; parse reads each reply and prints the answer or
--     names the next servers. Resolver/Run is the result type: a value, a read behind the end of a
--     string, the exception of substr, an exit with its status and text, or no fuel. Resolver/Bytes
--     holds the integer readers, Name recParse, Question makeQuestion, Address ParseIP, Records
--     nextParse, Answer successParse and parseRRSIG, Response parse, and Attempt the packet, sendOut,
--     attempt and main. Attempt/Rounds and Resolution are about a whole search. A uint32_t position
--     that the C++ code moves by reference is returned.
--   * Transfer: the loops of Socket::Send and Socket::Recv of scaling/src/Socket.cpp. What the system
--     does is a schedule with one entry for each call.
--   * Stream: the operators of class Stream, in scaling/src/Socket.hpp and Socket.cpp. An operator is
--     a function on a connection, over Transfer. Stream/Io says what it means that a value survives
--     the way over the wire: Writes, Reads and Carries.
--   * Message: the registry of message classes and messages on a Stream, in the same two files.
--   * Socket: the constructors, copies, assignments, the destructor and Accept of class Socket,
--     with the counters that sockets share as memory. Owners and Candidates are about the counters
--     and about the loops over addresses, Programs about sequences of constructions, copies,
--     assignments and destructions.
--   * Data: class data of scaling/src/main.cpp, a message with a map, over any map of the library.
--     Data/Arrival is about its way over the wire.
--   * Server: the loop of the template Server of scaling/src/Server.hpp. Server/Deaf is about what it
--     can be told by select.
--   * Logging: class Log of scheduler/src/Logging.cpp and scheduler/include/Logging.hpp. Event: the
--     queue and its loop, in scheduler/src/Event.cpp and scheduler/include/Event.hpp, which run the
--     closures that Log queues. Event/Threads lets the loop and a thread that logs take turns, and its
--     children Settled and Direct compare the outcome with direct logging.
--   * Scheduler: class Scheduler of scheduler/src/Scheduler.cpp and scheduler/include/Scheduler.hpp, on
--     top of Logging and Event. Signals is about its handlers, Startup about its constructor.
--   * Threadpool: class threadpool of scaling/src/threadpool.hpp and threadpool.cpp, as a step function
--     on the pool, whose argument says which thread moves or which member is called. A thread that
--     waits goes on once it has been notified.
--   * Chain: the anonymous web get of proj2, in C. Chain holds the structs of proj2/awget.h as bytes on
--     the wire, Chain/Calls single calls of `send` and `recv` over a schedule, with what a thread that
--     ends leaves behind, Chain/Stone the functions of proj2/ss.c that serve a connection, and
--     Chain/Client main and socketSetup of proj2/awget.c. Chain/Ready and the children of Chain/Stone
--     (Request, Reply, Forward, Connection, Stages, Closing) are about one stone, Chain/Listener holds its
--     server and main, with the threads of its connections, Chain/Relay about a
--     chain of them, and Chain/Client/Digits, Lines, Exchange and Whole about the client, whose
--     options Chain/Client/Options reads.
--   * SyncSocket: class net::sync_socket of proj1/socket.hpp and proj1/socket.cpp, over the memory of
--     Socket. SyncSocket/Owners is about its counters, SyncSocket/Connecting about connect.
--   * Service: class net::_service of proj1/service.hpp and proj1/service.cpp, with the descriptors that
--     are closed as memory. Ports is about add_port, AnyPort about add_any_port.
--   * Numbers: the programs of proj1. Server holds the handlers of proj1/proj1_server.cpp and the listen
--     of proj1/service.hpp, Mains the server's main, Client proj1/proj1_client.cpp, and Numbers the
--     structs of proj1/common.hpp. Answers is about the server, Endings about the client, Choices about
--     the options.
--   * Prelude: shared lists, text, tests and signed integers. Tests: runs on concrete inputs.
--
-- Bounds and fuel. Numbers are natural numbers, and each width is written out: 16 bits for words of a
-- message, 32 for lengths and counters, 8 for the depth of the log; a count in an `int` that comes to
-- 2 ^ 31 is undefined. The host is little-endian, and its
-- `char` is signed. rec_parse takes the depth of its recursion, where one more than the labels of a
-- name, and its jumps, is enough; the program has no bound there. attempt takes rounds, where one more
-- than the servers of the list is enough if none names others. put_lines takes the length of its text,
-- which is enough. In a schedule, one call for each byte is enough. The loops of proj2 take
-- the number of calls that are left in the schedule.
--
-- Outside the code, and parameters here: the system's sockets, rand, time, inet_pton and inet_ntop,
-- Boost's base64 encoder, getaddrinfo, socket and connect as one function, wget and its file, the
-- virtual functions of messages, the closures of events, std::unordered_map, Boost's reader of options,
-- getopt, atoi, the reading of a number from a stream, waitpid, and the text of __FILE__.
--
-- Not modelled: what the template Server of scaling keeps for a connection, and main of
-- scaling/src/main.cpp, which sends nothing; the scheduler's daemon mode; the removal of the file that
-- a stepping stone fetches; and what is inside a critical section of the event queue, which is one
-- step here.
-- DEBUG_PRINT is off. Text on the standard error stream is left out, and in proj2 and the usage
-- messages of proj1 that on the standard output.
pub mod Prelude
pub mod Resolver
pub mod Transfer
pub mod Stream
pub mod Message
pub mod Socket
pub mod Logging
pub mod Event
pub mod Scheduler
pub mod Data
pub mod Server
pub mod Threadpool
pub mod Chain
pub mod SyncSocket
pub mod Service
pub mod Numbers
pub mod Tests
