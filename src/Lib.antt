-- ===== src/Lib.antt =====
-- shovel_server: connections whose bytes are read and written by worker threads, cut into datagrams
-- by a parser, and passed through bounded queues to the process that handles them.
--
-- The parts, and the files that model them:
--   * Ring models src/containers/RingQueue.h and RingQueue.cpp with their base class in QueueBase.h and
--     QueueBase.cpp: `put`, `get`, `peek`, `size`, `capacity`, `get_status`. Ring/Cell is the class
--     `bag`. Ring/Fifo is the abstract queue, Ring/Inv, Ring/Holding and Ring/Refine relate the two.
--     Ring/Observe is what calls of all its public methods can tell of a ring, and Ring/View takes the
--     quotient by that.
--     Ring/Spsc is the same ring under a thread that puts and one that gets and peeks, with no lock: its
--     steps are single accesses to what they share, and a schedule says whose turn it is. Producing and
--     Consuming say what a step does, Invariant and Serial what holds between two, Putting and Asking
--     that a step keeps it, Order and Turns what each thread has still to do, Returning what its calls
--     have answered and return, and Linear what follows.
--   * Decorators models RingQueueBlockDecorators.h and RingQueueBlockDecorators.cpp: a queue is a
--     stack of decorators over one ring, and `put`, `get` and `peek` go down the stack as the virtual
--     calls do. Locks, waits and notifications act on a world that has the ring in it
--     (Decorators/Monitor). Reading, Handing and Nested are about the classes that wait for data,
--     Deadlock and Timed about those that wait for room, Sharing about which objects a stack shares.
--   * Parser models src/parsers/ParserExample.h and ParserExample.cpp (and ParserBase.cpp): the state
--     machine of `_parse_data`, and `prepare_data_for_sending`. Parser/Spec says what it has to find.
--   * SizedArray models src/containers/SizedArray.h.
--   * TcpSocket models src/connections/network/TCPSocket.h and TCPSocket.cpp: `read`, `write`,
--     `set_descriptor`, `close_descriptor`, the constructor and the destructor; TcpSocket/Text what it
--     says of its status and its peer.
--   * LocalSocket models src/connections/local/LocalSocket.h and LocalSocket.cpp: LocalSocket/Transfer
--     reading and writing, LocalSocket/Descriptor what is closed.
--   * Worker models src/connections/workers/ConnectionWorker.h and ConnectionWorker.cpp:
--     `thread_read_from_source` (Worker/Delivery, Worker/Reader and Worker/Counting), which feeds Parser
--     and a queue, and `thread_write_to_source` (Worker/Writer), which drains a queue into a source.
--     Worker/Progress is a reading thread that nothing stops. Worker/Life is the life of the object:
--     `start`, `stop`, `thread_guard`, the destructor.
--   * Worker/Source and Worker/Sink put the two threads over a subclass, whose methods
--     `read_data_from_source` and `write_data_to_source` are parameters. The records IsSource
--     (Worker/Source/Heard) and IsSink (Worker/Sink/Message) say what the threads rely on.
--   * TcpWorker models src/connections/workers/TCPSocketWorker.h and TCPSocketWorker.cpp, and
--     LocalWorker models LocalSocketWorker.h and LocalSocketWorker.cpp. Both fill these records, so
--     that Worker, Parser and TcpSocket or LocalSocket come together: Receiving and Arriving go from
--     `recv` to the queue, Sending and Wire from the queue to `send`. Delivering is both ends of
--     a connection.
--   * TcpServer models src/connections/network/TCPServer.h and TCPServer.cpp: TcpServer/Listening
--     starts and destroys it, TcpServer/Polling is `epoll_loop`, TcpServer/Accepting is
--     `_thread_unblocked_accept`, TcpServer/Text the text of a status. TcpClient models TCPClient.h
--     and TCPClient.cpp. Both hand over a TcpSocket.
--   * Subprocess models src/subprocesses/abstract_subprocess/AbstractSubprocess.h and
--     AbstractSubprocess.cpp: its queues, which are Decorators over a Ring, and its `loop`, which has to
--     do what Subprocess/Plan says (Draining for a round, Looping for all, Leaving for the end of the
--     process); Subprocess/Starving is what the queue does to the loop. Subprocess/Instance models
--     src/subprocesses/instance_subprocess_1 and instance_subprocess_2 from `main` on.
--   * Base has shared names, lists, bytes, words and integers.
-- Names follow the source: a method `put` of a class is the function `put` of its module; a method
-- that changes the object returns it beside the result.
--
-- Bounds and fuel. Bytes and sizes are natural numbers; counters of 32 bits and results of 16 bits
-- wrap as written in the source, and theorems state the ranges of what a caller passes. The loop of
-- the parser runs on five rounds of fuel for each byte and six more, and Parser/Refine shows that it
-- ends before. A loop on answers of the system or on wake-ups recurs on their list, and a call that
-- needs more of them is still waiting.
--
-- Not modelled: console output, clocks, and the answers of the operating system, which are arguments
-- (`recv`, `send`, `accept`, `epoll_wait` and the like, and what other threads do to a queue
-- meanwhile). Undefined behaviour and exceptions of the source are results of their own. In Worker a
-- thread is modelled alone: it meets its flags, its queue and its source as a list of answers; in
-- Worker/Life the threads run interleaved, and a round of a loop is one step. The threads of a server
-- and of a subprocess are modelled alone too. A LocalSocket is a datagram socket: what `sendto` takes
-- of a datagram counts as the whole of it. Ring/Main and Parser/Main are the programs
-- src/containers/main.cpp and src/parsers/main.cpp; the entry points besides these and those of the
-- subprocesses do nothing, and are not modelled.
pub mod Base
pub mod SizedArray
pub mod Ring
pub mod Decorators
pub mod Parser
pub mod TcpSocket
pub mod LocalSocket
pub mod Worker
pub mod TcpWorker
pub mod LocalWorker
pub mod TcpServer
pub mod TcpClient
pub mod Subprocess
