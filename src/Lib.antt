-- ===== src/Lib.antt =====
-- ccServer: a non-blocking TCP library, with a buffer, channels, a poller, an event loop, timers and
-- connections, and an asynchronous logging library.
--
-- An event loop (EventLoop.cpp) waits in its poller (Epoll.cpp) for the events of its channels
-- (Channel.cpp), each of which stands for a descriptor and calls back to its owner. A connection
-- (TcpConnection.cpp) owns a channel and two buffers (Buffer.h): bytes that arrive go to the input
-- buffer and then to the user, and what the socket does not take at once waits in the output buffer.
-- Other threads hand their work to the loop as tasks.
--
-- Which file models which part:
--   Prelude: Boolean tests on numbers, lists and slices of them, maps, and outcomes. An outcome is
--     a value, a failed assertion, an exception of the library, or undefined behaviour such as an
--     access outside a vector. `size_t` is a number modulo 2 ^ 64.
--   Endian: the conversions of <endian.h>, for a host of either byte order.
--   Buffer: Buffer.h, a list of bytes with `reader_index` and `writer_index` for `readerIndex_`
--     and `writerIndex_`, and a function for each method. A pointer into the vector is its offset
--     from `begin()`. Buffer.Invariant has the invariant and the room that `makeSpace` makes,
--     Buffer.Read and Buffer.Write the methods, Buffer.Ints the integers, Buffer.Search findCRLF
--     and findEOL, Buffer.ReadFd the method of Buffer.cpp, and Buffer.Refine the refinement of
--     ByteQueue, the queue of bytes that the class promises.
--   Channel: Channel.h and Channel.cpp, the events asked for and those that happened;
--     Channel.Dispatch has handleEvent.
--   Epoll: Epoll.cpp, over an interface for the kernel's list with the laws of epoll_ctl(2).
--     Epoll.Sync shows that it implements Interest, the table of the events asked for; Epoll.Poll
--     has `poll`.
--   EventLoop: EventLoop.cpp, over an interface for eventfd(2). EventLoop.Threads makes it a step
--     relation of the loop's thread, the callbacks and other threads, where a call of `queueInLoop`
--     or `quit` and its `wakeup` are two steps; EventLoop.Wakeup has its
--     invariant and EventLoop.Progress what follows for the tasks; EventLoop.Setup has the
--     constructor and the destructor, with those of the poller and the timer queue.
--   EventLoopThread: EventLoopThread.cpp, a loop in a thread of its own, as a step relation of its
--     owner and its thread; EventLoopThread.Destroy has the destructor before `loop()`.
--   TcpConnection: TcpConnection.cpp, with a poller, a loop and two buffers of the parts above.
--     TcpConnection.Invariant has what holds between two calls, and TcpConnection.Output, Drain,
--     Close and Input the calls, TcpConnection.Flush several writes in a row; TcpConnection.Dispatch the handlers as the channel calls them,
--     TcpConnection.Send the other calls that send and the deferred tasks, with all calls of a
--     user in TcpConnection.Send.Calls, how they end in Steady and Ends, and `send` followed by
--     `shutdown` in TcpConnection.Send.Graceful, TcpConnection.Lifetime
--     the constructor and the destructor, and TcpConnection.Frame what the handlers leave alone.
--   TcpServerSingle: TcpServerSingle.cpp, the connections that share a loop's poller. A connection
--     is named by its descriptor. TcpServerSingle.Members has the invariant of the set, Laws its
--     events, Serve any sequence of them, Elsewhere what one leaves to the other connections, and
--     Round `poll` and the handlers of the channels that it made active, as Reports has them. The poller also
--     polls the loop's own descriptors, its eventfd and its timerfd.
--   TcpServer: TcpServer.cpp, the start of a server with a thread per loop. TcpServer.Start has it
--     as a step relation of the base loop's thread and the threads it makes.
--   CountDownLatch, Thread, CurrentThread: base/CountDownLatch.cpp and base/Thread.cpp.
--     CountDownLatch.Waiting has the threads at a latch, Thread.Start the owner of a thread and
--     the new thread as a step relation, and Thread.Returns what it comes to.
--   ThreadPool: ThreadPool.h and ThreadPool.cpp, the queue of tasks among threads that call
--     runTask; ThreadPool.Bounded has its invariant.
--   TimerQueue: Timer.h and TimerQueue.cpp, with pointers to timers as keys of a heap.
--     TimerQueue.Order has the order of the set, TimerQueue.Listed and TimerQueue.Life the timers
--     that it names and those that live, TimerQueue.Rounds handleRead, TimerQueue.Cancel a timer
--     that cancels itself, TimerQueue.Duration the times given to timerfd_settime(2), over an
--     interface for it, and TimerQueue.Destroy the constructor and the destructor. EventLoop.Timers has the calls of EventLoop.cpp for timers.
--   Acceptor, Connector: Accept.cpp and Connector.cpp, over the poller.
--   FixedBuffer, Decimal, LogStream: base/LogStream.h and base/LogStream.cpp, the buffer of a
--     line, the conversion of integers, and the operators.
--   CircularBuffer: base/CircularBuffer.h and base/CircularBufferImpl.h, cells that hold an object
--     or none. CircularBuffer.Recent is the list of the last values that it stands for, and
--     CircularBuffer.Create, Push and Refine relate the two; CircularBuffer.Clear has `clear`, and
--     CircularBuffer.Traverse the iterators.
--   AsyncLogging: base/AsyncLogging.cpp, the buffers that the mutex guards and those of the
--     writing thread. AsyncLogging.Live has the invariant, Exchange the critical sections, Write
--     the rest of a round, Lossless any sequence of them, and Drained the thread while no
--     line is logged. AsyncLogging.Session adds the
--     constructor, `start` and `stop`: Session.Going has the thread up to `stop`, and Session.Stop
--     its end.
--   LogFile: base/FileUtil.cpp and base/LogFile.cpp. LogFile.Append has one append, whatever fwrite(3)
--     takes, and LogFile.Whole any number of them where it takes all.
--   Logging: base/Logging.h and base/Logging.cpp, one line from the constructor of `Logger` to its
--     destructor. Logging.Pieces has what is put to its
--     stream, Logging.Lines what the line holds. Logging.Output has the back end that
--     the first line makes, and Logging.Output.EndToEnd a program's lines up to the file.
--   InetAddress: InetAddress.cpp, over bytes in memory and interfaces for inet_pton(3) and
--     inet_ntop(3).
--   Atomic: base/Atomic.h, over bit patterns.
--   Tests: an interest list and an eventfd that satisfy the interfaces, and uses of the theorems.
--
-- What the system answers is an argument: read(2), write(2) and fwrite(3) take or deliver no more than
-- they are given, epoll_ctl(2) succeeds where its manual allows the call. Two loops have fuel: that of
-- `convert` has 20 rounds, as a number of 64 bits has at most 20 digits, and that of
-- `AppendFile::append` one more than the bytes that remain, as each round takes a byte or is the
-- last. The other loops are over a list or a size. A vector holds at most 2 ^ 63 - 1 bytes, and a
-- theorem on a call that may grow one has the hypothesis that the bytes fit.
--
-- Not modelled: the log lines that the library writes about itself, the sockets' creation, the
-- check that a call comes from the loop's thread (it logs and goes on), the calls of the thread pool
-- that take tasks out, which the sources declare and do not define, the wrappers of pthread, and the
-- destructors that only close descriptors. anyone.h is a copy of another project's type.
pub mod Prelude
pub mod Endian
pub mod ByteQueue
pub mod Buffer
pub mod Channel
pub mod Interest
pub mod Epoll
pub mod EventLoop
pub mod TcpConnection
pub mod FixedBuffer
pub mod Decimal
pub mod LogStream
pub mod CurrentThread
pub mod Logging
pub mod CircularBuffer
pub mod AsyncLogging
pub mod LogFile
pub mod TimerQueue
pub mod Acceptor
pub mod Connector
pub mod CountDownLatch
pub mod Thread
pub mod EventLoopThread
pub mod TcpServerSingle
pub mod ThreadPool
pub mod InetAddress
pub mod Atomic
pub mod TcpServer
pub mod Tests
