-- ===== src/Lib.antt =====
-- libsiot: a library for servers over sockets. A `Server` accepts connections, watches them with
-- epoll and hands their events to a callback object by a pool of threads; a `Connection` is a
-- socket, an encrypted socket, or a decorator around another connection: a reader of a range, a
-- buffer of lines, or a buffer of data to acknowledge.
--
-- How the files correspond to the code:
--   Connection: the class of siot/connection.h and its methods in server.cc. `Connection S` is the
--     table of virtual methods over a state `S`, which holds the object, what it wraps, and the
--     operating system. Connection.Locking is its lock. The contracts between a connection and the
--     decorators around it are three: Connection.Closing states what `Shutdown` calls
--     (`IsClosable`), Connection.Contract states what `Receive` and `IsEOF` promise (`IsSource`),
--     and Connection.Sink what `Send` promises (`IsSink`, proved of a plain socket and of decorators
--     that pass the call on): the decorators are proved from it, the sockets and the range reader
--     are proved to keep it.
--   Decorator: what the decorators share; a decorator's state holds the state of the connection it
--     wraps. Decorator.Sink is on `Send`.
--   RangeReader: rangereaderdecorator.cc. Source and Progress are on `Receive` and `IsEOF`, Drain on
--     the loop of `Shutdown`, Closing and Ends on the whole of it.
--   Acknowledgement: acknowledgementdecorator.cc. Buffer is on one call of `Receive`, History on
--     sequences of calls, Auto on automatic acknowledgement, Excess on a buffer that has reached the
--     limit of a call, Closing on `Shutdown`.
--   LineBuffer: linebufferdecorator.cc. Lines is the specification; Fetch and Split are on the two
--     loops of `Receive`, Delivery on the whole of it, Client and Complete on a client that goes on
--     calling it, Gaps on empty and unterminated lines, Ranged on a client of a line buffer around a
--     range reader, Stacked on one around all the decorators and a socket, Text and Wire on lines
--     that another client sends to it, Closing on `Shutdown`.
--   UnixSocket: unixsocketconnection.cc, over the system calls as a parameter (`Sockets`). Source is
--     on `Receive`, Sink on `Send`, Closed on a socket whose peer has gone, Blocking on
--     `SetBlocking`, Closing on `Shutdown`. Base.Bits has the digits of a word of flags.
--   OpenSsl: opensslconnection.cc, over the functions of OpenSSL as a parameter (`OpenSsl`). Source
--     is on `Receive`, Sink on `Send`, Silent on a connection that does not block, Closing on
--     `Shutdown`, Life on the contexts and handles that are taken and given back.
--   SslContext: sslcontext.cc.
--   Server: siot/server.h and the methods of `Server` in server.cc. Connections is the map of
--     connections, Registry the methods that change it, Listener and Rounds are `ListenEpoll`,
--     Reaper is `ReapConnectionsEpoll`, Life the socket and the address list from the constructor to
--     the destructor. Frame says which changes these methods are made of; Locks and Threads are on
--     what the threads keep in any order, Threads.Loop on `ListenEpoll` as a whole, Threads.Final on
--     `Shutdown`, Threads.Deletion on what may run on a connection that goes, Threads.Watched on the
--     calls of `epoll_ctl`, Threads.Current on the callback object, Threads.Between on what the
--     other threads do in the middle of an event, Threads.Shutdowns and Threads.Deadlock on the
--     reaper that shuts a connection down while it holds `connections_lock_`; Batch on what becomes
--     of a batch of events, Idle on the reaper's test and pass, Wakes on its thread, Readable on
--     batches of data to read, Objects on what the table's entries point to, Removal on taking them
--     out. Pool is `executor_`, whose threads may wait in `Shutdown` for the lock of a connection:
--     Pool.Stuck, Pool.Ways and Pool.Drain are on when they wait for each other. Attached joins the
--     connections to the server that they belong to: what `Shutdown` of a socket, an encrypted
--     connection or a decorator does to its server, Attached.Range that of a range reader. Callbacks
--     is `ConnectionCallback`.
--   Tests: the theorems at concrete inputs, over a connection, a socket and a handle in memory.
--
-- An action (Base.Actions) takes a state and returns an outcome and a state. The outcome is a value
-- (`ok`), a `ClientConnectionException` (`throws`), behaviour that C++ leaves undefined
-- (`undefined`), or a loop that has used up its fuel (`running`). After an undefined step nothing
-- more is said; a later step does not happen.
--
-- Numbers: `size_t` and `uint64_t` are natural numbers with the wrap-around at 2 ^ 64 written out. A
-- string is the list of its bytes. Descriptors, addresses and flags are natural numbers.
--
-- Fuel: the first loop of `LineBufferDecorator::Receive` and the loop of
-- `RangeReaderDecorator::Shutdown` take a number of rounds. One more than the bytes that the wrapped
-- connection has to hand over, or than the bytes left in the range, is enough, as the theorems of
-- Fetch and Drain show; the second loop of `Receive` gets one round more than the remainder has
-- bytes. Where no number of rounds is enough, a theorem says so.
--
-- Not modelled: the mutexes themselves, except that a `Shutdown` in the pool waits for the read
-- locks on its connection and on what that owns, and the interleaving of threads inside one method
-- (the threads' rounds and closures follow one another in any order), except in the middle of an
-- event and while the listener and the reaper wait; the deletion of objects, which is a call on a
-- parameter; address resolution, of which only the outcome is taken; a null callback object, which
-- every event would dereference; a setting of `SetMaxIdle` above 2147483, with which the products
-- for the waits overflow an `int`; the lock `connections_lock_`, except for which closures wait for
-- it. The pool takes its closures in any order, and a callback that it runs comes back.
pub mod Base
pub mod Connection
pub mod Decorator
pub mod RangeReader
pub mod Acknowledgement
pub mod LineBuffer
pub mod UnixSocket
pub mod SslContext
pub mod OpenSsl
pub mod Server
pub mod Tests
