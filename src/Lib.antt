-- ===== src/Lib.antt =====
-- A model of monitor_system, a client and a server that collect load data over TCP and UDP, with
-- proofs about both. Paths are from the root of the repository.
--
-- The server (server/) runs a login thread (`do_login`), a dispatcher over epoll (`do_dispatch`), a
-- pool of workers (`do_task`) fed by a ring buffer, a pool of MySQL connections, and a heartbeat on
-- a timer signal (`heart_beat`). The files, by the code that they model:
--   * Base: shared names, Boolean tests, arrays as lists, `int` counters, C strings, and `Exec`, the
--     result of C code: a value, or a `Stop` where the process ends or C promises nothing.
--   * Message: common/msg.h.
--   * TaskQueue: server/thread_pool/thread_poll.cpp. `push` and `pop` keep their names; `length` is
--     `queue_length`. Children: Bounds (the invariant), Indices and Fifo (a bounded queue), Calls
--     (sequences of calls), Slots (the pointer that `pop` returns), Workers (interleavings).
--   * Server: server/server_func.cpp and server/function.h. Children: Clients (the map), Heartbeat,
--     Login with Admission, Dispatch, Registered and Sessions (whole handlers in any order), Threads
--     (the handlers cut into parts), Addresses, Sound, Safe and Interleaved (the parts in any order),
--     LockedOut (a client after a failed `recv`).
--   * DbPool: server/db_connection_pool/. Children: Nodes (`create_db_connect`), Destroy, Acquire
--     (`get_db_connect`), Search (its walk around the array), Drift (`busy_number` while MySQL is
--     silent), Free and Grab (a pool with all nodes connected), Created and AllOrNone (the pool of
--     `sql_pool_create`), Resize (`changeNodeNum`).
--   * Offline: client/send_file.cpp and the part of client/send_data_to_server.cpp that writes unsent
--     data. Children: Lines (records as lines), RoundTrip (`do_with_file` on one record), Resend (on
--     a file of records), Fuel (the bound of `replay`), Incomplete (a file that ends within a record).
--   * Reconnect: client/login.cpp. Children: Counting (`try_to_relogin` and the relogin thread),
--     Token (`login` against the server's `do_login`).
--   * Config: `get_conf_value` of common/common.cpp. Child: LastWins.
--   * Udp: the UDP functions of common/common.cpp and `udp_deal_with` of server/server_func.cpp.
--     Child: Handshake.
--   * Sockets: `socket_create` and `socket_connect` of common/common.cpp.
--   * Json: the functions of common/cJSON that the code calls, as the record `Cjson`, and the behaviour
--     that the code relies on, as the record `IsLawful`. Children: Layout (the lines of a printed object),
--     Plain, a small instance.
--   * Collect: client/collect_local_data.cpp and `check_data_and_send_to_msg_queue` of
--     client/send_data_to_server.cpp (`check_data` is one round). Child: Queued.
--   * Encode: `send_data_to_server` of client/send_data_to_server.cpp. The four branches of its loop
--     differ in names, types and files only, and are one definition over a `Kind`. Children: Words
--     (the words that `strtok` of the C library finds), Object (the JSON object), Deliver (one round of the loop), Effects,
--     Failures (the rounds against `try_to_relogin`).
--   * Storing: `deal_with_monitor_msg` and `do_task` of server/server_func.cpp. Its four branches are
--     one definition over a `Table`. Children: Query (the statement), Worker,
--     Turns (the workers one turn after the other).
--   * Pipeline: the parts in a row. Children: Lookups and Stored (Encode against Storing), Batch (the
--     sending thread, the dispatcher, the task queue and the workers), Collected (with the collecting
--     thread in front), Kept and Resent (lines of one kind that wait for the next login), Kinds,
--     Messages and Reconnected (lines of all kinds and the login), Urgent.
--   * Startup: `main` of server/server.cpp and of client/client.cpp, and `set_alarm`. Children: Settings
--     (options and configuration), ServerMain, ClientMain, Precedence, Ready and Needed (the server
--     once it runs), Workers (the threads for `do_task` and their connections), Answers (the client's
--     loop in `main` against the server's `heart_beat` and `do_dispatch`), Rejected (a client that is
--     turned away).
--   * Build: CMakeLists.txt, the headers and the top level of the sources, as lines for a preprocessor.
--     Children: CommonHeaders and PartHeaders (the headers), Headers (their search), ClientSources,
--     ServerSources and Sources, Guards, Macros and Once (include guards), Types, Link, Units and
--     Programs (what the two programs declare and define).
-- The modules whose names end in Tests hold runs on concrete inputs and instances of the results below.
--
-- What system calls and the MySQL library answer are arguments of the definitions. A function that
-- holds a lock is one step. In Server.Threads the signal handler and the other threads run between
-- the parts of `do_login` and `do_dispatch`; elsewhere each handler runs whole. Loops recur on
-- their rounds. `destroy_loop` takes fuel: `pool_number` falls in each round, so its first value
-- is enough, and the theorem about it proves that the loop ends by its own test. `replay` takes
-- the length of the file plus one: each round reads a byte at least. `preprocess` takes one turn for
-- a line, and 400 are enough for every source. `int`s are numbers that the
-- proved bounds keep far below 2 ^ 31 (indices stay below the size of their array); `busy_number`
-- is an integer and its overflow is not modelled.
--
-- Not modelled: the mutexes, data races inside a part of a handler, a failure of `pthread_create`
-- (whose result the code drops; `Running` lists the threads with what they run), `atoi` beyond
-- `int`, and the shutdown behind the endless loops. A heartbeat that removes a client
-- erases the element that its loop stands on; the interleavings take it to leave the threads running.
-- The pointer to a task queue of a negative size is `none`: the server starts with it, and the first
-- use of its slots would fault. common/cJSON is another project's
-- library and so a parameter; the scripts are not C++. Headers of the system, of MySQL and of cJSON
-- are opaque to Build, which keeps no initial values and no bodies. What is printed is left out
-- everywhere.
pub mod Build
pub mod Base
pub mod Message
pub mod TaskQueue
pub mod Server
pub mod DbPool
pub mod Offline
pub mod Reconnect
pub mod Config
pub mod Udp
pub mod Json
pub mod Storing
pub mod Collect
pub mod Encode
pub mod Pipeline
pub mod Sockets
pub mod Startup
