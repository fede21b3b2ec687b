-- ===== src/Lib.antt =====
-- A model of the HTTP server: an epoll loop accepts clients and hands their events to the workers of
-- a thread pool, which read a request, parse it, answer it from files below a root directory, and
-- send the response.
--
-- The parts and their files:
--   Prelude     the shared names: native ℕ, Boolean tests, lists, bytes, and ℤ for the C integers.
--   CString     the functions of <string.h>, <ctype.h> and <stdlib.h> that the source calls: strings
--               are lists of bytes, a pointer into a string is the list from it on.
--   Parser      src/http_parser.c and include/http_parser.h: http_request_t as the record Request, and
--               copy_until, parse_request_line, parse_header_line and http_parse_request under their
--               names; Print is http_request_print. Their inner blocks are parse_version, store_header,
--               next_line, parse_body and others.
--   Connection  client_connection_t of include/server.h.
--   Mime        src/mime.c: the table and mime_get_type.
--   Files       what open, lseek and read answer, as a parameter, and the events on descriptors.
--   Response    src/http_response.c: the pages and http_send_error, http_send_file, http_send_head.
--   Request     src/http_request.c: build_file_path, get_file_size, handle_get, handle_head and
--               http_handle_request. The part the two handlers share is handle_file and locate.
--               Expected has the pages as a client expects them, line by line.
--   ThreadPool  src/thread_pool.c: the queue of linked nodes with thread_pool_add_task and the round of
--               worker_thread up to its unlock; System has every interleaving of these as a step relation.
--               Threads is thread_pool_create and thread_pool_destroy, as what is acquired and released,
--               Nodes the nodes on the heap. Monitor has each thread at the lock and the condition:
--               before the lock, at the test behind it, about to wait, in the wait, with a task, at
--               the end; Monitor/Destroy puts the destroy behind its last steps.
--   Epoll       src/epoll_handler.c. Complete is is_request_complete; Table is the table of connections
--               with init, accept, close, the timeout check, the count and the cleanup; Worker is
--               worker_process_request, with its two loops as read_loop and write_loop;
--               Dispatch is epoll_handler_dispatch. Invariant says what a well formed table is;
--               Sharing has the interleavings of the main thread and the workers on the table as a step
--               relation, Sharing/Turn the code of a turn as its steps, and Sharing/Alone a whole turn
--               with others in between. Serving is the server at work as a whole, with the linked
--               queue, the arguments of the tasks on the heap, the turns and the table, and
--               Serving/MainThread the code of an accept and of a dispatch as its steps.
--               Worker/Exchange puts reading, parsing, answering and sending together, and
--               Worker/Session several such turns on one connection.
--   Server      src/server.c: server_init, and server_run with its loop as main_loop. Workers is the turn
--               of a worker as it appears to the loop, Idle the timeout of clients.
--   Logging     src/utils.c and include/utils.h: the line that log_print writes.
--   Main        src/main.c: the loop over the arguments as parse_arguments; Start is main.
--   Tests       the theorems at concrete inputs.
--
-- How state is modelled. A connection, a request and the table are records that each operation takes
-- and returns. A buffer is its cells, so a write that does not fit would show. The table's calls of
-- epoll_ctl, close and free go into a log. What the operating system answers is an argument: the
-- record Files, a list of answers of read, of write or of accept, a function that says whether malloc
-- succeeds, and the readings of the clock. In a turn of the worker these are the fields of Turn, in
-- server_run those of Setup, in main those of World. main_loop takes a list of rounds, each with the
-- signals that come in; in each the workers may do to the table and to the queue whatever a function
-- says. In Epoll/Sharing a turn is its start and its end, each a step under the lock, and for an incomplete
-- request, whose end has no lock, the release of the connection and the arming of its descriptor are a
-- step each; other threads may run in between. Of the turn only what it does to the table is kept there,
-- and the call of epoll_ctl that arms a descriptor again is taken to succeed where the descriptor is open.
-- worker_process_request is the turn as one step, and finish_turn its end; the connections that
-- GET /status counts are those of the table that the turn ends with.
--
-- Fuel. parse_headers and scan_length run on the length of the text that is left, plus one; each round
-- takes a byte at least, and the parser and the test for completeness are total by that. write_loop
-- runs on the answers of the socket: 1001 for each byte and 1001 more are enough, as an answer either
-- takes a byte or counts as one of 1000 retries. MAX_EVENTS, 1024, bounds the loops over the table. The
-- frees of thread_pool_destroy run on one unit more than tasks are left.
--
-- Bytes are numbers; the tests of <ctype.h> and strcasecmp are those of the C locale. The integers that
-- the parser computes from text are those of atoi on 32 bits, and their sums wrap; the counter of requests wraps at 2 ^ 64.
--
-- The lock and the condition are those of POSIX, as steps of ThreadPool/Monitor: what stands between a
-- lock and its unlock is one step, but for the wait, which gives the lock back and may end without a
-- signal. A thread there has at most four steps of its own before it waits, ends or has a task again,
-- and three for each task, which bounds the runs in Monitor/Ends.
--
-- Not modelled: the event masks that are passed to epoll; the lines that the parts write to the log,
-- but for those of http_request_print; the fairness of the scheduler.
pub mod Prelude
pub mod CString
pub mod Parser
pub mod Connection
pub mod Mime
pub mod Files
pub mod Response
pub mod Request
pub mod ThreadPool
pub mod Epoll
pub mod Server
pub mod Logging
pub mod Main
pub mod Tests
