-- ===== src/Epoll.antt =====
-- src/epoll_handler.c: whether a request is complete, the table of connections and its invariant, the
-- worker's loops over a socket, what a worker does with one event, how an event becomes a task, and
-- how the main thread and the workers share the table.
pub mod Complete
pub mod Table
pub mod Worker
pub mod Dispatch
pub mod Invariant
pub mod Sharing
pub mod Serving
