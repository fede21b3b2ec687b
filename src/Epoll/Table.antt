-- ===== src/Epoll/Table.antt =====
-- The table of connections: init, accept, close, the timeout check, the count and the cleanup. What
-- is asked of the operating system goes into a log, newest first; its answers are arguments.
pub mod Entries
pub mod Accept
pub mod Cleanup
use epoll_http_server.Prelude.{
  ℕ, zero, suc, ◌+◌, ◌-◌, Bool, true, false, List, [], ◌∷◌, ◌++◌, Option, none, some, ltb, leb,
  ◌==◌, if◌then◌else◌, length, set, take, replicate,
}
use epoll_http_server.Connection.{Connection, buffer_size, write_size}

-- `MAX_EVENTS`
abbrev pub max_events : ℕ
max_events = 1024

-- `CONNECTION_TIMEOUT`
abbrev pub connection_timeout : ℕ
connection_timeout = 60

-- The system calls of the module. The descriptor of epoll itself is the same in all of them.
pub data Call : Type 0 where
  epoll_add epoll_modify epoll_remove : (fd : ℕ) → Call
  close_fd : (fd : ℕ) → Call
  free_connection : (fd : ℕ) → Call

-- `connections[MAX_EVENTS]`, and the log.
pub record Handler : Type 0 where
  pub connections : List (Option Connection)
  pub log : List Call

-- `connections[fd]`
unfoldable pub entry : List (Option Connection) → ℕ → Option Connection
entry [] fd = none
entry (c ∷ cs) zero = c
entry (c ∷ cs) (suc fd) = entry cs fd

-- Every entry is set to NULL.
unfoldable pub epoll_handler_init : Handler → Handler
epoll_handler_init h = record h { connections = replicate max_events none }

-- The three calls of `epoll_ctl`, on its answer. The result is `true` for 0.
abbrev pub epoll_add_fd : Handler → ℕ → Bool → Handler × Bool
epoll_add_fd h fd answer = (record h { log = epoll_add fd ∷ h.log }, answer)

abbrev pub epoll_modify_fd : Handler → ℕ → Bool → Handler × Bool
epoll_modify_fd h fd answer = (record h { log = epoll_modify fd ∷ h.log }, answer)

abbrev pub epoll_remove_fd : Handler → ℕ → Bool → Handler × Bool
epoll_remove_fd h fd answer = (record h { log = epoll_remove fd ∷ h.log }, answer)

-- The result of `epoll_remove_fd` is not read.
unfoldable pub epoll_handler_close : Handler → ℕ → Handler
unfolding entry
epoll_handler_close h fd = elim (entry h.connections fd) [
  | none ↦ h
  | some conn ↦
      let (removed, result) = epoll_remove_fd h fd true in
      record {
        connections = set removed.connections fd none;
        log = free_connection fd ∷ close_fd fd ∷ removed.log;
      }
]

-- `now - conn->last_active > CONNECTION_TIMEOUT`
abbrev pub timed_out : ℕ → Connection → Bool
timed_out now conn = ltb (conn.last_active + connection_timeout) now

-- What the check does with entry `i`.
unfoldable pub check_entry : ℕ → Handler → ℕ → Handler
unfolding entry epoll_handler_close
check_entry now h i = elim (entry h.connections i) [
  | none ↦ h
  | some conn ↦ if conn.in_use then h else if timed_out now conn then epoll_handler_close h i else h
]

-- `for (i = 0; i < MAX_EVENTS; i++)`, with the rounds left.
unfoldable pub check_from : ℕ → ℕ → ℕ → Handler → Handler
unfolding check_entry
check_from zero now i h = h
check_from (suc n) now i h = check_from n now (i + 1) (check_entry now h i)

unfoldable pub epoll_handler_check_timeout : ℕ → Handler → Handler
unfolding check_from
epoll_handler_check_timeout now h = check_from max_events now 0 h

unfoldable pub count_entries : List (Option Connection) → ℕ
count_entries [] = 0
count_entries (none ∷ cs) = count_entries cs
count_entries (some conn ∷ cs) = count_entries cs + 1

-- The entries below 1024 that are not NULL.
unfoldable pub epoll_handler_get_connection_count : Handler → ℕ
unfolding count_entries
epoll_handler_get_connection_count h = count_entries (take max_events h.connections)

-- What the cleanup does with entry `i`: the descriptor is that of the connection.
unfoldable pub clean_entry : Handler → ℕ → Handler
unfolding entry
clean_entry h i = elim (entry h.connections i) [
  | none ↦ h
  | some conn ↦ record {
    connections = set h.connections i none;
    log = free_connection i ∷ close_fd conn.fd ∷ h.log;
  }
]

unfoldable pub clean_from : ℕ → ℕ → Handler → Handler
unfolding clean_entry
clean_from zero i h = h
clean_from (suc n) i h = clean_from n (i + 1) (clean_entry h i)

unfoldable pub epoll_handler_cleanup : Handler → Handler
unfolding clean_from
epoll_handler_cleanup h = clean_from max_events 0 h

-- An answer of `accept`: the queue is empty, an error, or a descriptor, with the answers of the
-- calls that follow: whether `fcntl`, `malloc` and `epoll_ctl` succeed, and the time.
pub data Accepted : Type 0 where
  again : Accepted
  failed : Accepted
  client : (fd : ℕ) (nonblocking allocated added : Bool) (now : ℕ) → Accepted

-- A new connection.
abbrev pub new_connection : ℕ → ℕ → Connection
new_connection fd now = record {
  in_use = false;
  fd = fd;
  read_buf = replicate buffer_size 0;
  read_pos = 0;
  write_buf = replicate write_size 0;
  write_pos = 0;
  write_len = 0;
  last_active = now;
  keep_alive = true;
}

-- The loop's body for a descriptor.
unfoldable pub accept_client : Handler → ℕ → Bool → Bool → Bool → ℕ → Handler
accept_client h fd nonblocking allocated added now =
    let closed = record h { log = close_fd fd ∷ h.log } in
    if nonblocking
    then (if leb max_events fd
        then closed
        else if allocated
        then (let (stored, result) =
              epoll_add_fd
                (record h { connections = set h.connections fd (some (new_connection fd now)) }) fd
                added in
            if result then stored else record {
              connections = set stored.connections fd none;
              log = free_connection fd ∷ close_fd fd ∷ stored.log;
            })
        else closed)
    else closed

-- `while (1)` over the answers of `accept`. Answers behind the one that ends the loop are not read.
unfoldable pub epoll_handler_accept : Handler → List Accepted → Handler
unfolding accept_client
epoll_handler_accept h [] = h
epoll_handler_accept h (again ∷ rest) = h
epoll_handler_accept h (failed ∷ rest) = h
epoll_handler_accept h (client fd nonblocking allocated added now ∷ rest) =
    epoll_handler_accept (accept_client h fd nonblocking allocated added now) rest
