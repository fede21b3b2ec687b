-- ===== src/Epoll/Sharing.antt =====
-- The table of connections between the main thread and the workers, in any interleaving: accept,
-- dispatch, the start and the ends of a worker's turn, and the timeout check. What runs under the lock is
-- one step. An incomplete request ends with no lock: the release of the connection and the arming of its
-- descriptor are a step each. Of a turn only what it does to the table is kept.
pub mod Places
pub mod Sizes
pub mod Steps
pub mod Ownership
pub mod Race
pub mod Alone
pub mod Turn
use epoll_http_server.Prelude.{
  ℕ, ◌+◌, ◌<◌, ◌≡◌, Bool, true, false, ◌&&◌, List, [], ◌∷◌, ◌++◌, Option, none, some, ◌==◌,
  if◌then◌else◌, ◌⊎◌, set, length, All, replicate,
}
use epoll_http_server.Connection.{Connection}
use epoll_http_server.Epoll.Table.{
  Handler, entry, max_events, new_connection, epoll_add, close_fd, free_connection,
  epoll_handler_close, epoll_handler_check_timeout,
}
use epoll_http_server.Epoll.Table.Entries.{expire}
use epoll_http_server.Epoll.Worker.{put, rearm, taken_up}

-- The table; the descriptors that epoll may report, as EPOLLONESHOT has it; those of the tasks that
-- have not come to the table yet, in the queue or with a worker; those whose connection a worker has
-- in use, one for each such worker; and those that a worker has released and not armed again yet.
pub record Shared : Type 0 where
  pub handler : Handler
  pub armed : ℕ → Bool
  pub queued : List ℕ
  pub held : List ℕ
  pub leaving : List ℕ

-- A new client in the table, and with epoll.
abbrev pub joined : Handler → ℕ → ℕ → Handler
joined h fd now = record {
  connections = set h.connections fd (some (new_connection fd now));
  log = epoll_add fd ∷ h.log;
}

-- A client turned away: every entry is as it was, and its descriptor is closed, at once, or with a
-- connection freed because epoll did not take it.
pub record TurnedAway (fd : ℕ) (h after : Handler) : Type 0 where
  pub size : length after.connections ≡ length h.connections
  pub same : (j : ℕ) → entry after.connections j ≡ entry h.connections j
  pub closed :
      (after.log ≡ close_fd fd ∷ h.log)
      ⊎ (after.log ≡ free_connection fd ∷ close_fd fd ∷ epoll_add fd ∷ h.log)

abbrev pub update : (ℕ → Bool) → ℕ → Bool → ℕ → Bool
update f i b j = if i == j then b else f j

abbrev pub count : ℕ → List ℕ → ℕ
count j [] = 0
count j (x ∷ xs) = (if x == j then 1 else 0) + count j xs

abbrev pub remove_one : ℕ → List ℕ → List ℕ
remove_one i [] = []
remove_one i (x ∷ xs) = if x == i then xs else x ∷ remove_one i xs

abbrev pub occupied : Option Connection → Bool
occupied none = false
occupied (some conn) = true

-- The program starts with an empty table.
abbrev pub idle : Shared
idle = record {
  handler = record { connections = replicate max_events none; log = [] };
  armed = λ fd. false;
  queued = [];
  held = [];
  leaving = [];
}

-- With `late` the timeout check may close a client whose task waits, or one that a worker has released
-- and not armed again; without, it is never that late.
pub data Step (late : Bool) : Shared → Shared → Type 0 where
  -- `accept` gives a descriptor that is not open, and so is not in the table.
  accept :
      {s : Shared} (fd now : ℕ)
      → fd < max_events
      → entry s.handler.connections fd ≡ none
      → Step late s (record s { handler = joined s.handler fd now; armed = update s.armed fd true })
  -- A client is turned away, wherever in the body of the loop.
  turn_away :
      {s : Shared} (fd : ℕ) (after : Handler)
      → entry s.handler.connections fd ≡ none
      → TurnedAway fd s.handler after
      → Step late s (record s { handler = after })
  -- An event of an armed descriptor disarms it, and is dispatched.
  event :
      {s : Shared} (fd : ℕ)
      → s.armed fd ≡ true
      → Step late s (record s { armed = update s.armed fd false; queued = s.queued ++ (fd ∷ []) })
  -- An event whose task cannot be made, or is refused: the client is closed.
  refuse :
      {s : Shared} (fd : ℕ)
      → s.armed fd ≡ true
      → Step late s
          (record s { handler = epoll_handler_close s.handler fd; armed = update s.armed fd false })
  -- A worker has a task, looks up its connection and marks it. Between the queue and the table it has
  -- no lock, so the tasks come to the table in any order.
  start :
      {s : Shared} {conn : Connection} (fd arrival : ℕ)
      → 0 < count fd s.queued
      → entry s.handler.connections fd ≡ some conn
      → Step late s (record s {
        handler = put s.handler fd (taken_up conn arrival);
        queued = remove_one fd s.queued;
        held = fd ∷ s.held;
      })
  -- A worker has a task whose connection is gone, and returns.
  miss :
      {s : Shared} (fd : ℕ)
      → 0 < count fd s.queued
      → entry s.handler.connections fd ≡ none
      → Step late s (record s { queued = remove_one fd s.queued })
  -- The end of a turn behind a response, which keeps the connection.
  keep :
      {s : Shared} {old : Connection} (fd : ℕ) (conn : Connection)
      → 0 < count fd s.held
      → entry s.handler.connections fd ≡ some old
      → Step late s (record s {
        handler = rearm (put s.handler fd (record conn { in_use = false })) fd;
        armed = update s.armed fd true;
        held = remove_one fd s.held;
      })
  -- The end of a turn that closes it.
  finish :
      {s : Shared} (fd : ℕ)
      → 0 < count fd s.held
      → Step late s (record s {
        handler = epoll_handler_close s.handler fd;
        armed = update s.armed fd false;
        held = remove_one fd s.held;
      })
  -- The request is incomplete: `conn->in_use = 0` with no lock held.
  release :
      {s : Shared} {old : Connection} (fd : ℕ) (conn : Connection)
      → 0 < count fd s.held
      → entry s.handler.connections fd ≡ some old
      → Step late s (record s {
        handler = put s.handler fd (record conn { in_use = false });
        held = remove_one fd s.held;
        leaving = fd ∷ s.leaving;
      })
  -- Then its `epoll_modify_fd`, whatever has become of the connection: a descriptor that is closed by
  -- now is not with epoll any more, and one that is open again is that of another client.
  arm_again :
      {s : Shared} (fd : ℕ)
      → 0 < count fd s.leaving
      → Step late s (record s {
        handler = rearm s.handler fd;
        armed = update s.armed fd (occupied (entry s.handler.connections fd));
        leaving = remove_one fd s.leaving;
      })
  check :
      {s : Shared} (now : ℕ)
      → (late ≡ false
          → All
              (λ fd. expire now (entry s.handler.connections fd) ≡ entry s.handler.connections fd)
              (s.queued ++ s.leaving))
      → Step late s (record s {
        handler = epoll_handler_check_timeout now s.handler;
        armed = λ fd. s.armed fd && occupied (expire now (entry s.handler.connections fd));
      })

pub data Reaches (late : Bool) : Shared → Type 0 where
  begin : Reaches late idle
  after : {s t : Shared} → Reaches late s → Step late s t → Reaches late t
