-- ===== src/Server/Rounds.antt =====
-- The main loop: every event and every check keeps the table well formed, and the loop ends.
use epoll_http_server.Prelude.{
  ℕ, ◌+◌, ◌≡◌, if◌then◌else◌, ap, ◌∙◌, Bool, true, false, ◌||◌, not, inl, inr, List, [], ◌∷◌,
  Option, none, some, leb, ◌==◌, All, Bool-cases,
}
use epoll_http_server.ThreadPool.{Pool, thread_pool_add_task}
use epoll_http_server.Epoll.Table.{Handler}
use epoll_http_server.Epoll.Dispatch.{epoll_handler_dispatch}
use epoll_http_server.Epoll.Invariant.{
  IsTable, epoll_handler_close-IsTable, epoll_handler_check_timeout-IsTable,
  epoll_handler_accept-IsTable,
}
use epoll_http_server.Server.{
  Ready, Wait, interrupted, failed, events, Wake, Loop, handle_event, handle_events, check_time,
  round, main_loop, signal_handlers,
}

-- The workers leave a well formed table so.
abbrev pub KeepsTable : (Handler × Option Pool → Handler × Option Pool) → Type 0
KeepsTable f = (s : Handler × Option Pool) → IsTable s.0.connections → IsTable (f s).0.connections

abbrev pub WorkersKeep : Wake → Type 0
WorkersKeep wake = KeepsTable wake.workers

-- The loop is told to stop by a signal, or the wait fails.
abbrev pub breaks : Wait → Bool
breaks failed = true
breaks _ = false

abbrev pub stops : Bool → List Wake → Bool
stops running [] = not running
stops running (wake ∷ rest) =
    not running || breaks wake.wait || stops (signal_handlers wake.signals running) rest

impossible : false ≡ true → ⊥
impossible e = cc

if_on :
    {A : Type 0} {x : A} (y : A) (b : Bool) (P : A → Type 0)
    → b ≡ true
    → P x
    → P (if b then x else y)
if_on y true P on p = p
if_on y false P on p = absurd (impossible on)

or_on : (b c d : Bool) → b ≡ true → (not b || c || d) ≡ true → (c || d) ≡ true
or_on true c d on h = h
or_on false c d on h = absurd (impossible on)

dispatch-IsTable :
    (h : Handler) (pool : Option Pool) (worker fd : ℕ) (arg address : Option ℕ)
    → IsTable h.connections
    → IsTable (epoll_handler_dispatch h pool worker fd arg address).0.connections
unfolding epoll_handler_dispatch
dispatch-IsTable h none worker fd arg address is = epoll_handler_close-IsTable h fd is
dispatch-IsTable h (some pool) worker fd none address is = epoll_handler_close-IsTable h fd is
dispatch-IsTable h (some pool) worker fd (some arg) address is =
    elim (Bool-cases (thread_pool_add_task (some pool) (some worker) arg address).1) [
      | inl added ↦ rw (added, epoll_handler_dispatch) is
      | inr refused ↦ rw (refused, epoll_handler_dispatch) (epoll_handler_close-IsTable h fd is)
    ]

module _ (listen_fd worker : ℕ) where
  handle_event-IsTable :
      (s : Handler × Option Pool) (ready : Ready)
      → IsTable s.0.connections
      → IsTable (handle_event listen_fd worker s ready).0.connections
  unfolding handle_event
  handle_event-IsTable (h, pool) ready is = elim (Bool-cases (ready.fd == listen_fd)) [
    | inl socket ↦ simp (socket, handle_event) (epoll_handler_accept-IsTable h ready.accepts is)
    | inr client ↦
        simp (client, handle_event)
          (dispatch-IsTable h pool worker ready.fd ready.arg ready.address is)
  ]

  handle_events-IsTable :
      (s : Handler × Option Pool) (ready : List Ready)
      → IsTable s.0.connections
      → IsTable (handle_events listen_fd worker s ready).0.connections
  unfolding handle_events
  handle_events-IsTable s [] is = is
  handle_events-IsTable s (r ∷ rest) is =
      handle_events-IsTable (handle_event listen_fd worker s r) rest (handle_event-IsTable s r is)

  check_time-IsTable :
      (loop : Loop) (now : ℕ)
      → IsTable loop.handler.connections
      → IsTable (check_time loop now).handler.connections
  unfolding check_time
  check_time-IsTable loop now is = elim (Bool-cases (leb (loop.last_timeout_check + 1) now)) [
    | inl due ↦ rw (due, check_time) (epoll_handler_check_timeout-IsTable now loop.handler is)
    | inr early ↦ rw (early, check_time) is
  ]

  -- The loop was left, with a table that is well formed.
  abbrev pub LeftWell : Option Loop → Type 0
  LeftWell none = ⊥
  LeftWell (some loop) = IsTable loop.handler.connections

  check_time-running : (loop : Loop) (now : ℕ) → (check_time loop now).running ≡ loop.running
  unfolding check_time
  check_time-running loop now = elim (Bool-cases (leb (loop.last_timeout_check + 1) now)) [
    | inl due ↦ rw (due, check_time)
    | inr early ↦ rw (early, check_time)
  ]

  -- Behind the wait of a round.
  after_wait :
      (waited : Loop) (wait : Wait) (rest : List Wake)
      → IsTable waited.handler.connections
      → (breaks wait || stops waited.running rest) ≡ true
      → ((loop : Loop)
          → IsTable loop.handler.connections
          → stops loop.running rest ≡ true
          → LeftWell (main_loop listen_fd worker loop rest))
      → LeftWell (elim (round listen_fd worker waited wait) as (λ _. Option Loop) [
        | none ↦ some waited
        | some loop' ↦ main_loop listen_fd worker loop' rest
      ])
  unfolding round
  after_wait waited interrupted rest is stop later = later waited is stop
  after_wait waited failed rest is stop later = is
  after_wait waited (events ready now) rest is stop later =
      let (h, pool) = handle_events listen_fd worker (waited.handler, waited.pool) ready in
      let handled : Loop = record waited { handler = h; pool = pool } in
      later (check_time handled now)
        (check_time-IsTable handled now
          (handle_events-IsTable (waited.handler, waited.pool) ready is))
        (ap (λ (b : Bool). stops b rest) (check_time-running handled now) ∙ stop)

  -- From a well formed table, where a signal tells the loop to stop, or a wait fails, it ends, and the
  -- table is then well formed, whatever events came in and whatever the workers did in between, as long
  -- as they keep the table so.
  pub main_loop-LeftWell :
      (loop : Loop) (wakes : List Wake)
      → IsTable loop.handler.connections
      → All WorkersKeep wakes
      → stops loop.running wakes ≡ true
      → LeftWell (main_loop listen_fd worker loop wakes)
  unfolding main_loop
  main_loop-LeftWell loop [] is keep stop = elim (Bool-cases loop.running) [
    | inl on ↦ absurd (impossible (simp on at stop))
    | inr told ↦ simp (told, main_loop) is
  ]
  main_loop-LeftWell loop (wake ∷ rest) is keep stop = elim (Bool-cases loop.running) [
    | inr told ↦ simp (told, main_loop) is
    | inl on ↦
        let (h, pool) = wake.workers (loop.handler, loop.pool) in
        let waited : Loop = record loop {
          handler = h;
          pool = pool;
          running = signal_handlers wake.signals loop.running;
        } in
        if_on (some loop) loop.running LeftWell on (
          after_wait waited wake.wait rest (keep.0 (loop.handler, loop.pool) is)
            (or_on loop.running (breaks wake.wait) (stops waited.running rest) on stop)
            (λ loop' is' stop'. main_loop-LeftWell loop' rest is' keep.1 stop'))
  ]
