-- ===== src/Server/Run.antt =====
-- `server_run`: it returns, and what was opened is closed.
use epoll_http_server.Prelude.{
  ℕ, zero, suc, ◌<◌, ◌≡◌, refl, ◌∙◌, Bool, true, false, ◌&&◌, not, inl, inr, List, [], ◌∷◌, Option,
  none, some, arith, if◌then◌else◌, length, All, Bool-cases, Option-cases, replicate,
}
use epoll_http_server.Prelude.Int.{pos}
use epoll_http_server.Files.{opened, closed}
use epoll_http_server.Files.Balance.{IsBalanced}
use epoll_http_server.Request.{Config}
use epoll_http_server.ThreadPool.{Pool}
use epoll_http_server.ThreadPool.Queue.{Waiting, IsQueue}
use epoll_http_server.ThreadPool.Threads.{Resource, Use, thread_pool_create}
use epoll_http_server.ThreadPool.Threads.Held.{holds, owns, owned, thread_pool_create-owned}
use epoll_http_server.ThreadPool.Threads.Destroyed.{thread_pool_destroy-Frees}
use epoll_http_server.Epoll.Table.{Handler, entry, max_events, epoll_handler_init}
use epoll_http_server.Epoll.Table.Cleanup.{epoll_handler_cleanup-Empties}
use epoll_http_server.Epoll.Invariant.{IsTable, epoll_handler_init-IsTable}
use epoll_http_server.Server.{
  Loop, main_loop, threads_of, Setup, Ended, no_clients, shut_down, run_pool, server_run,
  set_nonblocking,
}
use epoll_http_server.Server.Rounds.{WorkersKeep, stops, LeftWell, main_loop-LeftWell}

-- What `server_run` returns with: the descriptors of the socket and of epoll are closed, the table is
-- empty, and of the pool is held what `kept` says.
abbrev pub Closes : ℕ → (Resource → Bool) → Option Ended → Type 0
Closes listen_fd kept none = ⊥
Closes listen_fd kept (some ended) =
    IsBalanced (opened listen_fd ∷ ended.events)
    × ((j : ℕ) → j < max_events → entry ended.handler.connections j ≡ none)
    × ((r : Resource) → holds r ended.uses ≡ kept r)

Closes-same :
    (listen_fd : ℕ) (f g : Resource → Bool) (o : Option Ended)
    → ((r : Resource) → f r ≡ g r)
    → Closes listen_fd f o
    → Closes listen_fd g o
Closes-same listen_fd f g none e c = c
Closes-same listen_fd f g (some ended) e (balanced, empty, held) =
    (balanced, empty, λ r. held r ∙ e r)

abbrev pub given : Option ℕ → Bool
given none = false
given (some fd) = true

-- Of the pool is held nothing, or all of it, where the pool was created and the socket could not be
-- added to epoll.
abbrev pub leaked : Config → Setup → Resource → Bool
leaked config setup r =
    if set_nonblocking setup.flags setup.set_flags && given setup.epoll && not setup.added
    then owned (pos (threads_of config)) (thread_pool_create (pos (threads_of config)) setup.pool).0
        r
    else false

-- `close(epoll_fd); close(listen_fd);`
closes_both :
    (listen_fd epoll_fd : ℕ)
    → IsBalanced (opened listen_fd ∷ opened epoll_fd ∷ closed epoll_fd ∷ closed listen_fd ∷ [])
closes_both listen_fd epoll_fd = ground arith

module _ (listen_fd worker fuel : ℕ) (config : Config) (setup : Setup) (xs : List Waiting)
    (left : IsQueue setup.left xs) (enough : length xs < fuel) where
  shut_down-Closes :
      (epoll_fd : ℕ) (loop : Loop) (uses : List Use)
      → ((r : Resource) → holds r uses ≡ owns (threads_of config) r)
      → Closes listen_fd
          (λ r. false)
          (shut_down listen_fd worker fuel config setup epoll_fd loop uses)
  unfolding shut_down
  shut_down-Closes epoll_fd loop uses h =
      let (heap, uses', e, freed, gone) =
        thread_pool_destroy-Frees fuel (threads_of config) setup.left uses xs left enough h in
      rw (e, shut_down)
        (
          closes_both listen_fd epoll_fd,
          epoll_handler_cleanup-Empties (setup.finish loop.handler),
          gone,
        )

  looped-Closes :
      (epoll_fd : ℕ) (o : Option Loop) (uses : List Use)
      → LeftWell listen_fd worker o
      → ((r : Resource) → holds r uses ≡ owns (threads_of config) r)
      → Closes listen_fd
          (λ r. false)
          (elim o as (λ _. Option Ended) [
            | none ↦ none
            | some loop ↦ shut_down listen_fd worker fuel config setup epoll_fd loop uses
          ])
  looped-Closes epoll_fd none uses well h = absurd well
  looped-Closes epoll_fd (some loop) uses well h = shut_down-Closes epoll_fd loop uses h

  run_pool-Closes :
      (epoll_fd : ℕ) (h : Handler) (created : Option Pool) (uses : List Use)
      → IsTable h.connections
      → ((j : ℕ) → j < max_events → entry h.connections j ≡ none)
      → All WorkersKeep setup.wakes
      → stops true setup.wakes ≡ true
      → ((r : Resource) → holds r uses ≡ owned (pos (threads_of config)) created r)
      → Closes listen_fd
          (λ r. if setup.added then false else owned (pos (threads_of config)) created r)
          (run_pool listen_fd worker fuel config setup epoll_fd h (created, uses))
  unfolding run_pool
  run_pool-Closes epoll_fd h none uses is empty keep stop held =
      (closes_both listen_fd epoll_fd, empty, λ r. held r ∙ ground arith)
  run_pool-Closes epoll_fd h (some pool) uses is empty keep stop held =
      elim (Bool-cases setup.added) [
        | inl added ↦
            let start : Loop = record {
              handler = h;
              pool = some pool;
              last_timeout_check = setup.time;
              running = true;
            } in
            simp (added, run_pool)
              (looped-Closes epoll_fd (main_loop listen_fd worker start setup.wakes) uses
                (main_loop-LeftWell listen_fd worker start setup.wakes is keep stop) held)
        | inr refused ↦ simp (refused, run_pool) (closes_both listen_fd epoll_fd, empty, held)
      ]

entry-none : (n i : ℕ) → entry (replicate n none) i ≡ none
unfolding entry
entry-none zero i = refl
entry-none (suc n) zero = refl
entry-none (suc n) (suc i) = entry-none n i

-- As long as the workers keep the table well formed and leave a queue of tasks, and with fuel for its
-- tasks: when a signal tells the loop to stop, or a wait fails, `server_run` returns. On every path,
-- errors included, it has closed the socket and the descriptor of epoll, each once, and left no client
-- in the table. Of the pool nothing is left, its threads joined, but on one path: where the pool was
-- created and the socket could not be added to epoll, all of it is.
pub server_run-Closes :
    (listen_fd worker fuel : ℕ) (config : Config) (setup : Setup) (xs : List Waiting)
    → IsQueue setup.left xs
    → length xs < fuel
    → All WorkersKeep setup.wakes
    → stops true setup.wakes ≡ true
    → Closes listen_fd (leaked config setup) (server_run listen_fd worker fuel config setup)
unfolding server_run epoll_handler_init
server_run-Closes listen_fd worker fuel config setup xs left enough keep stop =
    elim (Bool-cases (set_nonblocking setup.flags setup.set_flags)) [
      | inr blocking ↦
          simp (blocking, server_run) (ground arith, λ j below. entry-none max_events j, λ r. refl)
      | inl works ↦ elim (Option-cases setup.epoll) [
        | inl e ↦
            simp (works, e, server_run)
              (ground arith, λ j below. entry-none max_events j, λ r. refl)
        | inr (epoll_fd, e) ↦
            simp (works, e, server_run)
              (Closes-same listen_fd _ (leaked config setup) _
                (λ r. rw (works, e) (either setup.added _))
                (run_pool-Closes listen_fd worker fuel config setup xs left enough epoll_fd
                  (epoll_handler_init no_clients) created.0 created.1
                  (epoll_handler_init-IsTable no_clients) (λ j below. init_none j) keep stop
                  (thread_pool_create-owned (pos (threads_of config)) setup.pool)))
      ]
    ]
  where
    created : Option Pool × List Use
    created = thread_pool_create (pos (threads_of config)) setup.pool

    init_none : (j : ℕ) → entry (epoll_handler_init no_clients).connections j ≡ none
    init_none j = entry-none max_events j

    either : (b x : Bool) → (if b then false else x) ≡ (if not b then x else false)
    either true x = refl
    either false x = refl
