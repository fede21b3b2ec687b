-- ===== src/Epoll/Serving/MainThread.antt =====
-- The code of the main thread makes steps of the server at work: `epoll_handler_accept` and
-- `epoll_handler_dispatch`.
use epoll_http_server.Prelude.{
  ℕ, ◌≡◌, refl, if◌then◌else◌, List, [], ◌∷◌, Bool, true, false, inl, inr, Option, none, some,
  Bool-cases,
}
use epoll_http_server.ThreadPool.{thread_pool_add_task}
use epoll_http_server.Epoll.Table.{
  Handler, entry, Accepted, again, failed, client, new_connection, accept_client,
}
use epoll_http_server.Epoll.Table.Accept.{taken_in}
use epoll_http_server.Epoll.Dispatch.{epoll_handler_dispatch}
use epoll_http_server.Epoll.Sharing.{update}
use epoll_http_server.Epoll.Serving.{Serving, Step, event, refuse}

-- For an event of an armed descriptor, which disarms it, and with `malloc` giving room that is free: the
-- dispatch makes of the table and of the pool what one step makes of them, in which a task with its
-- argument is queued, or the client is closed and the pool stays as it is.
pub epoll_handler_dispatch-Step :
    (late : Bool) (w : Serving) (worker fd : ℕ) (arg memory : Option ℕ)
    → w.armed fd ≡ true
    → ((n : ℕ) → arg ≡ some n → w.args n ≡ none)
    → ((n : ℕ) → memory ≡ some n → w.system.pool.heap n ≡ none)
    → (v : Serving) × Step late w v
      × (epoll_handler_dispatch w.handler (some w.system.pool) worker fd arg memory
          ≡ (v.handler, some v.system.pool))
      × (v.armed ≡ update w.armed fd false)
unfolding epoll_handler_dispatch thread_pool_add_task
epoll_handler_dispatch-Step late w worker fd none memory on free room =
    (_, refuse fd on, refl, refl)
epoll_handler_dispatch-Step late w worker fd (some arg) none on free room =
    (_, refuse fd on, refl, refl)
epoll_handler_dispatch-Step late w worker fd (some arg) (some n) on free room =
    elim (Bool-cases w.system.pool.shutdown) [
      | inl down ↦ (_, refuse fd on, rw down refl, refl)
      | inr up ↦ (
        _,
        event fd (record { address = n; function = worker; arg = arg }) on (free arg refl)
            (room n refl),
        rw up refl,
        refl,
      )
    ]

-- Each descriptor that `accept` gives is not open when it is given.
abbrev pub AreNew : Handler → List Accepted → Type 0
AreNew h [] = Unit
AreNew h (again ∷ rest) = Unit
AreNew h (failed ∷ rest) = Unit
AreNew h (client fd nonblocking allocated added time ∷ rest) =
    (entry h.connections fd ≡ none)
    × AreNew (accept_client h fd nonblocking allocated added time) rest

-- What the loop over `accept` does, a step for each client until it ends: one for whom `fcntl`, `malloc`
-- and `epoll_ctl` succeed and whose descriptor is below 1024 has a new entry, every other has none.
abbrev pub Accepts : Bool → List Accepted → Serving → Serving → Type 0
Accepts late [] w v = w ≡ v
Accepts late (again ∷ rest) w v = w ≡ v
Accepts late (failed ∷ rest) w v = w ≡ v
Accepts late (client fd nonblocking allocated added time ∷ rest) w v =
    (u : Serving) × Step late w u
    × (u.system ≡ w.system)
    × (entry u.handler.connections fd
        ≡ (if taken_in fd nonblocking allocated added then some (new_connection fd time) else none))
    × Accepts late rest u v
