-- ===== src/Epoll/Dispatch.antt =====
-- `epoll_handler_dispatch`: an event of a client becomes a task of the pool.
use epoll_http_server.Prelude.{
  ℕ, ◌≡◌, ◌⊎◌, refl, Bool, true, false, ◌==◌, inl, inr, List, [], ◌∷◌, ◌++◌, Option, none, some,
  if◌then◌else◌, Bool-cases,
}
use epoll_http_server.ThreadPool.{Pool, thread_pool_add_task}
use epoll_http_server.ThreadPool.Queue.{Waiting, IsQueue, thread_pool_add_task-IsQueue}
use epoll_http_server.Epoll.Table.{Handler, entry, epoll_handler_close}
use epoll_http_server.Epoll.Table.Entries.{entry-epoll_handler_close}

-- `g_pool` behind the call: what it was is forgotten.
abbrev pub epoll_handler_set_pool : Option Pool → Option Pool → Option Pool
epoll_handler_set_pool g_pool pool = pool

-- With the address of `worker_process_request`, and what `malloc` gives for the argument and for the
-- node of the task.
unfoldable pub epoll_handler_dispatch :
    Handler → Option Pool → ℕ → ℕ → Option ℕ → Option ℕ → Handler × Option Pool
unfolding epoll_handler_close thread_pool_add_task
epoll_handler_dispatch h none worker fd arg memory = (epoll_handler_close h fd, none)
epoll_handler_dispatch h (some pool) worker fd none memory = (epoll_handler_close h fd, some pool)
epoll_handler_dispatch h (some pool) worker fd (some arg) memory =
    let (pool', added) = thread_pool_add_task (some pool) (some worker) arg memory in
    (if added then h else epoll_handler_close h fd, pool')

-- What becomes of a client: there was room for an argument and a node, its task with that argument waits
-- at the end of the queue, and the table is as it was; or the client is closed, no other entry is touched,
-- and the queue is as it was.
abbrev pub Dispatched :
    Handler → List Waiting → ℕ → ℕ → Option ℕ → Option ℕ → Bool → Handler × Option Pool → Type 0
Dispatched h xs worker fd arg memory shutdown result =
    (pool : Pool) × (result.1 ≡ some pool)
    × (((a n : ℕ) × (arg ≡ some a)
          × (memory ≡ some n)
          × (shutdown ≡ false)
          × (result.0 ≡ h)
          × IsQueue pool (xs ++ (record { address = n; function = worker; arg = a } ∷ [])))
        ⊎ (((arg ≡ none) ⊎ ((memory ≡ none) ⊎ (shutdown ≡ true)))
            × ((j : ℕ)
                → entry result.0.connections j ≡ (if fd == j then none else entry h.connections j))
            × IsQueue pool xs))

-- A dispatch never leaves a client without an owner. With a pool that is not shut down, and with room
-- for the argument and for the node, a task with `worker_process_request`, this argument and this node is
-- queued behind those that wait, and the table is as it was. If one of the three is missing, the client is
-- closed, every other entry of the table is as it was, and so is the queue.
pub epoll_handler_dispatch-Dispatched :
    (h : Handler) (pool : Pool) (xs : List Waiting) (worker fd : ℕ) (arg memory : Option ℕ)
    → IsQueue pool xs
    → ((n : ℕ) → memory ≡ some n → pool.heap n ≡ none)
    → Dispatched h xs worker fd arg memory pool.shutdown
        (epoll_handler_dispatch h (some pool) worker fd arg memory)
unfolding epoll_handler_dispatch thread_pool_add_task
epoll_handler_dispatch-Dispatched h pool xs worker fd none memory q fresh =
    (pool, refl, inr (inl refl, entry-epoll_handler_close h fd, q))
epoll_handler_dispatch-Dispatched h pool xs worker fd (some arg) none q fresh =
    (pool, refl, inr (inr (inl refl), entry-epoll_handler_close h fd, q))
epoll_handler_dispatch-Dispatched h pool xs worker fd (some arg) (some n) q fresh =
    let e : Waiting = record { address = n; function = worker; arg = arg } in
    let (after, result, queue) = thread_pool_add_task-IsQueue pool xs e q (fresh n refl) in
    elim (Bool-cases pool.shutdown) [
      | inl down ↦ (
        after,
        rw result,
        inr (inr (inr down), rw (result, down) (entry-epoll_handler_close h fd), rw down at queue),
      )
      | inr up ↦ (after, rw result, inl (arg, n, refl, refl, up, rw (result, up), rw up at queue))
    ]
