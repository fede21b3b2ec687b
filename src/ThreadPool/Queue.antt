-- ===== src/ThreadPool/Queue.antt =====
-- The linked queue is a list: tasks are added at its end and taken from its front.
use epoll_http_server.Prelude.{
  ℕ, ◌≡◌, ◌≢◌, refl, sym, ap, subst, true, false, not, inl, inr, List, [], ◌∷◌, ◌++◌, Option, none,
  some, arith, ◌==◌, if◌then◌else◌, All, All-append, Bool-cases,
}
use epoll_http_server.ThreadPool.{
  Task, Heap, Pool, sleep, leave, run, store, link, push_task, put_task, thread_pool_add_task,
  take_task, worker_thread, free_task,
}

-- A task that waits, and where its node is.
pub record Waiting : Type 0 where
  pub address : ℕ
  pub function : ℕ
  pub arg : ℕ

-- From `head` on the nodes of the heap are those of the list, the last with no successor.
abbrev pub Chain : Heap → Option ℕ → List Waiting → Type 0
Chain heap head [] = head ≡ none
Chain heap head (x ∷ xs) =
    (head ≡ some x.address)
    × (next : Option ℕ) × (heap x.address
        ≡ some (record { function = x.function; arg = x.arg; next = next }))
    × Chain heap next xs

abbrev pub Apart : Waiting → List Waiting → Type 0
Apart x = All (λ y. x.address ≢ y.address)

-- No two nodes of the list are at one address.
abbrev pub Distinct : List Waiting → Type 0
Distinct [] = Unit
Distinct (x ∷ xs) = Apart x xs × Distinct xs

abbrev pub last_from : Waiting → List Waiting → ℕ
last_from x [] = x.address
last_from x (y ∷ ys) = last_from y ys

abbrev pub last_address : List Waiting → Option ℕ
last_address [] = none
last_address (x ∷ xs) = some (last_from x xs)

-- The queue of the pool is the list.
pub record IsQueue (pool : Pool) (xs : List Waiting) : Type 0 where
  pub chain : Chain pool.heap pool.queue_head xs
  pub tail : pool.queue_tail ≡ last_address xs
  pub distinct : Distinct xs

==_refl : (a : ℕ) → (a == a) ≡ true
==_refl a = ground arith

==_false : {a b : ℕ} → a ≢ b → (a == b) ≡ false
==_false {a = a} {b = b} h = ground arith

pub frame :
    (heap : Heap) (a : ℕ) (v : Option Task) (head : Option ℕ) (xs : List Waiting)
    → All (λ y. a ≢ y.address) xs
    → Chain heap head xs
    → Chain (store heap a v) head xs
frame heap a v head [] apart c = c
frame heap a v head (x ∷ xs) apart (at_head, next, node, rest) =
    (at_head, next, rw (==_false apart.0) node, frame heap a v next xs apart.1 rest)

-- An address that holds no node is not in the queue.
fresh-Apart :
    (heap : Heap) (a : ℕ) (head : Option ℕ) (xs : List Waiting)
    → heap a ≡ none
    → Chain heap head xs
    → All (λ y. a ≢ y.address) xs
fresh-Apart heap a head [] free c = tt
fresh-Apart heap a head (x ∷ xs) free (at_head, next, node, rest) =
    (λ same. cc, fresh-Apart heap a next xs free rest)

All-last_from :
    (P : ℕ → Type 0) (x : Waiting) (xs : List Waiting)
    → All (λ y. P y.address) (x ∷ xs)
    → P (last_from x xs)
All-last_from P x [] h = h.0
All-last_from P x (y ∷ ys) h = All-last_from P y ys h.1

Distinct-append :
    (xs : List Waiting) (e : Waiting)
    → Distinct xs
    → All (λ y. e.address ≢ y.address) xs
    → Distinct (xs ++ (e ∷ []))
Distinct-append [] e d apart = (tt, tt)
Distinct-append (x ∷ xs) e d apart = (
  All-append (λ y. x.address ≢ y.address) xs (e ∷ []) d.0 (λ same. apart.0 (sym same), tt),
  Distinct-append xs e d.1 apart.1,
)

last_from-append :
    (x : Waiting) (xs : List Waiting) (e : Waiting) → last_from x (xs ++ (e ∷ [])) ≡ e.address
last_from-append x [] e = refl
last_from-append x (y ∷ ys) e = last_from-append y ys e

-- The node of a waiting task that has no successor.
abbrev last_task : Waiting → Task
last_task e = record { function = e.function; arg = e.arg; next = none }

link-Chain :
    (heap : Heap) (head : Option ℕ) (x : Waiting) (xs : List Waiting) (e : Waiting)
    → Chain heap head (x ∷ xs)
    → Distinct (x ∷ xs)
    → All (λ y. e.address ≢ y.address) (x ∷ xs)
    → heap e.address ≡ some (last_task e)
    → Chain (link heap (last_from x xs) e.address) head (x ∷ (xs ++ (e ∷ [])))
link-Chain heap head x [] e (at_head, next, node, rest) d apart new = (
  at_head,
  some e.address,
  rw (==_refl x.address, node),
  (refl, none, rw (==_false (λ (same : x.address ≡ e.address). apart.0 (sym same)), new), refl),
)
link-Chain heap head x (y ∷ ys) e (at_head, next, node, rest) d apart new =
    let ne : last_from y ys ≢ x.address =
      λ same. All-last_from (λ b. x.address ≢ b) y ys d.0 (sym same) in
    (at_head, next, rw (==_false ne) node, link-Chain heap next y ys e rest d.1 apart.1 new)

-- A new task goes to the end of the queue, wherever `malloc` has put its node.
pub put_task-IsQueue :
    (pool : Pool) (xs : List Waiting) (e : Waiting)
    → IsQueue pool xs
    → pool.heap e.address ≡ none
    → IsQueue (put_task pool e.address e.function e.arg) (xs ++ (e ∷ []))
unfolding put_task push_task
put_task-IsQueue pool [] e q free = rw (q.tail) (record {
  chain = (refl, none, rw (==_refl e.address), refl);
  tail = refl;
  distinct = (tt, tt);
})
put_task-IsQueue pool (x ∷ xs) e q free = rw (q.tail) (record {
  chain =
      link-Chain (store pool.heap e.address (some (last_task e))) pool.queue_head x xs e
        (frame pool.heap e.address (some (last_task e)) pool.queue_head (x ∷ xs) apart q.chain)
        q.distinct apart (rw (==_refl e.address));
  tail = ap some (sym (last_from-append x xs e));
  distinct = Distinct-append (x ∷ xs) e q.distinct apart;
})
  where
    apart : All (λ y. e.address ≢ y.address) (x ∷ xs)
    apart = fresh-Apart pool.heap e.address pool.queue_head (x ∷ xs) free q.chain

-- A call with a function, and with memory for the node, succeeds exactly if the pool is not shut
-- down. Then the task stands at the end of the queue; else the queue is as it was.
pub thread_pool_add_task-IsQueue :
    (pool : Pool) (xs : List Waiting) (e : Waiting)
    → IsQueue pool xs
    → pool.heap e.address ≡ none
    → (after : Pool) × (thread_pool_add_task (some pool) (some e.function) e.arg (some e.address)
        ≡ (some after, not pool.shutdown))
      × IsQueue after (if pool.shutdown then xs else xs ++ (e ∷ []))
unfolding thread_pool_add_task
thread_pool_add_task-IsQueue pool xs e q free = elim (Bool-cases pool.shutdown) [
  | inl down ↦ (pool, rw (down, thread_pool_add_task), simp down q)
  | inr up ↦ (
    put_task pool e.address e.function e.arg,
    rw (up, thread_pool_add_task),
    simp up (put_task-IsQueue pool xs e q free),
  )
]

-- What a thread finds. With no task waiting it sleeps, or ends once the pool is shut down; otherwise
-- it has the first task, and behind the free of its node the queue is the rest.
abbrev pub Finds : Pool → List Waiting → Type 0
Finds pool [] = worker_thread pool ≡ (if pool.shutdown then leave else sleep)
Finds pool (x ∷ xs) =
    (next : Option ℕ) × (rest : Pool) × (worker_thread pool
      ≡ run x.address (record { function = x.function; arg = x.arg; next = next }) rest)
    × (rest.shutdown ≡ pool.shutdown)
    × (rest.heap ≡ pool.heap)
    × IsQueue rest xs
    × IsQueue (free_task rest x.address) xs

-- Where the linked queue is a list, a thread that comes out of the lock has the first task of it, and
-- the queue is the rest, also behind the free of the node. With no task waiting the thread sleeps, or
-- ends if the pool is shut down.
pub worker_thread-Finds : (pool : Pool) (xs : List Waiting) → IsQueue pool xs → Finds pool xs
unfolding worker_thread take_task
worker_thread-Finds pool [] q = rw (q.chain)
worker_thread-Finds pool (x ∷ []) q =
    let (at_head, next, node, end) = q.chain in
    (
      next,
      record pool { queue_head = none; queue_tail = none },
      rw (at_head, node, end, worker_thread),
      refl,
      refl,
      record { chain = refl; tail = refl; distinct = tt },
      record { chain = refl; tail = refl; distinct = tt },
    )
worker_thread-Finds pool (x ∷ y ∷ ys) q =
    let (at_head, next, node, others) = q.chain in
    let rest : Chain pool.heap (some y.address) (y ∷ ys) =
      subst (λ h. Chain pool.heap h (y ∷ ys)) others.0 others in
    (
      next,
      record pool { queue_head = some y.address },
      rw (at_head, node, others.0, worker_thread),
      refl,
      refl,
      record { chain = rest; tail = q.tail; distinct = q.distinct.1 },
      record {
        chain = frame pool.heap x.address none (some y.address) (y ∷ ys) q.distinct.0 rest;
        tail = q.tail;
        distinct = q.distinct.1;
      },
    )
