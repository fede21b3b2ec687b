-- ===== src/ThreadPool/Nodes.antt =====
-- No node of a task is leaked: what is allocated waits in the queue or runs.
use epoll_http_server.Prelude.{
  ℕ, ◌≡◌, refl, sym, ap, ◌∙◌, Bool, true, false, ◌||◌, inl, inr, List, [], ◌∷◌, ◌++◌, append_assoc,
  none, some, arith, ◌==◌, Bool-cases, Option-cases,
}
use mathlib.Core.List.{append_cancel_left}
use epoll_http_server.ThreadPool.{
  Task, Heap, Pool, run, store, link, new_pool, push_task, put_task, worker_thread, free_task, stop,
}
use epoll_http_server.ThreadPool.Queue.{Waiting, Finds, worker_thread-Finds}
use epoll_http_server.ThreadPool.System.{
  System, runs, remove, add, take_next, end_task, shut, Reaches, begin, after,
}
use epoll_http_server.ThreadPool.Order.{Holds, Reaches-Holds, no_task, same_run, runs-remove}
use epoll_http_server.ThreadPool.Threads.Destroyed.{waits}

-- With the tasks that wait, an address of none of them at which no task runs holds no node.
abbrev pub NoLeak : System → Type 0
NoLeak s =
    (xs : List Waiting)
    → s.added ≡ s.taken ++ xs
    → (a : ℕ) → waits a xs ≡ false
    → runs a s.running ≡ false
    → s.pool.heap a ≡ none

both_false : (a b : Bool) → (a || b) ≡ false → (a ≡ false) × (b ≡ false)
both_false true b e = cc
both_false false b e = (refl, e)

waits-append : (a : ℕ) (xs ys : List Waiting) → waits a (xs ++ ys) ≡ (waits a xs || waits a ys)
waits-append a [] ys = refl
waits-append a (x ∷ xs) ys = ground (arith, waits-append a xs ys)

link_free : (heap : Heap) (node a b : ℕ) → heap b ≡ none → link heap node a b ≡ none
link_free heap node a b e = elim (Bool-cases (node == b)) [
  | inl same ↦ rw (same, e)
  | inr other ↦ rw other e
]

put_task-free :
    (pool : Pool) (a function arg b : ℕ)
    → (a == b) ≡ false
    → pool.heap b ≡ none
    → (put_task pool a function arg).heap b ≡ none
unfolding put_task push_task
put_task-free pool a function arg b other e = elim (Option-cases pool.queue_tail) [
  | inl k ↦ rw (k, push_task) (rw other e)
  | inr (tail, k) ↦
      rw (k, push_task) (link_free (store pool.heap a (some task)) tail a b (rw other e))
]
  where
    task : Task
    task = record { function = function; arg = arg; next = none }

add-NoLeak :
    (s : System) (e : Waiting)
    → Holds s
    → NoLeak s
    → NoLeak (record s {
      pool = put_task s.pool e.address e.function e.arg;
      added = s.added ++ (e ∷ []);
    })
add-NoLeak s e h n xs order a off idle =
    put_task-free s.pool e.address e.function e.arg a
      (both_false (e.address == a) false
        (both_false (waits a h.waiting) (waits a (e ∷ [])) split).1).0
      (n h.waiting h.order a (both_false (waits a h.waiting) (waits a (e ∷ [])) split).0 idle)
  where
    same : xs ≡ h.waiting ++ (e ∷ [])
    same = append_cancel_left s.taken xs (h.waiting ++ (e ∷ [])) (
        sym order
        ∙ ap (λ (ys : List Waiting). ys ++ (e ∷ [])) h.order
        ∙ append_assoc s.taken h.waiting (e ∷ []))

    split : (waits a h.waiting || waits a (e ∷ [])) ≡ false
    split = sym (waits-append a h.waiting (e ∷ [])) ∙ ap (waits a) (sym same) ∙ off

take-NoLeak :
    (s : System) (a : ℕ) (task : Task) (left : Pool) (waiting : List Waiting)
    → worker_thread s.pool ≡ run a task left
    → Finds s.pool waiting
    → s.added ≡ s.taken ++ waiting
    → NoLeak s
    → NoLeak (record s {
      pool = left;
      taken = s.taken ++ (record { address = a; function = task.function; arg = task.arg } ∷ []);
      running = a ∷ s.running;
    })
take-NoLeak s a task left [] e finds order n = absurd (no_task s.pool.shutdown (sym e ∙ finds))
take-NoLeak s a task left (x ∷ ys) e (next, left', found, flag, same_heap, queue, freed) order n =
    λ xs order' b off idle.
      let (same_a, same_task, same_left) = same_run (sym found ∙ e) in
      let (not_here, not_running) = both_false (a == b) (runs b s.running) idle in
      let later : first ∷ xs ≡ x ∷ ys =
        append_cancel_left s.taken (first ∷ xs) (x ∷ ys)
          (sym (append_assoc s.taken (first ∷ []) xs) ∙ sym order' ∙ order) in
      let same_rest : xs ≡ ys = cc in
      ap (λ p. p.heap b) (sym same_left)
      ∙ ap (λ (heap : Heap). heap b) same_heap
      ∙ n (x ∷ ys) order b (rw (same_a, not_here) (ap (waits b) (sym same_rest) ∙ off)) not_running
  where
    first : Waiting
    first = record { address = a; function = task.function; arg = task.arg }

end-NoLeak :
    (s : System) (a : ℕ)
    → NoLeak s
    → NoLeak (record s { pool = free_task s.pool a; running = remove a s.running })
end-NoLeak s a n xs order b off idle = elim (Bool-cases (a == b)) [
  | inl same ↦ rw same
  | inr other ↦ rw other (n xs order b off ((sym (rw other at (runs-remove a b s.running))) ∙ idle))
]

-- However adding, taking, ending and the stop are interleaved: with `xs` the tasks that were added and
-- not yet taken, an address at which none of them waits and no task runs holds no node. So each node
-- is freed when its task has ended.
pub Reaches-NoLeak : {s : System} → Reaches s → NoLeak s
unfolding new_pool stop
Reaches-NoLeak begin = λ xs order a off idle. refl
Reaches-NoLeak (after {s = s} r (add e free)) = add-NoLeak s e (Reaches-Holds r) (Reaches-NoLeak r)
Reaches-NoLeak (after {s = s} r (take_next {a = a} {task = task} {rest = left} found)) =
    let h = Reaches-Holds r in
    take-NoLeak s a task left h.waiting found (worker_thread-Finds s.pool h.waiting h.queue) h.order
      (Reaches-NoLeak r)
Reaches-NoLeak (after {s = s} r (end_task a on)) = end-NoLeak s a (Reaches-NoLeak r)
Reaches-NoLeak (after {s = s} r shut) = Reaches-NoLeak r
