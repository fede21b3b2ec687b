-- ===== src/ThreadPool/Order.antt =====
-- What holds of the pool in every state that its steps reach: the order of its tasks.
use epoll_http_server.Prelude.{
  ℕ, ◌≡◌, ◌≢◌, refl, sym, ap, ◌∙◌, subst, Bool, true, false, inl, inr, List, [], ◌∷◌, ◌++◌,
  append-nil, append_assoc, none, some, arith, ◌==◌, ==_iff, if◌then◌else◌, All, All-append,
  Bool-cases, Option-cases,
}
use epoll_http_server.ThreadPool.{
  Task, Heap, Pool, sleep, leave, run, store, link, new_pool, push_task, put_task, worker_thread,
  free_task, stop,
}
use epoll_http_server.ThreadPool.Queue.{
  Waiting, IsQueue, Finds, put_task-IsQueue, worker_thread-Finds, frame,
}
use epoll_http_server.ThreadPool.System.{
  System, start, runs, remove, add, take_next, end_task, shut, Reaches, begin, after,
}

-- A node whose task runs is allocated and no longer in the queue.
abbrev pub IsOut : Heap → List Waiting → ℕ → Type 0
IsOut heap xs a = (heap a ≢ none) × All (λ y. a ≢ y.address) xs

-- What waits is what was added and not yet taken, in the same order.
pub record Holds (s : System) : Type 0 where
  pub waiting : List Waiting
  pub queue : IsQueue s.pool waiting
  pub order : s.added ≡ s.taken ++ waiting
  pub out : All (IsOut s.pool.heap waiting) s.running

==_other : {a b : ℕ} → a ≢ b → (a == b) ≡ false
==_other {a = a} {b = b} h = ground arith

start-Holds : Holds start
unfolding new_pool
start-Holds = record {
  waiting = [];
  queue = record { chain = refl; tail = refl; distinct = tt };
  order = refl;
  out = tt;
}

All-weaken {ℓ} :
    {A : Type ℓ} (P Q : A → Type 0) → ((a : A) → P a → Q a) → (xs : List A) → All P xs → All Q xs
All-weaken P Q f [] h = tt
All-weaken P Q f (x ∷ xs) h = (f x h.0, All-weaken P Q f xs h.1)

pub All-runs : (P : ℕ → Type 0) (a : ℕ) (bs : List ℕ) → All P bs → runs a bs ≡ true → P a
All-runs P a [] h r = cc
All-runs P a (b ∷ bs) h r = elim (Bool-cases (b == a)) [
  | inl same ↦ subst P ((==_iff b a).0 same) h.0
  | inr other ↦ All-runs P a bs h.1 (rw other at r)
]

All-remove :
    (P Q : ℕ → Type 0) (a : ℕ)
    → ((b : ℕ) → b ≢ a → P b → Q b)
    → (bs : List ℕ) → All P bs
    → All Q (remove a bs)
All-remove P Q a f [] h = tt
All-remove P Q a f (b ∷ bs) h = elim (Bool-cases (b == a)) [
  | inl same ↦ rw same (All-remove P Q a f bs h.1)
  | inr other ↦ rw other (f b (λ e. ground (arith, e, other)) h.0, All-remove P Q a f bs h.1)
]

pub runs-remove :
    (a b : ℕ) (xs : List ℕ) → runs b (remove a xs) ≡ (if a == b then false else runs b xs)
runs-remove a b [] = ground arith
runs-remove a b (x ∷ xs) = ground (arith, runs-remove a b xs)

store-allocated :
    (heap : Heap) (a b : ℕ) (task : Task) → heap b ≢ none → store heap a (some task) b ≢ none
store-allocated heap a b task h = elim (Bool-cases (a == b)) [
  | inl same ↦ rw same (λ e. cc)
  | inr other ↦ rw other h
]

link-allocated : (heap : Heap) (node a b : ℕ) → heap b ≢ none → link heap node a b ≢ none
link-allocated heap node a b h = elim (Bool-cases (node == b)) [
  | inr other ↦ rw other h
  | inl same ↦
      rw same
        (elim (Option-cases (heap b)) [ inl e ↦ absurd (h e) | inr (task, e) ↦ rw e (λ f. cc) ])
]

put_task-allocated :
    (pool : Pool) (a function arg b : ℕ)
    → pool.heap b ≢ none
    → (put_task pool a function arg).heap b ≢ none
unfolding put_task push_task
put_task-allocated pool a function arg b h = elim (Option-cases pool.queue_tail) [
  | inl e ↦ rw (e, push_task) (store-allocated pool.heap a b task h)
  | inr (tail, e) ↦
      rw (e, push_task)
        (link-allocated (store pool.heap a (some task)) tail a b
          (store-allocated pool.heap a b task h))
]
  where
    task : Task
    task = record { function = function; arg = arg; next = none }

add-Holds :
    (s : System) (e : Waiting)
    → s.pool.heap e.address ≡ none
    → Holds s
    → Holds (record s {
      pool = put_task s.pool e.address e.function e.arg;
      added = s.added ++ (e ∷ []);
    })
add-Holds s e free h = record {
  waiting = h.waiting ++ (e ∷ []);
  queue = put_task-IsQueue s.pool h.waiting e h.queue free;
  order =
      ap (λ (xs : List Waiting). xs ++ (e ∷ [])) h.order ∙ append_assoc s.taken h.waiting (e ∷ []);
  out =
      All-weaken (IsOut s.pool.heap h.waiting) _
        (λ (a : ℕ) (o : IsOut s.pool.heap h.waiting a). (
          put_task-allocated s.pool e.address e.function e.arg a o.0,
          All-append (λ y. a ≢ y.address) h.waiting (e ∷ []) o.1
              (λ same. o.0 (ap s.pool.heap same ∙ free), tt),
        ))
        s.running h.out;
}

pub no_task :
    (shutdown : Bool) {a : ℕ} {task : Task} {rest : Pool}
    → run a task rest ≢ (if shutdown then leave else sleep)
no_task true e = cc
no_task false e = cc

pub same_run :
    {a b : ℕ} {t u : Task} {p q : Pool} → run a t p ≡ run b u q → (a ≡ b) × (t ≡ u) × (p ≡ q)
same_run e = (cc, cc, cc)

take-Holds :
    (s : System) (a : ℕ) (task : Task) (rest : Pool) (waiting : List Waiting)
    → worker_thread s.pool ≡ run a task rest
    → Finds s.pool waiting
    → s.added ≡ s.taken ++ waiting
    → IsQueue s.pool waiting
    → All (IsOut s.pool.heap waiting) s.running
    → Holds (record s {
      pool = rest;
      taken = s.taken ++ (record { address = a; function = task.function; arg = task.arg } ∷ []);
      running = a ∷ s.running;
    })
take-Holds s a task rest [] e finds order q out = absurd (no_task s.pool.shutdown (sym e ∙ finds))
take-Holds s a task rest (x ∷ xs) e (next, rest', found, same_flag, same_heap, queue, freed) order q
      out =
    let (same_a, same_task, same_rest) = same_run (sym found ∙ e) in
    let same_x : x ≡ record { address = a; function = task.function; arg = task.arg } = λ i.
      record { address = same_a i; function = (same_task i).function; arg = (same_task i).arg } in
    let heap_kept : s.pool.heap ≡ rest.heap = sym same_heap ∙ ap (λ p. p.heap) same_rest in
    let (at_head, link_to, node, others) = q.chain in
    record {
      waiting = xs;
      queue = subst (λ p. IsQueue p xs) same_rest queue;
      order =
          order
          ∙ ap (λ (w : Waiting). s.taken ++ (w ∷ xs)) same_x
          ∙ sym (
              append_assoc s.taken
                (record { address = a; function = task.function; arg = task.arg } ∷ []) xs);
      out =
          subst (λ hp. All (IsOut hp xs) (a ∷ s.running)) heap_kept
            (
              subst (IsOut s.pool.heap xs) same_a (λ gone. cc, q.distinct.0),
              All-weaken (IsOut s.pool.heap (x ∷ xs)) (IsOut s.pool.heap xs) (λ b o. (o.0, o.1.1))
                  s.running out,
            );
    }

end-Holds :
    (s : System) (a : ℕ)
    → runs a s.running ≡ true
    → Holds s
    → Holds (record s { pool = free_task s.pool a; running = remove a s.running })
end-Holds s a r h =
    let gone = (All-runs (IsOut s.pool.heap h.waiting) a s.running h.out r).1 in
    record {
      waiting = h.waiting;
      queue = record {
        chain = frame s.pool.heap a none s.pool.queue_head h.waiting gone h.queue.chain;
        tail = h.queue.tail;
        distinct = h.queue.distinct;
      };
      order = h.order;
      out =
          All-remove (IsOut s.pool.heap h.waiting) (IsOut (store s.pool.heap a none) h.waiting) a
            (λ b ne o. (rw (==_other (λ e. ne (sym e))) (o.0), o.1)) s.running h.out;
    }

stop-Holds : (s : System) → Holds s → Holds (record s { pool = stop s.pool })
unfolding stop
stop-Holds s h = record {
  waiting = h.waiting;
  queue = record { chain = h.queue.chain; tail = h.queue.tail; distinct = h.queue.distinct };
  order = h.order;
  out = h.out;
}

-- However adding, taking, ending and the stop are interleaved, what waits in the linked queue is what
-- was added and not yet taken, in the same order: the tasks are taken first in, first out, none is
-- lost and none is taken twice. The nodes whose tasks run are allocated and not in the queue.
pub Reaches-Holds : {s : System} → Reaches s → Holds s
Reaches-Holds begin = start-Holds
Reaches-Holds (after {s = s} r (add e free)) = add-Holds s e free (Reaches-Holds r)
Reaches-Holds (after {s = s} r (take_next {a = a} {task = task} {rest = rest} found)) =
    let h = Reaches-Holds r in
    take-Holds s a task rest h.waiting found (worker_thread-Finds s.pool h.waiting h.queue) h.order
      h.queue h.out
Reaches-Holds (after {s = s} r (end_task a on)) = end-Holds s a on (Reaches-Holds r)
Reaches-Holds (after {s = s} r shut) = stop-Holds s (Reaches-Holds r)

no_leave : {a : ℕ} {task : Task} {rest : Pool} → run a task rest ≢ leave
no_leave e = cc

no_sleep : (shutdown : Bool) → leave ≡ (if shutdown then leave else sleep) → shutdown ≡ true
no_sleep true e = refl
no_sleep false e = cc

-- A thread ends only behind the stop, and when every task that was added has been taken.
pub leave-Drained :
    (s : System)
    → Reaches s
    → worker_thread s.pool ≡ leave
    → (s.pool.shutdown ≡ true) × (s.taken ≡ s.added)
leave-Drained s r e = drained (Reaches-Holds r)
  where
    drained : Holds s → (s.pool.shutdown ≡ true) × (s.taken ≡ s.added)
    drained h = by_list h.waiting (worker_thread-Finds s.pool h.waiting h.queue) h.order
      where
        by_list :
            (xs : List Waiting)
            → Finds s.pool xs
            → s.added ≡ s.taken ++ xs
            → (s.pool.shutdown ≡ true) × (s.taken ≡ s.added)
        by_list [] finds order =
            (no_sleep s.pool.shutdown (sym e ∙ finds), sym (order ∙ append-nil s.taken))
        by_list (x ∷ xs) (next, rest, found, flag, same, queue, freed) order =
            absurd (no_leave (sym found ∙ e))
