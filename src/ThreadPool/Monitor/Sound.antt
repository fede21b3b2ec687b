-- ===== src/ThreadPool/Monitor/Sound.antt =====
-- What holds of the threads at the lock in every state that the steps reach: the steps of the pool
-- that they make are those of System, the lock is kept fairly, and a task runs on one thread.
use epoll_http_server.Prelude.{
  ℕ, ◌≡◌, refl, sym, ap, ◌∙◌, subst, true, false, inl, inr, List, [], ◌∷◌, some, arith, get_elem?,
  set, ◌==◌, if◌then◌else◌, All, Bool-cases, ==_iff,
}
use epoll_http_server.ThreadPool.{Task, Pool, run, put_task, worker_thread, stop, new_pool}
use epoll_http_server.ThreadPool.Queue.{Waiting, Finds, worker_thread-Finds}
use epoll_http_server.ThreadPool.System
use epoll_http_server.ThreadPool.System.{runs, remove}
use epoll_http_server.ThreadPool.Order.{
  Holds, IsOut, Reaches-Holds, All-runs, runs-remove, no_task, same_run,
}
use epoll_http_server.ThreadPool.Monitor.{
  Place, outside, inside, dozing, asleep, awake, gone, busy, asks, Signalled, woken, unheard,
  Monitor, Move, Step, Reaches, acquire, doze, rest, quit, take_next, end_task, move, spawn, stir,
  add, shut, flag, broadcast, begin, after, no_threads,
}
use epoll_http_server.ThreadPool.Monitor.Counts.{
  busy_at, total, total-set, total-append, total-wake_all,
}
use epoll_http_server.ThreadPool.Monitor.Fair.{
  Fair, waits, sleep-test, leave-test, run-test, put_task-shutdown, acquire-Fair, doze-Fair,
  rest-Fair, quit-Fair, take-Fair, end_task-Fair, spawn-Fair, stir-Fair, add-Fair, shut-Fair,
}

-- Each task that runs is on one thread, and no thread has another.
pub record Busies (running : List ℕ) (ps : List Place) : Type 0 where
  pub at : (a : ℕ) → total (busy_at a) ps ≡ (if runs a running then 1 else 0)

pub record Sound (s : Monitor) : Type 0 where
  pub reached : System.Reaches s.system
  pub fair : Fair s.locked s.system.pool.shutdown (waits s.system.pool) s.threads
  pub busies : Busies s.system.running s.threads

-- A thread without a task goes on to a place without one.
set-Busies :
    {running : List ℕ} {ps : List Place} (i : ℕ) {p : Place} (q : Place)
    → Busies running ps
    → get_elem? ps i ≡ some p
    → ((a : ℕ) → busy_at a p ≡ busy_at a q)
    → Busies running (set ps i q)
set-Busies {ps = ps} i q b e same = record {
  at = λ a. omega (arith, b.at a, same a, total-set (busy_at a) ps i q e);
}

asks-busy_at : (p : Place) → asks p ≡ true → (a : ℕ) → busy_at a p ≡ 0
asks-busy_at outside e a = refl
asks-busy_at awake e a = refl
asks-busy_at inside e a = cc
asks-busy_at dozing e a = cc
asks-busy_at asleep e a = cc
asks-busy_at gone e a = cc
asks-busy_at (busy b) e a = cc

take-Busies :
    {running : List ℕ} {ps : List Place} (i a : ℕ)
    → Busies running ps
    → get_elem? ps i ≡ some inside
    → runs a running ≡ false
    → Busies (a ∷ running) (set ps i (busy a))
take-Busies {running = running} {ps = ps} i a b e fresh = record {
  at = λ c. elim (Bool-cases (a == c)) [
    | inl same ↦
        let off : runs c running ≡ false =
          ap (λ x. runs x running) (sym ((==_iff a c).0 same)) ∙ fresh in
        ground (arith, same, off, b.at c, total-set (busy_at c) ps i (busy a) e)
    | inr other ↦ ground (arith, other, b.at c, total-set (busy_at c) ps i (busy a) e)
  ];
}

busy-runs :
    {running : List ℕ} {ps : List Place} (i a : ℕ)
    → Busies running ps
    → get_elem? ps i ≡ some (busy a)
    → runs a running ≡ true
busy-runs {ps = ps} i a b e = ground (arith, b.at a, total-set (busy_at a) ps i gone e)

end-Busies :
    {running : List ℕ} {ps : List Place} (i a : ℕ)
    → Busies running ps
    → get_elem? ps i ≡ some (busy a)
    → Busies (remove a running) (set ps i outside)
end-Busies {running = running} {ps = ps} i a b e = record {
  at = λ c. ground (arith, b.at c, total-set (busy_at c) ps i outside e, runs-remove a c running);
}

Signalled-Busies :
    {running : List ℕ} {ps qs : List Place}
    → Busies running ps
    → Signalled ps qs
    → Busies running qs
Signalled-Busies b (woken i e) = set-Busies i _ b e (λ a. refl)
Signalled-Busies b (unheard none_there) = b

-- A node that is taken was in the queue.
taken-runs :
    {s : System.System} {a : ℕ} {task : Task} {left : Pool}
    → Holds s
    → worker_thread s.pool ≡ run a task left
    → runs a s.running ≡ false
taken-runs {s} {a} {task} {left} h e =
    by_list h.waiting (worker_thread-Finds s.pool h.waiting h.queue) h.out
  where
    by_list :
        (xs : List Waiting)
        → Finds s.pool xs
        → All (IsOut s.pool.heap xs) s.running
        → runs a s.running ≡ false
    by_list [] finds out = absurd (no_task s.pool.shutdown (sym e ∙ finds))
    by_list (x ∷ xs) (next, rest', found, flag', heap', queue, freed) out =
        elim (Bool-cases (runs a s.running)) [
          | inl on ↦ absurd (
              (All-runs (IsOut s.pool.heap (x ∷ xs)) a s.running out on).1.0
                (same_run (sym e ∙ found)).0)
          | inr off ↦ off
        ]

start-Sound : Sound no_threads
unfolding new_pool
start-Sound = record {
  reached = System.begin;
  fair = record {
    holders = refl;
    dozers = λ k. absurd (omega arith);
    sleepers = λ k. refl;
    leavers = λ k. refl;
    workers = λ k l m. absurd (omega arith);
  };
  busies = record { at = λ a. refl };
}

pub Move-Sound : {s t : Monitor} → Sound s → Move s t → Sound t
Move-Sound {s} h (acquire i {p = p} e a free) = record {
  reached = h.reached;
  fair = acquire-Fair h.fair i p e a free;
  busies = set-Busies i _ h.busies e (λ c. asks-busy_at p a c);
}
Move-Sound {s} h (doze i e w) =
    let (quiet, open_still) = sleep-test s.system.pool w in
    record {
      reached = h.reached;
      fair = doze-Fair h.fair i e quiet open_still;
      busies = set-Busies i _ h.busies e (λ c. refl);
    }
Move-Sound {s} h (rest i e) = record {
  reached = h.reached;
  fair = rest-Fair h.fair i e;
  busies = set-Busies i _ h.busies e (λ c. refl);
}
Move-Sound {s} h (quit i e w) = record {
  reached = h.reached;
  fair = quit-Fair h.fair i e (leave-test s.system.pool w).1;
  busies = set-Busies i _ h.busies e (λ c. refl);
}
Move-Sound {s} h (take_next i {a = a} {left = left} e w) = record {
  reached = System.after h.reached (System.take_next w);
  fair =
      subst (λ b. Fair false b (waits left) (set s.threads i (busy a)))
        (sym (run-test s.system.pool w)) (take-Fair h.fair (waits left) i a e);
  busies = take-Busies i a h.busies e (taken-runs (Reaches-Holds h.reached) w);
}
Move-Sound {s} h (end_task i a e) = record {
  reached = System.after h.reached (System.end_task a (busy-runs i a h.busies e));
  fair = end_task-Fair h.fair i a e;
  busies = end-Busies i a h.busies e;
}

Step-Sound : {s t : Monitor} → Sound s → Step false s t → Sound t
unfolding stop
Step-Sound h (move m) = Move-Sound h m
Step-Sound {s} h spawn = record {
  reached = h.reached;
  fair = spawn-Fair h.fair;
  busies = record {
    at = λ a. omega (arith, h.busies.at a, total-append (busy_at a) s.threads (outside ∷ []));
  };
}
Step-Sound h (stir i e) = record {
  reached = h.reached;
  fair = stir-Fair h.fair i e;
  busies = set-Busies i _ h.busies e (λ c. refl);
}
Step-Sound {s} h (add {ps = ps} e free fresh heard) = record {
  reached = System.after h.reached (System.add e fresh);
  fair =
      let next = put_task s.system.pool e.address e.function e.arg in
      subst (λ b. Fair s.locked b (waits next) ps)
        (sym (put_task-shutdown s.system.pool e.address e.function e.arg))
        (add-Fair h.fair (waits next) free heard);
  busies = Signalled-Busies h.busies heard;
}
Step-Sound {s} h (shut free) = record {
  reached = System.after h.reached System.shut;
  fair = shut-Fair h.fair free;
  busies = record {
    at = λ a. omega (arith, h.busies.at a, total-wake_all (busy_at a) refl s.threads);
  };
}
Step-Sound h (flag late) = cc
Step-Sound h (broadcast late) = cc

-- In every state that the threads, the callers that add tasks and the stop under the lock reach, in any
-- interleaving and with wake-ups for no reason: the pool is in a state that System reaches; the lock
-- is held by exactly one thread or by none; a thread about to wait has seen an empty queue and no stop
-- since it has the lock, and both still hold; behind the stop no thread is in the wait and before it
-- none has ended; while a task waits before the stop, not every thread that is left is in the wait; and
-- each task that runs is on one thread, and no thread has another.
pub Reaches-Sound : {s : Monitor} → Reaches false s → Sound s
Reaches-Sound begin = start-Sound
Reaches-Sound (after r k) = Step-Sound (Reaches-Sound r) k
