-- ===== src/Epoll/Serving/Refines.antt =====
-- The server at work keeps to the steps of Epoll/Sharing: whatever the queue, the threads and the heap
-- of arguments do, the table is shared as it is there.
use mathlib.Core.List.{append_cancel_left}
use epoll_http_server.Prelude.{
  ℕ, ◌<◌, ◌≡◌, refl, sym, ap, ◌∙◌, subst, Bool, inl, inr, Bool-cases, ==_iff, ltb, List, [], ◌∷◌,
  ◌++◌, append_assoc, arith,
}
use epoll_http_server.ThreadPool.{Task, Pool, run, worker_thread, new_pool}
use epoll_http_server.ThreadPool.Queue.{Waiting, Finds, worker_thread-Finds}
use epoll_http_server.ThreadPool.System
use epoll_http_server.ThreadPool.Order.{Reaches-Holds, no_task, same_run}
use epoll_http_server.ThreadPool.Monitor.Counts.{total, total-set, total-append}
use epoll_http_server.Epoll.Table.{entry}
use epoll_http_server.Epoll.Table.Entries.{expire}
use epoll_http_server.Epoll.Sharing
use epoll_http_server.Epoll.Sharing.{Shared, count, remove_one, update, occupied}
use epoll_http_server.Epoll.Worker.{rearm}
use epoll_http_server.Epoll.Sharing.Places.{count_front, count_removed, count-append}
use epoll_http_server.Epoll.Serving.{
  comes, holds, leaves, over, Serving, Step, accept, turn_away, event, refuse, take_next, start,
  miss, keep, finish, release, arm_again, end_task, shut, check, Reaches, begin, after,
}
use epoll_http_server.Epoll.Serving.Shows.{
  pending-arg, leaving-job, leaves_at, All-counted, shared, Counted,
}
use epoll_http_server.Epoll.Serving.Counted.{
  event-Counted, freed-Counted, over-Counted, left-Counted, take-Counted, same_counts,
}

-- The pool and the table are where their own steps lead, and the counts agree.
pub record Refines (late : Bool) (w : Serving) : Type 0 where
  pub waiting : List Waiting
  pub queued : List ℕ
  pub held : List ℕ
  pub leaving : List ℕ
  pub order : w.system.added ≡ w.system.taken ++ waiting
  pub pool : System.Reaches w.system
  pub table : Sharing.Reaches late (shared w queued held leaving)
  pub counted : Counted w waiting queued held
  pub leaves_by : (j : ℕ) → count j leaving ≡ total (leaves_at j) w.jobs

take-Refines :
    (late : Bool) (w : Serving) (a : ℕ) (task : Task) (left : Pool) (q : Refines late w)
    → worker_thread w.system.pool ≡ run a task left
    → (ys : List Waiting) × (x : Waiting) × (q.waiting ≡ x ∷ ys)
      × (x ≡ record { address = a; function = task.function; arg = task.arg })
take-Refines late w a task left q e =
    let h = Reaches-Holds q.pool in
    by_list h.waiting (worker_thread-Finds w.system.pool h.waiting h.queue) h.order
  where
    by_list :
        (xs : List Waiting)
        → Finds w.system.pool xs
        → w.system.added ≡ w.system.taken ++ xs
        → (ys : List Waiting) × (x : Waiting) × (q.waiting ≡ x ∷ ys)
          × (x ≡ record { address = a; function = task.function; arg = task.arg })
    by_list [] finds order = absurd (no_task w.system.pool.shutdown (sym e ∙ finds))
    by_list (x ∷ xs) (next, left', found, flag, same_heap, queue, freed) order =
        let (same_a, same_task, same_left) = same_run (sym found ∙ e) in
        (
          xs,
          x,
          append_cancel_left w.system.taken q.waiting (x ∷ xs) (sym q.order ∙ order),
          λ i. record {
            address = same_a i;
            function = (same_task i).function;
            arg = (same_task i).arg;
          },
        )

Step-Refines : {late : Bool} {w v : Serving} → Refines late w → Step late w v → Refines late v
Step-Refines q (accept fd time below free) = record {
  waiting = q.waiting;
  queued = q.queued;
  held = q.held;
  order = q.order;
  pool = q.pool;
  table = Sharing.after q.table (Sharing.accept fd time below free);
  leaving = q.leaving;
  leaves_by = q.leaves_by;
  counted = same_counts _ _ _ _ _ _ _ q.counted;
}
Step-Refines {w = w} q (event fd e on free room) = record {
  waiting = q.waiting ++ (e ∷ []);
  queued = q.queued ++ (fd ∷ []);
  held = q.held;
  order =
      ap (λ (xs : List Waiting). xs ++ (e ∷ [])) q.order
      ∙ append_assoc w.system.taken q.waiting (e ∷ []);
  pool = System.after q.pool (System.add e room);
  table = Sharing.after q.table (Sharing.event fd on);
  leaving = q.leaving;
  leaves_by = q.leaves_by;
  counted = event-Counted w q.waiting q.queued q.held q.counted fd e _ _ free;
}
Step-Refines q (turn_away fd left free away) = record {
  waiting = q.waiting;
  queued = q.queued;
  held = q.held;
  order = q.order;
  pool = q.pool;
  table = Sharing.after q.table (Sharing.turn_away fd left free away);
  leaving = q.leaving;
  leaves_by = q.leaves_by;
  counted = same_counts _ _ _ _ _ _ _ q.counted;
}
Step-Refines q (refuse fd on) = record {
  waiting = q.waiting;
  queued = q.queued;
  held = q.held;
  order = q.order;
  pool = q.pool;
  table = Sharing.after q.table (Sharing.refuse fd on);
  leaving = q.leaving;
  leaves_by = q.leaves_by;
  counted = same_counts _ _ _ _ _ _ _ q.counted;
}
Step-Refines {late} {w = w} q (take_next {a = a} {task = task} {left = left} e) =
    let (ys, x, first, same) = take-Refines late w a task left q e in
    let same_arg : x.arg ≡ task.arg = ap (λ (z : Waiting). z.arg) same in
    record {
      waiting = ys;
      queued = q.queued;
      held = q.held;
      order =
          q.order
          ∙ ap (λ (xs : List Waiting). w.system.taken ++ xs) first
          ∙ ap (λ (z : Waiting). w.system.taken ++ (z ∷ ys)) same
          ∙ sym (
              append_assoc w.system.taken
                (record { address = a; function = task.function; arg = task.arg } ∷ []) ys);
      pool = System.after q.pool (System.take_next e);
      table = q.table;
      leaving = q.leaving;
      leaves_by = λ j. omega (
        arith,
        q.leaves_by j,
        total-append (leaves_at j) w.jobs (record { node = a; stage = comes task.arg } ∷ []),
      );
      counted =
          subst
            (λ n.
              Counted
                (record w {
                  system = record w.system {
                    pool = left;
                    taken =
                        w.system.taken
                        ++ (record { address = a; function = task.function; arg = task.arg } ∷ []);
                    running = a ∷ w.system.running;
                  };
                  jobs = w.jobs ++ (record { node = a; stage = comes n } ∷ []);
                })
                ys q.queued q.held)
            same_arg
            (take-Counted w a x ys q.queued q.held _
              (subst (λ xs. Counted w xs q.queued q.held) first q.counted));
    }
Step-Refines {w = w} q (start i a arg fd arrival e found there) =
    let (p, c) =
      freed-Counted w q.waiting q.queued q.held q.counted i a arg fd (holds fd) (fd ∷ q.held) _
        w.armed e found (λ b. refl) (λ args j. refl)
        (λ j. ground (arith, count_front j fd q.held)) in
    record {
      waiting = q.waiting;
      queued = remove_one fd q.queued;
      held = fd ∷ q.held;
      order = q.order;
      pool = q.pool;
      table = Sharing.after q.table (Sharing.start fd arrival p there);
      leaving = q.leaving;
      leaves_by = λ j. omega (
        arith,
        q.leaves_by j,
        total-set (leaves_at j) w.jobs i (record { node = a; stage = holds fd }) e,
      );
      counted = c;
    }
Step-Refines {w = w} q (miss i a arg fd e found gone) =
    let (p, c) =
      freed-Counted w q.waiting q.queued q.held q.counted i a arg fd over q.held w.handler w.armed e
        found (λ b. refl) (λ args j. refl) (λ j. omega arith) in
    record {
      waiting = q.waiting;
      queued = remove_one fd q.queued;
      held = q.held;
      order = q.order;
      pool = q.pool;
      table = Sharing.after q.table (Sharing.miss fd p gone);
      leaving = q.leaving;
      leaves_by = λ j. omega (
        arith,
        q.leaves_by j,
        total-set (leaves_at j) w.jobs i (record { node = a; stage = over }) e,
      );
      counted = c;
    }
Step-Refines {w = w} q (keep i a fd conn e there) =
    let (p, c) =
      over-Counted w q.waiting q.queued q.held q.counted i a fd over _ _ e (λ b. refl)
        (λ args j. refl) (λ j. refl) in
    record {
      waiting = q.waiting;
      queued = q.queued;
      held = remove_one fd q.held;
      order = q.order;
      pool = q.pool;
      table = Sharing.after q.table (Sharing.keep fd conn p there);
      leaving = q.leaving;
      leaves_by = λ j. omega (
        arith,
        q.leaves_by j,
        total-set (leaves_at j) w.jobs i (record { node = a; stage = over }) e,
      );
      counted = c;
    }
Step-Refines {w = w} q (finish i a fd e) =
    let (p, c) =
      over-Counted w q.waiting q.queued q.held q.counted i a fd over _ _ e (λ b. refl)
        (λ args j. refl) (λ j. refl) in
    record {
      waiting = q.waiting;
      queued = q.queued;
      held = remove_one fd q.held;
      order = q.order;
      pool = q.pool;
      table = Sharing.after q.table (Sharing.finish fd p);
      leaving = q.leaving;
      leaves_by = λ j. omega (
        arith,
        q.leaves_by j,
        total-set (leaves_at j) w.jobs i (record { node = a; stage = over }) e,
      );
      counted = c;
    }
Step-Refines {w = w} q (release i a fd conn e there) =
    let (p, c) =
      over-Counted w q.waiting q.queued q.held q.counted i a fd (leaves fd) _ w.armed e (λ b. refl)
        (λ args j. refl) (λ j. refl) in
    record {
      waiting = q.waiting;
      queued = q.queued;
      held = remove_one fd q.held;
      order = q.order;
      pool = q.pool;
      table = Sharing.after q.table (Sharing.release fd conn p there);
      leaving = fd ∷ q.leaving;
      leaves_by = λ j. ground (
        arith,
        q.leaves_by j,
        count_front j fd q.leaving,
        total-set (leaves_at j) w.jobs i (record { node = a; stage = leaves fd }) e,
      );
      counted = c;
    }
Step-Refines {w = w} q (arm_again i a fd e) =
    let p : 0 < count fd q.leaving = ground (
      arith,
      q.leaves_by fd,
      total-set (leaves_at fd) w.jobs i (record { node = a; stage = over }) e,
    ) in
    record {
      waiting = q.waiting;
      queued = q.queued;
      held = q.held;
      order = q.order;
      pool = q.pool;
      table = Sharing.after q.table (Sharing.arm_again fd p);
      leaving = remove_one fd q.leaving;
      leaves_by = λ j. ground (
        arith,
        q.leaves_by j,
        p,
        (==_iff fd j).0,
        count_removed j fd q.leaving p,
        total-set (leaves_at j) w.jobs i (record { node = a; stage = over }) e,
      );
      counted =
          left-Counted w q.waiting q.queued q.held i a fd (rearm w.handler fd)
            (update w.armed fd (occupied (entry w.handler.connections fd))) q.counted e;
    }
Step-Refines q (end_task i a e on) = record {
  waiting = q.waiting;
  queued = q.queued;
  held = q.held;
  order = q.order;
  pool = System.after q.pool (System.end_task a on);
  table = q.table;
  leaving = q.leaving;
  leaves_by = q.leaves_by;
  counted = same_counts _ _ _ _ _ _ _ q.counted;
}
Step-Refines q shut = record {
  waiting = q.waiting;
  queued = q.queued;
  held = q.held;
  order = q.order;
  pool = System.after q.pool System.shut;
  table = q.table;
  leaving = q.leaving;
  leaves_by = q.leaves_by;
  counted = same_counts _ _ _ _ _ _ _ q.counted;
}
Step-Refines {w = w} q (check time timely) = record {
  waiting = q.waiting;
  queued = q.queued;
  held = q.held;
  order = q.order;
  pool = q.pool;
  table = Sharing.after q.table (
      Sharing.check time (λ in_time.
        All-counted
          (λ fd. expire time (entry w.handler.connections fd) ≡ entry w.handler.connections fd)
          (q.queued ++ q.leaving)
          (λ fd p. elim (Bool-cases (ltb 0 (count fd q.queued))) [
            | inl some_wait ↦
                let (arg, found) =
                  pending-arg w q.waiting q.queued q.held fd q.counted
                    (ground (arith, some_wait)) in
                (timely in_time).0 arg fd found
            | inr none_wait ↦
                let (i, a, found) = leaving-job w fd (
                  ground
                    (arith, none_wait, p, count-append fd q.queued q.leaving, q.leaves_by fd)) in
                (timely in_time).1 i a fd found
          ])));
  leaving = q.leaving;
  leaves_by = q.leaves_by;
  counted = same_counts _ _ _ _ _ _ _ q.counted;
}

-- In every state that the server at work reaches: the pool is in a state that ThreadPool/System
-- reaches; the table with the tasks that have not come to it, the connections that are held, and those
-- that are released and not armed again, is in one that Epoll/Sharing reaches, with late checks allowed in
-- the one exactly if in the other; a descriptor has as many tasks there as wait in the queue or are with a
-- worker here, and is held, and released, there as often as here; and an argument is allocated exactly if one task that waits or that a worker comes with has the
-- pointer to it, and no two such tasks have the same. So none is leaked and none is freed twice.
pub Reaches-Refines : {late : Bool} {w : Serving} → Reaches late w → Refines late w
unfolding new_pool
Reaches-Refines begin = record {
  waiting = [];
  queued = [];
  held = [];
  leaving = [];
  leaves_by = λ j. refl;
  order = refl;
  pool = System.begin;
  table = Sharing.begin;
  counted = record { pending = λ j. refl; held_by = λ j. refl; owned = λ b. refl };
}
Reaches-Refines (after r k) = Step-Refines (Reaches-Refines r) k
