-- ===== src/ThreadPool/Monitor/Fair.antt =====
-- Who has the lock, who is in the wait, and what each step does to that.
use epoll_http_server.Prelude.{
  ℕ, ◌+◌, ◌≤◌, ◌<◌, ◌≡◌, refl, Bool, true, false, inl, inr, List, [], ◌∷◌, ◌++◌, none, some, arith,
  get_elem?, set, if◌then◌else◌, Option-cases,
}
use epoll_http_server.ThreadPool.{
  Task, Pool, sleep, leave, run, push_task, put_task, take_task, worker_thread,
}
use epoll_http_server.ThreadPool.Monitor.{
  Place, outside, inside, dozing, asleep, awake, gone, busy, asks, wake_all, Signalled, woken,
  unheard,
}
use epoll_http_server.ThreadPool.Monitor.Counts.{
  tests, dozes, sleeps, ended, able, total, total-set, total-append, total-wake_all, total-some,
  sleeps-wake_all,
}

-- One thread at most has the lock. One that is about to wait has tested the queue and the stop.
-- Behind the stop none is in the wait, and before it none ends. While a task waits, not all threads
-- are in the wait.
pub record Fair (locked shut waiting : Bool) (ps : List Place) : Type 0 where
  pub holders : total tests ps + total dozes ps ≡ (if locked then 1 else 0)
  pub dozers : 0 < total dozes ps → (waiting ≡ false) × (shut ≡ false)
  pub sleepers : shut ≡ true → total sleeps ps ≡ 0
  pub leavers : shut ≡ false → total ended ps ≡ 0
  pub workers : waiting ≡ true → shut ≡ false → 0 < total sleeps ps → 0 < total able ps

module _ {locked shut waiting : Bool} {ps : List Place} (f : Fair locked shut waiting ps) where
  open f use {holders, dozers, sleepers, leavers, workers}

  -- A thread goes on, and the pool stays.
  go_on :
      (locked' : Bool) (i : ℕ) {p : Place} (q : Place)
      → get_elem? ps i ≡ some p
      → tests q + dozes q + (if locked then 1 else 0)
        ≡ tests p + dozes p + (if locked' then 1 else 0)
      → dozes q ≤ dozes p
      → sleeps q ≤ sleeps p
      → ended q ≤ ended p
      → able p ≤ able q
      → Fair locked' shut waiting (set ps i q)
  go_on locked' i {p} q e h d sl en ab = record {
    holders = omega (arith, holders, moved tests, moved dozes);
    dozers = λ k. dozers (omega (arith, k, moved dozes));
    sleepers = λ k. omega (arith, sleepers k, moved sleeps);
    leavers = λ k. omega (arith, leavers k, moved ended);
    workers = λ k l m. omega (arith, workers k l (omega (arith, m, moved sleeps)), moved able);
  }
    where
      moved : (w : Place → ℕ) → total w (set ps i q) + w p ≡ total w ps + w q
      moved w = total-set w ps i q e

  pub acquire-Fair :
      (i : ℕ) (p : Place)
      → get_elem? ps i ≡ some p
      → asks p ≡ true
      → locked ≡ false
      → Fair true shut waiting (set ps i inside)
  acquire-Fair i outside e a free =
      go_on true i inside e (rw free (omega arith)) (omega arith) (omega arith) (omega arith)
        (omega arith)
  acquire-Fair i awake e a free =
      go_on true i inside e (rw free (omega arith)) (omega arith) (omega arith) (omega arith)
        (omega arith)
  acquire-Fair i inside e a free = cc
  acquire-Fair i dozing e a free = cc
  acquire-Fair i asleep e a free = cc
  acquire-Fair i gone e a free = cc
  acquire-Fair i (busy b) e a free = cc

  pub end_task-Fair :
      (i a : ℕ) → get_elem? ps i ≡ some (busy a) → Fair locked shut waiting (set ps i outside)
  end_task-Fair i a e =
      go_on locked i outside e (omega arith) (omega arith) (omega arith) (omega arith) (omega arith)

  pub stir-Fair : (i : ℕ) → get_elem? ps i ≡ some asleep → Fair locked shut waiting (set ps i awake)
  stir-Fair i e =
      go_on locked i awake e (omega arith) (omega arith) (omega arith) (omega arith) (omega arith)

  pub doze-Fair :
      (i : ℕ)
      → get_elem? ps i ≡ some inside
      → waiting ≡ false
      → shut ≡ false
      → Fair locked shut waiting (set ps i dozing)
  doze-Fair i e quiet open_still = record {
    holders = omega (arith, holders, moved tests, moved dozes);
    dozers = λ k. (quiet, open_still);
    sleepers = λ k. omega (arith, sleepers k, moved sleeps);
    leavers = λ k. omega (arith, leavers k, moved ended);
    workers = λ k l m. absurd (ground (arith, k, quiet));
  }
    where
      moved : (w : Place → ℕ) → total w (set ps i dozing) + w inside ≡ total w ps + w dozing
      moved w = total-set w ps i dozing e

  -- A thread with the lock is the only one.
  pub only-inside :
      (i : ℕ)
      → get_elem? ps i ≡ some inside
      → (locked ≡ true) × (total tests ps ≡ 1) × (total dozes ps ≡ 0)
  only-inside i e = ground (arith, holders, total-set tests ps i outside e)

  pub only-dozing :
      (i : ℕ)
      → get_elem? ps i ≡ some dozing
      → (locked ≡ true) × (total tests ps ≡ 0) × (total dozes ps ≡ 1)
  only-dozing i e = ground (arith, holders, total-set dozes ps i outside e)

  pub rest-Fair : (i : ℕ) → get_elem? ps i ≡ some dozing → Fair false shut waiting (set ps i asleep)
  rest-Fair i e = record {
    holders = omega (arith, only-dozing i e, moved tests, moved dozes);
    dozers = λ k. absurd (omega (arith, k, only-dozing i e, moved dozes));
    sleepers = λ k. absurd (ground (arith, k, quiet));
    leavers = λ k. omega (arith, leavers k, moved ended);
    workers = λ k l m. absurd (ground (arith, k, quiet));
  }
    where
      moved : (w : Place → ℕ) → total w (set ps i asleep) + w dozing ≡ total w ps + w asleep
      moved w = total-set w ps i asleep e

      quiet : (waiting ≡ false) × (shut ≡ false)
      quiet = dozers (omega (arith, only-dozing i e))

  -- A thread gives the lock back and does not sleep.
  unlock :
      (waiting' : Bool) (i : ℕ) (q : Place)
      → get_elem? ps i ≡ some inside
      → tests q ≡ 0
      → dozes q ≡ 0
      → sleeps q ≡ 0
      → (shut ≡ false → (ended q ≡ 0) × (able q ≡ 1))
      → Fair false shut waiting' (set ps i q)
  unlock waiting' i q e t d sl k = record {
    holders = omega (arith, only-inside i e, moved tests, moved dozes);
    dozers = λ l. absurd (omega (arith, l, only-inside i e, moved dozes));
    sleepers = λ l. omega (arith, sleepers l, moved sleeps);
    leavers = λ l. omega (arith, leavers l, k l, moved ended);
    workers = λ l m o. omega (arith, k m, moved able, total-set able ps i gone e);
  }
    where
      moved : (w : Place → ℕ) → total w (set ps i q) + w inside ≡ total w ps + w q
      moved w = total-set w ps i q e

  pub quit-Fair :
      (i : ℕ) → get_elem? ps i ≡ some inside → shut ≡ true → Fair false shut waiting (set ps i gone)
  quit-Fair i e k = unlock waiting i gone e refl refl refl (λ l. absurd (ground (arith, k, l)))

  pub take-Fair :
      (waiting' : Bool) (i a : ℕ)
      → get_elem? ps i ≡ some inside
      → Fair false shut waiting' (set ps i (busy a))
  take-Fair waiting' i a e = unlock waiting' i (busy a) e refl refl refl (λ l. (refl, refl))

  pub spawn-Fair : Fair locked shut waiting (ps ++ (outside ∷ []))
  spawn-Fair = record {
    holders = omega (arith, holders, more tests, more dozes);
    dozers = λ k. dozers (omega (arith, k, more dozes));
    sleepers = λ k. omega (arith, sleepers k, more sleeps);
    leavers = λ k. omega (arith, leavers k, more ended);
    workers = λ k l m. omega (arith, more able);
  }
    where
      more : (w : Place → ℕ) → total w (ps ++ (outside ∷ [])) ≡ total w ps + total w (outside ∷ [])
      more w = total-append w ps (outside ∷ [])

  pub add-Fair :
      {qs : List Place} (waiting' : Bool)
      → locked ≡ false
      → Signalled ps qs
      → Fair locked shut waiting' qs
  add-Fair waiting' free (woken i e) = record {
    holders = omega (arith, holders, moved tests, moved dozes);
    dozers = λ k. absurd (ground (arith, k, free, holders, moved dozes));
    sleepers = λ k. omega (arith, sleepers k, moved sleeps);
    leavers = λ k. omega (arith, leavers k, moved ended);
    workers = λ k l m. omega (arith, moved able);
  }
    where
      moved : (w : Place → ℕ) → total w (set ps i awake) + w asleep ≡ total w ps + w awake
      moved w = total-set w ps i awake e
  add-Fair waiting' free (unheard none_there) = record {
    holders = holders;
    dozers = λ k. absurd (ground (arith, k, free, holders));
    sleepers = sleepers;
    leavers = leavers;
    workers = λ k l m. absurd (deaf (total-some sleeps ps m));
  }
    where
      deaf : ((i : ℕ) × (p : Place) × (get_elem? ps i ≡ some p) × (0 < sleeps p)) → ⊥
      deaf (i, outside, e, k) = omega arith
      deaf (i, inside, e, k) = omega arith
      deaf (i, dozing, e, k) = omega arith
      deaf (i, asleep, e, k) = none_there i e
      deaf (i, awake, e, k) = omega arith
      deaf (i, gone, e, k) = omega arith
      deaf (i, busy a, e, k) = omega arith

  pub shut-Fair : locked ≡ false → Fair locked true waiting (wake_all ps)
  shut-Fair free = record {
    holders = omega (arith, holders, total-wake_all tests refl ps, total-wake_all dozes refl ps);
    dozers = λ k. absurd (ground (arith, k, free, holders, total-wake_all dozes refl ps));
    sleepers = λ k. sleeps-wake_all ps;
    leavers = λ k. cc;
    workers = λ k l m. cc;
  }

-- A task waits in the queue.
abbrev pub waits : Pool → Bool
waits pool = elim pool.queue_head [ none ↦ false | some a ↦ true ]

pub sleep-test :
    (pool : Pool) → worker_thread pool ≡ sleep → (waits pool ≡ false) × (pool.shutdown ≡ false)
unfolding worker_thread take_task
sleep-test pool e = elim (Option-cases pool.queue_head) [
  | inl h ↦ ground (arith, h, e)
  | inr (a, h) ↦ ground (arith, h, e)
]

pub leave-test :
    (pool : Pool) → worker_thread pool ≡ leave → (waits pool ≡ false) × (pool.shutdown ≡ true)
unfolding worker_thread take_task
leave-test pool e = elim (Option-cases pool.queue_head) [
  | inl h ↦ ground (arith, h, e)
  | inr (a, h) ↦ ground (arith, h, e)
]

pub run-test :
    (pool : Pool) {a : ℕ} {task : Task} {left : Pool}
    → worker_thread pool ≡ run a task left
    → left.shutdown ≡ pool.shutdown
unfolding worker_thread take_task
run-test pool e = elim (Option-cases pool.queue_head) [
  | inl h ↦ ground (arith, h, e)
  | inr (a, h) ↦ ground (arith, h, e)
]

pub put_task-shutdown :
    (pool : Pool) (a function arg : ℕ) → (put_task pool a function arg).shutdown ≡ pool.shutdown
unfolding put_task push_task
put_task-shutdown pool a function arg = ground arith
