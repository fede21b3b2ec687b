-- ===== src/ThreadPool/Monitor/Lost.antt =====
-- A wake-up that is lost: the error path of `thread_pool_create` sets the stop and calls the broadcast
-- without the lock. A thread that has tested the stop and is about to wait does not hear it.
use epoll_http_server.Prelude.{
  ℕ, zero, suc, ◌≡◌, ◌≢◌, refl, ap, true, false, List, [], ◌∷◌, some, arith, get_elem?, set,
}
use epoll_http_server.ThreadPool.{stop}
use epoll_http_server.ThreadPool.Monitor.{
  Place, dozing, asleep, wake, wake_all, Monitor, Move, Reaches, acquire, doze, rest, quit,
  take_next, end_task, move, flag, broadcast, after,
}

-- Any number of steps of the threads.
pub data Runs (s : Monitor) : Monitor → Type 0 where
  still : Runs s s
  further : {t u : Monitor} → Runs s t → Move t u → Runs s u

set_other :
    (ps : List Place) (i j : ℕ) (p q : Place) (r : Place)
    → get_elem? ps i ≡ some p
    → get_elem? ps j ≡ some r
    → p ≢ r
    → get_elem? (set ps i q) j ≡ some r
set_other [] i j p q r e f ne = cc
set_other (x ∷ ps) zero zero p q r e f ne = absurd (ne cc)
set_other (x ∷ ps) zero (suc j) p q r e f ne = f
set_other (x ∷ ps) (suc i) zero p q r e f ne = f
set_other (x ∷ ps) (suc i) (suc j) p q r e f ne = set_other ps i j p q r e f ne

set_self :
    (ps : List Place) (i : ℕ) (p q : Place)
    → get_elem? ps i ≡ some p
    → get_elem? (set ps i q) i ≡ some q
set_self [] i p q e = cc
set_self (x ∷ ps) zero p q e = refl
set_self (x ∷ ps) (suc i) p q e = set_self ps i p q e

wake_all-dozing :
    (ps : List Place) (i : ℕ)
    → get_elem? ps i ≡ some dozing
    → get_elem? (wake_all ps) i ≡ some dozing
wake_all-dozing [] i e = cc
wake_all-dozing (x ∷ ps) zero e = let same : x ≡ dozing = cc in ap (λ p. some (wake p)) same
wake_all-dozing (x ∷ ps) (suc i) e = wake_all-dozing ps i e

-- No step of a thread takes another out of the wait.
asleep_stays :
    {s t : Monitor} (i : ℕ)
    → Move s t
    → get_elem? s.threads i ≡ some asleep
    → get_elem? t.threads i ≡ some asleep
asleep_stays {s} i (acquire j {p = p} e a free) h =
    set_other s.threads j i p _ asleep e h (λ k. ground (arith, k, a))
asleep_stays {s} i (doze j e w) h = set_other s.threads j i _ _ asleep e h (λ k. cc)
asleep_stays {s} i (rest j e) h = set_other s.threads j i _ _ asleep e h (λ k. cc)
asleep_stays {s} i (quit j e w) h = set_other s.threads j i _ _ asleep e h (λ k. cc)
asleep_stays {s} i (take_next j e w) h = set_other s.threads j i _ _ asleep e h (λ k. cc)
asleep_stays {s} i (end_task j a e) h = set_other s.threads j i _ _ asleep e h (λ k. cc)

Runs-asleep :
    {s t : Monitor} (i : ℕ)
    → Runs s t
    → get_elem? s.threads i ≡ some asleep
    → get_elem? t.threads i ≡ some asleep
Runs-asleep i still h = h
Runs-asleep i (further r m) h = asleep_stays i m (Runs-asleep i r h)

-- The state behind the stop, the broadcast and the thread's wait.
abbrev pub slept_in : Monitor → ℕ → Monitor
slept_in s i = record {
  system = record s.system { pool = stop s.system.pool };
  locked = false;
  threads = set (wake_all s.threads) i asleep;
}

-- From every state with a thread that has tested the queue and the stop and is about to wait, the stop
-- and the broadcast of the error path lead, without a step of another thread, to one in which that
-- thread is in the wait with the stop set; and there it is whatever steps the threads take, unless its
-- wait ends for no reason: the `pthread_join` for it does not return.
pub Reaches-asleep :
    {s : Monitor} (i : ℕ)
    → Reaches true s
    → get_elem? s.threads i ≡ some dozing
    → Reaches true (slept_in s i)
      × ((slept_in s i).system.pool.shutdown ≡ true)
      × ((t : Monitor) → Runs (slept_in s i) t → get_elem? t.threads i ≡ some asleep)
unfolding stop
Reaches-asleep {s} i r e = (
  after (after (after r (flag refl)) (broadcast refl))
      (move (rest i (wake_all-dozing s.threads i e))),
  refl,
  λ t q.
      Runs-asleep i q
        (set_self (wake_all s.threads) i dozing asleep (wake_all-dozing s.threads i e)),
)
