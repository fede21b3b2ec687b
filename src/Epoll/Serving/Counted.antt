-- ===== src/Epoll/Serving/Counted.antt =====
-- What an event, the steps of a job and the take of a task do to the counts.

use epoll_http_server.Prelude.{
  ℕ, ◌+◌, ◌<◌, ◌≡◌, sym, ap, ◌∙◌, subst, Bool, true, false, List, [], ◌∷◌, ◌++◌, Option, none, some,
  arith, ◌==◌, ==_iff, get_elem?, set, inl, inr, Bool-cases,
}
use epoll_http_server.ThreadPool.Queue.{Waiting}
use epoll_http_server.ThreadPool.System
use epoll_http_server.ThreadPool.Monitor.Counts.{total, total-set, total-append}
use epoll_http_server.Epoll.Table.{Handler}
use epoll_http_server.Epoll.Sharing.{count, remove_one}
use epoll_http_server.Epoll.Sharing.Places.{count_back, count_removed}
use epoll_http_server.Epoll.Serving.{Stage, comes, holds, leaves, over, Job, Serving, put_arg}
use epoll_http_server.Epoll.Serving.Shows.{
  names, given, waits_for, stage_for, stage_with, stage_holds, comes_for, holds_at, waits_with,
  comes_with, Counted, total-waits_for, total-comes_for,
}

module _ (w : Serving) (waiting : List Waiting) (queued held : List ℕ)
    (c : Counted w waiting queued held) where
  open c use {pending, held_by, owned}

  pub event-Counted :
      (fd : ℕ) (e : Waiting) (system : System.System) (armed : ℕ → Bool)
      → w.args e.arg ≡ none
      → Counted
          (record w { system = system; args = put_arg w.args e.arg (some fd); armed = armed })
          (waiting ++ (e ∷ []))
          (queued ++ (fd ∷ []))
          held
  event-Counted fd e system armed free = record {
    pending = λ j. omega (
      arith,
      pending j,
      count_of j,
      total-append (waits_for args' j) waiting (e ∷ []),
      total-waits_for w.args e.arg (some fd) j waiting (omega (arith, no_one)),
      total-comes_for w.args e.arg (some fd) j w.jobs (omega (arith, no_one)),
      ap (λ o. names o j) here,
    );
    held_by = held_by;
    owned = λ b. owned_of b;
  }
    where
      args' : ℕ → Option ℕ
      args' = put_arg w.args e.arg (some fd)

      here : put_arg w.args e.arg (some fd) e.arg ≡ some fd
      here = ground arith

      no_one : total (waits_with e.arg) waiting + total (comes_with e.arg) w.jobs ≡ 0
      no_one = owned e.arg ∙ ap given free

      count_of : (j : ℕ) → count j (queued ++ (fd ∷ [])) ≡ count j queued + names (some fd) j
      count_of j = ground (arith, count_back j fd queued)

      owned_of :
          (b : ℕ)
          → total (waits_with b) (waiting ++ (e ∷ [])) + total (comes_with b) w.jobs
            ≡ given (put_arg w.args e.arg (some fd) b)
      owned_of b = elim (Bool-cases (e.arg == b)) [
        | inl same ↦
            let unused : total (waits_with b) waiting + total (comes_with b) w.jobs ≡ 0 =
              owned b ∙ ap given (ap w.args (sym ((==_iff e.arg b).0 same)) ∙ free) in
            rw same
              (omega (arith, unused, total-append (waits_with b) waiting (e ∷ []), one_if b same))
        | inr other ↦
            rw other (
              omega (arith, owned b, total-append (waits_with b) waiting (e ∷ []), none_if b other))
      ]
        where
          one_if : (b : ℕ) → (e.arg == b) ≡ true → waits_with b e ≡ 1
          one_if b h = rw h

          none_if : (b : ℕ) → (e.arg == b) ≡ false → waits_with b e ≡ 0
          none_if b h = rw h

  -- A job whose argument was allocated gives it back; it held no connection.
  pub freed-Counted :
      (i a arg fd : ℕ) (stage : Stage) (held' : List ℕ) (h : Handler) (armed : ℕ → Bool)
      → get_elem? w.jobs i ≡ some (record { node = a; stage = comes arg })
      → w.args arg ≡ some fd
      → ((b : ℕ) → stage_with b stage ≡ 0)
      → ((args : ℕ → Option ℕ) (j : ℕ) → stage_for args j stage ≡ 0)
      → ((j : ℕ) → count j held' ≡ count j held + stage_holds j stage)
      → (0 < count fd queued)
        × Counted
            (record w {
              args = put_arg w.args arg none;
              jobs = set w.jobs i (record { node = a; stage = stage });
              handler = h;
              armed = armed;
            })
            waiting
            (remove_one fd queued)
            held'
  freed-Counted i a arg fd stage held' h armed e found no_arg no_fd more = (
    some_one,
    record {
      pending = λ j. omega (
        arith,
        pending j,
        removed j,
        moved (comes_for w.args j),
        is_for j,
        no_fd w.args j,
        total-waits_for w.args arg none j waiting (omega (arith, no_one)),
        total-comes_for w.args arg none j jobs' (omega (arith, no_one)),
      );
      held_by = λ j. omega (arith, more j, held_by j, moved (holds_at j));
      owned = λ b. owned_of b;
    },
  )
    where
      jobs' : List Job
      jobs' = set w.jobs i (record { node = a; stage = stage })

      moved :
          (k : Job → ℕ)
          → total k (set w.jobs i (record { node = a; stage = stage }))
              + k (record { node = a; stage = comes arg })
            ≡ total k w.jobs + k (record { node = a; stage = stage })
      moved k = total-set k w.jobs i (record { node = a; stage = stage }) e

      is_for : (j : ℕ) → names (w.args arg) j ≡ names (some fd) j
      is_for j = ap (λ o. names o j) found

      some_one : 0 < count fd queued
      some_one = ground (arith, pending fd, moved (comes_for w.args fd), is_for fd, no_fd w.args fd)

      removed : (j : ℕ) → count j (remove_one fd queued) + names (some fd) j ≡ count j queued
      removed j = ground (arith, count_removed j fd queued some_one, some_one, (==_iff fd j).0)

      no_one : total (waits_with arg) waiting + total (comes_with arg) jobs' ≡ 0
      no_one = ground (arith, owned arg, moved (comes_with arg), no_arg arg, ap given found)

      owned_of :
          (b : ℕ)
          → total (waits_with b) waiting + total (comes_with b) jobs'
            ≡ given (put_arg w.args arg none b)
      owned_of b = elim (Bool-cases (arg == b)) [
        | inl same ↦ rw same (
            subst (λ k. total (waits_with k) waiting + total (comes_with k) jobs' ≡ 0)
              ((==_iff arg b).0 same) no_one)
        | inr other ↦ rw other (ground (arith, owned b, moved (comes_with b), no_arg b, other))
      ]

  -- A job that holds a connection is done with it.
  pub over-Counted :
      (i a fd : ℕ) (stage : Stage) (h : Handler) (armed : ℕ → Bool)
      → get_elem? w.jobs i ≡ some (record { node = a; stage = holds fd })
      → ((b : ℕ) → stage_with b stage ≡ 0)
      → ((args : ℕ → Option ℕ) (j : ℕ) → stage_for args j stage ≡ 0)
      → ((j : ℕ) → stage_holds j stage ≡ 0)
      → (0 < count fd held)
        × Counted
            (record w {
              jobs = set w.jobs i (record { node = a; stage = stage });
              handler = h;
              armed = armed;
            })
            waiting
            queued
            (remove_one fd held)
  over-Counted i a fd stage h armed e no_arg no_fd none_held = (
    some_one,
    record {
      pending = λ j. omega (arith, pending j, moved (comes_for w.args j), no_fd w.args j);
      held_by = λ j. omega (arith, held_by j, removed j, moved (holds_at j), none_held j);
      owned = λ b. omega (arith, owned b, moved (comes_with b), no_arg b);
    },
  )
    where
      moved :
          (k : Job → ℕ)
          → total k (set w.jobs i (record { node = a; stage = stage }))
              + k (record { node = a; stage = holds fd })
            ≡ total k w.jobs + k (record { node = a; stage = stage })
      moved k = total-set k w.jobs i (record { node = a; stage = stage }) e

      some_one : 0 < count fd held
      some_one = ground (arith, held_by fd, moved (holds_at fd), none_held fd)

      removed : (j : ℕ) → count j (remove_one fd held) + names (some fd) j ≡ count j held
      removed j = ground (arith, count_removed j fd held some_one, some_one, (==_iff fd j).0)

-- A job that has released its connection is over.
pub left-Counted :
    (w : Serving) (waiting : List Waiting) (queued held : List ℕ) (i a fd : ℕ) (h : Handler)
    (armed : ℕ → Bool)
    → Counted w waiting queued held
    → get_elem? w.jobs i ≡ some (record { node = a; stage = leaves fd })
    → Counted
        (record w {
          jobs = set w.jobs i (record { node = a; stage = over });
          handler = h;
          armed = armed;
        })
        waiting
        queued
        held
left-Counted w waiting queued held i a fd h armed c e = record {
  pending = λ j. omega (arith, c.pending j, moved (comes_for w.args j));
  held_by = λ j. omega (arith, c.held_by j, moved (holds_at j));
  owned = λ b. omega (arith, c.owned b, moved (comes_with b));
}
  where
    moved :
        (k : Job → ℕ)
        → total k (set w.jobs i (record { node = a; stage = over }))
            + k (record { node = a; stage = leaves fd })
          ≡ total k w.jobs + k (record { node = a; stage = over })
    moved k = total-set k w.jobs i (record { node = a; stage = over }) e

pub take-Counted :
    (w : Serving) (a : ℕ) (x : Waiting) (ys : List Waiting) (queued held : List ℕ)
    (system : System.System)
    → Counted w (x ∷ ys) queued held
    → Counted
        (record w {
          system = system;
          jobs = w.jobs ++ (record { node = a; stage = comes x.arg } ∷ []);
        })
        ys
        queued
        held
take-Counted w a x ys queued held system c = record {
  pending = λ j. omega (arith, c.pending j, more (comes_for w.args j));
  held_by = λ j. omega (arith, c.held_by j, more (holds_at j));
  owned = λ b. omega (arith, c.owned b, more (comes_with b));
}
  where
    job : Job
    job = record { node = a; stage = comes x.arg }

    more :
        (k : Job → ℕ)
        → total k (w.jobs ++ (record { node = a; stage = comes x.arg } ∷ []))
          ≡ total k w.jobs + (k (record { node = a; stage = comes x.arg }) + 0)
    more k = total-append k w.jobs (record { node = a; stage = comes x.arg } ∷ [])

-- What the counts do not speak of may change.
pub same_counts :
    (w : Serving) (waiting : List Waiting) (queued held : List ℕ) (system : System.System)
    (handler : Handler) (armed : ℕ → Bool)
    → Counted w waiting queued held
    → Counted (record w { system = system; handler = handler; armed = armed }) waiting queued held
same_counts w waiting queued held system handler armed c = record {
  pending = c.pending;
  held_by = c.held_by;
  owned = c.owned;
}
