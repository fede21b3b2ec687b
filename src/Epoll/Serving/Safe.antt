-- ===== src/Epoll/Serving/Safe.antt =====
-- The connections and the arguments of tasks while the server is at work.
use epoll_http_server.Prelude.{
  ℕ, zero, suc, ◌+◌, ◌≤◌, ◌<◌, ◌≡◌, ◌≢◌, refl, ap, Bool, true, false, List, [], ◌∷◌, Option, none,
  some, arith, ◌==◌, ==_iff, if◌then◌else◌, get_elem?, inl, inr, Bool-cases,
}
use epoll_http_server.Connection.{Connection}
use epoll_http_server.ThreadPool.Queue.{Waiting}
use epoll_http_server.ThreadPool.Monitor.Counts.{total}
use epoll_http_server.Epoll.Table.{entry}
use epoll_http_server.Epoll.Sharing.{count}
use epoll_http_server.Epoll.Sharing.Places.{Fine}
use epoll_http_server.Epoll.Sharing.Steps.{Owned}
use epoll_http_server.Epoll.Sharing.Ownership.{Reaches-Owned}
use epoll_http_server.Epoll.Serving.{Stage, comes, holds, leaves, over, Job, Serving, Reaches}
use epoll_http_server.Epoll.Serving.Shows.{
  names, given, holds_at, leaves_at, waits_for, waits_with, stage_for, stage_with, comes_for,
  comes_with, shared,
}
use epoll_http_server.Epoll.Serving.Refines.{Refines, Reaches-Refines}

-- What the workers rely on.
pub record Safe (w : Serving) : Type 0 where
  -- No two workers hold the same connection.
  pub alone :
      (i j a b fd : ℕ)
      → get_elem? w.jobs i ≡ some (record { node = a; stage = holds fd })
      → get_elem? w.jobs j ≡ some (record { node = b; stage = holds fd })
      → i ≡ j
  -- A connection that a worker holds is in the table and marked, and epoll does not report it.
  pub live :
      (i a fd : ℕ)
      → get_elem? w.jobs i ≡ some (record { node = a; stage = holds fd })
      → (conn : Connection) × (entry w.handler.connections fd ≡ some conn)
        × (conn.in_use ≡ true)
        × (w.armed fd ≡ false)
  -- One that a worker has released and not armed again is still in the table, and not reported.
  pub released :
      (i a fd : ℕ)
      → get_elem? w.jobs i ≡ some (record { node = a; stage = leaves fd })
      → (entry w.handler.connections fd ≢ none) × (w.armed fd ≡ false)
  -- A worker that comes with an argument finds it allocated.
  pub allocated :
      (i a arg : ℕ)
      → get_elem? w.jobs i ≡ some (record { node = a; stage = comes arg })
      → (fd : ℕ) × (w.args arg ≡ some fd)
  -- An argument that is allocated is that of one task, which waits or which a worker has.
  pub kept :
      (arg fd : ℕ)
      → w.args arg ≡ some fd
      → (entry w.handler.connections fd ≢ none) × (w.armed fd ≡ false)

total-one :
    {A : Type 0} (k : A → ℕ) (xs : List A) (i : ℕ) {x : A}
    → get_elem? xs i ≡ some x
    → k x ≤ total k xs
total-one k [] i e = cc
total-one k (z ∷ xs) zero e = ground (arith, e)
total-one k (z ∷ xs) (suc i) e = omega (arith, total-one k xs i e)

total-two :
    {A : Type 0} (k : A → ℕ) (xs : List A) (i j : ℕ) {x y : A}
    → get_elem? xs i ≡ some x
    → get_elem? xs j ≡ some y
    → i ≢ j
    → k x + k y ≤ total k xs
total-two k [] i j e f ne = cc
total-two k (z ∷ xs) zero zero e f ne = absurd (ne refl)
total-two k (z ∷ xs) zero (suc j) e f ne = ground (arith, e, total-one k xs j f)
total-two k (z ∷ xs) (suc i) zero e f ne = ground (arith, f, total-one k xs i e)
total-two k (z ∷ xs) (suc i) (suc j) e f ne =
    omega (arith, total-two k xs i j e f (λ same. ne (ap suc same)))

given-some : (o : Option ℕ) → 0 < given o → (fd : ℕ) × (o ≡ some fd)
given-some none h = absurd (omega arith)
given-some (some fd) h = (fd, refl)

module _ (args : ℕ → Option ℕ) (arg fd : ℕ) (found : args arg ≡ some fd) where
  with_is_for : (b : ℕ) → (if b == arg then 1 else 0) ≤ names (args b) fd
  with_is_for b = elim (Bool-cases (b == arg)) [
    | inl same ↦ rw (same, ap args ((==_iff b arg).0 same), found) (ground arith)
    | inr other ↦ rw other (omega arith)
  ]

  waits_with-le : (xs : List Waiting) → total (waits_with arg) xs ≤ total (waits_for args fd) xs
  waits_with-le [] = omega arith
  waits_with-le (x ∷ xs) = omega (arith, with_is_for x.arg, waits_with-le xs)

  stage_with-le : (stage : Stage) → stage_with arg stage ≤ stage_for args fd stage
  stage_with-le (comes b) = with_is_for b
  stage_with-le (holds b) = omega arith
  stage_with-le (leaves b) = omega arith
  stage_with-le over = omega arith

  comes_with-le : (xs : List Job) → total (comes_with arg) xs ≤ total (comes_for args fd) xs
  comes_with-le [] = omega arith
  comes_with-le (x ∷ xs) = omega (arith, stage_with-le x.stage, comes_with-le xs)

-- A descriptor that is held, and one that has a task.
held-Fine :
    (a : Bool) (q h : ℕ) (e : Option Connection)
    → Fine a q h e
    → 0 < h
    → (conn : Connection) × (e ≡ some conn) × (conn.in_use ≡ true) × (a ≡ false) × (h ≡ 1)
held-Fine a q h none f p = absurd (omega arith)
held-Fine a q h (some conn) f p =
    (conn, refl, ground (arith, f, p), ground (arith, f, p), ground (arith, f, p))

queued-Fine :
    (a : Bool) (q h : ℕ) (e : Option Connection) → Fine a q h e → 0 < q → (e ≢ none) × (a ≡ false)
queued-Fine a q h none f p = absurd (omega arith)
queued-Fine a q h (some conn) f p = (λ k. cc, ground (arith, f, p))

-- While the main thread accepts, dispatches and checks for timeouts, and the workers take tasks, serve
-- their clients and free what they were given, in any interleaving, as long as no check closes a client
-- whose task has not come to the table, or one whose worker has released it and not armed it again: no two
-- workers hold one connection; one that is held is in the table, marked, and not reported by epoll; one
-- that is released and not armed again is in the table and not reported; the argument of a task is
-- allocated when its worker comes to read it; and a client whose descriptor stands in an argument is in the
-- table and not reported.
pub Reaches-Safe : {w : Serving} → Reaches false w → Safe w
Reaches-Safe {w} r = record {
  alone = λ i j a b fd e f. elim (Bool-cases (i == j)) [
    | inl same ↦ (==_iff i j).0 same
    | inr other ↦ absurd (
        ground (
          arith,
          total-two (holds_at fd) w.jobs i j e f (λ k. ground (arith, k, other)),
          q.counted.held_by fd,
          (held-Fine _ _ _ _ (o.fine fd) (held i a fd e)).4,
        ))
  ];
  live = λ i a fd e.
      let (conn, there, used, off, once) = held-Fine _ _ _ _ (o.fine fd) (held i a fd e) in
      (conn, there, used, off);
  allocated = λ i a arg e.
      given-some (w.args arg)
        (ground (arith, q.counted.owned arg, total-one (comes_with arg) w.jobs i e));
  kept = λ arg fd e. queued-Fine _ _ _ _ (o.fine fd) (omega (arith, queued arg fd e));
  released = λ i a fd e.
      queued-Fine _ _ _ _ (o.fine fd)
        (ground (arith, q.leaves_by fd, total-one (leaves_at fd) w.jobs i e));
}
  where
    q : Refines false w
    q = Reaches-Refines r

    o : Owned (shared w q.queued q.held q.leaving)
    o = Reaches-Owned q.table

    held :
        (i a fd : ℕ)
        → get_elem? w.jobs i ≡ some (record { node = a; stage = holds fd })
        → 0 < count fd q.held
    held i a fd e = ground (arith, q.counted.held_by fd, total-one (holds_at fd) w.jobs i e)

    queued : (arg fd : ℕ) → w.args arg ≡ some fd → 0 < count fd q.queued
    queued arg fd e = omega (
      arith,
      q.counted.pending fd,
      q.counted.owned arg,
      ap given e,
      waits_with-le w.args arg fd e q.waiting,
      comes_with-le w.args arg fd e w.jobs,
    )
