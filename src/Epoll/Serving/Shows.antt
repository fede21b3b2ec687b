-- ===== src/Epoll/Serving/Shows.antt =====
-- What the table of Epoll/Sharing sees of the server at work: which descriptors have a task, and which
-- are held, by counting.
use epoll_http_server.Prelude.{
  ℕ, ◌+◌, ◌<◌, ◌≡◌, refl, ap, ◌∙◌, ==_iff, All, List, [], ◌∷◌, Option, none, some, arith, ◌==◌,
  if◌then◌else◌, inl, inr, Bool-cases, get_elem?,
}
use epoll_http_server.ThreadPool.Queue.{Waiting}
use epoll_http_server.ThreadPool.Monitor.Counts.{total, total-some}
use epoll_http_server.Epoll.Sharing.{Shared, count}
use epoll_http_server.Epoll.Serving.{Stage, comes, holds, leaves, over, Job, Serving, put_arg}

abbrev pub names : Option ℕ → ℕ → ℕ
names none j = 0
names (some fd) j = if fd == j then 1 else 0

abbrev pub given : Option ℕ → ℕ
given none = 0
given (some fd) = 1

-- A task that waits, or one that a worker has taken, is for descriptor `j`.
abbrev pub waits_for : (ℕ → Option ℕ) → ℕ → Waiting → ℕ
waits_for args j x = names (args x.arg) j

abbrev pub stage_for : (ℕ → Option ℕ) → ℕ → Stage → ℕ
stage_for args j (comes arg) = names (args arg) j
stage_for args j _ = 0

abbrev pub comes_for : (ℕ → Option ℕ) → ℕ → Job → ℕ
comes_for args j job = stage_for args j job.stage

abbrev pub stage_holds : ℕ → Stage → ℕ
stage_holds j (holds fd) = if fd == j then 1 else 0
stage_holds j _ = 0

abbrev pub stage_leaves : ℕ → Stage → ℕ
stage_leaves j (leaves fd) = if fd == j then 1 else 0
stage_leaves j _ = 0

abbrev pub leaves_at : ℕ → Job → ℕ
leaves_at j job = stage_leaves j job.stage

abbrev pub holds_at : ℕ → Job → ℕ
holds_at j job = stage_holds j job.stage

-- It has the pointer to the argument at `b`.
abbrev pub waits_with : ℕ → Waiting → ℕ
waits_with b x = if x.arg == b then 1 else 0

abbrev pub stage_with : ℕ → Stage → ℕ
stage_with b (comes arg) = if arg == b then 1 else 0
stage_with b _ = 0

abbrev pub comes_with : ℕ → Job → ℕ
comes_with b job = stage_with b job.stage

-- The table as the threads share it, with the descriptors that have a task, those that are held, and
-- those that are released and not armed again.
abbrev pub shared : Serving → List ℕ → List ℕ → List ℕ → Shared
shared w queued held leaving = record {
  handler = w.handler;
  armed = w.armed;
  queued = queued;
  held = held;
  leaving = leaving;
}

-- The tasks that wait and those that were taken, counted by descriptor, are what the table sees; and
-- an argument is allocated exactly if one task has the pointer to it, and no two have.
pub record Counted (w : Serving) (waiting : List Waiting) (queued held : List ℕ) : Type 0 where
  pub pending :
      (j : ℕ)
      → count j queued ≡ total (waits_for w.args j) waiting + total (comes_for w.args j) w.jobs
  pub held_by : (j : ℕ) → count j held ≡ total (holds_at j) w.jobs
  pub owned :
      (b : ℕ) → total (waits_with b) waiting + total (comes_with b) w.jobs ≡ given (w.args b)

-- An argument that no task has the pointer to may change.
pub total-waits_for :
    (args : ℕ → Option ℕ) (b : ℕ) (v : Option ℕ) (j : ℕ) (xs : List Waiting)
    → total (waits_with b) xs ≡ 0
    → total (waits_for (put_arg args b v) j) xs ≡ total (waits_for args j) xs
total-waits_for args b v j [] h = refl
total-waits_for args b v j (x ∷ xs) h = elim (Bool-cases (b == x.arg)) [
  | inl same ↦ absurd (ground (arith, h, same))
  | inr other ↦ rw other (omega (arith, total-waits_for args b v j xs (omega (arith, h))))
]

stage_for-put_arg :
    (args : ℕ → Option ℕ) (b : ℕ) (v : Option ℕ) (j : ℕ) (stage : Stage)
    → stage_with b stage ≡ 0
    → stage_for (put_arg args b v) j stage ≡ stage_for args j stage
stage_for-put_arg args b v j (comes arg) h = elim (Bool-cases (b == arg)) [
  | inl same ↦ absurd (ground (arith, h, same))
  | inr other ↦ rw other
]
stage_for-put_arg args b v j (holds fd) h = refl
stage_for-put_arg args b v j (leaves fd) h = refl
stage_for-put_arg args b v j over h = refl

pub total-comes_for :
    (args : ℕ → Option ℕ) (b : ℕ) (v : Option ℕ) (j : ℕ) (xs : List Job)
    → total (comes_with b) xs ≡ 0
    → total (comes_for (put_arg args b v) j) xs ≡ total (comes_for args j) xs
total-comes_for args b v j [] h = refl
total-comes_for args b v j (x ∷ xs) h = omega (
  arith,
  stage_for-put_arg args b v j x.stage (omega (arith, h)),
  total-comes_for args b v j xs (omega (arith, h)),
)

names-some : (o : Option ℕ) (j : ℕ) → 0 < names o j → o ≡ some j
names-some none j h = absurd (omega arith)
names-some (some fd) j h = elim (Bool-cases (fd == j)) [
  | inl same ↦ ap some ((==_iff fd j).0 same)
  | inr other ↦ absurd (ground (arith, h, other))
]

stage_for-some :
    (args : ℕ → Option ℕ) (j : ℕ) (stage : Stage)
    → 0 < stage_for args j stage
    → (arg : ℕ) × (args arg ≡ some j)
stage_for-some args j (comes arg) h = (arg, names-some (args arg) j h)
stage_for-some args j (holds fd) h = absurd (omega arith)
stage_for-some args j (leaves fd) h = absurd (omega arith)
stage_for-some args j over h = absurd (omega arith)

stage_leaves-is : (j : ℕ) (stage : Stage) → 0 < stage_leaves j stage → stage ≡ leaves j
stage_leaves-is j (comes arg) h = absurd (omega arith)
stage_leaves-is j (holds fd) h = absurd (omega arith)
stage_leaves-is j (leaves fd) h = elim (Bool-cases (fd == j)) [
  | inl same ↦ ap leaves ((==_iff fd j).0 same)
  | inr other ↦ absurd (ground (arith, h, other))
]
stage_leaves-is j over h = absurd (omega arith)

-- A descriptor that is released and not armed again is that of a job.
pub leaving-job :
    (w : Serving) (fd : ℕ)
    → 0 < total (leaves_at fd) w.jobs
    → (i a : ℕ) × (get_elem? w.jobs i ≡ some (record { node = a; stage = leaves fd }))
leaving-job w fd p =
    let (i, x, e, k) = total-some (leaves_at fd) w.jobs p in
    (
      i,
      x.node,
      e
          ∙ ap (λ (g : Stage). some (record { node = x.node; stage = g }))
              (stage_leaves-is fd x.stage k),
    )

-- A descriptor with a task stands in an argument that is allocated.
pub pending-arg :
    (w : Serving) (waiting : List Waiting) (queued held : List ℕ) (fd : ℕ)
    → Counted w waiting queued held
    → 0 < count fd queued
    → (arg : ℕ) × (w.args arg ≡ some fd)
pending-arg w waiting queued held fd c p =
    elim (Bool-cases (total (waits_for w.args fd) waiting == 0)) [
      | inr some_wait ↦
          let (i, x, e, k) = total-some (waits_for w.args fd) waiting (ground (arith, some_wait)) in
          (x.arg, names-some (w.args x.arg) fd k)
      | inl no_wait ↦
          let (i, x, e, k) =
            total-some (comes_for w.args fd) w.jobs (ground (arith, no_wait, c.pending fd, p)) in
          stage_for-some w.args fd x.stage k
    ]

pub All-counted : (P : ℕ → Type 0) (xs : List ℕ) → ((j : ℕ) → 0 < count j xs → P j) → All P xs
All-counted P [] h = tt
All-counted P (x ∷ xs) h = (h x (ground arith), All-counted P xs (λ j k. h j (omega (arith, k))))
