-- ===== src/ThreadPool/Threads/Held.antt =====
-- What a pool holds: all of its resources behind a create that succeeds, and none behind one that
-- fails.
use epoll_http_server.Prelude.{
  ℕ, zero, suc, ◌+◌, ◌≡◌, refl, ap, ◌∙◌, Bool, true, false, ◌&&◌, inl, inr, List, [], ◌∷◌, Option,
  none, some, arith, ltb, leb, ◌==◌, if◌then◌else◌, Bool-cases,
}
use epoll_http_server.Prelude.Int.{ℤ, pos, pos_part, ltb_ℤ}
use epoll_http_server.ThreadPool.{Pool, new_pool}
use epoll_http_server.ThreadPool.Threads.{
  Resource, memory, lock, notify, threads, thread, Use, acquire, release, Answers, join_threads,
  create_threads, thread_pool_create,
}

abbrev pub same : Resource → Resource → Bool
same memory memory = true
same lock lock = true
same notify notify = true
same threads threads = true
same (thread i) (thread j) = i == j
same _ _ = false

-- Whether a resource is held behind a log: what was done with it last counts.
abbrev pub holds : Resource → List Use → Bool
holds r [] = false
holds r (acquire q ∷ log) = if same q r then true else holds r log
holds r (release q ∷ log) = if same q r then false else holds r log

-- What a pool of `n` threads has.
abbrev pub owns : ℕ → Resource → Bool
owns n (thread i) = ltb i n
owns n _ = true

pub join_threads_thread :
    (n i j : ℕ) (log : List Use)
    → holds (thread j) (join_threads n i log)
      ≡ (if leb i j && ltb j (i + n) then false else holds (thread j) log)
unfolding join_threads
join_threads_thread zero i j log = ground arith
join_threads_thread (suc n) i j log =
    ground (arith, join_threads_thread n (i + 1) j (release (thread i) ∷ log))

-- The resources that are no threads.
abbrev IsOther : Resource → Type 0
IsOther r = (i : ℕ) → same (thread i) r ≡ false

join_threads_other :
    (n i : ℕ) (r : Resource) (log : List Use)
    → IsOther r
    → holds r (join_threads n i log) ≡ holds r log
unfolding join_threads
join_threads_other zero i r log h = refl
join_threads_other (suc n) i r log h =
    join_threads_other n (i + 1) r (release (thread i) ∷ log) h ∙ rw (h i)

-- Behind the threads before `i`, the loop leaves all threads or none.
create_threads_thread :
    (n i j : ℕ) (answers : ℕ → Bool) (log : List Use)
    → holds (thread j) log ≡ ltb j i
    → let (created, log') = create_threads n i answers log in
      holds (thread j) log' ≡ (if created then ltb j (i + n) else false)
unfolding create_threads
create_threads_thread zero i j answers log h = ground arith
create_threads_thread (suc n) i j answers log h = elim (Bool-cases (answers i)) [
  | inl works ↦
      let rest =
        create_threads_thread n (i + 1) j answers (acquire (thread i) ∷ log) (ground arith) in
      rw (works, create_threads)
        (rest
          ∙ ap
              (λ k.
                if (create_threads n (i + 1) answers (acquire (thread i) ∷ log)).0
                then ltb j k
                else false)
              (omega arith))
  | inr fails ↦ rw (fails, create_threads) (ground (arith, join_threads_thread i 0 j log))
]

-- The four resources behind which the threads are created.
abbrev IsBase : Resource → Type 0
IsBase r =
    (log : List Use)
    → holds r (release memory ∷ release lock ∷ release notify ∷ release threads ∷ log) ≡ false

create_threads_other :
    (n i : ℕ) (r : Resource) (answers : ℕ → Bool) (log : List Use)
    → IsOther r
    → IsBase r
    → let (created, log') = create_threads n i answers log in
      holds r log' ≡ (if created then holds r log else false)
unfolding create_threads
create_threads_other zero i r answers log h b = refl
create_threads_other (suc n) i r answers log h b = elim (Bool-cases (answers i)) [
  | inl works ↦
      rw (works, create_threads)
        (create_threads_other n (i + 1) r answers (acquire (thread i) ∷ log) h b ∙ rw (h i))
  | inr fails ↦ rw (fails, create_threads) (b (join_threads i 0 log))
]

-- What the outcome of a create owns.
abbrev pub owned : ℤ → Option Pool → Resource → Bool
owned count none r = false
owned count (some pool) r = owns (pos_part count) r

all_created :
    (n : ℕ) (answers : ℕ → Bool) (r : Resource)
    → let base = acquire threads ∷ acquire notify ∷ acquire lock ∷ acquire memory ∷ [] in
      let (created, log) = create_threads n 0 answers base in
      holds r log ≡ (if created then owns n r else false)
all_created n answers memory = create_threads_other n 0 memory answers _ (λ i. refl) (λ log. refl)
all_created n answers lock = create_threads_other n 0 lock answers _ (λ i. refl) (λ log. refl)
all_created n answers notify = create_threads_other n 0 notify answers _ (λ i. refl) (λ log. refl)
all_created n answers threads = create_threads_other n 0 threads answers _ (λ i. refl) (λ log. refl)
all_created n answers (thread j) =
    create_threads_thread n 0 j answers _ (ground arith)
    ∙ ap
        (λ k.
          if (create_threads n 0 answers
            (acquire threads ∷ acquire notify ∷ acquire lock ∷ acquire memory ∷ [])).0
          then ltb j k
          else false)
        (omega arith)

undone_memory : (r : Resource) → holds r (release memory ∷ acquire memory ∷ []) ≡ false
undone_memory memory = refl
undone_memory lock = refl
undone_memory notify = refl
undone_memory threads = refl
undone_memory (thread i) = refl

undone_lock :
    (r : Resource)
    → holds r (release memory ∷ release lock ∷ acquire lock ∷ acquire memory ∷ []) ≡ false
undone_lock memory = refl
undone_lock lock = refl
undone_lock notify = refl
undone_lock threads = refl
undone_lock (thread i) = refl

undone_notify :
    (r : Resource)
    → holds r (
        release memory
        ∷ release lock
        ∷ release notify
        ∷ acquire notify
        ∷ acquire lock
        ∷ acquire memory
        ∷ [])
      ≡ false
undone_notify memory = refl
undone_notify lock = refl
undone_notify notify = refl
undone_notify threads = refl
undone_notify (thread i) = refl

owned_if :
    (count : ℤ) (b : Bool) (r : Resource)
    → (if b then owns (pos_part count) r else false)
      ≡ owned count (if b then some new_pool else none) r
owned_if count true r = refl
owned_if count false r = refl

-- A create that succeeds holds the memory, the lock, the condition, the array, and as many threads as
-- were asked for. One that fails, wherever it fails, holds nothing: what was acquired is released, and
-- every thread that was started has been joined.
pub thread_pool_create-owned :
    (count : ℤ) (answers : Answers) (r : Resource)
    → let (pool, log) = thread_pool_create count answers in holds r log ≡ owned count pool r
unfolding thread_pool_create
thread_pool_create-owned count answers r = elim (Bool-cases (ltb_ℤ (pos 0) count)) [
  | inr none_asked ↦ rw (none_asked, thread_pool_create)
  | inl some_asked ↦ elim (Bool-cases answers.memory) [
    | inr bad ↦ simp (some_asked, bad, thread_pool_create)
    | inl m ↦ elim (Bool-cases answers.lock) [
      | inr bad ↦ simp (some_asked, m, bad, thread_pool_create) (undone_memory r)
      | inl l ↦ elim (Bool-cases answers.notify) [
        | inr bad ↦ simp (some_asked, m, l, bad, thread_pool_create) (undone_lock r)
        | inl c ↦ elim (Bool-cases answers.threads) [
          | inr bad ↦ simp (some_asked, m, l, c, bad, thread_pool_create) (undone_notify r)
          | inl t ↦
              simp (some_asked, m, l, c, t, thread_pool_create)
                (all_created (pos_part count) answers.thread r ∙ owned_if count _ r)
        ]
      ]
    ]
  ]
]
