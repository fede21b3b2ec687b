-- ===== src/Epoll/Sharing/Steps.antt =====
-- What accept, an event and the start of a turn do to who owns a connection.
use epoll_http_server.Prelude.{
  ℕ, ◌+◌, ◌<◌, ◌≡◌, ◌∙◌, subst, true, false, inl, inr, [], ◌∷◌, ◌++◌, none, some, arith, ◌==◌,
  ==_iff, if◌then◌else◌, length, length-set, Bool-cases,
}
use epoll_http_server.Connection.{Connection}
use epoll_http_server.Epoll.Table.{entry, max_events, new_connection}
use epoll_http_server.Epoll.Table.Entries.{entry-set, entry-lt}
use epoll_http_server.Epoll.Worker.{put, taken_up}
use epoll_http_server.Epoll.Sharing.{Shared, joined, update, count, remove_one}
use epoll_http_server.Epoll.Sharing.Places.{
  Fine, accept-Fine, event-Fine, start-Fine, ==_refl, count_back, count_front, count_removed,
}

-- The tasks for a descriptor, with what is released and not armed again.
abbrev pub pending : Shared → ℕ → ℕ
pending s j = count j s.queued + count j s.leaving

-- The entries by descriptor, and how often each is armed, pending and held.
pub record Owned (s : Shared) : Type 0 where
  pub size : length s.handler.connections ≡ max_events
  pub fine :
      (j : ℕ) → Fine (s.armed j) (pending s j) (count j s.held) (entry s.handler.connections j)

abbrev pub View : Shared → ℕ → Type 0
View s j = Fine (s.armed j) (pending s j) (count j s.held) (entry s.handler.connections j)

-- What a step does at its own descriptor and at every other.
pub pointwise :
    (F : ℕ → Type 0) (fd : ℕ) → F fd → ((j : ℕ) → (fd == j) ≡ false → F j) → (j : ℕ) → F j
pointwise F fd here there j = elim (Bool-cases (fd == j)) [
  | inl same ↦ subst F ((==_iff fd j).0 same) here
  | inr other ↦ there j other
]

pub accept-Owned :
    (s : Shared) (fd now : ℕ)
    → fd < max_events
    → entry s.handler.connections fd ≡ none
    → Owned s
    → Owned (record s { handler = joined s.handler fd now; armed = update s.armed fd true })
accept-Owned s fd now below free o = record {
  size = length-set s.handler.connections fd _ ∙ o.size;
  fine =
      pointwise
        (View (record s { handler = joined s.handler fd now; armed = update s.armed fd true })) fd
        (rw
          (
            ==_refl fd,
            entry-set s.handler.connections fd fd (some (new_connection fd now)) inside,
            ==_refl fd,
          )
          (accept-Fine (s.armed fd) (pending s fd) (count fd s.held) fd now
            (rw free at (o.fine fd))))
        (λ j other.
          rw
            (
              other,
              entry-set s.handler.connections fd j (some (new_connection fd now)) inside,
              other,
            )
            (o.fine j));
}
  where
    inside : fd < length s.handler.connections
    inside = omega (arith, below, o.size)

pub event-Owned :
    (s : Shared) (fd : ℕ)
    → s.armed fd ≡ true
    → Owned s
    → Owned (record s { armed = update s.armed fd false; queued = s.queued ++ (fd ∷ []) })
event-Owned s fd on o = record {
  size = o.size;
  fine =
      pointwise
        (View (record s { armed = update s.armed fd false; queued = s.queued ++ (fd ∷ []) })) fd
        (rw (==_refl fd, count_back fd fd s.queued, ==_refl fd)
          (event-Fine (pending s fd) _ (count fd s.held) (entry s.handler.connections fd)
            (omega arith) (rw on at (o.fine fd))))
        (λ j other. rw (other, count_back j fd s.queued, other) (o.fine j));
}

-- A task is taken from those that wait.
taken-Fine :
    (s : Shared) (fd j : ℕ)
    → 0 < count fd s.queued
    → Owned s
    → Fine
        (s.armed j)
        ((if fd == j
            then count j (remove_one fd s.queued) + 1
            else count j (remove_one fd s.queued))
          + count j s.leaving)
        (count j s.held)
        (entry s.handler.connections j)
taken-Fine s fd j p o =
    subst (λ (q : ℕ). Fine (s.armed j) q (count j s.held) (entry s.handler.connections j))
      (ground (arith, p, count_removed j fd s.queued p, (==_iff fd j).0)) (o.fine j)

pub start-Owned :
    (s : Shared) (fd : ℕ) (conn : Connection) (arrival : ℕ)
    → 0 < count fd s.queued
    → entry s.handler.connections fd ≡ some conn
    → Owned s
    → Owned (record s {
      handler = put s.handler fd (taken_up conn arrival);
      queued = remove_one fd s.queued;
      held = fd ∷ s.held;
    })
start-Owned s fd conn arrival p found o = record {
  size = length-set s.handler.connections fd _ ∙ o.size;
  fine =
      pointwise
        (View (record s {
          handler = put s.handler fd (taken_up conn arrival);
          queued = remove_one fd s.queued;
          held = fd ∷ s.held;
        }))
        fd
        (rw
          (
            count_front fd fd s.held,
            ==_refl fd,
            entry-set s.handler.connections fd fd (some (taken_up conn arrival)) inside,
            ==_refl fd,
          )
          (start-Fine (s.armed fd) (count fd (remove_one fd s.queued) + count fd s.leaving) _
            (count fd s.held) arrival conn (omega arith)
            (rw (==_refl fd, found) at (taken-Fine s fd fd p o))))
        (λ j other.
          rw
            (
              count_front j fd s.held,
              other,
              entry-set s.handler.connections fd j (some (taken_up conn arrival)) inside,
              other,
            )
            (rw other at (taken-Fine s fd j p o)));
}
  where
    inside : fd < length s.handler.connections
    inside = entry-lt s.handler.connections fd found

pub miss-Owned :
    (s : Shared) (fd : ℕ)
    → 0 < count fd s.queued
    → entry s.handler.connections fd ≡ none
    → Owned s
    → Owned (record s { queued = remove_one fd s.queued })
miss-Owned s fd p gone o = record {
  size = o.size;
  fine =
      pointwise (View (record s { queued = remove_one fd s.queued })) fd
        (absurd (omega (arith, (rw (==_refl fd, gone) at (taken-Fine s fd fd p o)).1)))
        (λ j other. rw other at (taken-Fine s fd j p o));
}
