-- ===== src/Epoll/Sharing/Ownership.antt =====
-- As long as no client is closed while its task waits: each connection is armed, queued, or held by
-- one worker, and never two of these.
use epoll_http_server.Prelude.{
  ℕ, ◌<◌, ◌≡◌, refl, ◌∙◌, true, false, ◌&&◌, ◌∷◌, ◌++◌, Option, none, some, arith, All, length,
  length-set, length-replicate,
}
use epoll_http_server.Connection.{Connection}
use epoll_http_server.Epoll.Table.{
  entry, max_events, epoll_handler_close, epoll_handler_check_timeout,
}
use epoll_http_server.Epoll.Table.Entries.{expire, entry-set, entry-lt, entry-epoll_handler_close}
use epoll_http_server.Epoll.Worker.{put, rearm}
use epoll_http_server.Epoll.Sharing.{
  Shared, turn_away, update, count, remove_one, occupied, idle, Step, accept, event, refuse, start,
  miss, keep, finish, release, arm_again, check, Reaches, begin, after,
}
use epoll_http_server.Epoll.Sharing.Places.{
  refuse-Fine, keep-Fine, finish-Fine, release-Fine, arm-Fine, check-Fine, All-count, ==_refl,
  count_removed, count_front, count-append,
}
use epoll_http_server.Epoll.Sharing.Sizes.{length-close, length-check, entry-check, entry_idle}
use epoll_http_server.Epoll.Sharing.Steps.{
  Owned, View, pending, pointwise, accept-Owned, event-Owned, start-Owned, miss-Owned,
}

keep-Owned :
    (s : Shared) (fd : ℕ) (old conn : Connection)
    → 0 < count fd s.held
    → entry s.handler.connections fd ≡ some old
    → Owned s
    → Owned (record s {
      handler = rearm (put s.handler fd (record conn { in_use = false })) fd;
      armed = update s.armed fd true;
      held = remove_one fd s.held;
    })
keep-Owned s fd old conn p found o = record {
  size = length-set s.handler.connections fd _ ∙ o.size;
  fine =
      pointwise
        (View (record s {
          handler = rearm (put s.handler fd (record conn { in_use = false })) fd;
          armed = update s.armed fd true;
          held = remove_one fd s.held;
        }))
        fd
        (rw
          (
            ==_refl fd,
            count_removed fd fd s.held p,
            ==_refl fd,
            entry-set s.handler.connections fd fd (some (record conn { in_use = false })) inside,
            ==_refl fd,
          )
          (keep-Fine (s.armed fd) (pending s fd) (count fd s.held) old conn p
            (rw found at (o.fine fd))))
        (λ j other.
          rw
            (
              other,
              count_removed j fd s.held p,
              other,
              entry-set s.handler.connections fd j (some (record conn { in_use = false })) inside,
              other,
            )
            (o.fine j));
}
  where
    inside : fd < length s.handler.connections
    inside = entry-lt s.handler.connections fd found

finish-Owned :
    (s : Shared) (fd : ℕ)
    → 0 < count fd s.held
    → Owned s
    → Owned (record s {
      handler = epoll_handler_close s.handler fd;
      armed = update s.armed fd false;
      held = remove_one fd s.held;
    })
finish-Owned s fd p o = record {
  size = length-close s.handler fd ∙ o.size;
  fine =
      pointwise
        (View (record s {
          handler = epoll_handler_close s.handler fd;
          armed = update s.armed fd false;
          held = remove_one fd s.held;
        }))
        fd
        (rw
          (
            ==_refl fd,
            count_removed fd fd s.held p,
            ==_refl fd,
            entry-epoll_handler_close s.handler fd fd,
            ==_refl fd,
          )
          (finish-Fine (s.armed fd) (pending s fd) (count fd s.held)
            (entry s.handler.connections fd) p (o.fine fd)))
        (λ j other.
          rw
            (
              other,
              count_removed j fd s.held p,
              other,
              entry-epoll_handler_close s.handler fd j,
              other,
            )
            (o.fine j));
}

release-Owned :
    (s : Shared) (fd : ℕ) (old conn : Connection)
    → 0 < count fd s.held
    → entry s.handler.connections fd ≡ some old
    → Owned s
    → Owned (record s {
      handler = put s.handler fd (record conn { in_use = false });
      held = remove_one fd s.held;
      leaving = fd ∷ s.leaving;
    })
release-Owned s fd old conn p found o = record {
  size = length-set s.handler.connections fd _ ∙ o.size;
  fine =
      pointwise
        (View (record s {
          handler = put s.handler fd (record conn { in_use = false });
          held = remove_one fd s.held;
          leaving = fd ∷ s.leaving;
        }))
        fd
        (rw
          (
            count_front fd fd s.leaving,
            ==_refl fd,
            count_removed fd fd s.held p,
            ==_refl fd,
            entry-set s.handler.connections fd fd (some (record conn { in_use = false })) inside,
            ==_refl fd,
          )
          (release-Fine (s.armed fd) (pending s fd) _ (count fd s.held) old conn p (omega arith)
            (rw found at (o.fine fd))))
        (λ j other.
          rw
            (
              count_front j fd s.leaving,
              other,
              count_removed j fd s.held p,
              other,
              entry-set s.handler.connections fd j (some (record conn { in_use = false })) inside,
              other,
            )
            (o.fine j));
}
  where
    inside : fd < length s.handler.connections
    inside = entry-lt s.handler.connections fd found

arm_again-Owned :
    (s : Shared) (fd : ℕ)
    → 0 < count fd s.leaving
    → Owned s
    → Owned (record s {
      handler = rearm s.handler fd;
      armed = update s.armed fd (occupied (entry s.handler.connections fd));
      leaving = remove_one fd s.leaving;
    })
arm_again-Owned s fd p o = record {
  size = o.size;
  fine =
      pointwise
        (View (record s {
          handler = rearm s.handler fd;
          armed = update s.armed fd (occupied (entry s.handler.connections fd));
          leaving = remove_one fd s.leaving;
        }))
        fd
        (rw (==_refl fd, count_removed fd fd s.leaving p, ==_refl fd)
          (arm-Fine (s.armed fd) (pending s fd) _ (count fd s.held) (entry s.handler.connections fd)
            (omega arith) (o.fine fd)))
        (λ j other. rw (other, count_removed j fd s.leaving p, other) (o.fine j));
}

refuse-Owned :
    (s : Shared) (fd : ℕ)
    → s.armed fd ≡ true
    → Owned s
    → Owned
        (record s { handler = epoll_handler_close s.handler fd; armed = update s.armed fd false })
refuse-Owned s fd on o = record {
  size = length-close s.handler fd ∙ o.size;
  fine =
      pointwise
        (View (record s {
          handler = epoll_handler_close s.handler fd;
          armed = update s.armed fd false;
        }))
        fd
        (rw (==_refl fd, entry-epoll_handler_close s.handler fd fd, ==_refl fd)
          (refuse-Fine (pending s fd) (count fd s.held) (entry s.handler.connections fd)
            (rw on at (o.fine fd))))
        (λ j other. rw (other, entry-epoll_handler_close s.handler fd j, other) (o.fine j));
}

check-Owned :
    (s : Shared) (now : ℕ)
    → All
        (λ fd. expire now (entry s.handler.connections fd) ≡ entry s.handler.connections fd)
        (s.queued ++ s.leaving)
    → Owned s
    → Owned (record s {
      handler = epoll_handler_check_timeout now s.handler;
      armed = λ fd. s.armed fd && occupied (expire now (entry s.handler.connections fd));
    })
check-Owned s now timely o = record {
  size = length-check now s.handler ∙ o.size;
  fine = λ j. rw (entry-check now s.handler j o.size) (
      check-Fine (s.armed j) (pending s j) (count j s.held) now (entry s.handler.connections j)
        (λ q.
          All-count
            (λ fd. expire now (entry s.handler.connections fd) ≡ entry s.handler.connections fd) j
            (s.queued ++ s.leaving) timely (omega (arith, q, count-append j s.queued s.leaving)))
        (o.fine j));
}

idle-Owned : Owned idle
idle-Owned = record {
  size = length-replicate {A = Option Connection} max_events none;
  fine = λ j. rw (entry_idle max_events j) (refl, refl, refl);
}

Step-Owned : {s t : Shared} → Step false s t → Owned s → Owned t
Step-Owned (accept {s = s} fd now below free) o = accept-Owned s fd now below free o
Step-Owned (event {s = s} fd on) o = event-Owned s fd on o
Step-Owned (turn_away {s = s} fd left free away) o = record {
  size = away.size ∙ o.size;
  fine = λ j. rw (away.same j) (o.fine j);
}
Step-Owned (refuse {s = s} fd on) o = refuse-Owned s fd on o
Step-Owned (start {s = s} {conn = conn} fd arrival e found) o =
    start-Owned s fd conn arrival e found o
Step-Owned (miss {s = s} fd e gone) o = miss-Owned s fd e gone o
Step-Owned (keep {s = s} {old = old} fd conn p found) o = keep-Owned s fd old conn p found o
Step-Owned (finish {s = s} fd p) o = finish-Owned s fd p o
Step-Owned (release {s = s} {old = old} fd conn p found) o = release-Owned s fd old conn p found o
Step-Owned (arm_again {s = s} fd p) o = arm_again-Owned s fd p o
Step-Owned (check {s = s} now timely) o = check-Owned s now (timely refl) o

-- However accept, dispatch, the steps of the workers and the check are interleaved, as long as no check
-- closes a client whose task waits, or one that a worker with an incomplete request has released and not
-- armed again: a descriptor with a connection is armed, or has one task that has not come to the table
-- yet, or is held by one worker, or is released by one worker that is about to arm it, and only one of
-- these; one without is none of these; and a connection is marked in use exactly if a worker holds it.
-- So no two workers share a connection, and none is freed that is held.
pub Reaches-Owned : {s : Shared} → Reaches false s → Owned s
Reaches-Owned begin = idle-Owned
Reaches-Owned (after r step) = Step-Owned step (Reaches-Owned r)
