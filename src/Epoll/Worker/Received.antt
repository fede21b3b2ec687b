-- ===== src/Epoll/Worker/Received.antt =====
-- The loop over `read` keeps a well formed connection so.
use epoll_http_server.Prelude.{ℕ, ◌≡◌, Bool, true, List, [], ◌∷◌, length, take, Bytes}
use epoll_http_server.Connection.{Connection, write_size}
use epoll_http_server.Epoll.Invariant.{IsConnection}
use epoll_http_server.Epoll.Worker.{
  ReadAnswer, again, failed, bytes, space_left, store_read, read_loop, taken_up,
}
use epoll_http_server.Epoll.Worker.Reads.{Buffered, read_loop_text}

pub store_all_fields :
    (P : Connection → Type 0)
    → ((conn : Connection) (got : Bytes) → P conn → P (store_read conn got))
    → (answers : List ReadAnswer) (conn : Connection) → P conn
    → P (read_loop conn answers).0
unfolding read_loop
store_all_fields P step [] conn h = h
store_all_fields P step (again ∷ rest) conn h = h
store_all_fields P step (failed ∷ rest) conn h = h
store_all_fields P step (bytes text ∷ rest) conn h =
    go (take (space_left conn) text)
      (λ got. store_all_fields P step rest (store_read conn got) (step conn got h))
  where
    go :
        (got : Bytes)
        → ((got : Bytes) → P (read_loop (store_read conn got) rest).0)
        → P
            (elim got as (λ _. Connection × Bool) [
              | [] ↦ (conn, true)
              | c ∷ got ↦ read_loop (store_read conn (c ∷ got)) rest
            ]).0
    go [] later = h
    go (c ∷ got) later = later (c ∷ got)

pub store_read-fields :
    (fd : ℕ) (conn : Connection) (answers : List ReadAnswer)
    → conn.fd ≡ fd
    → length conn.write_buf ≡ write_size
    → ((read_loop conn answers).0.fd ≡ fd)
      × (length (read_loop conn answers).0.write_buf ≡ write_size)
unfolding store_read
store_read-fields fd conn answers same cells =
    store_all_fields (λ c. (c.fd ≡ fd) × (length c.write_buf ≡ write_size)) (λ c got h. h) answers
      conn (same, cells)

pub taken_up-Buffered :
    (conn : Connection) (arrival : ℕ) (text : Bytes)
    → Buffered text conn
    → Buffered text (taken_up conn arrival)
taken_up-Buffered conn arrival text b = record {
  behind = b.behind;
  cells = b.cells;
  position = b.position;
  size = b.size;
}

pub read-IsConnection :
    (fd : ℕ) (conn : Connection) (arrival : ℕ) (answers : List ReadAnswer)
    → IsConnection fd conn
    → IsConnection fd (read_loop (taken_up conn arrival) answers).0
read-IsConnection fd conn arrival answers good =
    let (same, cells) =
      store_read-fields fd (taken_up conn arrival) answers good.same_fd good.cells in
    record {
      text = _;
      buffered =
          read_loop_text answers good.text (taken_up conn arrival)
            (taken_up-Buffered conn arrival good.text good.buffered);
      cells = cells;
      same_fd = same;
    }
