-- ===== src/Epoll/Worker/Arrivals.antt =====
-- The loop over `read` where all that arrives fits: it goes on to the answer.
use epoll_http_server.Prelude.{
  ℕ, zero, suc, ◌+◌, ◌-◌, ◌<◌, ◌≡◌, ◌∙◌, false, inl, inr, List, [], ◌∷◌, ◌++◌, arith, Bytes, length,
  length-append, length-take, set, take, take_nil, All-take,
}
use epoll_http_server.CString.{memcpy, memcpy_at}
use epoll_http_server.Connection.{Connection}
use epoll_http_server.Epoll.Complete.Ascii.{IsAscii}
use epoll_http_server.Epoll.Worker.{
  ReadAnswer, again, failed, bytes, space_left, store_read, read_loop,
}
use epoll_http_server.Epoll.Worker.Reads.{Buffered, store_read-Buffered, stream, Room-cases}

-- Neither an error nor the end of the stream.
abbrev pub Arrives : List ReadAnswer → Type 0
Arrives [] = Unit
Arrives (again ∷ rest) = Unit
Arrives (failed ∷ rest) = ⊥
Arrives (bytes [] ∷ rest) = ⊥
Arrives (bytes (c ∷ text) ∷ rest) = Arrives rest

-- With a byte to spare behind what arrives, the loop does not ask for the connection to be closed.
pub read_loop_open :
    (answers : List ReadAnswer) (text : Bytes) (conn : Connection)
    → Buffered text conn
    → length text + length (stream answers) < 4095
    → Arrives answers
    → (read_loop conn answers).1 ≡ false
unfolding read_loop
read_loop_open [] text conn b fits on = ground (arith, b.position)
read_loop_open (again ∷ rest) text conn b fits on = ground (arith, b.position)
read_loop_open (failed ∷ rest) text conn b fits on = absurd on
read_loop_open (bytes [] ∷ rest) text conn b fits on = absurd on
read_loop_open (bytes (c ∷ more) ∷ rest) text conn b fits on =
    elim (Room-cases (4095 - length text)) [
      | inl z ↦ absurd (omega arith)
      | inr (m, e) ↦
          rw (read_loop, room ∙ e)
            (read_loop_open rest (text ++ (c ∷ take m more)) (store_read conn (c ∷ take m more))
              (store_read-Buffered text (c ∷ take m more) conn b
                (omega (arith, room, e, length-take m more)))
              (omega (
                arith,
                length-append text (c ∷ take m more),
                length-take m more,
                length-append (c ∷ more) (stream rest),
              ))
              on)
    ]
  where
    room : space_left conn ≡ 4095 - length text
    room = omega (arith, b.position)

IsAscii-set : (cells : Bytes) (i v : ℕ) → IsAscii cells → v < 128 → IsAscii (set cells i v)
IsAscii-set [] i v a h = tt
IsAscii-set (c ∷ cells) zero v a h = (h, a.1)
IsAscii-set (c ∷ cells) (suc i) v a h = (a.0, IsAscii-set cells i v a.1 h)

IsAscii-memcpy :
    (cells src : Bytes) (n : ℕ) → IsAscii cells → IsAscii src → IsAscii (memcpy cells src n)
unfolding memcpy
IsAscii-memcpy cells src zero a s = a
IsAscii-memcpy [] src (suc n) a s = tt
IsAscii-memcpy (d ∷ cells) [] (suc n) a s = a
IsAscii-memcpy (d ∷ cells) (c ∷ src) (suc n) a s = (s.0, IsAscii-memcpy cells src n a.1 s.1)

IsAscii-memcpy_at :
    (cells : Bytes) (i : ℕ) (src : Bytes) (n : ℕ)
    → IsAscii cells
    → IsAscii src
    → IsAscii (memcpy_at cells i src n)
unfolding memcpy_at
IsAscii-memcpy_at cells zero src n a s = IsAscii-memcpy cells src n a s
IsAscii-memcpy_at [] (suc i) src n a s = tt
IsAscii-memcpy_at (d ∷ cells) (suc i) src n a s = (a.0, IsAscii-memcpy_at cells i src n a.1 s)

pub IsAscii-front : (xs ys : Bytes) → IsAscii (xs ++ ys) → IsAscii xs × IsAscii ys
IsAscii-front [] ys a = (tt, a)
IsAscii-front (x ∷ xs) ys a = let (front, back) = IsAscii-front xs ys a.1 in ((a.0, front), back)

store_read-IsAscii :
    (conn : Connection) (got : Bytes)
    → IsAscii conn.read_buf
    → IsAscii got
    → IsAscii (store_read conn got).read_buf
unfolding store_read
store_read-IsAscii conn got a g =
    IsAscii-set (memcpy_at conn.read_buf conn.read_pos got (length got))
      (conn.read_pos + length got) 0
      (IsAscii-memcpy_at conn.read_buf conn.read_pos got (length got) a g) (omega arith)

-- ASCII bytes leave an ASCII buffer.
pub read_loop-IsAscii :
    (answers : List ReadAnswer) (conn : Connection)
    → IsAscii conn.read_buf
    → IsAscii (stream answers)
    → IsAscii (read_loop conn answers).0.read_buf
unfolding read_loop
read_loop-IsAscii [] conn a s = a
read_loop-IsAscii (again ∷ rest) conn a s = a
read_loop-IsAscii (failed ∷ rest) conn a s = a
read_loop-IsAscii (bytes [] ∷ rest) conn a s = rw (read_loop, take_nil {A = ℕ} (space_left conn)) a
read_loop-IsAscii (bytes (c ∷ more) ∷ rest) conn a s = elim (Room-cases (space_left conn)) [
  | inl z ↦ rw (read_loop, z) a
  | inr (m, e) ↦
      let (here, later) = IsAscii-front (c ∷ more) (stream rest) s in
      rw (read_loop, e)
        (read_loop-IsAscii rest (store_read conn (c ∷ take m more))
          (store_read-IsAscii conn (c ∷ take m more) a
            (here.0, All-take (λ c. c < 128) m more here.1))
          later)
]
