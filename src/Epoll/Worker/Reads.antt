-- ===== src/Epoll/Worker/Reads.antt =====
-- The loop over `read`: what stands in the buffer behind it.
use Prim.Native.Nat.add
use epoll_http_server.Prelude.{
  ℕ, zero, suc, ◌+◌, ◌-◌, ◌≤◌, ◌<◌, ◌≡◌, ◌⊎◌, refl, sym, ap, subst, ◌∙◌, inl, inr, List, [], ◌∷◌,
  ◌++◌, append-nil, append_assoc, arith, Bytes, length, length-append, length-set, length-take, set,
  take, drop, take_nil,
}
use epoll_http_server.CString.{memcpy, memcpy_at}
use epoll_http_server.CString.Copy.{length-memcpy_at}
use epoll_http_server.Connection.{Connection, buffer_size}
use epoll_http_server.Epoll.Worker.{
  ReadAnswer, again, failed, bytes, space_left, store_read, read_loop,
}

-- The buffer holds `text` with a NUL behind it.
pub record Buffered (text : Bytes) (conn : Connection) : Type 0 where
  pub behind : Bytes
  pub cells : conn.read_buf ≡ text ++ (0 ∷ behind)
  pub position : conn.read_pos ≡ length text
  pub size : length conn.read_buf ≡ buffer_size

set-memcpy :
    (cells got : Bytes)
    → length got < length cells
    → set (memcpy cells got (length got)) (length got) 0
      ≡ got ++ (0 ∷ drop (suc (length got)) cells)
unfolding memcpy
set-memcpy [] got h = absurd (omega arith)
set-memcpy (c ∷ cells) [] h = refl
set-memcpy (c ∷ cells) (g ∷ got) h = ap (◌∷◌ g) (set-memcpy cells got (omega arith))

set-memcpy_at :
    (text cells got : Bytes)
    → length got < length cells
    → set (memcpy_at (text ++ cells) (length text) got (length got)) (length text + length got) 0
      ≡ text ++ (got ++ (0 ∷ drop (suc (length got)) cells))
unfolding memcpy_at
set-memcpy_at [] cells got h = rw add.zero (set-memcpy cells got h)
set-memcpy_at (t ∷ text) cells got h = rw add.suc (ap (◌∷◌ t) (set-memcpy_at text cells got h))

pub store_read-Buffered :
    (text got : Bytes) (conn : Connection)
    → Buffered text conn
    → length got ≤ space_left conn
    → Buffered (text ++ got) (store_read conn got)
unfolding store_read
store_read-Buffered text got conn b fits = record {
  behind = drop (suc (length got)) (0 ∷ b.behind);
  cells =
      ap₃ b.cells b.position
      ∙ set-memcpy_at text (0 ∷ b.behind) got
          (omega (arith, ap length b.cells, length-append text (0 ∷ b.behind), b.size, b.position))
      ∙ sym (append_assoc text got _);
  position = omega (arith, length-append text got, b.position);
  size =
      length-set _ (conn.read_pos + length got) 0
      ∙ length-memcpy_at conn.read_buf conn.read_pos got _
      ∙ b.size;
}
  where
    ap₃ :
        {cells : Bytes} {n : ℕ}
        → conn.read_buf ≡ cells
        → conn.read_pos ≡ n
        → set
            (memcpy_at conn.read_buf conn.read_pos got (length got))
            (conn.read_pos + length got)
            0
          ≡ set (memcpy_at cells n got (length got)) (n + length got) 0
    ap₃ e f = λ i. set (memcpy_at (e i) (f i) got (length got)) (f i + length got) 0

-- What the socket delivers in a row of answers, up to the first that ends the loop.
abbrev pub stream : List ReadAnswer → Bytes
stream (bytes (c ∷ text) ∷ rest) = (c ∷ text) ++ stream rest
stream _ = []

take-append_split :
    (n : ℕ) (xs ys : Bytes) → take n (xs ++ ys) ≡ take n xs ++ take (n - length xs) ys
take-append_split zero xs ys = rw (zero_sub (length xs)) refl
  where
    zero_sub : (k : ℕ) → 0 - k ≡ 0
    zero_sub k = omega arith
take-append_split (suc n) [] ys = ap (λ k. take k ys) (sub_zero (suc n))
  where
    sub_zero : (k : ℕ) → k ≡ k - 0
    sub_zero k = omega arith
take-append_split (suc n) (x ∷ xs) ys =
    ap (◌∷◌ x) (take-append_split n xs ys ∙ ap (λ k. take n xs ++ take k ys) (omega arith))

step_stream :
    (room : ℕ) (xs ys : Bytes)
    → take room (xs ++ ys) ≡ take room xs ++ take (room - length (take room xs)) ys
step_stream room xs ys =
    take-append_split room xs ys
    ∙ ap (λ k. take room xs ++ take k ys) (omega (arith, length-take room xs))

no_more :
    (text : Bytes) (conn : Connection) (n : ℕ)
    → Buffered text conn
    → Buffered (text ++ take n []) conn
no_more text conn n b = rw (take_nil {A = ℕ} n, append-nil text) b

pub Room-cases : (n : ℕ) → (n ≡ 0) ⊎ ((m : ℕ) × (n ≡ suc m))
Room-cases zero = inl refl
Room-cases (suc n) = inr (n, refl)

-- Behind the loop the buffer holds what it held and then the bytes that arrived, in their order and
-- up to the 4095 that fit, with a NUL behind them.
pub read_loop_text :
    (answers : List ReadAnswer) (text : Bytes) (conn : Connection)
    → Buffered text conn
    → Buffered (text ++ take (4095 - length text) (stream answers)) (read_loop conn answers).0
unfolding read_loop
read_loop_text [] text conn b = no_more text conn _ b
read_loop_text (again ∷ rest) text conn b = no_more text conn _ b
read_loop_text (failed ∷ rest) text conn b = no_more text conn _ b
read_loop_text (bytes [] ∷ rest) text conn b =
    rw (read_loop, take_nil {A = ℕ} (space_left conn)) (no_more text conn _ b)
read_loop_text (bytes (c ∷ more) ∷ rest) text conn b = elim (Room-cases (4095 - length text)) [
  | inl z ↦ rw (read_loop, room ∙ z, z, append-nil text) b
  | inr (m, e) ↦
      rw (read_loop, room ∙ e, e)
        (subst (λ t. Buffered t (read_loop (store_read conn (c ∷ take m more)) rest).0)
          (append_assoc text (c ∷ take m more) _
            ∙ ap (◌++◌ text) (
                ap (λ k. (c ∷ take m more) ++ take k (stream rest))
                  (omega (arith, e, length-append text (c ∷ take m more)))
                ∙ sym (step_stream (suc m) (c ∷ more) (stream rest))))
          (read_loop_text rest (text ++ (c ∷ take m more)) (store_read conn (c ∷ take m more)) (
            store_read-Buffered text (c ∷ take m more) conn b
              (omega (arith, room, e, length-take m more)))))
]
  where
    room : space_left conn ≡ 4095 - length text
    room = omega (arith, b.position)
