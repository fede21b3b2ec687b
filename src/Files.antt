-- ===== src/Files.antt =====
-- The calls of the operating system on files, as the handlers see them: a parameter of the model.
pub mod Balance
use epoll_http_server.Prelude.{
  ℕ, ◌≤◌, ◌<◌, ◌^◌, ◌≡◌, Option, none, some, List, [], ◌∷◌, ◌++◌, Bytes, length, ◌==◌,
  if◌then◌else◌,
}

-- `open` gives a descriptor, `lseek` to the end a size, `read` the bytes read; `none` stands for the
-- result -1. A handler makes each call at most once for a path or a descriptor.
pub record Files : Type 0 where
  pub open_file : Bytes → Option ℕ
  pub size_of : ℕ → Option ℕ
  pub read_file : ℕ → ℕ → Option Bytes
  pub read_at_most : (fd n : ℕ) (bytes : Bytes) → read_file fd n ≡ some bytes → length bytes ≤ n
  -- An `off_t` has 64 bits.
  pub size_is_long : (fd n : ℕ) → size_of fd ≡ some n → n < 2 ^ 63

-- What a handler does with descriptors, in order.
pub data Event : Type 0 where
  opened closed : ℕ → Event

-- The descriptors that are open after the events, of those that they name; `none` where a descriptor is
-- closed that is not the last of the open ones to have been opened.
abbrev pub still_open : List Event → List ℕ → Option (List ℕ)
still_open [] fds = some fds
still_open (opened fd ∷ es) fds = still_open es (fd ∷ fds)
still_open (closed fd ∷ es) [] = none
still_open (closed fd ∷ es) (top ∷ fds) =
    let rest = still_open es fds in if top == fd then rest else none
