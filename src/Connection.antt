-- ===== src/Connection.antt =====
-- `client_connection_t` of include/server.h.
use epoll_http_server.Prelude.{ℕ, Bool, Bytes}

-- `BUFFER_SIZE`
abbrev pub buffer_size : ℕ
buffer_size = 4096

-- The size of `write_buf`.
abbrev pub write_size : ℕ
write_size = 16384

-- The buffers are their cells; a time is in seconds.
pub record Connection : Type 0 where
  pub in_use : Bool
  pub fd : ℕ
  pub read_buf : Bytes
  pub read_pos : ℕ
  pub write_buf : Bytes
  pub write_pos : ℕ
  pub write_len : ℕ
  pub last_active : ℕ
  pub keep_alive : Bool
