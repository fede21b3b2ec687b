-- ===== src/Request/Same.antt =====
-- The handlers of a request against `http_send_file` and `http_send_head`, which do the same work.
use epoll_http_server.Prelude.{
  ℕ, ◌≡◌, refl, ap, inl, inr, Option, List, none, some, [], ◌∷◌, Bytes, ltb, Bool-cases,
}
use epoll_http_server.CString.{cstr}
use epoll_http_server.CString.Decimal.{decimal}
use epoll_http_server.Connection.{Connection}
use epoll_http_server.Files.{Files, Event, opened}
use epoll_http_server.Mime.{mime_get_type}
use epoll_http_server.Response.{
  get_status_description, build_response_header, max_file_size, status_line, http_send_file,
  http_send_head,
}
use epoll_http_server.Request.{ok_line, get_file_size, locate, locate_index, serve_get, serve_head}

ok_line-status_line : status_line 200 ≡ ok_line
unfolding get_status_description decimal
ok_line-status_line = refl

-- For a file that can be opened and has a size, the handlers leave what `http_send_file` and
-- `http_send_head` leave for it with its type: the same connection, to the last cell of its buffer, the
-- same result, and the same calls on descriptors.
pub serve-Same :
    (files : Files) (conn : Connection) (file_path : Bytes) (fd size : ℕ)
    → files.open_file (cstr file_path) ≡ some fd
    → files.size_of fd ≡ some size
    → (serve_get files conn (locate files file_path)
        ≡ http_send_file files conn (cstr file_path) (mime_get_type file_path))
      × (serve_head files conn (locate files file_path)
          ≡ http_send_head files conn (cstr file_path) (mime_get_type file_path))
unfolding serve_get serve_head locate get_file_size http_send_file http_send_head
    build_response_header
serve-Same files conn file_path fd size e f =
    let sized : get_file_size files file_path ≡ (some (fd, size), opened fd ∷ []) =
      rw (get_file_size, e) (rw f refl) in
    let found : locate files file_path ≡ (some (file_path, fd, size), opened fd ∷ []) =
      ap
        (λ (r : Option (ℕ × ℕ) × List Event).
          elim r.0 as (λ _. Option (Bytes × ℕ × ℕ) × List Event) [
            | none ↦ locate_index files file_path r.1
            | some (fd, size) ↦ (some (file_path, fd, size), r.1)
          ])
        sized in
    (
      rw (found, serve_get, http_send_file, e, f)
          (elim (Bool-cases (ltb max_file_size size)) [
            | inl large ↦ rw large
            | inr small ↦ rw (small, ok_line-status_line)
          ]),
      rw (found, serve_head, http_send_head, e, f, ok_line-status_line) refl,
    )
