-- ===== src/Request/Keeps.antt =====
-- What the handlers of a request leave of the connection: all but the write buffer.
use epoll_http_server.Prelude.{
  ℕ, ◌≡◌, refl, ◌&&◌, inl, inr, List, Option, none, some, ltb, Bytes, codes, Bool-cases,
  Option-cases, replicate, [], ◌++◌, ◌∷◌,
}
use epoll_http_server.CString.{strcmp_zero}
use epoll_http_server.Connection.{Connection}
use epoll_http_server.Files.{Files, Event, closed}
use epoll_http_server.Parser
use epoll_http_server.Response.{Sent, http_send_error, finish_file, max_file_size}
use epoll_http_server.Request.{
  Config, Stats, Readings, path_size, build_file_path, locate, serve_get, serve_head, handle_file,
  handle_get, handle_head, send_status, http_handle_request,
}

-- The descriptor, the read buffer and the mark for a connection that is kept are as they were.
pub record Keeps (before after : Connection) : Type 0 where
  pub fd : after.fd ≡ before.fd
  pub read_buf : after.read_buf ≡ before.read_buf
  pub read_pos : after.read_pos ≡ before.read_pos
  pub keep_alive : after.keep_alive ≡ before.keep_alive

pub http_send_error-Keeps :
    (conn : Connection) (status : ℕ) (message : Bytes)
    → Keeps conn (http_send_error conn status message)
unfolding http_send_error
http_send_error-Keeps conn status message = record {
  fd = refl;
  read_buf = refl;
  read_pos = refl;
  keep_alive = refl;
}

finish_file-Keeps :
    (conn : Connection) (head : Bytes) (n : ℕ) (events : List Event) (got : Option Bytes)
    → Keeps conn (finish_file conn head n events got).conn
unfolding finish_file http_send_error
finish_file-Keeps conn head n events none = record {
  fd = refl;
  read_buf = refl;
  read_pos = refl;
  keep_alive = refl;
}
finish_file-Keeps conn head n events (some bytes) = record {
  fd = refl;
  read_buf = refl;
  read_pos = refl;
  keep_alive = refl;
}

module _ (files : Files) where
  serve_get-Keeps :
      (conn : Connection) (found : Option (Bytes × ℕ × ℕ) × List Event)
      → Keeps conn (serve_get files conn found).conn
  unfolding serve_get
  serve_get-Keeps conn (none, events) = http_send_error-Keeps conn 404 (codes "Not Found")
  serve_get-Keeps conn (some (file_path, fd, size), events) =
      elim (Bool-cases (ltb max_file_size size)) [
        | inl large ↦
            rw (large, serve_get) (http_send_error-Keeps conn 413 (codes "Payload Too Large"))
        | inr small ↦
            rw (small, serve_get)
              (finish_file-Keeps conn _ _ (events ++ closed fd ∷ []) (files.read_file fd size))
      ]

  serve_head-Keeps :
      (conn : Connection) (found : Option (Bytes × ℕ × ℕ) × List Event)
      → Keeps conn (serve_head files conn found).conn
  unfolding serve_head
  serve_head-Keeps conn (none, events) = http_send_error-Keeps conn 404 (codes "Not Found")
  serve_head-Keeps conn (some (file_path, fd, size), events) = record {
    fd = refl;
    read_buf = refl;
    read_pos = refl;
    keep_alive = refl;
  }

  handle_file-Keeps :
      (serve : Connection → Option (Bytes × ℕ × ℕ) × List Event → Sent) (uri : Bytes)
      (conn : Connection) (config : Config)
      → ((found : Option (Bytes × ℕ × ℕ) × List Event) → Keeps conn (serve conn found).conn)
      → Keeps conn (handle_file files serve uri conn config).conn
  unfolding handle_file
  handle_file-Keeps serve uri conn config keeps =
      elim (Option-cases (build_file_path config.web_root uri (replicate path_size 0) path_size)) [
        | inl refused ↦
            rw (refused, handle_file) (http_send_error-Keeps conn 403 (codes "Forbidden"))
        | inr (file_path, e) ↦ rw (e, handle_file) (keeps (locate files file_path))
      ]

  pub http_handle_request-Keeps :
      (request : Parser.Request) (conn : Connection) (config : Config) (stats : Stats)
      (now : Readings)
      → Keeps conn (http_handle_request files request conn config stats now).0.conn
  unfolding http_handle_request handle_get handle_head send_status
  http_handle_request-Keeps request conn config stats now =
      elim (Bool-cases
        (strcmp_zero request.method (codes "GET") && strcmp_zero request.uri (codes "/status"))) [
          | inl status ↦
              rw (status, http_handle_request)
                (record { fd = refl; read_buf = refl; read_pos = refl; keep_alive = refl })
          | inr n₁ ↦ elim (Bool-cases (strcmp_zero request.method (codes "GET"))) [
            | inl get ↦
                rw (n₁, get, http_handle_request)
                  (handle_file-Keeps (serve_get files) request.uri conn config
                    (serve_get-Keeps conn))
            | inr n₂ ↦ elim (Bool-cases (strcmp_zero request.method (codes "HEAD"))) [
              | inl head ↦
                  rw (n₁, n₂, head, http_handle_request)
                    (handle_file-Keeps (serve_head files) request.uri conn config
                      (serve_head-Keeps conn))
              | inr n₃ ↦ elim (Bool-cases (strcmp_zero request.method (codes "POST"))) [
                | inl post ↦
                    rw (n₁, n₂, n₃, post, http_handle_request)
                      (http_send_error-Keeps conn 501 (codes "Not Implemented"))
                | inr n₄ ↦
                    rw (n₁, n₂, n₃, n₄, http_handle_request)
                      (http_send_error-Keeps conn 405 (codes "Method Not Allowed"))
              ]
            ]
          ]
        ]
