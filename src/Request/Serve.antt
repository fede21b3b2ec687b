-- ===== src/Request/Serve.antt =====
-- What the handlers of GET and HEAD answer on every branch, and what they do with descriptors.
use epoll_http_server.Prelude.{
  suc, inl, inr, ℕ, ◌+◌, ◌-◌, ◌^◌, ◌≤◌, ◌<◌, ◌≡◌, refl, ap, ◌∙◌, Bool, List, [], ◌∷◌, ◌++◌, Option,
  none, some, arith, Bytes, codes, length, take, replicate, if◌then◌else◌, ltb, Bool-cases,
  Option-cases, append_assoc,
}
use epoll_http_server.CString.{cstr, snprintf, strncpy}
use epoll_http_server.CString.Copy.{length-snprintf, snprintf_whole, snprintf_result}
use epoll_http_server.CString.Decimal.{decimal, length-decimal}
use epoll_http_server.Connection.{Connection, write_size}
use epoll_http_server.Files.{Files, Event, opened, closed}
use epoll_http_server.Files.Balance.{IsBalanced, IsBalanced-append, IsBalanced-pair}
use epoll_http_server.Mime.{mime_get_type}
use epoll_http_server.Mime.Lookup.{length-mime_get_type-le}
use epoll_http_server.Response.{header_text, max_file_size, finish_file}
use epoll_http_server.Response.Length.{length-header_text-le}
use epoll_http_server.Response.Pages.{
  Answers, error_bytes, finished_bytes, http_send_error-Answers, finish_file-Answers,
}
use epoll_http_server.Request.{
  Config, path_size, build_file_path, index_of, ok_line, get_file_size, locate_index, locate,
  serve_get, serve_head, handle_file, handle_get, handle_head,
}

-- The head of a file's response.
abbrev pub file_head : Bytes → ℕ → Bool → Bytes
file_head file_path size keep_alive =
    header_text ok_line (mime_get_type file_path) (decimal size) keep_alive

length-file_head-le :
    (file_path : Bytes) (size : ℕ) (keep_alive : Bool) (k : ℕ)
    → size < 10 ^ suc k
    → length (file_head file_path size keep_alive) ≤ 143 + k
length-file_head-le file_path size keep_alive k small = omega (
  arith,
  length-header_text-le ok_line (mime_get_type file_path) (decimal size) keep_alive,
  length-mime_get_type-le file_path,
  length-decimal k size small,
)

module _ (files : Files) where
  -- The answer to a GET for what was found: an error page, or the head with the bytes of the file.
  abbrev pub get_bytes : Bool → Option (Bytes × ℕ × ℕ) → Bytes
  get_bytes keep_alive none = error_bytes 404 (codes "Not Found")
  get_bytes keep_alive (some (file_path, fd, size)) =
      if ltb max_file_size size
      then error_bytes 413 (codes "Payload Too Large")
      else finished_bytes (file_head file_path size keep_alive) (files.read_file fd size)

  -- The answer to a HEAD: the same head with nothing behind it.
  abbrev pub head_bytes : Bool → Option (Bytes × ℕ × ℕ) → Bytes
  head_bytes keep_alive none = error_bytes 404 (codes "Not Found")
  head_bytes keep_alive (some (file_path, fd, size)) = file_head file_path size keep_alive

  serve_get-Answers :
      (conn : Connection) (found : Option (Bytes × ℕ × ℕ)) (events : List Event)
      → length conn.write_buf ≡ write_size
      → Answers (serve_get files conn (found, events)).conn (get_bytes conn.keep_alive found)
  unfolding serve_get
  serve_get-Answers conn none events cells =
      http_send_error-Answers conn 404 (codes "Not Found") cells (omega arith) (omega arith)
  serve_get-Answers conn (some (file_path, fd, size)) events cells =
      elim (Bool-cases (ltb max_file_size size)) [
        | inl large ↦
            rw (large, serve_get)
              (http_send_error-Answers conn 413 (codes "Payload Too Large") cells (omega arith)
                (omega arith))
        | inr small ↦
            let bound = length-file_head-le file_path size conn.keep_alive 4 (ground arith) in
            rw (small, serve_get)
              (finish_file-Answers conn (file_head file_path size conn.keep_alive) size
                (files.read_file fd size) _ cells (ground arith) (ground arith)
                (files.read_at_most fd size))
      ]

  -- The size that was found is a `long`.
  abbrev SizeIsLong : Option (Bytes × ℕ × ℕ) → Type 0
  SizeIsLong none = Unit
  SizeIsLong (some (file_path, fd, size)) = size < 2 ^ 63

  serve_head-Answers :
      (conn : Connection) (found : Option (Bytes × ℕ × ℕ)) (events : List Event)
      → length conn.write_buf ≡ write_size
      → SizeIsLong found
      → Answers (serve_head files conn (found, events)).conn (head_bytes conn.keep_alive found)
  unfolding serve_head
  serve_head-Answers conn none events cells long =
      http_send_error-Answers conn 404 (codes "Not Found") cells (omega arith) (omega arith)
  serve_head-Answers conn (some (file_path, fd, size)) events cells long =
      let text = file_head file_path size conn.keep_alive in
      let bound = length-file_head-le file_path size conn.keep_alive 19 (omega arith) in
      (
        ap (λ (n : ℕ). take n (snprintf conn.write_buf write_size text).0)
              (snprintf_result conn.write_buf write_size text)
            ∙ snprintf_whole conn.write_buf write_size text (omega arith) (omega arith),
        length-snprintf conn.write_buf write_size text ∙ cells,
        snprintf_result conn.write_buf write_size text,
      )

  -- What `get_file_size` may find.
  get_file_size_cases :
      (P : Option (ℕ × ℕ) × List Event → Type 0) (file_path : Bytes)
      → ((events : List Event) → IsBalanced events → P (none, events))
      → ((fd size : ℕ) → size < 2 ^ 63 → P (some (fd, size), opened fd ∷ []))
      → P (get_file_size files file_path)
  unfolding get_file_size
  get_file_size_cases P file_path missing there =
      elim (Option-cases (files.open_file (cstr file_path))) [
        | inl e ↦ rw (e, get_file_size) (missing [] refl)
        | inr (fd, e) ↦ elim (Option-cases (files.size_of fd)) [
          | inl f ↦
              rw (e, f, get_file_size) (missing (opened fd ∷ closed fd ∷ []) (IsBalanced-pair fd))
          | inr (size, f) ↦ rw (e, f, get_file_size) (there fd size (files.size_is_long fd size f))
        ]
      ]

  -- What the search for a file may end with: nothing left open, or the one descriptor found.
  locate_cases :
      (P : Option (Bytes × ℕ × ℕ) × List Event → Type 0) (file_path : Bytes)
      → ((events : List Event) → IsBalanced events → P (none, events))
      → ((q : Bytes) (fd size : ℕ) (before : List Event)
          → size < 2 ^ 63
          → IsBalanced before
          → P (some (q, fd, size), before ++ opened fd ∷ []))
      → P (locate files file_path)
  unfolding locate locate_index
  locate_cases P file_path missing there =
      get_file_size_cases
        (λ r. P (elim r.0 [
          | none ↦ locate_index files file_path r.1
          | some (fd, size) ↦ (some (file_path, fd, size), r.1)
        ]))
        file_path
        (λ before balanced.
          get_file_size_cases
            (λ r. P (elim r.0 [
              | none ↦ (none, before ++ r.1)
              | some (fd, size) ↦ (
                some (strncpy file_path (index_of file_path) (path_size - 1), fd, size),
                before ++ r.1,
              )
            ]))
            (index_of file_path)
            (λ events b. missing (before ++ events) (IsBalanced-append before events balanced b))
            (λ fd size long. there _ fd size before long balanced))
        (λ fd size long. there file_path fd size [] long refl)

  locate-SizeIsLong : (file_path : Bytes) → SizeIsLong (locate files file_path).0
  locate-SizeIsLong file_path =
      locate_cases (λ r. SizeIsLong r.0) file_path (λ events b. tt)
        (λ q fd size before long b. long)

  -- The path that the handlers look for.
  abbrev pub path_of : Config → Bytes → Option Bytes
  path_of config uri = build_file_path config.web_root uri (replicate path_size 0) path_size

  -- Every GET is answered in full: 403 for a path that is refused, 404 where neither the file nor its
  -- index is there, 413 for a file that is too large, 500 where it cannot be read, and otherwise the
  -- head and the bytes read, all of which stand in the buffer.
  pub handle_get-Answers :
      (uri : Bytes) (conn : Connection) (config : Config)
      → length conn.write_buf ≡ write_size
      → Answers (handle_get files uri conn config).conn (elim (path_of config uri) [
        | none ↦ error_bytes 403 (codes "Forbidden")
        | some file_path ↦ get_bytes conn.keep_alive (locate files file_path).0
      ])
  unfolding handle_get handle_file
  handle_get-Answers uri conn config cells = elim (Option-cases (path_of config uri)) [
    | inl refused ↦
        rw (refused, handle_get, handle_file)
          (http_send_error-Answers conn 403 (codes "Forbidden") cells (omega arith) (omega arith))
    | inr (file_path, e) ↦
        rw (e, handle_get, handle_file)
          (serve_get-Answers conn (locate files file_path).0 (locate files file_path).1 cells)
  ]

  -- Every HEAD is answered in full, with the head that a GET of the same file has.
  pub handle_head-Answers :
      (uri : Bytes) (conn : Connection) (config : Config)
      → length conn.write_buf ≡ write_size
      → Answers (handle_head files uri conn config).conn (elim (path_of config uri) [
        | none ↦ error_bytes 403 (codes "Forbidden")
        | some file_path ↦ head_bytes conn.keep_alive (locate files file_path).0
      ])
  unfolding handle_head handle_file
  handle_head-Answers uri conn config cells = elim (Option-cases (path_of config uri)) [
    | inl refused ↦
        rw (refused, handle_head, handle_file)
          (http_send_error-Answers conn 403 (codes "Forbidden") cells (omega arith) (omega arith))
    | inr (file_path, e) ↦
        rw (e, handle_head, handle_file)
          (serve_head-Answers conn (locate files file_path).0 (locate files file_path).1 cells
            (locate-SizeIsLong file_path))
  ]

  IsBalanced-close :
      (before : List Event) (fd : ℕ)
      → IsBalanced before
      → IsBalanced ((before ++ opened fd ∷ []) ++ closed fd ∷ [])
  IsBalanced-close before fd b =
      rw (append_assoc before (opened fd ∷ []) (closed fd ∷ []))
        (IsBalanced-append before (opened fd ∷ closed fd ∷ []) b (IsBalanced-pair fd))

  finish_file_events :
      (conn : Connection) (head : Bytes) (n : ℕ) (events : List Event) (got : Option Bytes)
      → (finish_file conn head n events got).events ≡ events
  unfolding finish_file
  finish_file_events conn head n events none = refl
  finish_file_events conn head n events (some bytes) = refl

  serve_get-IsBalanced :
      (conn : Connection) (file_path : Bytes)
      → IsBalanced (serve_get files conn (locate files file_path)).events
  unfolding serve_get
  serve_get-IsBalanced conn file_path =
      locate_cases (λ r. IsBalanced (serve_get files conn r).events) file_path (λ events b. b)
        (λ q fd size before long b. elim (Bool-cases (ltb max_file_size size)) [
          | inl large ↦ rw (large, serve_get) (IsBalanced-close before fd b)
          | inr small ↦
              rw (small, serve_get)
                (rw
                  (finish_file_events conn _ _ ((before ++ opened fd ∷ []) ++ closed fd ∷ [])
                    (files.read_file fd size))
                  (IsBalanced-close before fd b))
        ])

  serve_head-IsBalanced :
      (conn : Connection) (file_path : Bytes)
      → IsBalanced (serve_head files conn (locate files file_path)).events
  unfolding serve_head
  serve_head-IsBalanced conn file_path =
      locate_cases (λ r. IsBalanced (serve_head files conn r).events) file_path (λ events b. b)
        (λ q fd size before long b. IsBalanced-close before fd b)

  -- No handler leaks a descriptor: on every branch, each file that was opened is closed.
  pub handle_file-IsBalanced :
      (uri : Bytes) (conn : Connection) (config : Config)
      → IsBalanced (handle_get files uri conn config).events
        × IsBalanced (handle_head files uri conn config).events
  unfolding handle_get handle_head handle_file
  handle_file-IsBalanced uri conn config = elim (Option-cases (path_of config uri)) [
    | inl refused ↦ rw (refused, handle_get, handle_head, handle_file) (refl, refl)
    | inr (file_path, e) ↦
        rw (e, handle_get, handle_head, handle_file)
          (serve_get-IsBalanced conn file_path, serve_head-IsBalanced conn file_path)
  ]
