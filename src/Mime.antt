-- ===== src/Mime.antt =====
-- src/mime.c: the type of a file by its extension.
pub mod Lookup
use epoll_http_server.Prelude.{
  ℕ, List, [], ◌∷◌, Option, none, some, ◌==◌, if◌then◌else◌, Bytes, codes,
}
use epoll_http_server.CString.{ptr_diff, strrchr, strcmp_zero}

-- `mime_entry_t`
pub record Entry : Type 0 where
  pub extension : Bytes
  pub content_type : Bytes

abbrev pub default_type : Bytes
default_type = codes "application/octet-stream"

-- `mime_table`, without the end marker.
unfoldable pub mime_table : List Entry
mime_table =
    record { extension = codes ".html"; content_type = codes "text/html; charset=utf-8" }
    ∷ record { extension = codes ".htm"; content_type = codes "text/html; charset=utf-8" }
    ∷ record { extension = codes ".css"; content_type = codes "text/css; charset=utf-8" }
    ∷ record {
      extension = codes ".js";
      content_type = codes "application/javascript; charset=utf-8";
    }
    ∷ record { extension = codes ".json"; content_type = codes "application/json; charset=utf-8" }
    ∷ record { extension = codes ".xml"; content_type = codes "application/xml; charset=utf-8" }
    ∷ record { extension = codes ".txt"; content_type = codes "text/plain; charset=utf-8" }
    ∷ record { extension = codes ".jpg"; content_type = codes "image/jpeg" }
    ∷ record { extension = codes ".jpeg"; content_type = codes "image/jpeg" }
    ∷ record { extension = codes ".png"; content_type = codes "image/png" }
    ∷ record { extension = codes ".gif"; content_type = codes "image/gif" }
    ∷ record { extension = codes ".ico"; content_type = codes "image/x-icon" }
    ∷ record { extension = codes ".svg"; content_type = codes "image/svg+xml" }
    ∷ record { extension = codes ".webp"; content_type = codes "image/webp" }
    ∷ record { extension = codes ".mp3"; content_type = codes "audio/mpeg" }
    ∷ record { extension = codes ".wav"; content_type = codes "audio/wav" }
    ∷ record { extension = codes ".ogg"; content_type = codes "audio/ogg" }
    ∷ record { extension = codes ".mp4"; content_type = codes "video/mp4" }
    ∷ record { extension = codes ".webm"; content_type = codes "video/webm" }
    ∷ record { extension = codes ".avi"; content_type = codes "video/x-msvideo" }
    ∷ record { extension = codes ".pdf"; content_type = codes "application/pdf" }
    ∷ record { extension = codes ".zip"; content_type = codes "application/zip" }
    ∷ record { extension = codes ".gz"; content_type = codes "application/gzip" }
    ∷ record { extension = codes ".tar"; content_type = codes "application/x-tar" }
    ∷ record { extension = codes ".woff"; content_type = codes "font/woff" }
    ∷ record { extension = codes ".woff2"; content_type = codes "font/woff2" }
    ∷ record { extension = codes ".ttf"; content_type = codes "font/ttf" }
    ∷ []

-- The extension with its dot. A name with no dot, or with its last one in front, has none.
unfoldable pub get_extension : Bytes → Option Bytes
get_extension filename = elim (strrchr filename b'.') [
  | none ↦ none
  | some dot ↦ if ptr_diff dot filename == 0 then none else some dot
]

-- The loop over the table.
unfoldable pub find_type : Bytes → List Entry → Bytes
find_type ext [] = default_type
find_type ext (e ∷ rest) =
    if strcmp_zero ext e.extension then e.content_type else find_type ext rest

unfoldable pub mime_get_type : Bytes → Bytes
unfolding get_extension find_type mime_table
mime_get_type file_path = elim (get_extension file_path) [
  | none ↦ default_type
  | some ext ↦ find_type ext mime_table
]
