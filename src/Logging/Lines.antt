-- ===== src/Logging/Lines.antt =====
-- What the log shows.
use epoll_http_server.Prelude.{ℕ, ◌≡◌, refl, [], ◌∷◌, ◌++◌, arith, Bytes, codes}
use epoll_http_server.CString.Scan.{Lacks, strrchr_missing, strrchr_last}
use epoll_http_server.Logging.{base_name, log_print, log_debug, log_info, log_error}

base_name-append :
    (directory name : Bytes)
    → Lacks 0 directory
    → Lacks b'/' name
    → base_name (directory ++ b'/' ∷ name) ≡ name
unfolding base_name
base_name-append directory name z s =
    rw (strrchr_last b'/' directory name (omega arith) s z, base_name)

base_name_alone : (name : Bytes) → Lacks b'/' name → base_name name ≡ name
unfolding base_name
base_name_alone name s = rw (strrchr_missing b'/' name s, base_name)

-- For a file in a directory, debugging messages print nothing, and all others the line that they would
-- print for the file's name alone, with their level in it.
pub log_line_of_file :
    (directory name time_str message : Bytes) (line : ℕ)
    → Lacks 0 directory
    → Lacks b'/' name
    → let file = directory ++ b'/' ∷ name in
      (log_debug time_str file line message ≡ [])
      × (log_info time_str file line message ≡ log_print time_str (codes "INFO") name line message)
      × (log_error time_str file line message
          ≡ log_print time_str (codes "ERROR") name line message)
unfolding log_debug log_info log_error
log_line_of_file directory name time_str message line z s =
    (refl, same (codes "INFO"), same (codes "ERROR"))
  where
    same :
        (level : Bytes)
        → log_print time_str level (directory ++ b'/' ∷ name) line message
          ≡ log_print time_str level name line message
    same level = rw (log_print, base_name-append directory name z s, base_name_alone name s)
