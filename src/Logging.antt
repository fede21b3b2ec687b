-- ===== src/Logging.antt =====
-- src/utils.c and include/utils.h: a line of the log. The text of the time, which `strftime` makes, and
-- that of the message, which `vprintf` makes, are arguments.
pub mod Lines
use epoll_http_server.Prelude.{ℕ, [], ◌∷◌, ◌++◌, none, some, leb, if◌then◌else◌, Bytes, codes, drop}
use epoll_http_server.CString.{strrchr}
use epoll_http_server.CString.Decimal.{decimal}

-- `LOG_LEVEL_DEBUG`, `LOG_LEVEL_INFO` and `LOG_LEVEL_ERROR`
abbrev pub log_level_debug : ℕ
log_level_debug = 0

abbrev pub log_level_info : ℕ
log_level_info = 1

abbrev pub log_level_error : ℕ
log_level_error = 2

-- `CURRENT_LOG_LEVEL`
abbrev pub current_log_level : ℕ
current_log_level = log_level_info

-- The name of a file without the directories before it.
unfoldable pub base_name : Bytes → Bytes
base_name file = elim (strrchr file b'/') [ none ↦ file | some slash ↦ drop 1 slash ]

-- `[%s] [%s] [%s:%d] `, the message, and the end of the line.
unfoldable pub log_print : Bytes → Bytes → Bytes → ℕ → Bytes → Bytes
unfolding base_name
log_print time_str level file line message =
    b'['
    ∷ (time_str
        ++ (codes "] ["
            ++ (level
                ++ (codes "] ["
                    ++ (base_name file
                        ++ (b':' ∷ (decimal line ++ (codes "] " ++ (message ++ (10 ∷ []))))))))))

-- What a macro prints: a line if the current level lets it through.
abbrev pub log_at : ℕ → Bytes → Bytes → Bytes → ℕ → Bytes → Bytes
log_at number level time_str file line message =
    if leb current_log_level number then log_print time_str level file line message else []

unfoldable pub log_debug : Bytes → Bytes → ℕ → Bytes → Bytes
unfolding log_print
log_debug = log_at log_level_debug (codes "DEBUG")

unfoldable pub log_info : Bytes → Bytes → ℕ → Bytes → Bytes
unfolding log_print
log_info = log_at log_level_info (codes "INFO")

unfoldable pub log_error : Bytes → Bytes → ℕ → Bytes → Bytes
unfolding log_print
log_error = log_at log_level_error (codes "ERROR")

-- `strftime` is a parameter: what it makes of a buffer of a size, for a time.
abbrev pub get_current_time : (ℕ → Bytes → ℕ → Bytes) → ℕ → Bytes → ℕ → Bytes
get_current_time strftime now buffer size = strftime now buffer size
