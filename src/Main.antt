-- ===== src/Main.antt =====
-- src/main.c: the command line, and in Start the rest of main.
pub mod Bounds
pub mod Start
use epoll_http_server.Prelude.{
  ℕ, ◌-◌, ◌^◌, Bool, true, false, ◌||◌, not, List, [], ◌∷◌, ltb, ◌==◌, if◌then◌else◌, Bytes, codes,
  replicate,
}
use epoll_http_server.Prelude.Int.{ℤ, pos, ltb_ℤ, bits_of}
use epoll_http_server.CString.{strcmp_zero, strncpy, atoi}
use epoll_http_server.Request.{Config}

-- The size of `web_root`.
abbrev pub root_size : ℕ
root_size = 256

-- The configuration that the options change.
unfoldable pub default_config : Config
default_config = record {
  port = 8080;
  web_root = strncpy (replicate root_size 0) (codes "./www") (root_size - 1);
  max_connections = pos 1024;
  thread_count = pos 4;
}

abbrev pub is_option : Bytes → Bytes → Bytes → Bool
is_option arg short long = strcmp_zero arg short || strcmp_zero arg long

-- The configuration so far, or the exit code.
pub data Choice : Type 0 where
  go : (config : Config) → Choice
  quit : (code : ℕ) → Choice

-- The value of `-p`, in the 16 bits of the port.
abbrev pub set_port : Bytes → Config → Choice
set_port value config =
    let port = bits_of (2 ^ 16) (atoi value) in
    if port == 0 || ltb 65535 port then quit 1 else go (record config { port = port })

abbrev pub set_max : Bytes → Config → Choice
set_max value config =
    let n = atoi value in
    if not (ltb_ℤ (pos 0) n) || ltb_ℤ (pos 1024) n
    then quit 1
    else go (record config { max_connections = n })

abbrev pub set_threads : Bytes → Config → Choice
set_threads value config =
    let n = atoi value in
    if not (ltb_ℤ (pos 0) n) || ltb_ℤ (pos 64) n
    then quit 1
    else go (record config { thread_count = n })

-- An option with the argument behind it.
unfoldable pub set_option : Bytes → Bytes → Config → Choice
set_option arg value config =
    if is_option arg (codes "-p") (codes "--port")
    then set_port value config
    else if is_option arg (codes "-r") (codes "--root")
    then go (record config { web_root = strncpy config.web_root value (root_size - 1) })
    else if is_option arg (codes "-m") (codes "--max")
    then set_max value config
    else if is_option arg (codes "-t") (codes "--threads")
    then set_threads value config
    else if is_option arg (codes "-h") (codes "--help")
    then quit 0
    else quit 1

-- The loop over the arguments. The last one alone is an option without its value, or asks for help.
unfoldable pub parse_arguments : List Bytes → Config → Choice
unfolding set_option
parse_arguments [] config = go config
parse_arguments (arg ∷ []) config =
    if is_option arg (codes "-h") (codes "--help") then quit 0 else quit 1
parse_arguments (arg ∷ value ∷ rest) config = elim (set_option arg value config) [
  | quit code ↦ quit code
  | go config' ↦ parse_arguments rest config'
]
