-- ===== src/Main/Bounds.antt =====
-- What the command line lets through.
use epoll_http_server.Prelude.{
  ℕ, ◌^◌, ◌%◌, ◌≤◌, ◌<◌, ◌≡◌, ◌≢◌, refl, false, ◌||◌, not, inl, inr, List, [], ◌∷◌, arith, ltb,
  ◌==◌, if◌then◌else◌, Bytes, codes, replicate, Bool-cases,
}
use epoll_http_server.Prelude.Int.{ℤ, pos, negsuc, ltb_ℤ, bits_of}
use epoll_http_server.CString.{atoi, strcmp_zero}
use epoll_http_server.Parser.Cells.{LastIsNul, replicate-LastIsNul, strncpy-LastIsNul}
use epoll_http_server.Request.{Config}
use epoll_http_server.Main.{
  default_config, is_option, Choice, go, quit, set_port, set_max, set_threads, set_option,
  parse_arguments, root_size,
}

-- A configuration that the server is started with.
pub record IsConfig (config : Config) : Type 0 where
  pub port : (0 < config.port) × (config.port < 2 ^ 16)
  pub root : LastIsNul 255 config.web_root
  pub connections : (n : ℕ) × (config.max_connections ≡ pos n) × (0 < n) × (n ≤ 1024)
  pub threads : (n : ℕ) × (config.thread_count ≡ pos n) × (0 < n) × (n ≤ 64)

-- What an outcome promises: a good configuration, or an exit code of 0 or 1.
abbrev pub IsGood : Choice → Type 0
IsGood (go config) = IsConfig config
IsGood (quit code) = code ≤ 1

pub default_config-IsConfig : IsConfig default_config
unfolding default_config
default_config-IsConfig = record {
  port = (omega arith, omega arith);
  root =
      strncpy-LastIsNul 255 (replicate root_size 0) (codes "./www") 255 (omega arith)
        (replicate-LastIsNul 255);
  connections = (1024, refl, omega arith, omega arith);
  threads = (4, refl, omega arith, omega arith);
}

port_within : (n : ℕ) → (n == 0 || ltb 65535 n) ≡ false → (0 < n) × (n < 2 ^ 16)
port_within n h = (ground arith, ground arith)

set_port-IsGood :
    (value : Bytes) (config : Config) → IsConfig config → IsGood (set_port value config)
set_port-IsGood value config is =
    elim (Bool-cases
      (bits_of (2 ^ 16) (atoi value) == 0 || ltb 65535 (bits_of (2 ^ 16) (atoi value)))) [
        | inl bad ↦ simp bad (omega arith)
        | inr good ↦ simp good (record {
          port = port_within (bits_of (2 ^ 16) (atoi value)) good;
          root = is.root;
          connections = is.connections;
          threads = is.threads;
        })
      ]

within :
    (n : ℤ) (k : ℕ)
    → (not (ltb_ℤ (pos 0) n) || ltb_ℤ (pos k) n) ≡ false
    → (m : ℕ) × (n ≡ pos m) × (0 < m) × (m ≤ k)
within (pos m) k h = (m, refl, ground arith, ground arith)
within (negsuc m) k h = absurd (ground arith)

set_max-IsGood : (value : Bytes) (config : Config) → IsConfig config → IsGood (set_max value config)
set_max-IsGood value config is =
    elim (Bool-cases (not (ltb_ℤ (pos 0) (atoi value)) || ltb_ℤ (pos 1024) (atoi value))) [
      | inl bad ↦ simp bad (omega arith)
      | inr good ↦ simp good (record {
        port = is.port;
        root = is.root;
        connections = within (atoi value) 1024 good;
        threads = is.threads;
      })
    ]

set_threads-IsGood :
    (value : Bytes) (config : Config) → IsConfig config → IsGood (set_threads value config)
set_threads-IsGood value config is =
    elim (Bool-cases (not (ltb_ℤ (pos 0) (atoi value)) || ltb_ℤ (pos 64) (atoi value))) [
      | inl bad ↦ simp bad (omega arith)
      | inr good ↦ simp good (record {
        port = is.port;
        root = is.root;
        connections = is.connections;
        threads = within (atoi value) 64 good;
      })
    ]

set_option-IsGood :
    (arg value : Bytes) (config : Config) → IsConfig config → IsGood (set_option arg value config)
unfolding set_option
set_option-IsGood arg value config is =
    elim (Bool-cases (is_option arg (codes "-p") (codes "--port"))) [
      | inl p ↦ simp (p, set_option) (set_port-IsGood value config is)
      | inr p ↦ elim (Bool-cases (is_option arg (codes "-r") (codes "--root"))) [
        | inl r ↦
            simp (p, r, set_option)
              (record {
                port = is.port;
                root = strncpy-LastIsNul 255 config.web_root value 255 (omega arith) is.root;
                connections = is.connections;
                threads = is.threads;
              })
        | inr r ↦ elim (Bool-cases (is_option arg (codes "-m") (codes "--max"))) [
          | inl m ↦ simp (p, r, m, set_option) (set_max-IsGood value config is)
          | inr m ↦ elim (Bool-cases (is_option arg (codes "-t") (codes "--threads"))) [
            | inl t ↦ simp (p, r, m, t, set_option) (set_threads-IsGood value config is)
            | inr t ↦ elim (Bool-cases (is_option arg (codes "-h") (codes "--help"))) [
              | inl h ↦ simp (p, r, m, t, h, set_option) (omega arith)
              | inr h ↦ simp (p, r, m, t, h, set_option) (omega arith)
            ]
          ]
        ]
      ]
    ]

-- Whatever the arguments, the loop ends with the exit code 0 or 1, or with a configuration whose port
-- is from 1 to 65535, whose root directory ends with a NUL in its array, which allows from 1 to 1024
-- connections, and which asks for 1 to 64 threads.
pub parse_arguments-IsGood :
    (args : List Bytes) (config : Config) → IsConfig config → IsGood (parse_arguments args config)
unfolding parse_arguments
parse_arguments-IsGood [] config is = is
parse_arguments-IsGood (arg ∷ []) config is =
    elim (Bool-cases (is_option arg (codes "-h") (codes "--help"))) [
      | inl h ↦ rw (h, parse_arguments) (omega arith)
      | inr h ↦ rw (h, parse_arguments) (omega arith)
    ]
parse_arguments-IsGood (arg ∷ value ∷ rest) config is =
    next (set_option arg value config) refl (set_option-IsGood arg value config is)
      (λ config' good. parse_arguments-IsGood rest config' good)
  where
    next :
        (p : Choice)
        → set_option arg value config ≡ p
        → IsGood p
        → ((config' : Config) → IsConfig config' → IsGood (parse_arguments rest config'))
        → IsGood (parse_arguments (arg ∷ value ∷ rest) config)
    next (quit code) e good later = rw (parse_arguments, e) good
    next (go config') e good later = rw (parse_arguments, e) (later config' good)

-- A port that is too large is not refused: whatever number of 31 bits stands behind `-p`, unless it is
-- a multiple of 65536, the port is its remainder by 65536.
pub set_option_port :
    (value : Bytes) (config : Config) (n : ℕ)
    → atoi value ≡ pos n
    → n % 2 ^ 16 ≢ 0
    → set_option (codes "-p") value config ≡ go (record config { port = n % 2 ^ 16 })
unfolding set_option strcmp_zero
set_option_port value config n e nonzero =
    rw (set_option, e) (accepted (n % 2 ^ 16) nonzero (omega arith))
  where
    accepted :
        (k : ℕ)
        → k ≢ 0
        → k < 2 ^ 16
        → (if k == 0 || ltb 65535 k then quit 1 else go (record config { port = k }))
          ≡ go (record config { port = k })
    accepted k h l = rw (in_range k h l)
      where
        in_range : (k : ℕ) → k ≢ 0 → k < 2 ^ 16 → (k == 0 || ltb 65535 k) ≡ false
        in_range k h l = ground arith
