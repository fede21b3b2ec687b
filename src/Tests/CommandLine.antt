-- ===== src/Tests/CommandLine.antt =====
-- The theorems of the command line and of the log, on concrete inputs.
use epoll_http_server.Prelude.{◌%◌, ◌^◌, ◌≡◌, refl, [], ◌∷◌, codes, arith}
use epoll_http_server.CString.{atoi}
use epoll_http_server.Main.{default_config, go, set_option, parse_arguments}
use epoll_http_server.Main.Bounds.{
  IsGood, default_config-IsConfig, parse_arguments-IsGood, set_option_port,
}

parse_arguments-IsGood_example :
    IsGood
      (parse_arguments (codes "-p" ∷ codes "9000" ∷ codes "-t" ∷ codes "8" ∷ []) default_config)
parse_arguments-IsGood_example =
    parse_arguments-IsGood (codes "-p" ∷ codes "9000" ∷ codes "-t" ∷ codes "8" ∷ []) default_config
      default_config-IsConfig

-- The port 70000 becomes 4464.
set_option_port_example :
    set_option (codes "-p") (codes "70000") default_config
    ≡ go (record default_config { port = 70000 % 2 ^ 16 })
unfolding atoi
set_option_port_example = set_option_port (codes "70000") default_config 70000 refl (omega arith)
