-- ===== src/Main/Start.antt =====
-- `main` behind the loop over the arguments: the test of the root directory, and the server.
pub mod Ends
use epoll_http_server.Prelude.{ℕ, Bool, List, [], ◌∷◌, ◌++◌, Option, none, some, Bytes}
use epoll_http_server.Files.{Event, opened, closed}
use epoll_http_server.Request.{Config}
use epoll_http_server.Server.{Setup, Ended, server_init, server_run}
use epoll_http_server.Main.{default_config, Choice, go, quit, parse_arguments}

-- What `main` is told: by `open`, by the calls of `server_init`, and all that `server_run` is told.
pub record World : Type 0 where
  pub directory : Bytes → Option ℕ
  pub socket : Option ℕ
  pub reused : Bool
  pub bound : Bool
  pub listening : Bool
  pub worker : ℕ
  pub fuel : ℕ
  pub setup : Setup

-- The exit code, and what was done with descriptors.
pub record Exit : Type 0 where
  pub code : ℕ
  pub events : List Event

-- The server has returned, or still runs.
abbrev pub served : List Event → Option Ended → Option Exit
served events none = none
served events (some ended) = some (record { code = 0; events = events ++ ended.events })

-- From the result of `server_init` on.
unfoldable pub serve : Config → World → Option ℕ × List Event → Option Exit
unfolding server_run
serve config world (none, events) = some (record { code = 1; events = events })
serve config world (some listen_fd, events) =
    served events (server_run listen_fd world.worker world.fuel config world.setup)

-- From the configuration on.
unfoldable pub start_server : Config → World → Option Exit
unfolding serve server_init
start_server config world = elim (world.directory config.web_root) [
  | none ↦ some (record { code = 1; events = [] })
  | some fd ↦
      let (result, events) = server_init world.socket world.reused world.bound world.listening in
      serve config world (result, opened fd ∷ closed fd ∷ events)
]

-- `none` stands for a server that still runs. The arguments are without the program's name.
unfoldable pub main : List Bytes → World → Option Exit
unfolding start_server parse_arguments default_config
main arguments world = elim (parse_arguments arguments default_config) [
  | quit code ↦ some (record { code = code; events = [] })
  | go config ↦ start_server config world
]
