-- ===== src/Main/Start/Ends.antt =====
-- `main` returns, and has closed what it opened.
use epoll_http_server.Prelude.{
  ℕ, ◌≤◌, ◌<◌, ◌≡◌, refl, ap, ◌∙◌, true, inl, inr, List, [], ◌∷◌, Option, none, some, arith, Bytes,
  All, length, ◌==◌, Option-cases,
}
use epoll_http_server.Files.{Event, opened, closed, still_open}
use epoll_http_server.Files.Balance.{IsBalanced, still_open-append, then_open}
use epoll_http_server.Request.{Config}
use epoll_http_server.ThreadPool.Queue.{Waiting, IsQueue}
use epoll_http_server.Server.{Ended, server_init, server_run}
use epoll_http_server.Server.Init.{fds_of, server_init-listens}
use epoll_http_server.Server.Run.{Closes, leaked, server_run-Closes}
use epoll_http_server.Server.Rounds.{WorkersKeep, stops}
use epoll_http_server.Main.{default_config, Choice, go, quit, parse_arguments}
use epoll_http_server.Main.Bounds.{IsGood, default_config-IsConfig, parse_arguments-IsGood}
use epoll_http_server.Main.Start.{World, Exit, served, serve, start_server, main}

-- Every descriptor that was opened is closed, and the exit code is 0 or 1.
abbrev pub EndsWell : Option Exit → Type 0
EndsWell none = ⊥
EndsWell (some exit) = IsBalanced exit.events × (exit.code ≤ 1)

-- The directory is closed before the next descriptor is opened.
still_open-pair :
    (fd : ℕ) (es : List Event) → still_open (opened fd ∷ closed fd ∷ es) [] ≡ still_open es []
still_open-pair fd es = rw (==_refl fd) refl
  where
    ==_refl : (n : ℕ) → (n == n) ≡ true
    ==_refl n = ground arith

served-EndsWell :
    (config : Config) (world : World) (fd : ℕ) (events : List Event) (o : Option Ended)
    → still_open events [] ≡ some (fd ∷ [])
    → Closes fd (leaked config world.setup) o
    → EndsWell (served events o)
served-EndsWell config world fd events none e c = absurd c
served-EndsWell config world fd events (some ended) e c = (
  still_open-append events ended.events [] ∙ ap (λ o. then_open o ended.events) e ∙ c.0,
  omega arith,
)

module _ (world : World) (xs : List Waiting) (left : IsQueue world.setup.left xs)
    (enough : length xs < world.fuel) (keep : All WorkersKeep world.setup.wakes)
    (stop : stops true world.setup.wakes ≡ true) where
  serve-EndsWell :
      (config : Config) (result : Option ℕ) (events : List Event)
      → still_open events [] ≡ some (fds_of result)
      → EndsWell (serve config world (result, events))
  unfolding serve
  serve-EndsWell config none events e = (e, omega arith)
  serve-EndsWell config (some fd) events e =
      served-EndsWell config world fd events
        (server_run fd world.worker world.fuel config world.setup) e
        (server_run-Closes fd world.worker world.fuel config world.setup xs left enough keep stop)

  start_server-EndsWell : (config : Config) → EndsWell (start_server config world)
  unfolding start_server
  start_server-EndsWell config = elim (Option-cases (world.directory config.web_root)) [
    | inl e ↦ rw (e, start_server) (refl, omega arith)
    | inr (fd, e) ↦
        let (result, events) = server_init world.socket world.reused world.bound world.listening in
        rw (e, start_server)
          (serve-EndsWell config result (opened fd ∷ closed fd ∷ events) (
            still_open-pair fd events
            ∙ (server_init-listens world.socket world.reused world.bound world.listening).1))
  ]

  chosen :
      (choice : Choice)
      → IsGood choice
      → EndsWell (elim choice as (λ _. Option Exit) [
        | quit code ↦ some (record { code = code; events = [] })
        | go config ↦ start_server config world
      ])
  chosen (quit code) good = (refl, good)
  chosen (go config) good = start_server-EndsWell config

  -- Whatever the arguments, the directory and the answers of the operating system are, as long as the
  -- workers keep the table well formed and leave a queue of tasks, and with fuel for its tasks: when a
  -- signal tells the loop to stop, or a wait fails, the program returns with 0 or 1, and every descriptor
  -- that its main thread has opened is closed: that of the directory, the socket and that of epoll.
  pub main-EndsWell : (arguments : List Bytes) → EndsWell (main arguments world)
  unfolding main
  main-EndsWell arguments =
      chosen (parse_arguments arguments default_config)
        (parse_arguments-IsGood arguments default_config default_config-IsConfig)
