-- ===== src/Server/Init.antt =====
-- `server_init`: the socket is open exactly if it listens.
use epoll_http_server.Prelude.{
  ℕ, ◌≡◌, refl, Bool, true, false, ◌&&◌, List, [], ◌∷◌, Option, none, some, arith, if◌then◌else◌,
}
use epoll_http_server.Files.{still_open}
use epoll_http_server.Server.{server_init}

-- The socket that is to be left open.
abbrev pub listens : Option ℕ → Bool → Option ℕ
listens none works = none
listens (some fd) works = if works then some fd else none

abbrev pub fds_of : Option ℕ → List ℕ
fds_of none = []
fds_of (some fd) = fd ∷ []

-- The result is the socket exactly if every call has succeeded, and -1 otherwise; and what is left open
-- is the socket of the result, or nothing: no error path leaks it.
pub server_init-listens :
    (socket : Option ℕ) (reused bound listening : Bool)
    → let (result, events) = server_init socket reused bound listening in
      (result ≡ listens socket (reused && bound && listening))
      × (still_open events [] ≡ some (fds_of result))
unfolding server_init
server_init-listens none reused bound listening = (refl, refl)
server_init-listens (some fd) false bound listening = (refl, ground arith)
server_init-listens (some fd) true false listening = (refl, ground arith)
server_init-listens (some fd) true true false = (refl, ground arith)
server_init-listens (some fd) true true true = (refl, refl)
