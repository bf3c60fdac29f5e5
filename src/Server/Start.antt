-- ===== src/Server/Start.antt =====
-- src/lib.rs: making a server, and dropping one.
use tiny_http.Prelude.{ℕ, Bool, true, false, List, Option, none, some, Result, ok, err}
use tiny_http.Text.{Text, Bytes, codes}
use tiny_http.Io.{Fault, io, panic, Io, continue, lift, ignored, pure}
use tiny_http.Sockets.Platform.{both, Platform}
use tiny_http.Sockets.Connection.{
  Listener, Connection, tcp, unix, ListenAddr, ip, ConfigListenAddr, bind, local_addr, shutdown,
  from_socket_addrs, unix_from_path,
}
use tiny_http.Ssl.{Ssl}
use tiny_http.Ssl.Shared.{Failure, io_error, message, panicked, Machine, outside}
use tiny_http.Server.{Messages, no_messages}

pub record SslConfig : Type 0 where
  pub certificate : Bytes
  pub private_key : Bytes

-- `?` on a result of the system.
abbrev pub as_failure : {A : Type 0} → Result Fault A → Result Failure A
as_failure (ok a) = ok a
as_failure (err (io e)) = err (io_error e)
as_failure (err panic) = err panicked

abbrev pub wrap : {A : Type 0} → Result Failure A → Result Failure (Option A)
wrap (ok a) = ok (some a)
wrap (err e) = err e

abbrev pub then_io : {W A B : Type 0} → Io W A → (A → Io W B) → Io W B
then_io op f w = continue f (op w)

-- A step of making a server: a failure ends it.
abbrev pub Making : Type 0 → Type 0 → Type 0
Making M A = M → Result Failure A × M

abbrev pub continued :
    {M A B : Type 0} → (A → Making M B) → Result Failure A × M → Result Failure B × M
continued f (ok a, m) = f a m
continued f (err e, m) = (err e, m)

infixl 5 ◌>>=◌
abbrev pub ◌>>=◌ : {M A B : Type 0} → Making M A → (A → Making M B) → Making M B
op >>= f = λ m. continued f (op m)

abbrev pub returned : {M A : Type 0} → Result Failure A → Making M A
returned r m = (r, m)

-- An operation of the system alone, with `?`.
abbrev pub asked : {W T A : Type 0} → Io W A → Making (Machine W T) A
asked op m = let (r, m') = outside op m in (as_failure r, m')

module _ (platform : Platform) (T : Type 0) where
  open platform use {W, SocketAddr, UnixAddr, PathBuf}

  -- The TLS implementation that a feature of the build chooses, if any.
  abbrev pub Feature : Type 1
  Feature = Option (Ssl W T (Connection platform) (Option SocketAddr))

  -- The type alias `SslContext`.
  abbrev pub SslContext : Feature → Type 0
  SslContext none = Unit {0}
  SslContext (some implementation) = implementation.Context

  abbrev pub need_feature : Text
  need_feature = codes "Building a server with SSL requires enabling the `ssl` feature in tiny-http"

  unfoldable pub ssl_context :
      (tls : Feature) → Option SslConfig → Result Failure (Option (SslContext tls))
  ssl_context tls none = ok none
  ssl_context none (some config) = err (message need_feature)
  ssl_context (some implementation) (some config) =
      wrap (implementation.from_pem config.certificate config.private_key)

  pub record ServerConfig : Type 0 where
    pub addr : ConfigListenAddr platform
    pub ssl : Option SslConfig

  pub record Server (Rq : Type 0) : Type 0 where
    pub close : Bool
    pub messages : Messages Rq
    pub listening_addr : ListenAddr platform

  -- What the accept thread is given.
  pub record Accepting (tls : Feature) : Type 0 where
    pub server : Listener platform
    pub ssl : Option (SslContext tls)

  module _ (tls : Feature) (Rq : Type 0) where
    -- What starting a server does to the machine, with the server and its accept thread.
    abbrev pub Started : Type 0
    Started = Making (Machine W T) (Server Rq × Accepting tls)

    unfoldable pub from_listener : Listener platform → Option SslConfig → Started
    unfolding local_addr ssl_context no_messages
    from_listener listener ssl_config = asked (local_addr platform listener) >>= λ address.
        returned (ssl_context tls ssl_config) >>= λ ssl. returned (
          ok (
            record { close = false; messages = no_messages Rq; listening_addr = address },
            record { server = listener; ssl = ssl },
          ))

    unfoldable pub new : ServerConfig → Started
    unfolding bind from_listener
    new config = asked (bind platform config.addr) >>= λ listener. from_listener listener config.ssl

    -- The argument is what `to_socket_addrs` answers.
    unfoldable pub http : Io W (List SocketAddr) → Started
    unfolding from_socket_addrs new
    http addrs = asked (from_socket_addrs platform addrs) >>= λ addr.
        new (record { addr = addr; ssl = none })

    unfoldable pub https : Io W (List SocketAddr) → SslConfig → Started
    unfolding from_socket_addrs new
    https addrs config = asked (from_socket_addrs platform addrs) >>= λ addr.
        new (record { addr = addr; ssl = some config })

    unfoldable pub http_unix : PathBuf → Started
    unfolding unix_from_path new
    http_unix path = new (record { addr = unix_from_path platform path; ssl = none })

  unfoldable pub server_addr : {Rq : Type 0} → Server Rq → ListenAddr platform
  server_addr s = s.listening_addr

  -- `unimplemented!()`.
  unfoldable pub num_connections : {Rq : Type 0} → Server Rq → Result Fault ℕ
  num_connections s = err panic

  -- The connection of the destructor to its own server.
  abbrev pub own_path : Option PathBuf → Io W PathBuf
  own_path none = lift (err panic)
  own_path (some path) = pure path

  unfoldable pub connect_back : ListenAddr platform → Io W (Connection platform)
  connect_back (ip addr) = then_io (platform.tcp_connect addr) (λ s. pure (tcp s))
  connect_back (unix addr) =
      then_io (own_path (platform.as_pathname addr))
        (λ path. then_io (platform.unix_connect path) (λ s. pure (unix s)))

  abbrev pub remove : Option PathBuf → Io W (Unit {0})
  remove none = pure tt
  remove (some path) = ignored (platform.remove_file path)

  unfoldable pub remove_socket : ListenAddr platform → Io W (Unit {0})
  remove_socket (ip _) = pure tt
  remove_socket (unix addr) = remove (platform.as_pathname addr)

  -- `drop`: the flag is set first, also where the rest panics.
  unfoldable pub drop : {Rq : Type 0} → Server Rq → W → Server Rq × (Result Fault (Unit {0}) × W)
  unfolding connect_back remove_socket shutdown
  drop s w = (
    record s { close = true },
    then_io
        (ignored (
          then_io (connect_back s.listening_addr)
            (λ stream. ignored (shutdown platform both stream))))
        (λ _. remove_socket s.listening_addr) w,
  )
