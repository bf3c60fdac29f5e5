-- ===== src/Server/Accept.antt =====
-- src/lib.rs: one round of the accept thread, up to the client that it spawns a task for.
pub mod Secured
use tiny_http.Prelude.{ℕ, Bool, false, Option, none, some, Result, ok, err}
use tiny_http.Io.{ErrorKind, Fault, io, panic}
use tiny_http.Sockets.Platform.{Socket, Platform}
use tiny_http.Sockets.Connection.{Connection, accept, as_socket}
use tiny_http.Sockets.RefinedTcpStream.{
  Stream, http, https, RefinedTcpStream, new, secure, peer_addr,
}
use tiny_http.Ssl.{Ssl}
use tiny_http.Ssl.Shared.{Failure, panicked, Machine, outside, outside_socket}
use tiny_http.Server.Start.{Feature, SslContext, Accepting}

-- `ClientConnection` as `new` makes it, with its two halves of the socket.
pub record Client (C H Addr : Type 0) : Type 0 where
  pub remote_addr : Result Fault Addr
  pub reads : RefinedTcpStream C H
  pub writes : RefinedTcpStream C H
  pub no_more_requests : Bool
  pub secure : Bool

-- What `server.accept()` comes to in a round: a client, nothing (a TLS session that cannot be set
-- up), an error that ends the loop, or a panic.
pub data Accepted (A : Type 0) : Type 0 where
  client : A → Accepted A
  skipped : Accepted A
  failed : ErrorKind → Accepted A
  crashed : Accepted A

module _ {M C H Addr : Type 0} (tcp : Socket M C Addr) (ssl : Socket M H Addr) where
  -- `ClientConnection::new`.
  unfoldable pub new_client : RefinedTcpStream C H → RefinedTcpStream C H → M → Client C H Addr × M
  unfolding peer_addr secure
  new_client write_socket read_socket m =
      let (remote_addr, m') = peer_addr tcp ssl read_socket m in
      (
        record {
          remote_addr = remote_addr;
          reads = read_socket;
          writes = write_socket;
          no_more_requests = false;
          secure = secure tcp ssl read_socket;
        },
        m',
      )

  abbrev pub with_client : Client C H Addr × M → Accepted (Client C H Addr) × M
  with_client (c, m) = (client c, m)

  unfoldable pub split :
      Result Fault (RefinedTcpStream C H × RefinedTcpStream C H) × M
      → Accepted (Client C H Addr) × M
  unfolding new_client
  split (ok (read_closable, write_closable), m) =
      with_client (new_client write_closable read_closable m)
  split (err _, m) = (crashed, m)

  unfoldable pub refined : Stream C H → M → Accepted (Client C H Addr) × M
  unfolding new
  refined stream m = split (new tcp ssl stream m)

module _ (platform : Platform) (T : Type 0) where
  open platform use {W, SocketAddr}

  -- The handle of a session, where there is a TLS implementation.
  abbrev pub Handle : Feature platform T → Type 0
  Handle none = ⊥
  Handle (some _) = ℕ

  abbrev pub ssl_socket :
      (tls : Feature platform T) → Socket (Machine W T) (Handle tls) (Option SocketAddr)
  ssl_socket (some implementation) = implementation.stream
  ssl_socket none = record {
    read = λ n h. absurd h;
    write = λ buf h. absurd h;
    flush = λ h. absurd h;
    shutdown = λ how h. absurd h;
    try_clone = λ h. absurd h;
    peer_addr = λ h. absurd h;
  }

  abbrev pub Round : Feature platform T → Type 0
  Round tls = Accepted (Client (Connection platform) (Handle tls) (Option SocketAddr)) × Machine W T

  unfoldable pub connected :
      (tls : Feature platform T)
      → Stream (Connection platform) (Handle tls)
      → Machine W T
      → Round tls
  unfolding as_socket
  connected tls = refined (outside_socket (as_socket platform)) (ssl_socket tls)

  -- A failure of TLS lets the socket go and goes on.
  abbrev pub secured :
      (implementation : Ssl W T (Connection platform) (Option SocketAddr))
      → Result Failure ℕ × Machine W T
      → Round (some implementation)
  secured implementation (ok h, m) = connected (some implementation) (https h) m
  secured implementation (err panicked, m) = (crashed, m)
  secured implementation (err _, m) = (skipped, m)

  abbrev pub upgraded :
      (tls : Feature platform T)
      → Option (SslContext platform T tls)
      → Connection platform
      → Machine W T
      → Round tls
  upgraded tls none sock m = connected tls (http sock) m
  upgraded (some implementation) (some context) sock m =
      secured implementation (implementation.accept context sock m)
  upgraded none (some context) sock m = (crashed, m)

  abbrev pub accepted :
      (tls : Feature platform T)
      → Option (SslContext platform T tls)
      → Result Fault (Connection platform × Option SocketAddr) × Machine W T
      → Round tls
  accepted tls ssl (ok (sock, _), m) = upgraded tls ssl sock m
  accepted tls ssl (err (io e), m) = (failed e, m)
  accepted tls ssl (err panic, m) = (crashed, m)

  unfoldable pub accept_client :
      (tls : Feature platform T) → Accepting platform T tls → Machine W T → Round tls
  unfolding accept
  accept_client tls a m = accepted tls a.ssl (outside (accept platform a.server) m)
