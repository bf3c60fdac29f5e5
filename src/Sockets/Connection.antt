-- ===== src/Sockets/Connection.antt =====
-- src/connection.rs: one type over the sockets of both families. `as_socket` gathers the operations of
-- a `Connection`.
use tiny_http.Prelude.{ℕ, List, Option, none, some}
use tiny_http.Text.{Text, Bytes}
use tiny_http.Io.{Io, ◌>>=◌, pure}
use tiny_http.Sockets.Platform.{Shutdown, Socket, Platform}

module _ (platform : Platform) where
  open platform use {
    W, SocketAddr, UnixAddr, PathBuf, TcpListener, TcpStream, UnixListener, UnixStream,
  }

  pub data Listener : Type 0 where
    tcp : TcpListener → Listener
    unix : UnixListener → Listener

  pub data Connection : Type 0 where
    tcp : TcpStream → Connection
    unix : UnixStream → Connection

  pub data ListenAddr : Type 0 where
    ip : SocketAddr → ListenAddr
    unix : UnixAddr → ListenAddr

  pub data ConfigListenAddr : Type 0 where
    ip : List SocketAddr → ConfigListenAddr
    unix : PathBuf → ConfigListenAddr

  unfoldable pub local_addr : Listener → Io W ListenAddr
  local_addr (tcp l) = platform.tcp_listener.local_addr l >>= λ a. pure (ip a)
  local_addr (unix l) = platform.unix_listener.local_addr l >>= λ a. pure (unix a)

  unfoldable pub accept : Listener → Io W (Connection × Option SocketAddr)
  accept (tcp l) = platform.tcp_listener.accept l >>= λ (conn, addr). pure (tcp conn, some addr)
  accept (unix l) = platform.unix_listener.accept l >>= λ (conn, _). pure (unix conn, none)

  unfoldable pub read : ℕ → Connection → Io W Bytes
  read n (tcp s) = platform.tcp.read n s
  read n (unix s) = platform.unix.read n s

  unfoldable pub write : Bytes → Connection → Io W ℕ
  write buf (tcp s) = platform.tcp.write buf s
  write buf (unix s) = platform.unix.write buf s

  unfoldable pub flush : Connection → Io W (Unit {0})
  flush (tcp s) = platform.tcp.flush s
  flush (unix s) = platform.unix.flush s

  unfoldable pub peer_addr : Connection → Io W (Option SocketAddr)
  peer_addr (tcp s) = platform.tcp.peer_addr s >>= λ a. pure (some a)
  peer_addr (unix s) = pure none

  unfoldable pub shutdown : Shutdown → Connection → Io W (Unit {0})
  shutdown how (tcp s) = platform.tcp.shutdown how s
  shutdown how (unix s) = platform.unix.shutdown how s

  unfoldable pub try_clone : Connection → Io W Connection
  try_clone (tcp s) = platform.tcp.try_clone s >>= λ s'. pure (tcp s')
  try_clone (unix s) = platform.unix.try_clone s >>= λ s'. pure (unix s')

  unfoldable pub as_socket : Socket W Connection (Option SocketAddr)
  unfolding read write flush shutdown try_clone peer_addr
  as_socket = record {
    read = read;
    write = write;
    flush = flush;
    shutdown = shutdown;
    try_clone = try_clone;
    peer_addr = peer_addr;
  }

  -- `from_socket_addrs`, from the answer of `to_socket_addrs`.
  unfoldable pub from_socket_addrs : Io W (List SocketAddr) → Io W ConfigListenAddr
  from_socket_addrs to_socket_addrs = to_socket_addrs >>= λ it. pure (ip it)

  unfoldable pub unix_from_path : PathBuf → ConfigListenAddr
  unix_from_path path = unix path

  unfoldable pub bind : ConfigListenAddr → Io W Listener
  bind (ip a) = platform.tcp_listener.bind a >>= λ l. pure (tcp l)
  bind (unix a) = platform.unix_listener.bind a >>= λ l. pure (unix l)

  unfoldable pub to_ip : ListenAddr → Option SocketAddr
  to_ip (ip s) = some s
  to_ip (unix _) = none

  unfoldable pub to_unix : ListenAddr → Option UnixAddr
  to_unix (ip _) = none
  to_unix (unix s) = some s

  unfoldable pub listen_addr_display : ListenAddr → Text
  listen_addr_display (ip s) = platform.show_ip s
  listen_addr_display (unix s) = platform.debug_unix s
