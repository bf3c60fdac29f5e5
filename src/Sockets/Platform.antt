-- ===== src/Sockets/Platform.antt =====
-- What the server uses of the sockets of the operating system, over a state `W` of the outside world.
use tiny_http.Prelude.{ℕ, List, Option}
use tiny_http.Text.{Text, Bytes}
use tiny_http.Io.{Io}

-- `std::net::Shutdown`.
pub data Shutdown : Type 0 where
  read write both : Shutdown

-- A connected socket, as a descriptor `S`; `Addr` is what it knows its peer by.
pub record Socket (W S Addr : Type 0) : Type 0 where
  pub read : ℕ → S → Io W Bytes
  pub write : Bytes → S → Io W ℕ
  pub flush : S → Io W (Unit {0})
  pub shutdown : Shutdown → S → Io W (Unit {0})
  pub try_clone : S → Io W S
  pub peer_addr : S → Io W Addr

-- A listening socket `L`, which is bound to a `Place` and accepts connections `S`.
pub record Listens (W L S Addr Place : Type 0) : Type 0 where
  pub bind : Place → Io W L
  pub local_addr : L → Io W Addr
  pub accept : L → Io W (S × Addr)

-- The two families of sockets, and files.
pub record Platform : Type 1 where
  pub W : Type 0
  pub SocketAddr : Type 0
  pub UnixAddr : Type 0
  pub PathBuf : Type 0
  pub TcpListener : Type 0
  pub TcpStream : Type 0
  pub UnixListener : Type 0
  pub UnixStream : Type 0
  pub tcp : Socket W TcpStream SocketAddr
  pub unix : Socket W UnixStream UnixAddr
  pub tcp_listener : Listens W TcpListener TcpStream SocketAddr (List SocketAddr)
  pub unix_listener : Listens W UnixListener UnixStream UnixAddr PathBuf
  -- `Display` of an address, and `Debug` of one of a Unix socket
  pub show_ip : SocketAddr → Text
  pub debug_unix : UnixAddr → Text
  pub tcp_connect : SocketAddr → Io W TcpStream
  pub unix_connect : PathBuf → Io W UnixStream
  pub as_pathname : UnixAddr → Option PathBuf
  pub remove_file : PathBuf → Io W (Unit {0})
