-- ===== src/Ssl/NativeTls.antt =====
-- src/ssl/native_tls.rs.
use tiny_http.Prelude.{ℕ, Result, ◌>>=◌}
use tiny_http.Text.{Bytes}
use tiny_http.Io.{Io}
use tiny_http.Sockets.Platform.{Shutdown, Socket}
use tiny_http.Ssl.{Ssl}
use tiny_http.Ssl.Shared.{
  Failure, Machine, Session, shared, shared_peer_addr, shared_shutdown, shared_clone, shared_read,
  shared_write, shared_flush,
}

-- What the code uses of the crate `native_tls`; a session is a `TlsStream<Connection>`.
pub record NativeTls (W T C : Type 0) : Type 1 where
  pub Identity : Type 0
  pub TlsAcceptor : Type 0
  pub session : Session W T C
  pub from_pkcs8 : Bytes → Bytes → Result Failure Identity
  pub acceptor : Identity → Result Failure TlsAcceptor
  pub handshake : TlsAcceptor → C → W → Result Failure T × W

module _ {W T C Addr : Type 0} (tcp : Socket W C Addr) (lib : NativeTls W T C) where
  open lib use {TlsAcceptor, session}

  -- The operations of the stream.
  unfoldable pub peer_addr : ℕ → Io (Machine W T) Addr
  peer_addr = shared_peer_addr tcp session

  unfoldable pub shutdown : Shutdown → ℕ → Io (Machine W T) (Unit {0})
  shutdown = shared_shutdown tcp session

  unfoldable pub clone : ℕ → Io (Machine W T) ℕ
  clone = shared_clone tcp session

  unfoldable pub read : ℕ → ℕ → Io (Machine W T) Bytes
  read = shared_read tcp session

  unfoldable pub write : Bytes → ℕ → Io (Machine W T) ℕ
  write = shared_write tcp session

  unfoldable pub flush : ℕ → Io (Machine W T) (Unit {0})
  flush = shared_flush tcp session

  unfoldable pub stream : Socket (Machine W T) ℕ Addr
  unfolding peer_addr shutdown clone read write flush
  stream = record {
    read = read;
    write = write;
    flush = flush;
    shutdown = shutdown;
    try_clone = clone;
    peer_addr = peer_addr;
  }

  unfoldable pub from_pem : Bytes → Bytes → Result Failure TlsAcceptor
  from_pem certificates private_key = do
    identity ← lib.from_pkcs8 certificates private_key
    lib.acceptor identity

  unfoldable pub accept : TlsAcceptor → C → Machine W T → Result Failure ℕ × Machine W T
  accept context sock m = shared (lib.handshake context sock m.os) m

  unfoldable pub implementation : Ssl W T C Addr
  unfolding from_pem accept stream
  implementation = record {
    Context = TlsAcceptor;
    from_pem = from_pem;
    accept = accept;
    stream = stream;
  }
