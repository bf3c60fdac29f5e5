-- ===== src/Ssl/Rustls.antt =====
-- src/ssl/rustls.rs.
use tiny_http.Prelude.{ℕ, List, [], ◌∷◌, Result, ok, err, ◌>>=◌}
use tiny_http.Text.{Bytes, codes}
use tiny_http.Io.{Io}
use tiny_http.Sockets.Platform.{Shutdown, Socket}
use tiny_http.Ssl.{Ssl}
use tiny_http.Ssl.Shared.{
  Failure, message, panicked, Machine, Session, shared, shared_peer_addr, shared_shutdown,
  shared_clone, shared_read, shared_write, shared_flush,
}

-- What the code uses of the crates `rustls` and `rustls_pemfile`; a session is a
-- `StreamOwned<ServerConnection, Connection>`.
pub record Rustls (W T C : Type 0) : Type 1 where
  pub ServerConfig : Type 0
  pub ServerConnection : Type 0
  pub session : Session W T C
  pub certs : Bytes → Result Failure (List Bytes)
  pub pkcs8_private_keys : Bytes → Result Failure (List Bytes)
  pub rsa_private_keys : Bytes → Result Failure (List Bytes)
  pub with_single_cert : List Bytes → Bytes → Result Failure ServerConfig
  pub new_connection : ServerConfig → Result Failure ServerConnection
  pub stream_owned : ServerConnection → C → T

-- `Result::expect`.
abbrev pub expect : {A : Type 0} → Result Failure A → Result Failure A
expect (ok a) = ok a
expect (err e) = err panicked

-- `is_empty` on the chain, and the error.
abbrev pub checked_chain : List Bytes → Result Failure (List Bytes)
checked_chain [] = err (message (codes "Couldn't extract certificate chain from config."))
checked_chain (c ∷ cs) = ok (c ∷ cs)

-- `rsa_keys[0]`.
abbrev pub first_rsa : List Bytes → Result Failure Bytes
first_rsa [] = err panicked
first_rsa (k ∷ ks) = ok k

module _ {W T C Addr : Type 0} (tcp : Socket W C Addr) (lib : Rustls W T C) where
  open lib use {ServerConfig, ServerConnection, session}

  -- The operations of the stream.
  unfoldable pub peer_addr : ℕ → Io (Machine W T) Addr
  peer_addr = shared_peer_addr tcp session

  unfoldable pub shutdown : Shutdown → ℕ → Io (Machine W T) (Unit {0})
  shutdown = shared_shutdown tcp session

  unfoldable pub clone : ℕ → Io (Machine W T) ℕ
  clone = shared_clone tcp session

  unfoldable pub read : ℕ → ℕ → Io (Machine W T) Bytes
  read = shared_read tcp session

  unfoldable pub write : Bytes → ℕ → Io (Machine W T) ℕ
  write = shared_write tcp session

  unfoldable pub flush : ℕ → Io (Machine W T) (Unit {0})
  flush = shared_flush tcp session

  unfoldable pub stream : Socket (Machine W T) ℕ Addr
  unfolding peer_addr shutdown clone read write flush
  stream = record {
    read = read;
    write = write;
    flush = flush;
    shutdown = shutdown;
    try_clone = clone;
    peer_addr = peer_addr;
  }

  -- The key: the first one in PKCS #8, or else the first one in the form of RSA.
  abbrev pub pkcs8_or_rsa : Bytes → List Bytes → Result Failure Bytes
  pkcs8_or_rsa private_key (k ∷ ks) = ok k
  pkcs8_or_rsa private_key [] = do
    rsa_keys ← expect (lib.rsa_private_keys private_key)
    first_rsa rsa_keys

  unfoldable pub choose_key : Bytes → Result Failure Bytes
  choose_key private_key = do
    pkcs8_keys ← expect (lib.pkcs8_private_keys private_key)
    pkcs8_or_rsa private_key pkcs8_keys

  unfoldable pub from_pem : Bytes → Bytes → Result Failure ServerConfig
  unfolding choose_key
  from_pem certificates private_key = do
    parsed ← lib.certs certificates
    certificate_chain ← checked_chain parsed
    key ← choose_key private_key
    lib.with_single_cert certificate_chain key

  -- No byte is sent or received yet: the handshake is part of the first read or write.
  abbrev pub owned : Result Failure ServerConnection → C → W → Result Failure T × W
  owned (ok connection) sock w = (ok (lib.stream_owned connection sock), w)
  owned (err e) sock w = (err e, w)

  unfoldable pub accept : ServerConfig → C → Machine W T → Result Failure ℕ × Machine W T
  accept config sock m = shared (owned (lib.new_connection config) sock m.os) m

  unfoldable pub implementation : Ssl W T C Addr
  unfolding from_pem accept stream
  implementation = record {
    Context = ServerConfig;
    from_pem = from_pem;
    accept = accept;
    stream = stream;
  }
