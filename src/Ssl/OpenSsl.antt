-- ===== src/Ssl/OpenSsl.antt =====
-- src/ssl/openssl.rs.
use tiny_http.Prelude.{ℕ, List, [], ◌∷◌, Result, ok, err, ◌>>=◌}
use tiny_http.Text.{Text, Bytes, codes}
use tiny_http.Io.{Io}
use tiny_http.Sockets.Platform.{Shutdown, Socket}
use tiny_http.Ssl.{Ssl}
use tiny_http.Ssl.Shared.{
  Failure, message, panicked, Machine, Session, shared, shared_peer_addr, shared_shutdown,
  shared_clone, shared_read, shared_write, shared_flush,
}

-- What the code uses of the crate `openssl`; a session is an `SslStream<Connection>`.
pub record OpenSsl (W T C : Type 0) : Type 1 where
  pub Builder : Type 0
  pub Context : Type 0
  pub X509 : Type 0
  pub Key : Type 0
  pub Handshake : Type 0
  pub session : Session W T C
  pub builder : Result Failure Builder
  pub set_cipher_list : Text → Builder → Result Failure Builder
  pub stack_from_pem : Bytes → Result Failure (List X509)
  pub set_certificate : X509 → Builder → Result Failure Builder
  pub add_extra_chain_cert : X509 → Builder → Result Failure Builder
  pub private_key_from_pem : Bytes → Result Failure Key
  pub set_private_key : Key → Builder → Result Failure Builder
  pub set_verify_none : Builder → Builder
  pub check_private_key : Builder → Result Failure (Unit {0})
  pub build : Builder → Context
  pub new_session : Context → Result Failure Handshake
  pub handshake : Handshake → C → W → Result Failure T × W

module _ {W T C Addr : Type 0} (tcp : Socket W C Addr) (lib : OpenSsl W T C) where
  open lib use {Builder, Context, X509, session, Handshake}

  -- The operations of the stream.
  unfoldable pub peer_addr : ℕ → Io (Machine W T) Addr
  peer_addr = shared_peer_addr tcp session

  unfoldable pub shutdown : Shutdown → ℕ → Io (Machine W T) (Unit {0})
  shutdown = shared_shutdown tcp session

  unfoldable pub clone : ℕ → Io (Machine W T) ℕ
  clone = shared_clone tcp session

  unfoldable pub read : ℕ → ℕ → Io (Machine W T) Bytes
  read = shared_read tcp session

  unfoldable pub write : Bytes → ℕ → Io (Machine W T) ℕ
  write = shared_write tcp session

  unfoldable pub flush : ℕ → Io (Machine W T) (Unit {0})
  flush = shared_flush tcp session

  unfoldable pub stream : Socket (Machine W T) ℕ Addr
  unfolding peer_addr shutdown clone read write flush
  stream = record {
    read = read;
    write = write;
    flush = flush;
    shutdown = shutdown;
    try_clone = clone;
    peer_addr = peer_addr;
  }

  -- The rest of the chain, in its order.
  unfoldable pub add_chain : List X509 → Builder → Result Failure Builder
  add_chain [] ctx = ok ctx
  add_chain (cert ∷ certs) ctx = lib.add_extra_chain_cert cert ctx >>= add_chain certs

  -- The leaf certificate is the first one.
  abbrev pub set_chain : List X509 → Builder → Result Failure Builder
  unfolding add_chain
  set_chain [] ctx = err (message (codes "Couldn't extract certificate chain from config."))
  set_chain (leaf ∷ rest) ctx = lib.set_certificate leaf ctx >>= add_chain rest

  unfoldable pub from_pem : Bytes → Bytes → Result Failure Context
  from_pem certificates private_key = do
    ctx ← lib.builder
    ctx ← lib.set_cipher_list (codes "DEFAULT") ctx
    certificate_chain ← lib.stack_from_pem certificates
    ctx ← set_chain certificate_chain ctx
    key ← lib.private_key_from_pem private_key
    ctx ← lib.set_private_key key ctx
    _ ← lib.check_private_key (lib.set_verify_none ctx)
    ok (lib.build (lib.set_verify_none ctx))

  -- A session that cannot be made is a panic; a handshake that fails is an error.
  abbrev pub shaken : Result Failure Handshake → C → W → Result Failure T × W
  shaken (ok h) sock w = lib.handshake h sock w
  shaken (err e) sock w = (err panicked, w)

  unfoldable pub accept : Context → C → Machine W T → Result Failure ℕ × Machine W T
  accept context sock m = shared (shaken (lib.new_session context) sock m.os) m

  unfoldable pub implementation : Ssl W T C Addr
  unfolding from_pem accept stream
  implementation = record {
    Context = Context;
    from_pem = from_pem;
    accept = accept;
    stream = stream;
  }
