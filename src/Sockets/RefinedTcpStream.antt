-- ===== src/Sockets/RefinedTcpStream.antt =====
-- src/util/refined_tcp_stream.rs: a connection, plain or over TLS, as two halves that each shut their
-- own side when they are dropped.
use tiny_http.Prelude.{ℕ, Bool, true, false, Result, ok, err}
use tiny_http.Text.{Bytes}
use tiny_http.Io.{Fault, panic, Io, ◌>>=◌, ◌>>◌, pure, ignored}
use tiny_http.Sockets.Platform.{Shutdown, read, write, Socket}

-- `SslStream` is the alias of `ssl.rs` for the stream of the TLS implementation.
pub data Stream (C H : Type 0) : Type 0 where
  http : C → Stream C H
  https : H → Stream C H

pub record RefinedTcpStream (C H : Type 0) : Type 0 where
  pub stream : Stream C H
  pub close_read : Bool
  pub close_write : Bool

-- `Result::unwrap`.
abbrev pub unwrapped : {A : Type 0} → Result Fault A → Result Fault A
unwrapped (ok a) = ok a
unwrapped (err f) = err panic

abbrev pub unwrap : {M A : Type 0} → Io M A → Io M A
unwrap op m = let (r, m') = op m in (unwrapped r, m')

module _ {M C H Addr : Type 0} (tcp : Socket M C Addr) (ssl : Socket M H Addr) where
  unfoldable pub stream_clone : Stream C H → Io M (Stream C H)
  stream_clone (http s) = unwrap (tcp.try_clone s) >>= λ s'. pure (http s')
  stream_clone (https s) = ssl.try_clone s >>= λ s'. pure (https s')

  unfoldable pub stream_secure : Stream C H → Bool
  stream_secure (http _) = false
  stream_secure (https _) = true

  unfoldable pub stream_peer_addr : Stream C H → Io M Addr
  stream_peer_addr (http s) = tcp.peer_addr s
  stream_peer_addr (https s) = ssl.peer_addr s

  unfoldable pub stream_shutdown : Shutdown → Stream C H → Io M (Unit {0})
  stream_shutdown how (http s) = tcp.shutdown how s
  stream_shutdown how (https s) = ssl.shutdown how s

  unfoldable pub stream_read : ℕ → Stream C H → Io M Bytes
  stream_read n (http s) = tcp.read n s
  stream_read n (https s) = ssl.read n s

  unfoldable pub stream_write : Bytes → Stream C H → Io M ℕ
  stream_write buf (http s) = tcp.write buf s
  stream_write buf (https s) = ssl.write buf s

  unfoldable pub stream_flush : Stream C H → Io M (Unit {0})
  stream_flush (http s) = tcp.flush s
  stream_flush (https s) = ssl.flush s

  abbrev pub halves : Stream C H → Stream C H → RefinedTcpStream C H × RefinedTcpStream C H
  halves cloned stream = (
    record { stream = cloned; close_read = true; close_write = false },
    record { stream = stream; close_read = false; close_write = true },
  )

  -- The half that reads, and the half that writes.
  unfoldable pub new : Stream C H → Io M (RefinedTcpStream C H × RefinedTcpStream C H)
  unfolding stream_clone
  new stream = stream_clone stream >>= λ cloned. pure (halves cloned stream)

  unfoldable pub secure : RefinedTcpStream C H → Bool
  unfolding stream_secure
  secure s = stream_secure s.stream

  unfoldable pub peer_addr : RefinedTcpStream C H → Io M Addr
  unfolding stream_peer_addr
  peer_addr s = stream_peer_addr s.stream

  abbrev pub shut_if : Bool → Shutdown → RefinedTcpStream C H → Io M (Unit {0})
  unfolding stream_shutdown
  shut_if true how s = ignored (stream_shutdown how s.stream)
  shut_if false how s = pure tt

  unfoldable pub drop : RefinedTcpStream C H → Io M (Unit {0})
  drop s = do shut_if s.close_read read s; shut_if s.close_write write s

  unfoldable pub refined_read : ℕ → RefinedTcpStream C H → Io M Bytes
  unfolding stream_read
  refined_read n s = stream_read n s.stream

  unfoldable pub refined_write : Bytes → RefinedTcpStream C H → Io M ℕ
  unfolding stream_write
  refined_write buf s = stream_write buf s.stream

  unfoldable pub refined_flush : RefinedTcpStream C H → Io M (Unit {0})
  unfolding stream_flush
  refined_flush s = stream_flush s.stream
