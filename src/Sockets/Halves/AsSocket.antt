-- ===== src/Sockets/Halves/AsSocket.antt =====
-- A stream, plain or over TLS, is a socket where both are.
use tiny_http.Prelude.{ℕ, ◌≡◌, Result, ok, err}
use tiny_http.Text.{Bytes}
use tiny_http.Io.{Fault}
use tiny_http.Sockets.Platform.{Shutdown, Socket}
use tiny_http.Sockets.Contract.{Sides, after_shutdown, Keeps, IsSocket, map-Keeps, map_value}
use tiny_http.Sockets.RefinedTcpStream.{
  Stream, http, https, unwrap, unwrapped, stream_clone, stream_peer_addr, stream_shutdown,
  stream_read, stream_write, stream_flush,
}

module _ {M C H Addr : Type 0} (tcp : Socket M C Addr) (ssl : Socket M H Addr) where
  abbrev pub as_socket : Socket M (Stream C H) Addr
  as_socket = record {
    read = stream_read tcp ssl;
    write = stream_write tcp ssl;
    flush = stream_flush tcp ssl;
    shutdown = stream_shutdown tcp ssl;
    try_clone = stream_clone tcp ssl;
    peer_addr = stream_peer_addr tcp ssl;
  }

abbrev pub of_stream : {C H : Type 0} → (C → ℕ) → (H → ℕ) → Stream C H → ℕ
of_stream f g (http c) = f c
of_stream f g (https h) = g h

unwrapped-ok : {A : Type 0} {a : A} (r : Result Fault A) → unwrapped r ≡ ok a → r ≡ ok a
unwrapped-ok (ok b) e = e
unwrapped-ok (err f) e = absurd cc

module _ {M C H Addr : Type 0} {tcp : Socket M C Addr} {ssl : Socket M H Addr} {Valid : M → Type 0}
    {shut : M → Sides} {f : C → ℕ} {g : H → ℕ} (a : IsSocket Valid shut tcp f)
    (b : IsSocket Valid shut ssl g) where
  clone-Keeps : (s : Stream C H) → Keeps Valid shut (stream_clone tcp ssl s)
  unfolding stream_clone
  clone-Keeps (http c) = map-Keeps http (unwrap (tcp.try_clone c)) (a.clone_keeps c)
  clone-Keeps (https h) = map-Keeps https (ssl.try_clone h) (b.clone_keeps h)

  clone_same :
      (s s' : Stream C H) (m : M)
      → Valid m
      → (stream_clone tcp ssl s m).0 ≡ ok s'
      → of_stream f g s' ≡ of_stream f g s
  unfolding stream_clone
  clone_same (http c) s' m v e =
      let (c', cloned, same) = map_value http (unwrap (tcp.try_clone c) m) s' e in
      rw same (a.clone_same c c' m v (unwrapped-ok (tcp.try_clone c m).0 cloned))
  clone_same (https h) s' m v e =
      let (h', cloned, same) = map_value https (ssl.try_clone h m) s' e in
      rw same (b.clone_same h h' m v cloned)

  read-Keeps : (n : ℕ) (s : Stream C H) → Keeps Valid shut (stream_read tcp ssl n s)
  unfolding stream_read
  read-Keeps n (http c) = a.read_keeps n c
  read-Keeps n (https h) = b.read_keeps n h

  write-Keeps : (buf : Bytes) (s : Stream C H) → Keeps Valid shut (stream_write tcp ssl buf s)
  unfolding stream_write
  write-Keeps buf (http c) = a.write_keeps buf c
  write-Keeps buf (https h) = b.write_keeps buf h

  flush-Keeps : (s : Stream C H) → Keeps Valid shut (stream_flush tcp ssl s)
  unfolding stream_flush
  flush-Keeps (http c) = a.flush_keeps c
  flush-Keeps (https h) = b.flush_keeps h

  peer-Keeps : (s : Stream C H) → Keeps Valid shut (stream_peer_addr tcp ssl s)
  unfolding stream_peer_addr
  peer-Keeps (http c) = a.peer_keeps c
  peer-Keeps (https h) = b.peer_keeps h

  shutdown_sides :
      (how : Shutdown) (s : Stream C H) (m : M)
      → Valid m
      → Valid (stream_shutdown tcp ssl how s m).1
        × (shut (stream_shutdown tcp ssl how s m).1
            ≡ after_shutdown (stream_shutdown tcp ssl how s m).0 how (of_stream f g s) (shut m))
  unfolding stream_shutdown
  shutdown_sides how (http c) = a.shutdown_sides how c
  shutdown_sides how (https h) = b.shutdown_sides how h

  pub stream-IsSocket : IsSocket Valid shut (as_socket tcp ssl) (of_stream f g)
  stream-IsSocket = record {
    read_keeps = read-Keeps;
    write_keeps = write-Keeps;
    flush_keeps = flush-Keeps;
    peer_keeps = peer-Keeps;
    clone_keeps = clone-Keeps;
    clone_same = clone_same;
    shutdown_sides = shutdown_sides;
  }
