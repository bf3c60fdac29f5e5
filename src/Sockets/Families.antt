-- ===== src/Sockets/Families.antt =====
-- A `Connection` keeps the contract of a socket where the sockets of both families do.
use tiny_http.Prelude.{ℕ, ◌≡◌, refl, some, ok}
use tiny_http.Text.{Bytes}
use tiny_http.Sockets.Platform.{Shutdown, Platform}
use tiny_http.Sockets.Contract.{Sides, after_shutdown, Keeps, IsSocket, map-Keeps, map_value}
use tiny_http.Sockets.Connection.{
  Connection, tcp, unix, as_socket, read, write, flush, peer_addr, shutdown, try_clone,
}

module _ (platform : Platform) where
  open platform use {W, TcpStream, UnixStream}

  abbrev pub open_connection : (TcpStream → ℕ) → (UnixStream → ℕ) → Connection platform → ℕ
  open_connection f g (tcp s) = f s
  open_connection f g (unix s) = g s

  module _ {Valid : W → Type 0} {shut : W → Sides} {f : TcpStream → ℕ} {g : UnixStream → ℕ}
      (a : IsSocket Valid shut platform.tcp f) (b : IsSocket Valid shut platform.unix g) where
    clone-Keeps : (c : Connection platform) → Keeps Valid shut (try_clone platform c)
    unfolding try_clone
    clone-Keeps (tcp s) = map-Keeps tcp (platform.tcp.try_clone s) (a.clone_keeps s)
    clone-Keeps (unix s) = map-Keeps unix (platform.unix.try_clone s) (b.clone_keeps s)

    clone_same :
        (c c' : Connection platform) (w : W)
        → Valid w
        → (try_clone platform c w).0 ≡ ok c'
        → open_connection f g c' ≡ open_connection f g c
    unfolding try_clone
    clone_same (tcp s) c' w v e =
        let (s', cloned, same) = map_value tcp (platform.tcp.try_clone s w) c' e in
        rw same (a.clone_same s s' w v cloned)
    clone_same (unix s) c' w v e =
        let (s', cloned, same) = map_value unix (platform.unix.try_clone s w) c' e in
        rw same (b.clone_same s s' w v cloned)

    read-Keeps : (n : ℕ) (c : Connection platform) → Keeps Valid shut (read platform n c)
    unfolding read
    read-Keeps n (tcp s) = a.read_keeps n s
    read-Keeps n (unix s) = b.read_keeps n s

    write-Keeps : (buf : Bytes) (c : Connection platform) → Keeps Valid shut (write platform buf c)
    unfolding write
    write-Keeps buf (tcp s) = a.write_keeps buf s
    write-Keeps buf (unix s) = b.write_keeps buf s

    flush-Keeps : (c : Connection platform) → Keeps Valid shut (flush platform c)
    unfolding flush
    flush-Keeps (tcp s) = a.flush_keeps s
    flush-Keeps (unix s) = b.flush_keeps s

    peer-Keeps : (c : Connection platform) → Keeps Valid shut (peer_addr platform c)
    unfolding peer_addr
    peer-Keeps (tcp s) = map-Keeps some (platform.tcp.peer_addr s) (a.peer_keeps s)
    peer-Keeps (unix s) = λ w v. (v, refl)

    shutdown_sides :
        (how : Shutdown) (c : Connection platform) (w : W)
        → Valid w
        → Valid (shutdown platform how c w).1
          × (shut (shutdown platform how c w).1
              ≡ after_shutdown (shutdown platform how c w).0 how (open_connection f g c) (shut w))
    unfolding shutdown
    shutdown_sides how (tcp s) = a.shutdown_sides how s
    shutdown_sides how (unix s) = b.shutdown_sides how s

    -- If the sockets of both families keep the contract, so does a `Connection`, which dispatches to
    -- them: only its `shutdown` shuts sides, those that it names, and a clone is the same connection.
    pub connection-IsSocket : IsSocket Valid shut (as_socket platform) (open_connection f g)
    unfolding as_socket
    connection-IsSocket = record {
      read_keeps = read-Keeps;
      write_keeps = write-Keeps;
      flush_keeps = flush-Keeps;
      peer_keeps = peer-Keeps;
      clone_keeps = clone-Keeps;
      clone_same = clone_same;
      shutdown_sides = shutdown_sides;
    }
