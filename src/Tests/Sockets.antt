-- ===== src/Tests/Sockets.antt =====
-- Runs about sockets, over a system that keeps for each connection which sides are shut.
use tiny_http.Prelude.{ℕ, ◌≡◌, refl, sym, false, List, [], ◌∷◌, ok}
use tiny_http.Sockets.Platform.{Socket}
use tiny_http.Sockets.Contract.{Side, Sides, reading, writing, closed, IsSocket}
use tiny_http.Sockets.RefinedTcpStream.{http, new, halves}
use tiny_http.Sockets.Halves.{Call, reads, writes, drops, run, start}
use tiny_http.Sockets.Halves.Shut.{Inv, new-Inv}
use tiny_http.Ssl.Shared.{Session}
use tiny_http.Ssl.Contract.{IsSession, Owned, shared_socket, shared-IsSocket}

-- A descriptor is the number of its connection; nothing ever arrives.
abbrev toy : Socket Sides ℕ ℕ
toy = record {
  read = λ n s w. (ok [], w);
  write = λ buf s w. (ok 0, w);
  flush = λ s w. (ok tt, w);
  shutdown = λ how s w. (ok tt, closed how s w);
  try_clone = λ s w. (ok s, w);
  peer_addr = λ s w. (ok s, w);
}

abbrev Anything : Sides → Type 0
Anything w = Unit {0}

toy-IsSocket : IsSocket Anything (λ w. w) toy (λ s. s)
toy-IsSocket = record {
  read_keeps = λ n s w v. (tt, refl);
  write_keeps = λ buf s w v. (tt, refl);
  flush_keeps = λ s w v. (tt, refl);
  peer_keeps = λ s w v. (tt, refl);
  clone_keeps = λ s w v. (tt, refl);
  clone_same = λ s s' w v e. let same : s ≡ s' = cc in sym same;
  shutdown_sides = λ how s w v. (tt, refl);
}

abbrev all_open : Sides
all_open q side = false

-- The half that reads is used and dropped; the half that writes stays.
abbrev calls : List (Side × Call)
calls = (reading, reads 4) ∷ (writing, writes []) ∷ (reading, drops) ∷ (reading, reads 4) ∷ []

new-Inv_example :
    Inv toy-IsSocket toy-IsSocket 3 all_open
      (run toy toy (halves toy toy (http 3) (http 3)) calls (start all_open))
unfolding new
new-Inv_example = new-Inv toy-IsSocket toy-IsSocket (http 3) all_open all_open _ calls tt refl

-- A session is the number of the connection below it; nothing is encrypted.
abbrev plain : Session Sides ℕ ℕ
plain = record {
  read = λ n s. (ok [], s);
  write = λ buf s. (ok 0, s);
  flush = λ s. (ok tt, s);
  socket = λ t. t;
}

plain-IsSession : IsSession plain Anything (λ w. w) (λ s. s)
plain-IsSession = record {
  reads = λ n t w v. (tt, refl, refl);
  writes = λ buf t w v. (tt, refl, refl);
  flushes = λ t w v. (tt, refl, refl);
}

shared-IsSocket_example :
    IsSocket
      (Owned plain Anything (λ w. w) (λ s. s) (λ h. h))
      (λ m. m.os)
      (shared_socket toy plain)
      (λ h. h)
shared-IsSocket_example = shared-IsSocket plain (λ h. h) toy-IsSocket plain-IsSession
