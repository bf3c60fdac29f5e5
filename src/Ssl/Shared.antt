-- ===== src/Ssl/Shared.antt =====
-- What the TLS implementations of src/ssl/ share: a session of a TLS library behind a mutex, which
-- both halves of a connection hold.
use tiny_http.Prelude.{
  ℕ, ◌+◌, Bool, true, false, Option, none, some, Result, ok, err, if◌then◌else◌, ◌==◌,
}
use tiny_http.Text.{Text, Bytes}
use tiny_http.Io.{ErrorKind, Fault, io, panic, Io, pure}
use tiny_http.Sockets.Platform.{Shutdown, Socket}

-- A `Box<dyn Error>`, by what it was made from, or a panic.
pub data Failure : Type 0 where
  io_error : ErrorKind → Failure
  message : Text → Failure
  library : Failure
  panicked : Failure

-- A mutex is poisoned by a panic of a thread that holds it.
pub record Mutex (T : Type 0) : Type 0 where
  pub value : T
  pub poisoned : Bool

-- The outside world, and the sessions that were allocated, by the number of the allocation.
pub record Machine (W T : Type 0) : Type 0 where
  pub os : W
  pub sessions : ℕ → Option (Mutex T)
  pub allocated : ℕ

-- What a TLS library does with a session `T` over a connection `C`.
pub record Session (W T C : Type 0) : Type 0 where
  pub read : ℕ → Io (T × W) Bytes
  pub write : Bytes → Io (T × W) ℕ
  pub flush : Io (T × W) (Unit {0})
  pub socket : T → C

abbrev has_panicked : {A : Type 0} → Result Fault A → Bool
has_panicked (ok _) = false
has_panicked (err (io _)) = false
has_panicked (err panic) = true

module _ {W T : Type 0} where
  abbrev pub store : ℕ → Mutex T → Machine W T → Machine W T
  store h x m = record m { sessions = λ j. if j == h then some x else m.sessions j }

  abbrev pub put_back :
      {A : Type 0} → ℕ → Machine W T → Result Fault A × (T × W) → Result Fault A × Machine W T
  put_back h m (r, (t, w)) =
      (r, store h (record { value = t; poisoned = has_panicked r }) (record m { os = w }))

  -- `lock`, with the panic on a mutex that is poisoned, and what is done under the lock.
  abbrev pub under :
      {A : Type 0}
      → ℕ
      → Io (T × W) A
      → Machine W T
      → Option (Mutex T)
      → Result Fault A × Machine W T
  under h op m none = (err panic, m)
  under h op m (some x) =
      let held = put_back h m (op (x.value, m.os)) in if x.poisoned then (err panic, m) else held

  unfoldable pub locked : {A : Type 0} → ℕ → Io (T × W) A → Io (Machine W T) A
  locked h op m = under h op m (m.sessions h)

  -- `Arc::new(Mutex::new(t))` on what the library's `accept` returns.
  abbrev pub shared : Result Failure T × W → Machine W T → Result Failure ℕ × Machine W T
  shared (ok t, w) m = (
    ok m.allocated,
    store m.allocated (record { value = t; poisoned = false })
        (record m { os = w; allocated = m.allocated + 1 }),
  )
  shared (err e, w) m = (err e, record m { os = w })

  -- An operation of the world alone.
  abbrev pub outside : {A : Type 0} → Io W A → Io (Machine W T) A
  outside op m = let (r, w) = op m.os in (r, record m { os = w })

  -- An operation on the socket of the session, under the lock.
  abbrev pub beside : {A : Type 0} → Io W A → Io (T × W) A
  beside op (t, w) = let (r, w') = op w in (r, (t, w'))

  abbrev pub over : {C A : Type 0} → (T → C) → (C → Io W A) → Io (T × W) A
  over socket op (t, w) = beside (op (socket t)) (t, w)

-- The socket of the system, on the machine.
abbrev pub outside_socket : {W T C Addr : Type 0} → Socket W C Addr → Socket (Machine W T) C Addr
outside_socket tcp = record {
  read = λ n s. outside (tcp.read n s);
  write = λ buf s. outside (tcp.write buf s);
  flush = λ s. outside (tcp.flush s);
  shutdown = λ how s. outside (tcp.shutdown how s);
  try_clone = λ s. outside (tcp.try_clone s);
  peer_addr = λ s. outside (tcp.peer_addr s);
}

-- The operations of a stream of a TLS library that is shared by its halves: each takes the lock.
module _ {W T C Addr : Type 0} (tcp : Socket W C Addr) (lib : Session W T C) where
  abbrev pub shared_peer_addr : ℕ → Io (Machine W T) Addr
  unfolding locked
  shared_peer_addr h = locked h (over lib.socket tcp.peer_addr)

  abbrev pub shared_shutdown : Shutdown → ℕ → Io (Machine W T) (Unit {0})
  unfolding locked
  shared_shutdown how h = locked h (over lib.socket (tcp.shutdown how))

  abbrev pub shared_clone : ℕ → Io (Machine W T) ℕ
  shared_clone h = pure h

  abbrev pub shared_read : ℕ → ℕ → Io (Machine W T) Bytes
  unfolding locked
  shared_read n h = locked h (lib.read n)

  abbrev pub shared_write : Bytes → ℕ → Io (Machine W T) ℕ
  unfolding locked
  shared_write buf h = locked h (lib.write buf)

  abbrev pub shared_flush : ℕ → Io (Machine W T) (Unit {0})
  unfolding locked
  shared_flush h = locked h lib.flush
