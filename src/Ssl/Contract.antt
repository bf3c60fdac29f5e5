-- ===== src/Ssl/Contract.antt =====
-- A session that is shared behind a mutex keeps the contract of a socket, as the socket below it does.
use tiny_http.Prelude.{
  ℕ, ◌≡◌, refl, Option, none, some, Result, err, if◌then◌else◌, ◌==◌, Bool-cases, some_inj, ==_iff,
  ap, sym, ◌∙◌, inl, inr,
}
use tiny_http.Text.{Bytes}
use tiny_http.Io.{Fault, panic, Io}
use tiny_http.Sockets.Platform.{Socket}
use tiny_http.Sockets.Contract.{Sides, after_shutdown, IsSocket}
use tiny_http.Ssl.Shared.{
  Mutex, Machine, Session, under, locked, outside_socket, over, shared_peer_addr, shared_shutdown,
  shared_clone, shared_read, shared_write, shared_flush,
}

module _ {W T C Addr : Type 0} (tcp : Socket W C Addr) (lib : Session W T C) where
  -- The operations of the session as those of a socket.
  abbrev pub shared_socket : Socket (Machine W T) ℕ Addr
  shared_socket = record {
    read = shared_read tcp lib;
    write = shared_write tcp lib;
    flush = shared_flush tcp lib;
    shutdown = shared_shutdown tcp lib;
    try_clone = shared_clone tcp lib;
    peer_addr = shared_peer_addr tcp lib;
  }

-- What an operation does to the sides, by its result.
abbrev pub Effect : Type 0 → Type 0
Effect A = Result Fault A → ℕ → Sides → Sides

abbrev none_shut : {A : Type 0} → Effect A
none_shut r p s = s

module _ {W T C : Type 0} (lib : Session W T C) (Valid : W → Type 0) (shut : W → Sides)
    (connection_of : C → ℕ) where
  -- A library keeps the socket of a session, and shuts a side only where `effect` says so.
  abbrev pub Moves : {A : Type 0} → Effect A → Io (T × W) A → Type 0
  Moves effect op =
      (t : T) (w : W)
      → Valid w
      → Valid (op (t, w)).1.1
        × (connection_of (lib.socket (op (t, w)).1.0) ≡ connection_of (lib.socket t))
        × (shut (op (t, w)).1.1 ≡ effect (op (t, w)).0 (connection_of (lib.socket t)) (shut w))

  pub record IsSession : Type 0 where
    pub reads : (n : ℕ) → Moves none_shut (lib.read n)
    pub writes : (buf : Bytes) → Moves none_shut (lib.write buf)
    pub flushes : Moves none_shut lib.flush

  -- Session `h` stands on the connection `owner h`.
  abbrev pub Owned : (ℕ → ℕ) → Machine W T → Type 0
  Owned owner m =
      Valid m.os
      × ((h : ℕ) (x : Mutex T)
          → m.sessions h ≡ some x
          → connection_of (lib.socket x.value) ≡ owner h)

  kept_owner :
      (owner : ℕ → ℕ) (h : ℕ) (x : Mutex T) (x' : Mutex T) (sessions : ℕ → Option (Mutex T))
      → ((j : ℕ) (y : Mutex T) → sessions j ≡ some y → connection_of (lib.socket y.value) ≡ owner j)
      → connection_of (lib.socket x'.value) ≡ connection_of (lib.socket x.value)
      → sessions h ≡ some x
      → (j : ℕ) (y : Mutex T) → (if j == h then some x' else sessions j) ≡ some y
      → connection_of (lib.socket y.value) ≡ owner j
  kept_owner owner h x x' sessions own same here j y e = elim (Bool-cases (j == h)) [
    | inl this ↦
        let found = some_inj (rw this at e) in
        ap (λ z. connection_of (lib.socket z.value)) (sym found)
        ∙ same
        ∙ own h x here
        ∙ ap owner (sym ((==_iff j h).0 this))
    | inr other ↦ own j y (rw other at e)
  ]

  -- What holds after an operation under the lock of session `h`.
  abbrev After :
      {A : Type 0} → (ℕ → ℕ) → ℕ → Effect A → Sides → Result Fault A × Machine W T → Type 0
  After owner h effect before (r, m) = Owned owner m × (shut m.os ≡ effect r (owner h) before)

  locked_sides :
      {A : Type 0} (owner : ℕ → ℕ) (h : ℕ) (effect : Effect A) (op : Io (T × W) A) (m : Machine W T)
      → Moves effect op
      → ((p : ℕ) (s : Sides) → effect (err panic) p s ≡ s)
      → Owned owner m
      → After owner h effect (shut m.os) (locked h op m)
  unfolding locked
  locked_sides {A} owner h effect op m moves idle (v, own) = go (m.sessions h) refl
    where
      go :
          (o : Option (Mutex T))
          → m.sessions h ≡ o
          → After owner h effect (shut m.os) (under h op m o)
      go none gone = ((v, own), sym (idle (owner h) (shut m.os)))
      go (some x) here = elim (Bool-cases x.poisoned) [
        | inl bad ↦ rw bad ((v, own), sym (idle (owner h) (shut m.os)))
        | inr fine ↦
            let (v', same, sides) = moves x.value m.os v in
            rw fine
              ((v', kept_owner owner h x _ m.sessions own same here), rw (← own h x here) sides)
      ]

module _ {W T C Addr : Type 0} {tcp : Socket W C Addr} (lib : Session W T C) {Valid : W → Type 0}
    {shut : W → Sides} {connection_of : C → ℕ} where
  -- The socket itself keeps the contract beside the sessions.
  pub outside-IsSocket :
      (owner : ℕ → ℕ)
      → IsSocket Valid shut tcp connection_of
      → IsSocket
          (Owned lib Valid shut connection_of owner)
          (λ m. shut m.os)
          (outside_socket tcp)
          connection_of
  outside-IsSocket owner a = record {
    read_keeps = λ n s m (v, own). let (v', e) = a.read_keeps n s m.os v in ((v', own), e);
    write_keeps = λ buf s m (v, own). let (v', e) = a.write_keeps buf s m.os v in ((v', own), e);
    flush_keeps = λ s m (v, own). let (v', e) = a.flush_keeps s m.os v in ((v', own), e);
    peer_keeps = λ s m (v, own). let (v', e) = a.peer_keeps s m.os v in ((v', own), e);
    clone_keeps = λ s m (v, own). let (v', e) = a.clone_keeps s m.os v in ((v', own), e);
    clone_same = λ s s' m (v, own). a.clone_same s s' m.os v;
    shutdown_sides =
        λ how s m (v, own). let (v', e) = a.shutdown_sides how s m.os v in ((v', own), e);
  }

  -- If the socket keeps the contract, and the TLS library keeps the socket of a session and shuts
  -- nothing by itself, then a session that is shared behind a mutex keeps the contract too, also
  -- where the mutex is poisoned: its `shutdown` shuts the sides of the connection that the session
  -- stands on, and its clone is the same session.
  pub shared-IsSocket :
      (owner : ℕ → ℕ)
      → IsSocket Valid shut tcp connection_of
      → IsSession lib Valid shut connection_of
      → IsSocket
          (Owned lib Valid shut connection_of owner)
          (λ m. shut m.os)
          (shared_socket tcp lib)
          owner
  unfolding locked
  shared-IsSocket owner a b = record {
    read_keeps = λ n h m.
        locked_sides lib Valid shut connection_of owner h none_shut (lib.read n) m (b.reads n)
          (λ p s. refl);
    write_keeps = λ buf h m.
        locked_sides lib Valid shut connection_of owner h none_shut (lib.write buf) m (b.writes buf)
          (λ p s. refl);
    flush_keeps = λ h m.
        locked_sides lib Valid shut connection_of owner h none_shut lib.flush m b.flushes
          (λ p s. refl);
    peer_keeps = λ h m.
        locked_sides lib Valid shut connection_of owner h none_shut (over lib.socket tcp.peer_addr)
          m (λ t w v. let (v', e) = a.peer_keeps (lib.socket t) w v in (v', refl, e)) (λ p s. refl);
    clone_keeps = λ h m v. (v, refl);
    clone_same = λ h h' m v e. let same : h ≡ h' = cc in ap owner (sym same);
    shutdown_sides = λ how h m.
        locked_sides lib Valid shut connection_of owner h (λ r. after_shutdown r how)
          (over lib.socket (tcp.shutdown how)) m
          (λ t w v. let (v', e) = a.shutdown_sides how (lib.socket t) w v in (v', refl, e))
          (λ p s. refl);
  }
