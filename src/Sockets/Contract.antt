-- ===== src/Sockets/Contract.antt =====
-- What `shutdown` and `try_clone` are documented to do: descriptors share an open connection, each of
-- whose two sides is shut, for all its descriptors, by a `shutdown` that succeeds.
use tiny_http.Prelude.{ℕ, ◌≡◌, refl, Bool, true, false, ◌&&◌, Result, ok, err, if◌then◌else◌, ◌==◌}
use tiny_http.Io.{Fault, Io, ◌>>=◌, continue, pure}
use tiny_http.Sockets.Platform.{Shutdown, Socket}

pub data Side : Type 0 where
  reading writing : Side

abbrev pub covers : Shutdown → Side → Bool
covers Shutdown.read reading = true
covers Shutdown.read writing = false
covers Shutdown.write reading = false
covers Shutdown.write writing = true
covers Shutdown.both side = true

-- Which sides of which open connections are shut.
abbrev pub Sides : Type 0
Sides = ℕ → Side → Bool

abbrev pub closed : Shutdown → ℕ → Sides → Sides
closed how p shut q side = if (q == p) && covers how side then true else shut q side

-- The sides after a `shutdown` with this result.
abbrev pub after_shutdown : {A : Type 0} → Result Fault A → Shutdown → ℕ → Sides → Sides
after_shutdown (ok _) how p shut = closed how p shut
after_shutdown (err _) how p shut = shut

module _ {W : Type 0} (Valid : W → Type 0) (shut : W → Sides) where
  -- An operation that shuts nothing.
  abbrev pub Keeps : {A : Type 0} → Io W A → Type 0
  Keeps m = (w : W) → Valid w → Valid (m w).1 × (shut (m w).1 ≡ shut w)

  -- `connection_of` tells the open connection behind a descriptor.
  pub record IsSocket {S Addr : Type 0} (o : Socket W S Addr) (connection_of : S → ℕ) : Type 0 where
    pub read_keeps : (n : ℕ) (s : S) → Keeps (o.read n s)
    pub write_keeps : (buf : _) (s : S) → Keeps (o.write buf s)
    pub flush_keeps : (s : S) → Keeps (o.flush s)
    pub peer_keeps : (s : S) → Keeps (o.peer_addr s)
    pub clone_keeps : (s : S) → Keeps (o.try_clone s)
    pub clone_same :
        (s s' : S) (w : W)
        → Valid w
        → (o.try_clone s w).0 ≡ ok s'
        → connection_of s' ≡ connection_of s
    pub shutdown_sides :
        (how : Shutdown) (s : S) (w : W)
        → Valid w
        → Valid (o.shutdown how s w).1
          × (shut (o.shutdown how s w).1
              ≡ after_shutdown (o.shutdown how s w).0 how (connection_of s) (shut w))

-- An operation whose value is mapped.
module _ {W A B : Type 0} (k : A → B) where
  pub map_after : (r : Result Fault A × W) → (continue (λ a. pure (k a)) r).1 ≡ r.1
  map_after (ok a, w) = refl
  map_after (err e, w) = refl

  pub map_value :
      (r : Result Fault A × W) (b : B)
      → (continue (λ a. pure (k a)) r).0 ≡ ok b
      → (a : A) × (r.0 ≡ ok a) × (b ≡ k a)
  map_value (ok a, w) b e = (a, refl, cc)
  map_value (err f, w) b e = absurd cc

module _ {W A B : Type 0} {Valid : W → Type 0} {shut : W → Sides} where
  pub map-Keeps :
      (k : A → B) (m : Io W A) → Keeps Valid shut m → Keeps Valid shut (m >>= λ a. pure (k a))
  map-Keeps k m h w v = rw (map_after k (m w)) (h w v)
