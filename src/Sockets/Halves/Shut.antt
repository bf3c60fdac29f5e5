-- ===== src/Sockets/Halves/Shut.antt =====
-- Which sides are shut after any history of the halves.
use tiny_http.Prelude.{
  ℕ, ◌≡◌, ◌≢◌, refl, ap, sym, ◌∙◌, Bool, true, false, ◌||◌, List, [], ◌∷◌, Result, ok, err, arith,
  Bool-cases, inl, inr,
}
use tiny_http.Io.{Fault, io, panic, continue, pure, ignored}
use tiny_http.Sockets.Platform.{Shutdown, Socket}
use tiny_http.Sockets.Contract.{
  Side, reading, writing, Sides, closed, after_shutdown, IsSocket, map_after, map_value,
}
use tiny_http.Sockets.RefinedTcpStream.{
  Stream, halves, stream_shutdown, stream_clone, new, drop, peer_addr, refined_read, refined_write,
  refined_flush,
}
use tiny_http.Sockets.Halves.{
  Call, reads, writes, flushes, asks_peer, drops, State, side_eq, how, is_err, Half, half_of,
  world_after, stays, refuses, step, run, start,
}
use tiny_http.Sockets.Halves.AsSocket.{of_stream, stream-IsSocket}

closed_elsewhere :
    (h : Shutdown) (p q : ℕ) (shut : Sides) (side : Side)
    → q ≢ p
    → closed h p shut q side ≡ shut q side
closed_elsewhere h p q shut side away = ground arith

closed_here :
    (side other : Side) (p : ℕ) (shut : Sides)
    → closed (how side) p shut p other ≡ side_eq side other || shut p other
closed_here reading reading p shut = ground arith
closed_here reading writing p shut = ground arith
closed_here writing reading p shut = ground arith
closed_here writing writing p shut = ground arith

module _ {M C H Addr : Type 0} {tcp : Socket M C Addr} {ssl : Socket M H Addr} {Valid : M → Type 0}
    {shut : M → Sides} {f : C → ℕ} {g : H → ℕ} (a : IsSocket Valid shut tcp f)
    (b : IsSocket Valid shut ssl g) where
  open (stream-IsSocket a b) use {
    read_keeps, write_keeps, flush_keeps, peer_keeps, clone_keeps, clone_same, shutdown_sides,
  }

  pub record Inv (p : ℕ) (before : Sides) (s : State M) : Type 0 where
    pub valid : Valid s.world
    pub elsewhere : (q : ℕ) (side : Side) → q ≢ p → shut s.world q side ≡ before q side
    pub living : (side : Side) → s.alive side ≡ true → shut s.world p side ≡ before p side
    pub gone : (side : Side) → s.alive side ≡ false → s.failed ≡ false → shut s.world p side ≡ true

  drop_world :
      (side : Side) (x y : Stream C H) (m : M)
      → (drop tcp ssl (half_of (halves tcp ssl x y) side) m).1
        ≡ (stream_shutdown tcp ssl (how side) (half_of (halves tcp ssl x y) side).stream m).1
  unfolding drop stream_shutdown
  drop_world reading x y m = rest (stream_shutdown tcp ssl Shutdown.read x m)
    where
      rest :
          (r : Result Fault (Unit {0}) × M) → (continue (λ _. pure tt) (ignored (λ _. r) m)).1 ≡ r.1
      rest (ok _, _) = refl
      rest (err (io _), _) = refl
      rest (err panic, _) = refl
  drop_world writing x y m = rest (stream_shutdown tcp ssl Shutdown.write y m)
    where
      rest : (r : Result Fault (Unit {0}) × M) → (ignored (λ _. r) m).1 ≡ r.1
      rest (ok _, _) = refl
      rest (err (io _), _) = refl
      rest (err panic, _) = refl

  -- A call that shuts nothing.
  kept-Inv :
      {p : ℕ} {before : Sides} (s : State M) (m : M) (refused : Bool)
      → Inv p before s
      → refused ≡ false
      → Valid m × (shut m ≡ shut s.world)
      → Inv p before (record { alive = s.alive; world = m; failed = s.failed || refused })
  kept-Inv s m refused i nope (v, e) = record {
    valid = v;
    elsewhere = λ q side other. rw e (i.elsewhere q side other);
    living = λ side lives. rw e (i.living side lives);
    gone = λ side dead fine. rw e (i.gone side dead (ground arith));
  }

  -- The sides behind a half that is dropped.
  dropped-Inv :
      {p : ℕ} {before : Sides} (side : Side) (s : State M) (m : M) (r : Result Fault (Unit {0}))
      → Inv p before s
      → Valid m
      → shut m ≡ after_shutdown r (how side) p (shut s.world)
      → Inv p before
          (record { alive = stays drops side s.alive; world = m; failed = s.failed || is_err r })
  dropped-Inv {p} {before} side s m (ok u) i v e = record {
    valid = v;
    elsewhere = λ q other away.
        rw e (closed_elsewhere (how side) p q (shut s.world) other away ∙ i.elsewhere q other away);
    living = λ other lives.
        rw e (closed_here side other p (shut s.world) ∙ ground (arith, i.living other));
    gone = λ other dead fine.
        rw e (closed_here side other p (shut s.world) ∙ ground (arith, i.gone other));
  }
  dropped-Inv {p} {before} side s m (err x) i v e = record {
    valid = v;
    elsewhere = λ q other away. rw e (i.elsewhere q other away);
    living = λ other lives. rw e (ground (arith, i.living other));
    gone = λ other dead fine. absurd (ground arith);
  }

  -- Both halves stand for the connection `p`.
  abbrev Same : ℕ → Stream C H → Stream C H → Type 0
  Same p x y = (of_stream f g x ≡ p) × (of_stream f g y ≡ p)

  of_half :
      {p : ℕ} (x y : Stream C H) (side : Side)
      → Same p x y
      → of_stream f g (half_of (halves tcp ssl x y) side).stream ≡ p
  of_half x y reading (h, k) = h
  of_half x y writing (h, k) = k

  step-Inv :
      {p : ℕ} {before : Sides} (x y : Stream C H) (c : Side × Call) (s : State M)
      → Same p x y
      → Inv p before s
      → Inv p before (step tcp ssl (halves tcp ssl x y) c s)
  unfolding step refined_read refined_write refined_flush peer_addr
  step-Inv {p} {before} x y (side, call) s same i = elim (Bool-cases (s.alive side)) [
    | inl lives ↦ rw lives (acts call)
    | inr dead ↦ rw dead i
  ]
    where
      hs : Half C H × Half C H
      hs = halves tcp ssl x y

      acts :
          (call : Call)
          → Inv p before (record {
            alive = stays call side s.alive;
            world = world_after tcp ssl call (half_of hs side) s.world;
            failed = s.failed || refuses tcp ssl call side (half_of hs side) s.world;
          })
      acts (reads n) = kept-Inv s _ false i refl (read_keeps n _ s.world i.valid)
      acts (writes buf) = kept-Inv s _ false i refl (write_keeps buf _ s.world i.valid)
      acts flushes = kept-Inv s _ false i refl (flush_keeps _ s.world i.valid)
      acts asks_peer = kept-Inv s _ false i refl (peer_keeps _ s.world i.valid)
      acts drops =
          let (v, e) = shutdown_sides (how side) (half_of hs side).stream s.world i.valid in
          rw (drop_world side x y s.world)
            (dropped-Inv side s _ _ i v (rw (← of_half x y side same) e))

  run-Inv :
      {p : ℕ} {before : Sides} (x y : Stream C H) (cs : List (Side × Call)) (s : State M)
      → Same p x y
      → Inv p before s
      → Inv p before (run tcp ssl (halves tcp ssl x y) cs s)
  unfolding run
  run-Inv x y [] s same i = i
  run-Inv x y (c ∷ cs) s same i = run-Inv x y cs _ same (step-Inv x y c s same i)

  start-Inv : {p : ℕ} {before : Sides} (m : M) → Valid m → shut m ≡ before → Inv p before (start m)
  start-Inv m v e = record {
    valid = v;
    elsewhere = λ q side away. rw e refl;
    living = λ side lives. rw e refl;
    gone = λ side dead fine. absurd cc;
  }

  -- If the sockets and the TLS streams keep the contract of sockets, then for a new pair of halves
  -- and any history of reads, writes, flushes, questions for the peer and drops of either: the
  -- sides of other connections are as before; a side of this connection is as before while its half
  -- is there, and is shut once its half is dropped, unless a shutdown has failed.
  pub new-Inv :
      (stream : Stream C H) (m m' : M) (hs : Half C H × Half C H) (cs : List (Side × Call))
      → Valid m
      → new tcp ssl stream m ≡ (ok hs, m')
      → Inv (of_stream f g stream) (shut m) (run tcp ssl hs cs (start m'))
  unfolding new
  new-Inv stream m m' hs cs v e =
      let r = stream_clone tcp ssl stream m in
      let (x, cloned, made) = map_value (λ x. halves tcp ssl x stream) r hs (ap (λ z. z.0) e) in
      let moved : r.1 ≡ m' = sym (map_after (λ x. halves tcp ssl x stream) r) ∙ ap (λ z. z.1) e in
      let (v', kept) = clone_keeps stream m v in
      rw (made, ← moved)
        (run-Inv x stream cs (start r.1) (clone_same stream x m v cloned, refl)
          (start-Inv r.1 v' kept))
