-- ===== src/Sockets/Halves.antt =====
-- The two halves of a connection: whatever is done with them, in any order, each shuts its own side.
pub mod AsSocket
pub mod Shut
use tiny_http.Prelude.{
  ℕ, ◌≡◌, ◌≢◌, refl, ap, sym, ◌∙◌, Bool, true, false, ◌&&◌, ◌||◌, List, [], ◌∷◌, Result, ok, err,
  if◌then◌else◌, ◌==◌, arith, ==_iff,
}
use tiny_http.Text.{Bytes}
use tiny_http.Io.{Fault, Io, io, panic}
use tiny_http.Sockets.Platform.{Shutdown, Socket}
use tiny_http.Sockets.Contract.{
  Side, reading, writing, covers, Sides, closed, after_shutdown, Keeps, IsSocket,
}
use tiny_http.Sockets.RefinedTcpStream.{
  Stream, http, https, RefinedTcpStream, halves, stream_shutdown, new, drop, peer_addr,
  refined_read, refined_write, refined_flush,
}

-- What the owner of a half can do with it.
pub data Call : Type 0 where
  reads : ℕ → Call
  writes : Bytes → Call
  flushes : Call
  asks_peer : Call
  drops : Call

-- Which halves are still there, the world, and whether a shutdown has failed.
pub record State (M : Type 0) : Type 0 where
  pub alive : Side → Bool
  pub world : M
  pub failed : Bool

abbrev pub side_eq : Side → Side → Bool
side_eq reading reading = true
side_eq writing writing = true
side_eq _ _ = false

abbrev pub how : Side → Shutdown
how reading = Shutdown.read
how writing = Shutdown.write

abbrev pub is_err : {A : Type 0} → Result Fault A → Bool
is_err (ok _) = false
is_err (err _) = true

abbrev pub stays : Call → Side → (Side → Bool) → Side → Bool
stays drops side alive other = if side_eq side other then false else alive other
stays _ side alive other = alive other

abbrev pub Half : Type 0 → Type 0 → Type 0
Half C H = RefinedTcpStream C H

abbrev pub half_of : {C H : Type 0} → Half C H × Half C H → Side → Half C H
half_of (r, w) reading = r
half_of (r, w) writing = w

abbrev pub start : {M : Type 0} → M → State M
start m = record { alive = λ _. true; world = m; failed = false }

module _ {M C H Addr : Type 0} (tcp : Socket M C Addr) (ssl : Socket M H Addr) where
  -- The world after a call on a half.
  abbrev pub world_after : Call → Half C H → M → M
  world_after (reads n) s m = (refined_read tcp ssl n s m).1
  world_after (writes buf) s m = (refined_write tcp ssl buf s m).1
  world_after flushes s m = (refined_flush tcp ssl s m).1
  world_after asks_peer s m = (peer_addr tcp ssl s m).1
  world_after drops s m = (drop tcp ssl s m).1

  abbrev pub refuses : Call → Side → Half C H → M → Bool
  refuses drops side s m = is_err (stream_shutdown tcp ssl (how side) s.stream m).0
  refuses _ side s m = false

  -- A call on a half; there is none on a half that was dropped.
  unfoldable pub step : Half C H × Half C H → Side × Call → State M → State M
  step hs (side, call) s =
      if s.alive side
      then record {
        alive = stays call side s.alive;
        world = world_after call (half_of hs side) s.world;
        failed = s.failed || refuses call side (half_of hs side) s.world;
      }
      else s

  unfoldable pub run : Half C H × Half C H → List (Side × Call) → State M → State M
  unfolding step
  run hs [] s = s
  run hs (c ∷ cs) s = run hs cs (step hs c s)
