-- ===== src/Server/Threads/Lifting.antt =====
-- What holds of every request that a connection yields holds of every request that is received.
use tiny_http.Prelude.{
  Bool, List, [], ◌∷◌, ◌++◌, Option, none, some, Result, ok, err, map, All, subst, ℕ,
}
use mathlib.Core.List.{map-append}
use tiny_http.Io.{ErrorKind}
use tiny_http.Util.MessagesQueue.{elem, unblocked}
use tiny_http.Util.Sequential.Order.{All-concat}
use tiny_http.Request.Create.{Request}
use tiny_http.Server.{error, new_request, Messages}
use tiny_http.Server.Receive.{demanded}
use tiny_http.Server.Accept.{Accepted, client, skipped, failed, crashed}
use tiny_http.Server.Threads.{System}
use tiny_http.Server.Threads.Runs.{
  Event, opens, fails, asks, tells, receives, unblocks, closes, Runs, starts, tests, rounds, begins,
  serves, changes, notifies, receiving, unblocks_one, closes_it, marked, entered, received,
  round_event, serve_event,
}
use tiny_http.Server.Threads.Order.{Runs-Balanced}

module _ {S D W : Type 0} (P : Request S D W → Type 0) where
  abbrev pub Fine : Result ErrorKind (Request S D W) → Type 0
  Fine (ok rq) = P rq
  Fine (err e) = Unit {0}

  concat-Fine :
      (q : Messages (Request S D W)) (m : _)
      → All Fine (map demanded q)
      → Fine (demanded m)
      → All Fine (map demanded (q ++ m ∷ []))
  concat-Fine q m h f =
      rw (map-append demanded q (m ∷ [])) (All-concat Fine (map demanded q) (demanded m) h f)

  front-Fine : (xs ys : List (Result ErrorKind (Request S D W))) → All Fine (xs ++ ys) → All Fine xs
  front-Fine [] ys h = tt
  front-Fine (x ∷ xs) ys (f, h) = (f, front-Fine xs ys h)

module _ {C S D W : Type 0} (P : Request S D W → Type 0) where
  abbrev Asks : List (Event C (Request S D W)) → Type 0
  Asks [] = Unit {0}
  Asks (asks i secure rq ∷ log) = P (marked secure rq) × Asks log
  Asks (_ ∷ log) = Asks log

  -- What a call of `next` yields.
  abbrev pub Yielded : Option (Option (Request S D W) × C) → Type 0
  Yielded (some (some rq, c)) = (secure : Bool) → P (marked secure rq)
  Yielded _ = Unit {0}

  serve-Asks :
      (i : ℕ) (safe : Bool) (o : Option (Request S D W) × C) (log : List (Event C (Request S D W)))
      → Yielded (some o)
      → Asks log
      → Asks (serve_event i safe o log)
  serve-Asks i safe (some rq, c) log y a = (y safe, a)
  serve-Asks i safe (none, c) log y a = a

  round-Asks :
      (i : ℕ) (r : Accepted C) (log : List (Event C (Request S D W)))
      → Asks log
      → Asks (round_event i r log)
  round-Asks i (client c) log a = a
  round-Asks i skipped log a = a
  round-Asks i (failed e) log a = a
  round-Asks i crashed log a = a

  module _ {next : C → Option (Option (Request S D W) × C)} {secure : C → Bool}
      {meanwhile : C → C → Type 0} (yields : (c : C) → Yielded (next c)) where
    Runs-Asks :
        {log : List (Event C (Request S D W))} {s : System C (Request S D W)}
        → Runs next secure meanwhile log s
        → Asks log
    Runs-Asks starts = tt
    Runs-Asks (tests r e) = Runs-Asks r
    Runs-Asks (rounds {log} {s} a r e) = round-Asks s.spawned a log (Runs-Asks r)
    Runs-Asks (begins i c r e) = Runs-Asks r
    Runs-Asks (serves {log} i safe c o r e h) =
        serve-Asks i safe o log (subst Yielded h (yields c)) (Runs-Asks r)
    Runs-Asks (changes i safe c d r e h) = Runs-Asks r
    Runs-Asks (notifies i c r e) = Runs-Asks r
    Runs-Asks (receiving x q r e) = Runs-Asks r
    Runs-Asks (unblocks_one r) = Runs-Asks r
    Runs-Asks (closes_it r) = Runs-Asks r

  entered-Fine :
      (log : List (Event C (Request S D W))) → Asks log → All (Fine P) (map demanded (entered log))
  entered-Fine [] a = tt
  entered-Fine (asks i secure rq ∷ log) (p, a) =
      concat-Fine P (entered log) (elem (new_request (marked secure rq))) (entered-Fine log a) p
  entered-Fine (fails e ∷ log) a =
      concat-Fine P (entered log) (elem (error e)) (entered-Fine log a) tt
  entered-Fine (unblocks ∷ log) a = concat-Fine P (entered log) unblocked (entered-Fine log a) tt
  entered-Fine (opens i c ∷ log) a = entered-Fine log a
  entered-Fine (tells i ∷ log) a = entered-Fine log a
  entered-Fine (receives r ∷ log) a = entered-Fine log a
  entered-Fine (closes ∷ log) a = entered-Fine log a

  pub Runs-Fine :
      {next : C → Option (Option (Request S D W) × C)} {secure : C → Bool}
      {meanwhile : C → C → Type 0} {log : List (Event C (Request S D W))}
      {s : System C (Request S D W)}
      → ((c : C) → Yielded (next c))
      → Runs next secure meanwhile log s
      → All (Fine P) (received log)
  Runs-Fine {log} {s} yields r =
      front-Fine P (received log) (map demanded s.messages)
        (subst (All (Fine P)) (Runs-Balanced r) (entered-Fine log (Runs-Asks yields r)))
