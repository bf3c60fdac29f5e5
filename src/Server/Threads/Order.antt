-- ===== src/Server/Threads/Order.antt =====
-- In which order the application receives.
use tiny_http.Prelude.{
  ℕ, ◌≡◌, refl, sym, ◌∙◌, Bool, true, false, List, [], ◌∷◌, ◌++◌, Option, none, some, Result, map,
  append_assoc,
}
use mathlib.Core.List.{map-append}
use tiny_http.Io.{ErrorKind}
use tiny_http.Util.MessagesQueue.{Control, elem, unblocked, push, unblock, pop}
use tiny_http.Request.Create.{Request}
use tiny_http.Server.{
  Message, error, new_request, Messages, no_messages, report, announce, unblock_one, recv,
}
use tiny_http.Server.Receive.{demanded}
use tiny_http.Server.Accept.{Accepted, client, skipped, failed, crashed}
use tiny_http.Server.Threads.{
  System, started, test_close, round, begin, notified, unblocking, closing, serve,
}
use tiny_http.Server.Threads.Runs.{
  Event, receives, unblocks, closes, Runs, starts, tests, rounds, begins, serves, notifies, changes,
  receiving, unblocks_one, closes_it, serve_event, round_event, entered, received,
}
use tiny_http.Server.Threads.Connections.{
  facts, Traced, Follows, round-Follows, begin-Follows, notified-Follows, serve-Follows,
  changes-Follows, aside,
}

recv_front :
    {S D W : Type 0} (q q' : Messages (Request S D W)) (r : Result ErrorKind (Request S D W))
    → recv q ≡ some (r, q')
    → map demanded q ≡ r ∷ map demanded q'
unfolding recv pop
recv_front [] q' r e = absurd cc
recv_front (elem (error x) ∷ q) q' r e = cc
recv_front (elem (new_request rq) ∷ q) q' r e = cc
recv_front (unblocked ∷ q) q' r e = cc

module _ {C S D W : Type 0} where
  -- What was received, and what is left, are what was put in.
  abbrev pub Balanced : List (Event C (Request S D W)) → Messages (Request S D W) → Type 0
  Balanced log q = map demanded (entered log) ≡ received log ++ map demanded q

  put :
      (log : List (Event C (Request S D W))) (q : Messages (Request S D W))
      (m : Control (Message (Request S D W)))
      → Balanced log q
      → map demanded (entered log ++ m ∷ []) ≡ received log ++ map demanded (q ++ m ∷ [])
  put log q m v =
      map-append demanded (entered log) (m ∷ [])
      ∙ rw (v, map-append demanded q (m ∷ [])) (append_assoc (received log) (map demanded q) _)

  serve-Balanced :
      (i : ℕ) (safe : Bool) (o : Option (Request S D W) × C) (log : List (Event C (Request S D W)))
      (s : System C (Request S D W))
      → Balanced log s.messages
      → Balanced (serve_event i safe o log) (serve i safe o s).messages
  unfolding serve announce push
  serve-Balanced i safe (none, c) log s v = v
  serve-Balanced i true (some rq, c) log s v = put log s.messages _ v
  serve-Balanced i false (some rq, c) log s v = put log s.messages _ v

  round-Balanced :
      (r : Accepted C) (log : List (Event C (Request S D W))) (s : System C (Request S D W))
      → Balanced log s.messages
      → Balanced (round_event s.spawned r log) (round r s).messages
  unfolding round report push
  round-Balanced (client c) log s v = v
  round-Balanced skipped log s v = v
  round-Balanced (failed e) log s v = put log s.messages (elem (error e)) v
  round-Balanced crashed log s v = v

  module _ {next : C → Option (Option (Request S D W) × C)} {secure : C → Bool}
      {meanwhile : C → C → Type 0} where
    pub Runs-Balanced :
        {log : List (Event C (Request S D W))} {s : System C (Request S D W)}
        → Runs next secure meanwhile log s
        → Balanced log s.messages
    unfolding started test_close begin notified unblocking closing unblock_one unblock no_messages
    Runs-Balanced starts = refl
    Runs-Balanced (tests r e) = Runs-Balanced r
    Runs-Balanced (rounds {log} {s} a r e) = round-Balanced a log s (Runs-Balanced r)
    Runs-Balanced (begins i c r e) = Runs-Balanced r
    Runs-Balanced (serves {log} {s} i safe c o r e h) =
        serve-Balanced i safe o log s (Runs-Balanced r)
    Runs-Balanced (changes i safe c d r e h) = Runs-Balanced r
    Runs-Balanced (notifies i c r e) = Runs-Balanced r
    Runs-Balanced (receiving {log} {s} x q r e) =
        rw (Runs-Balanced r, recv_front s.messages q x e)
          (sym (append_assoc (received log) (x ∷ []) (map demanded q)))
    Runs-Balanced (unblocks_one {log} {s} r) = put log s.messages unblocked (Runs-Balanced r)
    Runs-Balanced (closes_it r) = Runs-Balanced r

    Runs-Follows :
        {log : List (Event C (Request S D W))} {s : System C (Request S D W)}
        → Runs next secure meanwhile log s
        → Follows next secure meanwhile log s
    unfolding started test_close unblocking closing
    Runs-Follows starts = record { fresh = λ i h. refl; each = λ i. (refl, refl, refl) }
    Runs-Follows (tests {log} {s} r e) =
        aside next secure meanwhile log log s _ (Runs-Follows r) (λ j. refl) refl refl
    Runs-Follows (rounds {log} {s} a r e) =
        round-Follows next secure meanwhile a log s (Runs-Follows r)
    Runs-Follows (begins {log} {s} i c r e) =
        begin-Follows next secure meanwhile i c log s (Runs-Follows r) e
    Runs-Follows (serves {log} {s} i safe c o r e h) =
        serve-Follows next secure meanwhile i safe c o log s (Runs-Follows r) e h
    Runs-Follows (changes {log} {s} i safe c d r e h) =
        changes-Follows next secure meanwhile i safe c d log s (Runs-Follows r) e h
    Runs-Follows (notifies {log} {s} i c r e) =
        notified-Follows next secure meanwhile i c log s (Runs-Follows r) e
    Runs-Follows (receiving {log} {s} x q r e) =
        aside next secure meanwhile log (receives x ∷ log) s _ (Runs-Follows r) (λ j. refl) refl
          refl
    Runs-Follows (unblocks_one {log} {s} r) =
        aside next secure meanwhile log (unblocks ∷ log) s _ (Runs-Follows r) (λ j. refl) refl refl
    Runs-Follows (closes_it {log} {s} r) =
        aside next secure meanwhile log (closes ∷ log) s _ (Runs-Follows r) (λ j. refl) refl refl

    -- In any history of the threads of a server, for any iterators of requests: the application has
    -- received, in order, the errors, requests and unblocks that were put into the queue, first to
    -- last, and the rest is in the queue; and for each connection, the requests that it put in are
    -- those that its iterator yielded, in that order, up to where its task is. Over TLS the number
    -- of its requests is at most one more than the number of its notifications, and it is one more
    -- exactly while its task waits.
    pub Runs-Ordered :
        {log : List (Event C (Request S D W))} {s : System C (Request S D W)} (i : ℕ)
        → Runs next secure meanwhile log s
        → Balanced log s.messages × Traced next secure meanwhile (facts i log) (s.thread i)
    Runs-Ordered i r = (Runs-Balanced r, (Runs-Follows r).each i)
