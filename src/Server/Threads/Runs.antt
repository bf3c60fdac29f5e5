-- ===== src/Server/Threads/Runs.antt =====
-- The histories of the threads of a server.
use tiny_http.Prelude.{
  ℕ, suc, ◌≡◌, Bool, List, [], ◌∷◌, ◌++◌, Option, none, some, Result, if◌then◌else◌, ◌==◌,
}
use tiny_http.Io.{ErrorKind}
use tiny_http.Util.MessagesQueue.{elem, unblocked}
use tiny_http.Request.Create.{Request}
use tiny_http.Request.Answer.{with_notify_sender}
use tiny_http.Server.{error, new_request, Messages, recv}
use tiny_http.Server.Accept.{Accepted, client, skipped, failed, crashed}
use tiny_http.Server.Threads.{
  testing, accepting, queued, serving, waiting, System, started, test_close, round, begin, notified,
  unblocking, closing, serve, set,
}

-- What the world can see of a step.
pub data Event (C Rq : Type 0) : Type 0 where
  opens : ℕ → C → Event C Rq
  fails : ErrorKind → Event C Rq
  asks : ℕ → Bool → Rq → Event C Rq
  tells : ℕ → Event C Rq
  receives : Result ErrorKind Rq → Event C Rq
  unblocks : Event C Rq
  closes : Event C Rq

module _ {C Rq : Type 0} where
  abbrev pub round_event : ℕ → Accepted C → List (Event C Rq) → List (Event C Rq)
  round_event i (client c) log = opens i c ∷ log
  round_event i (failed e) log = fails e ∷ log
  round_event i skipped log = log
  round_event i crashed log = log

  abbrev pub serve_event : ℕ → Bool → Option Rq × C → List (Event C Rq) → List (Event C Rq)
  serve_event i secure (some rq, c) log = asks i secure rq ∷ log
  serve_event i secure (none, c) log = log

  -- What the application received, oldest first.
  abbrev pub received : List (Event C Rq) → List (Result ErrorKind Rq)
  received [] = []
  received (receives r ∷ log) = received log ++ r ∷ []
  received (_ ∷ log) = received log

  -- The client of connection `i`, its requests, oldest first, and how often it was notified.
  abbrev pub opened : ℕ → List (Event C Rq) → Option C
  opened i [] = none
  opened i (opens j c ∷ log) = if i == j then some c else opened i log
  opened i (_ ∷ log) = opened i log

  abbrev pub asked : ℕ → List (Event C Rq) → List Rq
  asked i [] = []
  asked i (asks j secure rq ∷ log) = if i == j then asked i log ++ rq ∷ [] else asked i log
  asked i (_ ∷ log) = asked i log

  abbrev pub told : ℕ → List (Event C Rq) → ℕ
  told i [] = 0
  told i (tells j ∷ log) = if i == j then suc (told i log) else told i log
  told i (_ ∷ log) = told i log

  -- `next`, called over and over, yields these requests, oldest first, and leaves this connection.
  pub data Yields (next : C → Option (Option Rq × C)) (meanwhile : C → C → Type 0) (c : C)
      : List Rq → C → Type 0 where
    begins_with : Yields next meanwhile c [] c
    and_asks :
        {rqs : List Rq} {d e : C} (rq : Rq)
        → Yields next meanwhile c rqs d
        → next d ≡ some (some rq, e)
        → Yields next meanwhile c (rqs ++ rq ∷ []) e
    and_changes :
        {rqs : List Rq} {d e : C}
        → Yields next meanwhile c rqs d
        → meanwhile d e
        → Yields next meanwhile c rqs e

abbrev pub marked : {S D W : Type 0} → Bool → Request S D W → Request S D W
marked secure rq = if secure then with_notify_sender rq else rq

module _ {C S D W : Type 0} where
  -- The histories, the last event first, for connections with this `next`, where `none` says that it
  -- waits, and that change like this by what others do, between two calls; each thread makes its steps whenever it likes.
  pub data Runs (next : C → Option (Option (Request S D W) × C)) (secure : C → Bool)
      (meanwhile : C → C → Type 0)
      : List (Event C (Request S D W)) → System C (Request S D W) → Type 0 where
    starts : Runs next secure meanwhile [] started
    tests :
        {log : List (Event C (Request S D W))} {s : System C (Request S D W)}
        → Runs next secure meanwhile log s
        → s.acceptor ≡ testing
        → Runs next secure meanwhile log (test_close s)
    rounds :
        {log : List (Event C (Request S D W))} {s : System C (Request S D W)} (r : Accepted C)
        → Runs next secure meanwhile log s
        → s.acceptor ≡ accepting
        → Runs next secure meanwhile (round_event s.spawned r log) (round r s)
    begins :
        {log : List (Event C (Request S D W))} {s : System C (Request S D W)} (i : ℕ) (c : C)
        → Runs next secure meanwhile log s
        → s.thread i ≡ queued c
        → Runs next secure meanwhile log (begin secure i c s)
    serves :
        {log : List (Event C (Request S D W))} {s : System C (Request S D W)} (i : ℕ) (safe : Bool)
        (c : C) (o : Option (Request S D W) × C)
        → Runs next secure meanwhile log s
        → s.thread i ≡ serving safe c
        → next c ≡ some o
        → Runs next secure meanwhile (serve_event i safe o log) (serve i safe o s)
    changes :
        {log : List (Event C (Request S D W))} {s : System C (Request S D W)} (i : ℕ) (safe : Bool)
        (c d : C)
        → Runs next secure meanwhile log s
        → s.thread i ≡ serving safe c
        → meanwhile c d
        → Runs next secure meanwhile log (record s { thread = set s.thread i (serving safe d) })
    notifies :
        {log : List (Event C (Request S D W))} {s : System C (Request S D W)} (i : ℕ) (c : C)
        → Runs next secure meanwhile log s
        → s.thread i ≡ waiting c
        → Runs next secure meanwhile (tells i ∷ log) (notified i c s)
    receiving :
        {log : List (Event C (Request S D W))} {s : System C (Request S D W)}
        (r : Result ErrorKind (Request S D W)) (q : Messages (Request S D W))
        → Runs next secure meanwhile log s
        → recv s.messages ≡ some (r, q)
        → Runs next secure meanwhile (receives r ∷ log) (record s { messages = q })
    unblocks_one :
        {log : List (Event C (Request S D W))} {s : System C (Request S D W)}
        → Runs next secure meanwhile log s
        → Runs next secure meanwhile (unblocks ∷ log) (unblocking s)
    closes_it :
        {log : List (Event C (Request S D W))} {s : System C (Request S D W)}
        → Runs next secure meanwhile log s
        → Runs next secure meanwhile (closes ∷ log) (closing s)

  -- What a history puts into the queue, oldest first.
  abbrev pub entered : List (Event C (Request S D W)) → Messages (Request S D W)
  entered [] = []
  entered (fails e ∷ log) = entered log ++ elem (error e) ∷ []
  entered (asks i secure rq ∷ log) = entered log ++ elem (new_request (marked secure rq)) ∷ []
  entered (unblocks ∷ log) = entered log ++ unblocked ∷ []
  entered (_ ∷ log) = entered log
