-- ===== src/Util/MessagesQueue/History.antt =====
-- What a history of calls does to the queue, and how long a call with a timeout waits.
use tiny_http.Prelude.{
  ℕ, ◌+◌, ◌-◌, ◌≤◌, ◌≡◌, sym, ap, ◌∙◌, ◌||◌, List, [], ◌∷◌, ◌++◌, append-nil, append_assoc, Option,
  none, some, if◌then◌else◌, ltb, arith, All,
}
use tiny_http.Util.MessagesQueue.{Control, elem, unblocked, push, unblock, pop, try_pop, Wait}

-- The calls of the threads, in the order in which they take the lock. A `pop` on the empty queue
-- waits, and is no event.
pub data Call (A : Type 0) : Type 0 where
  pushes : A → Call A
  unblocks : Call A
  pops : Call A
  tries : Call A

module _ {A : Type 0} where
  -- What a call is answered with: a value, or the news that it was unblocked.
  abbrev answer_of : Option A → List (Control A)
  answer_of (some a) = elem a ∷ []
  answer_of none = unblocked ∷ []

  abbrev popped :
      List (Control A) → Option (Option A × List (Control A)) → List (Control A) × List (Control A)
  popped queue none = ([], queue)
  popped queue (some (r, queue')) = (answer_of r, queue')

  -- `try_pop` answers the same to an empty queue and to an `unblock`; only the second takes one.
  abbrev tried : List (Control A) → List (Control A) × List (Control A)
  tried [] = ([], (try_pop {A = A} []).1)
  tried (c ∷ queue) = (answer_of (try_pop (c ∷ queue)).0, (try_pop (c ∷ queue)).1)

  -- What each call takes out of the queue, and the queue that it leaves.
  unfoldable pub step : Call A → List (Control A) → List (Control A) × List (Control A)
  step (pushes a) queue = ([], push a queue)
  step unblocks queue = ([], unblock queue)
  step pops queue = popped queue (pop queue)
  step tries queue = tried queue

  -- What a history puts in.
  abbrev pub offered : List (Call A) → List (Control A)
  offered [] = []
  offered (pushes a ∷ cs) = elem a ∷ offered cs
  offered (unblocks ∷ cs) = unblocked ∷ offered cs
  offered (pops ∷ cs) = offered cs
  offered (tries ∷ cs) = offered cs

  -- What a history takes out, and the queue that it leaves.
  unfoldable pub run : List (Call A) → List (Control A) → List (Control A) × List (Control A)
  unfolding step
  run [] queue = ([], queue)
  run (c ∷ cs) queue =
      let (taken, queue') = step c queue in
      let (later, queue'') = run cs queue' in (taken ++ later, queue'')

  -- For any history of pushes, unblocks, pops and tries on any queue: what was taken out, and then
  -- what is left, is what was there and then what was put in. Nothing is lost, made up, answered
  -- twice or reordered.
  pub run_fifo :
      (cs : List (Call A)) (queue : List (Control A))
      → (run cs queue).0 ++ (run cs queue).1 ≡ queue ++ offered cs
  unfolding run push unblock pop try_pop
  run_fifo [] queue = sym (append-nil queue)
  run_fifo (pushes a ∷ cs) queue =
      run_fifo cs (queue ++ elem a ∷ []) ∙ append_assoc queue (elem a ∷ []) (offered cs)
  run_fifo (unblocks ∷ cs) queue =
      run_fifo cs (queue ++ unblocked ∷ []) ∙ append_assoc queue (unblocked ∷ []) (offered cs)
  run_fifo (pops ∷ cs) [] = run_fifo cs []
  run_fifo (pops ∷ cs) (elem a ∷ queue) = ap (◌∷◌ (elem a)) (run_fifo cs queue)
  run_fifo (pops ∷ cs) (unblocked ∷ queue) = ap (◌∷◌ unblocked) (run_fifo cs queue)
  run_fifo (tries ∷ cs) [] = run_fifo cs []
  run_fifo (tries ∷ cs) (elem a ∷ queue) = ap (◌∷◌ (elem a)) (run_fifo cs queue)
  run_fifo (tries ∷ cs) (unblocked ∷ queue) = ap (◌∷◌ unblocked) (run_fifo cs queue)

  -- The time that the waits take up to the answer.
  abbrev pub waited : ℕ → List (Wait A) → List (Control A) → ℕ
  waited duration waits (c ∷ queue) = 0
  waited duration [] [] = 0
  waited duration (w ∷ waits) [] =
      let again = w.slept + waited (duration - w.slept) waits w.queue in
      if w.timed_out || ltb (duration - w.slept) 1_000_000 then w.slept else again

  -- If no single wait is longer than the timeout, the call waits less than twice the timeout: each
  -- wait starts with the whole timeout again.
  pub waited_bound :
      (timeout duration : ℕ) (waits : List (Wait A)) (queue : List (Control A))
      → All (λ w. w.slept ≤ timeout) waits
      → waited duration waits queue ≤ duration + timeout
  waited_bound timeout duration waits (c ∷ queue) h = omega arith
  waited_bound timeout duration [] [] h = omega arith
  waited_bound timeout duration (w ∷ waits) [] (h, hs) =
      ground (arith, waited_bound timeout (duration - w.slept) waits w.queue hs)
