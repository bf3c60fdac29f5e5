-- ===== src/Server/Threads/Ending.antt =====
-- How the accept thread ends.
use tiny_http.Prelude.{
  ℕ, suc, ◌≤◌, ◌≡◌, refl, Bool, true, false, List, [], ◌∷◌, Option, none, some, arith,
  if◌then◌else◌,
}
use tiny_http.Request.Create.{Request}
use tiny_http.Server.Accept.{Accepted, client, skipped, failed, crashed}
use tiny_http.Server.Threads.{
  testing, accepting, ended, System, started, test_close, round, begin, notified, unblocking,
  closing, serve,
}
use tiny_http.Server.Threads.Runs.{
  Event, opens, fails, tells, receives, unblocks, closes, Runs, starts, tests, rounds, begins,
  serves, notifies, changes, receiving, unblocks_one, closes_it, serve_event, round_event,
}

module _ {C Rq : Type 0} where
  abbrev pub failures : List (Event C Rq) → ℕ
  failures [] = 0
  failures (fails e ∷ log) = suc (failures log)
  failures (_ ∷ log) = failures log

  abbrev pub has_closed : List (Event C Rq) → Bool
  has_closed [] = false
  has_closed (closes ∷ log) = true
  has_closed (_ ∷ log) = has_closed log

  -- The clients that are accepted after the server was dropped.
  abbrev pub late : List (Event C Rq) → ℕ
  late [] = 0
  late (opens i c ∷ log) = if has_closed log then suc (late log) else late log
  late (_ ∷ log) = late log

  pub record Ends (log : List (Event C Rq)) (s : System C Rq) : Type 0 where
    pub flag : s.close ≡ has_closed log
    pub once : failures log ≤ 1
    pub stops : failures log ≡ 1 → s.acceptor ≡ ended
    pub few : late log ≤ 1
    pub busy : s.acceptor ≡ accepting → late log ≡ 0
    pub early : s.close ≡ false → late log ≡ 0

  round-Ends :
      (r : Accepted C) (log : List (Event C Rq)) (s : System C Rq)
      → Ends log s
      → s.acceptor ≡ accepting
      → Ends (round_event s.spawned r log) (round r s)
  unfolding round
  round-Ends (client c) log s v e = record {
    flag = v.flag;
    once = v.once;
    stops = λ h. ground (arith, v.stops h);
    few = ground (arith, v.busy e);
    busy = λ h. ground arith;
    early = λ h. ground (arith, v.early h, v.flag);
  }
  round-Ends skipped log s v e = record {
    flag = v.flag;
    once = v.once;
    stops = λ h. ground (arith, v.stops h);
    few = v.few;
    busy = λ h. ground arith;
    early = v.early;
  }
  round-Ends (failed x) log s v e = record {
    flag = v.flag;
    once = ground (arith, v.once, v.stops);
    stops = λ h. refl;
    few = v.few;
    busy = λ h. ground arith;
    early = v.early;
  }
  round-Ends crashed log s v e = record {
    flag = v.flag;
    once = v.once;
    stops = λ h. refl;
    few = v.few;
    busy = λ h. ground arith;
    early = v.early;
  }

  test-Ends :
      (log : List (Event C Rq)) (s : System C Rq)
      → Ends log s
      → s.acceptor ≡ testing
      → Ends log (test_close s)
  unfolding test_close
  test-Ends log s v e = record {
    flag = v.flag;
    once = v.once;
    stops = λ h. ground (arith, v.stops h);
    few = v.few;
    busy = λ h. ground (arith, v.early);
    early = v.early;
  }

  new-Ends : Ends [] (started {C = C} {Rq = Rq})
  unfolding started
  new-Ends = record {
    flag = refl;
    once = omega arith;
    stops = λ h. absurd (omega arith);
    few = omega arith;
    busy = λ h. refl;
    early = λ h. refl;
  }

-- Steps that the accept thread has no part in.
abbrev Aside :
    {C Rq : Type 0} → List (Event C Rq) × System C Rq → List (Event C Rq) × System C Rq → Type 0
Aside (log, s) (log', t) =
    (t.close ≡ s.close)
    × (t.acceptor ≡ s.acceptor)
    × (failures log' ≡ failures log)
    × (has_closed log' ≡ has_closed log)
    × (late log' ≡ late log)

Aside-Ends :
    {C Rq : Type 0} (log log' : List (Event C Rq)) (s t : System C Rq)
    → Ends log s
    → Aside (log, s) (log', t)
    → Ends log' t
Aside-Ends log log' s t v (a, b, c, d, e) = record {
  flag = ground (arith, v.flag);
  once = ground (arith, v.once);
  stops = λ h. ground (arith, v.stops);
  few = ground (arith, v.few);
  busy = λ h. ground (arith, v.busy);
  early = λ h. ground (arith, v.early);
}

module _ {C S D W : Type 0} where
  serve-Ends :
      (i : ℕ) (safe : Bool) (o : Option (Request S D W) × C) (log : List (Event C (Request S D W)))
      (s : System C (Request S D W))
      → Ends log s
      → Ends (serve_event i safe o log) (serve i safe o s)
  unfolding serve
  serve-Ends i safe (some rq, c) log s v = Aside-Ends log _ s _ v (refl, refl, refl, refl, refl)
  serve-Ends i safe (none, c) log s v = Aside-Ends log log s _ v (refl, refl, refl, refl, refl)

  -- In any history of the threads of a server: the accept thread ends when `accept` fails, an error
  -- of it is reported at most once, at most one client is accepted after the server was dropped,
  -- and none has been while the thread is in `accept`.
  pub Runs-Ends :
      {next : C → Option (Option (Request S D W) × C)} {secure : C → Bool}
      {meanwhile : C → C → Type 0} {log : List (Event C (Request S D W))}
      {s : System C (Request S D W)}
      → Runs next secure meanwhile log s
      → Ends log s
  unfolding begin notified unblocking closing
  Runs-Ends starts = new-Ends
  Runs-Ends (tests {log} {s} r e) = test-Ends log s (Runs-Ends r) e
  Runs-Ends (rounds {log} {s} a r e) = round-Ends a log s (Runs-Ends r) e
  Runs-Ends (begins {log} {s} i c r e) =
      Aside-Ends log log s _ (Runs-Ends r) (refl, refl, refl, refl, refl)
  Runs-Ends (serves {log} {s} i safe c o r e h) = serve-Ends i safe o log s (Runs-Ends r)
  Runs-Ends (changes {log} {s} i safe c d r e h) =
      Aside-Ends log log s _ (Runs-Ends r) (refl, refl, refl, refl, refl)
  Runs-Ends (notifies {log} {s} i c r e) =
      Aside-Ends log (tells i ∷ log) s _ (Runs-Ends r) (refl, refl, refl, refl, refl)
  Runs-Ends (receiving {log} {s} x q r e) =
      Aside-Ends log (receives x ∷ log) s _ (Runs-Ends r) (refl, refl, refl, refl, refl)
  Runs-Ends (unblocks_one {log} {s} r) =
      Aside-Ends log (unblocks ∷ log) s _ (Runs-Ends r) (refl, refl, refl, refl, refl)
  Runs-Ends (closes_it {log} {s} r) =
      let v = Runs-Ends r in
      record {
        flag = refl;
        once = v.once;
        stops = v.stops;
        few = v.few;
        busy = v.busy;
        early = λ h. absurd cc;
      }
