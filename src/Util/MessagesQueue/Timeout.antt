-- ===== src/Util/MessagesQueue/Timeout.antt =====
-- How long a call with a timeout takes.
use tiny_http.Prelude.{
  ℕ, suc, ◌+◌, ◌-◌, ◌≤◌, ◌<◌, ◌≡◌, Bool, true, false, ◌||◌, List, [], ◌∷◌, refl, Option, none, some,
  ltb, arith, All, take, Bool-cases, inl, inr,
}
use tiny_http.Util.MessagesQueue.{Control, elem, unblocked, Wait, pop_timeout}

time_left :
    (timed_out : Bool) (duration slept : ℕ)
    → timed_out || ltb (duration - slept) 1_000_000 ≡ false
    → slept ≤ duration
time_left true duration slept e = absurd cc
time_left false duration slept e = ground arith

module _ {A : Type 0} where
  abbrev pub total_slept : List (Wait A) → ℕ
  total_slept [] = 0
  total_slept (w ∷ ws) = w.slept + total_slept ws

  -- The first waits decide the call, and take less than this time.
  pub record Decides (duration longest : ℕ) (waits : List (Wait A)) (queue : List (Control A))
      : Type 0 where
    pub rounds : ℕ
    pub answer : Option A × List (Control A)
    pub enough : pop_timeout duration (take rounds waits) queue ≡ some answer
    pub quick : total_slept (take rounds waits) ≤ duration + longest

  -- If no single wait is longer than `longest`, and the waits together last longer than what is
  -- left of the duration, then `pop_timeout` answers, whatever comes into the queue: some first
  -- waits decide its answer, and together they take at most what is left of the duration and
  -- `longest`.
  pub pop_timeout-Decides :
      (longest duration : ℕ) (waits : List (Wait A)) (queue : List (Control A))
      → All (λ w. w.slept ≤ longest) waits
      → duration < total_slept waits
      → Decides duration longest waits queue
  unfolding pop_timeout
  pop_timeout-Decides longest duration waits (elem a ∷ queue) h e = record {
    rounds = 0;
    answer = (some a, queue);
    enough = refl;
    quick = omega arith;
  }
  pop_timeout-Decides longest duration waits (unblocked ∷ queue) h e = record {
    rounds = 0;
    answer = (none, queue);
    enough = refl;
    quick = omega arith;
  }
  pop_timeout-Decides longest duration [] [] h e = absurd omega (arith, e)
  pop_timeout-Decides longest duration (w ∷ waits) [] (small, h) e =
      elim (Bool-cases (w.timed_out || ltb (duration - w.slept) 1_000_000)) [
        | inl last ↦ record {
          rounds = 1;
          answer = (none, w.queue);
          enough = rw last refl;
          quick = omega (arith, small);
        }
        | inr again ↦
            let fits = time_left w.timed_out duration w.slept again in
            let v =
              pop_timeout-Decides longest (duration - w.slept) waits w.queue h
                (omega (arith, e, fits)) in
            record {
              rounds = suc v.rounds;
              answer = v.answer;
              enough = rw again v.enough;
              quick = omega (arith, v.quick, fits);
            }
      ]
