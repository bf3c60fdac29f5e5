-- ===== src/Util/Sequential/Overtaking.antt =====
-- Two consequences of how turns are handed on, for any history.
use tiny_http.Prelude.{ℕ, ◌+◌, ◌<◌, ◌≡◌, refl, false, [], ◌∷◌, ◌++◌, none, some, arith}
use tiny_http.Text.{Bytes}
use tiny_http.Util.Sequential.Writers.{Writers, next, await, write, flush, drop, update}

-- In any store whose last writer has not sent its signal, a writer that is made next can neither
-- write nor flush: both calls wait.
pub next_blocked :
    (s : Writers) (buf : Bytes) (n : ℕ)
    → s.next_trigger ≡ some n
    → s.sent n ≡ false
    → (write s.issued buf (next s) ≡ none) × (flush s.issued (next s) ≡ none)
unfolding write flush await next
next_blocked s buf n e h = (ground arith, ground arith)

-- In any store whose last writer has the trigger `n`, and where some writer `n` that was issued is
-- not dropped: if the next writer is dropped unused, the writer after it gets through at once,
-- while `n` is still not dropped.
pub dropped_lets_pass :
    (s : Writers) (buf : Bytes) (n : ℕ)
    → s.next_trigger ≡ some n
    → s.dropped n ≡ false
    → n < s.issued
    → (t : Writers) × (write (s.issued + 1) buf (next (drop s.issued (next s))) ≡ some t)
      × (t.written ≡ s.written ++ (s.issued + 1, buf) ∷ [])
      × (t.dropped n ≡ false)
unfolding write await next drop
dropped_lets_pass s buf n e alive h =
    let u = next (drop s.issued (next s)) in
    (
      record u {
        written = s.written ++ (s.issued + 1, buf) ∷ [];
        sent = update u.sent s.issued false;
        trigger = update u.trigger (s.issued + 1) none;
      },
      ground arith,
      refl,
      ground arith,
    )
