-- ===== src/Util/Sequential/Inv.antt =====
-- An invariant of the store of writers.
use tiny_http.Prelude.{
  ℕ, suc, ◌+◌, ◌<◌, ◌≤◌, ◌≡◌, refl, true, false, none, some, arith, ◌⊎◌, inl, inr, All, All-map,
}
use tiny_http.Util.Sequential.Writers.{Writers, new, next, drop, update}

-- What the store looks like: triggers point to the writer before; a writer without a trigger has
-- only dropped ones before it; only dropped writers have sent.
pub record Inv (s : Writers) : Type 0 where
  pub last :
      ((s.issued ≡ 0) × (s.next_trigger ≡ none))
      ⊎ ((n : ℕ) × (s.issued ≡ suc n) × (s.next_trigger ≡ some n))
  pub waits : (k c : ℕ) → s.trigger k ≡ some c → k ≡ suc c
  pub turn : (k j : ℕ) → k < s.issued → s.trigger k ≡ none → j < k → s.dropped j ≡ true
  pub signals : (k : ℕ) → s.sent k ≡ true → s.dropped k ≡ true
  pub done : (k : ℕ) → s.dropped k ≡ true → (k < s.issued) × (s.trigger k ≡ none)
  pub fresh : (k : ℕ) → s.issued ≤ k → s.trigger k ≡ none
  pub passed : All (λ e. (e.0 < s.issued) × (s.trigger e.0 ≡ none)) s.written
  pub pending : (c : ℕ) → s.dropped c ≡ true → s.trigger (suc c) ≡ some c → s.sent c ≡ true
  pub queued : (c : ℕ) → s.dropped c ≡ true → s.next_trigger ≡ some c → s.sent c ≡ true

pub new-Inv : Inv new
unfolding new
new-Inv = record {
  last = inl (refl, refl);
  waits = λ k c e. cc;
  turn = λ k j h e l. absurd (omega arith);
  signals = λ k e. cc;
  done = λ k e. cc;
  fresh = λ k h. refl;
  passed = tt;
  pending = λ c e. cc;
  queued = λ c e. cc;
}

pub next-Inv : (s : Writers) → Inv s → Inv (next s)
unfolding next
next-Inv s v = record {
  last = inr (s.issued, omega arith, refl);
  waits = λ k c. ground (arith, v.last, v.waits k c);
  turn = λ k j h e l. next_turn k j h e l;
  signals = v.signals;
  done = λ k e. ground (arith, v.done k e);
  fresh = λ k h. ground (arith, v.fresh k);
  passed = All-map _ _ s.written (λ e (a, b). ground arith) v.passed;
  pending = λ c e. ground (arith, v.pending c e, v.queued c e);
  queued = λ c e h. ground (arith, v.done c e);
}
  where
    next_turn :
        (k j : ℕ)
        → k < s.issued + 1
        → update s.trigger s.issued s.next_trigger k ≡ none
        → j < k
        → s.dropped j ≡ true
    next_turn k j h e l = ground (arith, v.last, v.turn k j, v.turn j j)

-- A turn that was waited for.
pub received-Inv :
    (s : Writers) (k c : ℕ)
    → Inv s
    → s.trigger k ≡ some c
    → s.sent c ≡ true
    → Inv (record s { sent = update s.sent c false; trigger = update s.trigger k none })
received-Inv s k c v e h = record {
  last = v.last;
  waits = λ k' c'. ground (arith, v.waits k' c');
  turn = λ k' j l e' m. ground (arith, v.turn k' j, v.waits k c, v.signals c, v.done c, v.turn c j);
  signals = λ k'. ground (arith, v.signals k');
  done = λ k'. ground (arith, v.done k');
  fresh = λ k'. ground (arith, v.fresh k');
  passed = All-map _ _ s.written (λ e (a, b). ground arith) v.passed;
  pending = λ c' e'. ground (arith, v.pending c' e', v.waits k c);
  queued = λ c' e'. ground (arith, v.queued c' e', v.waits k c, v.fresh k, v.last);
}

pub drop-Inv : (s : Writers) (k : ℕ) → Inv s → k < s.issued → s.trigger k ≡ none → Inv (drop k s)
unfolding drop
drop-Inv s k v h e = record {
  last = v.last;
  waits = v.waits;
  turn = λ k' j. ground (arith, v.turn k' j);
  signals = λ k'. ground (arith, v.signals k');
  done = λ k'. ground (arith, v.done k');
  fresh = v.fresh;
  passed = v.passed;
  pending = λ c. ground (arith, v.pending c);
  queued = λ c. ground (arith, v.queued c);
}
