-- ===== src/Util/Sequential/Order.antt =====
-- In which order the writers get through.
use tiny_http.Prelude.{
  some_inj, subst, ℕ, ◌<◌, ◌≤◌, ◌≡◌, refl, true, false, List, [], ◌∷◌, ◌++◌, none, some, arith, inl,
  inr, Option-cases, All, All-map, Bool-cases,
}
use tiny_http.Text.{Bytes}
use tiny_http.Util.Sequential.Writers.{Writers, new, next, await, write, flush, drop, update}
use tiny_http.Util.Sequential.Inv.{Inv, new-Inv, next-Inv, received-Inv, drop-Inv}

-- The histories in which a writer is dropped only after it has had its turn, by a write or a flush.
pub data Reach : Writers → Type 0 where
  start : Reach new
  issues : {s : Writers} → Reach s → Reach (next s)
  writes :
      {s t : Writers} (k : ℕ) (buf : Bytes)
      → Reach s
      → k < s.issued
      → s.dropped k ≡ false
      → write k buf s ≡ some t
      → Reach t
  flushes :
      {s t : Writers} (k : ℕ)
      → Reach s
      → k < s.issued
      → s.dropped k ≡ false
      → flush k s ≡ some t
      → Reach t
  drops :
      {s : Writers} (k : ℕ)
      → Reach s
      → k < s.issued
      → s.dropped k ≡ false
      → s.trigger k ≡ none
      → Reach (drop k s)

-- What a call that gets its turn leaves behind.
record Turn (k : ℕ) (s t : Writers) : Type 0 where
  inv : Inv t
  mine : t.trigger k ≡ none
  same_issued : t.issued ≡ s.issued
  same_dropped : t.dropped ≡ s.dropped
  same_written : t.written ≡ s.written

await-Turn : (k : ℕ) (s t : Writers) → Inv s → await k s ≡ some t → Turn k s t
unfolding await
await-Turn k s t v e = elim (Option-cases (s.trigger k)) [
  | inl free ↦
      let same : s ≡ t = some_inj (rw (free, await) at e) in
      subst (Turn k s) same (record {
        inv = v;
        mine = free;
        same_issued = refl;
        same_dropped = refl;
        same_written = refl;
      })
  | inr (c, waiting) ↦ elim (Bool-cases (s.sent c)) [
    | inl told ↦
        let same = some_inj (rw (waiting, told, await) at e) in
        subst (Turn k s) same (record {
          inv = received-Inv s k c v waiting told;
          mine = ground arith;
          same_issued = refl;
          same_dropped = refl;
          same_written = refl;
        })
    | inr untold ↦ absurd (ground arith)
  ]
]

-- Tickets never fall along the list.
abbrev pub Ascends : List (ℕ × Bytes) → Type 0
Ascends [] = Unit {0}
Ascends (e ∷ es) = All (λ f. e.0 ≤ f.0) es × Ascends es

pub All-concat :
    {A : Type 0} (P : A → Type 0) (xs : List A) (x : A) → All P xs → P x → All P (xs ++ x ∷ [])
All-concat P [] x h p = (p, tt)
All-concat P (y ∷ xs) x (q, h) p = (q, All-concat P xs x h p)

pub Ascends-concat :
    (es : List (ℕ × Bytes)) (e : ℕ × Bytes)
    → Ascends es
    → All (λ f. f.0 ≤ e.0) es
    → Ascends (es ++ e ∷ [])
Ascends-concat [] e a h = (tt, tt)
Ascends-concat (f ∷ es) e (b, a) (l, h) = (All-concat _ es e b l, Ascends-concat es e a h)

-- Nothing that was written came through a writer behind `k`, if `k` has its turn and is not dropped.
behind_turn : (k : ℕ) (s : Writers) → Inv s → s.dropped k ≡ false → All (λ f. f.0 ≤ k) s.written
behind_turn k s v alive = All-map _ _ s.written (λ f (a, b). bound f a b) v.passed
  where
    bound : (f : ℕ × Bytes) → f.0 < s.issued → s.trigger f.0 ≡ none → f.0 ≤ k
    bound f a b = ground (arith, v.turn f.0 k a b)

abbrev Good : Writers → Type 0
Good s = Inv s × Ascends s.written

write-Good :
    (k : ℕ) (buf : Bytes) (s t : Writers)
    → Good s
    → k < s.issued
    → s.dropped k ≡ false
    → write k buf s ≡ some t
    → Good t
unfolding write
write-Good k buf s t (v, a) h alive e = elim (Option-cases (await k s)) [
  | inl stuck ↦ absurd (ground arith)
  | inr (u, turned) ↦
      let w = await-Turn k s u v turned in
      let same = some_inj (rw (turned, write) at e) in subst Good same (logged u w)
]
  where
    logged : (u : Writers) → Turn k s u → Good (record u { written = u.written ++ (k, buf) ∷ [] })
    logged u w = (
      record {
        last = w.inv.last;
        waits = w.inv.waits;
        turn = w.inv.turn;
        signals = w.inv.signals;
        done = w.inv.done;
        fresh = w.inv.fresh;
        passed = All-concat _ u.written (k, buf) w.inv.passed (rw w.same_issued h, w.mine);
        pending = w.inv.pending;
        queued = w.inv.queued;
      },
      Ascends-concat u.written (k, buf) (rw w.same_written a)
          (behind_turn k u w.inv (rw w.same_dropped alive)),
    )

new-Good : Good new
unfolding new
new-Good = (new-Inv, tt)

next-Good : (s : Writers) → Good s → Good (next s)
unfolding next
next-Good s (v, a) = (next-Inv s v, a)

flush-Good : (k : ℕ) (s t : Writers) → Good s → flush k s ≡ some t → Good t
unfolding flush
flush-Good k s t (v, a) e = let w = await-Turn k s t v e in (w.inv, rw w.same_written a)

drop-Good : (k : ℕ) (s : Writers) → Good s → k < s.issued → s.trigger k ≡ none → Good (drop k s)
unfolding drop
drop-Good k s (v, a) h e = (drop-Inv s k v h e, a)

pub Reach-Good : {s : Writers} → Reach s → Good s
Reach-Good start = new-Good
Reach-Good (issues {s} r) = next-Good s (Reach-Good r)
Reach-Good (writes {s} {t} k buf r h alive e) = write-Good k buf s t (Reach-Good r) h alive e
Reach-Good (flushes {s} {t} k r h alive e) = flush-Good k s t (Reach-Good r) e
Reach-Good (drops {s} k r h alive e) = drop-Good k s (Reach-Good r) h e

-- If every writer has its turn, by a write or a flush, before it is dropped, then what was written
-- went to the stream in the order in which the writers were made, whatever the order of the calls.
pub Reach-Ascends : {s : Writers} → Reach s → Ascends s.written
Reach-Ascends r = (Reach-Good r).1

-- In any history in which every writer has its turn, by a write or a flush, before it is dropped:
-- once all writers before a writer `k` are dropped, a write of `k` does not wait, and adds its
-- bytes behind the others.
pub write_gets_through :
    {s : Writers} (k : ℕ) (buf : Bytes)
    → Reach s
    → k < s.issued
    → ((j : ℕ) → j < k → s.dropped j ≡ true)
    → (t : Writers) × (write k buf s ≡ some t) × (t.written ≡ s.written ++ (k, buf) ∷ [])
unfolding write await
write_gets_through {s} k buf r h before = elim (Option-cases (s.trigger k)) [
  | inl free ↦ (record s { written = s.written ++ (k, buf) ∷ [] }, rw (free, await), refl)
  | inr (c, waiting) ↦
      let v = (Reach-Good r).0 in
      let e = v.waits k c waiting in
      let told = v.pending c (before c (omega arith)) (rw (← e) waiting) in
      (
        record s {
          written = s.written ++ (k, buf) ∷ [];
          sent = update s.sent c false;
          trigger = update s.trigger k none;
        },
        rw (waiting, told, await),
        refl,
      )
]
