-- ===== src/Util/Sequential/Waiting.antt =====
-- How long a writer waits for the one before it.
use tiny_http.Prelude.{
  ℕ, ◌<◌, ◌≡◌, ◌≢◌, false, Option, none, some, arith, some_inj, subst, Option-cases, Bool-cases,
  inl, inr,
}
use tiny_http.Text.{Bytes}
use tiny_http.Util.Sequential.Writers.{Writers, next, await, write, flush, drop, log_write}

-- What a store can become while writer `k` makes no call and writer `n` is not dropped: writers are
-- made, other writers write and flush, and writers are dropped, in any order.
pub data Later (n k : ℕ) (s : Writers) : Writers → Type 0 where
  now : Later n k s s
  issues : {u : Writers} → Later n k s u → Later n k s (next u)
  writes :
      {u w : Writers} (j : ℕ) (buf : Bytes)
      → Later n k s u
      → j ≢ k
      → write j buf u ≡ some w
      → Later n k s w
  flushes : {u w : Writers} (j : ℕ) → Later n k s u → j ≢ k → flush j u ≡ some w → Later n k s w
  drops : {u : Writers} (j : ℕ) → Later n k s u → j ≢ n → Later n k s (drop j u)

-- Writer `k` waits for writer `n`, which has not sent its signal.
pub record Waits (n k : ℕ) (s : Writers) : Type 0 where
  pub made : k < s.issued
  pub behind : s.trigger k ≡ some n
  pub unsent : s.sent n ≡ false

await-Waits : (n k j : ℕ) (s t : Writers) → j ≢ k → Waits n k s → await j s ≡ some t → Waits n k t
unfolding await
await-Waits n k j s t other v e = elim (Option-cases (s.trigger j)) [
  | inl free ↦ subst (Waits n k) (some_inj (rw (free, await) at e)) v
  | inr (c, waiting) ↦ elim (Bool-cases (s.sent c)) [
    | inl told ↦ subst (Waits n k) (some_inj (rw (waiting, told, await) at e)) (record {
      made = v.made;
      behind = ground (arith, v.behind);
      unsent = ground (arith, v.unsent);
    })
    | inr untold ↦ absurd (cc (rw (waiting, untold, await) at e))
  ]
]

write-Waits :
    (n k j : ℕ) (buf : Bytes) (s t : Writers)
    → j ≢ k
    → Waits n k s
    → write j buf s ≡ some t
    → Waits n k t
unfolding write
write-Waits n k j buf s t other v e = go (await j s) (λ u. await-Waits n k j s u other v) e
  where
    go :
        (o : Option Writers)
        → ((u : Writers) → o ≡ some u → Waits n k u)
        → log_write j buf o ≡ some t
        → Waits n k t
    go none f q = absurd (cc q)
    go (some u) f q =
        let w = f u (λ i. some u) in
        subst (Waits n k) (some_inj q)
          (record { made = w.made; behind = w.behind; unsent = w.unsent })

pub Later-Waits : (n k : ℕ) (s t : Writers) → Waits n k s → Later n k s t → Waits n k t
unfolding next flush drop
Later-Waits n k s t v now = v
Later-Waits n k s t v (issues {u} l) =
    let w = Later-Waits n k s u v l in
    record {
      made = omega (arith, w.made);
      behind = ground (arith, w.behind, w.made);
      unsent = w.unsent;
    }
Later-Waits n k s t v (writes {u} j buf l other e) =
    write-Waits n k j buf u t other (Later-Waits n k s u v l) e
Later-Waits n k s t v (flushes {u} j l other e) =
    await-Waits n k j u t other (Later-Waits n k s u v l) e
Later-Waits n k s t v (drops {u} j l other) =
    let w = Later-Waits n k s u v l in
    record { made = w.made; behind = w.behind; unsent = ground (arith, w.unsent) }

-- A writer that waits can neither write nor flush.
pub Waits-blocked :
    (n k : ℕ) (s : Writers) (buf : Bytes)
    → Waits n k s
    → (write k buf s ≡ none) × (flush k s ≡ none)
unfolding write flush await
Waits-blocked n k s buf v = (ground (arith, v.behind, v.unsent), ground (arith, v.behind, v.unsent))

pub next-Waits :
    (s : Writers) (n : ℕ) → s.next_trigger ≡ some n → s.sent n ≡ false → Waits n s.issued (next s)
unfolding next
next-Waits s n e h = record { made = omega arith; behind = ground arith; unsent = h }
