-- ===== src/Util/Sequential/Writers.antt =====
-- src/util/sequential.rs: `SequentialWriterBuilder` and the `SequentialWriter`s that it makes, as one
-- store. Writer `k` is the one that the builder made as its `k`-th, from 0, and `on_finish` of
-- writer `k` is channel `k`. A call that waits for a message that has not been sent is `none`.
use tiny_http.Prelude.{
  ℕ, ◌+◌, Bool, true, false, List, [], ◌∷◌, ◌++◌, Option, none, some, if◌then◌else◌, ◌==◌,
}
use tiny_http.Text.{Bytes}

abbrev pub update : {A : Type 0} → (ℕ → A) → ℕ → A → ℕ → A
update f k a j = if j == k then a else f j

pub record Writers : Type 0 where
  -- what the inner writer was given, with the writer that it came through, oldest first
  pub written : List (ℕ × Bytes)
  pub next_trigger : Option ℕ
  pub issued : ℕ
  pub trigger : ℕ → Option ℕ
  -- channels with a message under way
  pub sent : ℕ → Bool
  pub dropped : ℕ → Bool

-- `SequentialWriterBuilder::new`.
unfoldable pub new : Writers
new = record {
  written = [];
  next_trigger = none;
  issued = 0;
  trigger = λ _. none;
  sent = λ _. false;
  dropped = λ _. false;
}

-- `next`: the new writer waits for the one before it, and the one after it will wait for it.
unfoldable pub next : Writers → Writers
next s = record s {
  next_trigger = some s.issued;
  issued = s.issued + 1;
  trigger = update s.trigger s.issued s.next_trigger;
}

-- `recv` on the trigger of writer `k`, if it has one, which then has none.
unfoldable pub await : ℕ → Writers → Option Writers
await k s = elim (s.trigger k) [
  | none ↦ some s
  | some c ↦
      if s.sent c
      then some (record s { sent = update s.sent c false; trigger = update s.trigger k none })
      else none
]

-- `write` and `flush` of writer `k`.
abbrev pub log_write : ℕ → Bytes → Option Writers → Option Writers
log_write k buf none = none
log_write k buf (some s) = some (record s { written = s.written ++ (k, buf) ∷ [] })

unfoldable pub write : ℕ → Bytes → Writers → Option Writers
unfolding await
write k buf s = log_write k buf (await k s)

unfoldable pub flush : ℕ → Writers → Option Writers
unfolding await
flush k s = await k s

-- `drop` of writer `k`: it sends on its channel, and does not wait for its trigger.
unfoldable pub drop : ℕ → Writers → Writers
drop k s = record s { sent = update s.sent k true; dropped = update s.dropped k true }
