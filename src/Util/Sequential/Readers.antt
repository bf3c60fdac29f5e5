-- ===== src/Util/Sequential/Readers.antt =====
-- src/util/sequential.rs: `SequentialReaderBuilder` and the `SequentialReader`s that it makes, as one
-- store. Reader `k` is the one that the builder made as its `k`-th, from 0, and `next` of reader `k`
-- is channel `k`. A call that waits for a message that has not been sent, and a read of a reader that
-- was dropped, are `none`.
pub mod Baton
pub mod Steps
pub mod History
use tiny_http.Prelude.{
  ℕ, ◌+◌, List, [], ◌∷◌, ◌++◌, Option, none, some, Result, ok, err, if◌then◌else◌, ◌==◌,
}
use tiny_http.Text.{Bytes}
use tiny_http.Io.{ErrorKind, Read}
use tiny_http.Util.Sequential.Writers.{update}

pub data BuilderInner (R : Type 0) : Type 0 where
  first : R → BuilderInner R
  not_first : ℕ → BuilderInner R

pub data ReaderInner (R : Type 0) : Type 0 where
  my_turn : R → ReaderInner R
  waiting : ℕ → ReaderInner R
  empty : ReaderInner R

pub record Readers (R : Type 0) : Type 0 where
  -- what the inner reader delivered, with the reader that it went through, oldest first
  pub delivered : List (ℕ × Bytes)
  pub inner : BuilderInner R
  pub issued : ℕ
  pub state : ℕ → ReaderInner R
  -- channels with the inner reader under way
  pub sent : ℕ → Option R

module _ {R : Type 0} where
  -- `SequentialReaderBuilder::new`.
  unfoldable pub new : R → Readers R
  new reader = record {
    delivered = [];
    inner = first reader;
    issued = 0;
    state = λ _. empty;
    sent = λ _. none;
  }

  abbrev pub begin : BuilderInner R → ReaderInner R
  begin (first reader) = my_turn reader
  begin (not_first previous) = waiting previous

  unfoldable pub next : Readers R → Readers R
  next s = record s {
    inner = not_first s.issued;
    issued = s.issued + 1;
    state = update s.state s.issued (begin s.inner);
  }

  -- `drop` of reader `k`: it hands the inner reader on, which it waits for.
  abbrev drop_arms : ℕ → Readers R → ReaderInner R → Option (Readers R)
  drop_arms k s (my_turn reader) =
      some (record s { state = update s.state k empty; sent = update s.sent k (some reader) })
  drop_arms k s (waiting c) = elim (s.sent c) [
    | some reader ↦ some (record s {
      state = update s.state k empty;
      sent = update (update s.sent c none) k (some reader);
    })
    | none ↦ none
  ]
  drop_arms k s empty = some s

  unfoldable pub drop : ℕ → Readers R → Option (Readers R)
  drop k s = drop_arms k s (s.state k)

module _ {R : Type 0} (source : Read R) where
  -- The read itself, once the inner reader is at hand.
  abbrev pub record_read :
      ℕ → Readers R → Result ErrorKind Bytes × R → Result ErrorKind Bytes × Readers R
  record_read k s (ok bytes, reader) = (
    ok bytes,
    record s {
      delivered = s.delivered ++ (k, bytes) ∷ [];
      state = update s.state k (my_turn reader);
    },
  )
  record_read k s (err e, reader) = (err e, record s { state = update s.state k (my_turn reader) })

  abbrev read_arms : ℕ → ℕ → Readers R → ReaderInner R → Option (Result ErrorKind Bytes × Readers R)
  read_arms n k s (my_turn reader) = some (record_read k s (source.read n reader))
  read_arms n k s (waiting c) = elim (s.sent c) [
    | some reader ↦
        some (record_read k (record s { sent = update s.sent c none }) (source.read n reader))
    | none ↦ none
  ]
  read_arms n k s empty = none

  unfoldable pub read : ℕ → ℕ → Readers R → Option (Result ErrorKind Bytes × Readers R)
  read n k s = read_arms n k s (s.state k)
