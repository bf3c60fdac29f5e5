-- ===== src/Util/EqualReader.antt =====
-- src/util/equal_reader.rs: a reader of the next `size` bytes of another.
pub mod Contract
use tiny_http.Prelude.{
  ℕ, zero, suc, ◌-◌, ◌<◌, ◌≡◌, Bool, true, false, List, [], ◌∷◌, Option, none, some, Result, ok,
  err, ltb, ◌==◌, if◌then◌else◌, length,
}
use tiny_http.Text.{Bytes}
use tiny_http.Io.{ErrorKind, Read}

pub record EqualReader (R : Type 0) : Type 0 where
  pub reader : R
  pub size : ℕ

-- What the destructor sends on `last_read_signal`, if anything.
abbrev pub Signal : Type 0
Signal = Option (Result ErrorKind (Unit {0}))

module _ {R : Type 0} where
  unfoldable pub new : R → ℕ → EqualReader R
  new reader size = record { reader = reader; size = size }

  abbrev after : EqualReader R → Result ErrorKind Bytes × R → Result ErrorKind Bytes × EqualReader R
  after e (ok bs, r) = (ok bs, record { reader = r; size = e.size - length bs })
  after e (err k, r) = (err k, record { reader = r; size = e.size })

-- The largest `isize`: a buffer with more bytes panics.
abbrev pub isize_max : ℕ
isize_max = 9_223_372_036_854_775_807

-- How the destructor ends: its loop does, or it panics on the capacity of a buffer, and the reader is
-- then dropped as it is.
pub data Ended : Type 0 where
  left : Signal → Ended
  capacity_overflow : Ended

-- The arms of the `match` in the destructor's loop; `again` is the next round.
abbrev drain_arms :
    {R : Type 0}
    → (ℕ → R → Option (Ended × R))
    → ℕ
    → Result ErrorKind Bytes × R
    → Option (Ended × R)
drain_arms again remaining (err k, r) = some (left (some (err k)), r)
drain_arms again remaining (ok [], r) = some (left (some (ok tt)), r)
drain_arms again remaining (ok (b ∷ bs), r) = again (remaining - length (b ∷ bs)) r

module _ {R : Type 0} (inner : Read R) where
  unfoldable pub read : ℕ → EqualReader R → Result ErrorKind Bytes × EqualReader R
  read n e =
      if e.size == 0
      then (ok [], e)
      else after e (inner.read (if ltb n e.size then n else e.size) e.reader)

  abbrev pub equal_read : Read (EqualReader R)
  equal_read = record { read = read }

  -- The loop of the destructor, on fuel; `none` means that the fuel ran out. A buffer that is within
  -- `isize_max` is taken to be allocated.
  unfoldable pub drain : ℕ → ℕ → R → Option (Ended × R)
  drain fuel zero r = some (left none, r)
  drain zero (suc m) r = none
  drain (suc fuel) (suc m) r =
      if ltb isize_max (suc m)
      then some (capacity_overflow, r)
      else drain_arms (drain fuel) (suc m) (inner.read (suc m) r)

  unfoldable pub drop : EqualReader R → Option (Ended × R)
  unfolding drain
  drop e = drain e.size e.size e.reader
