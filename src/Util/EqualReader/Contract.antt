-- ===== src/Util/EqualReader/Contract.antt =====
-- What `EqualReader` promises over a reader that keeps the contract of `Read`.
use tiny_http.Prelude.{
  ℕ, zero, suc, ◌-◌, ◌<◌, ◌≤◌, ◌≡◌, refl, sym, ◌∙◌, ◌++◌, [], ◌∷◌, Option, none, some, Result, ok,
  err, ltb, ◌==◌, if◌then◌else◌, length, take, arith, Bool-cases, ◌⊎◌, inl, inr, true, false,
  take-append, take-nil, length-append, append_assoc, take_zero, drop-append, drop-nil,
}
use tiny_http.Prelude.{drop as drop_bytes}
use tiny_http.Text.{Bytes}
use tiny_http.Io.{ErrorKind, Read}
use tiny_http.Io.Readers.{Reads, IsReader}
use tiny_http.Util.EqualReader.{
  EqualReader, Ended, left, capacity_overflow, isize_max, read, equal_read, drain, drop, after,
}

module _ {R : Type 0} (inner : Read R) (rest : R → Bytes) (fuel : R → ℕ)
    (law : IsReader inner rest fuel) where
  -- The bytes that an `EqualReader` still lets through.
  abbrev pub body : EqualReader R → Bytes
  body e = take e.size (rest e.reader)

  -- The bytes that stand behind them.
  abbrev pub beyond : EqualReader R → Bytes
  beyond e = drop_bytes e.size (rest e.reader)

  abbrev inner_fuel : EqualReader R → ℕ
  inner_fuel e = fuel e.reader

  after-Reads :
      (n m : ℕ) (e : EqualReader R) (out : Result ErrorKind Bytes × R)
      → m ≤ n
      → m ≤ e.size
      → Reads rest fuel m e.reader out
      → Reads body inner_fuel n e (after e out) × (beyond (after e out).1 ≡ beyond e)
  after-Reads n m e (ok [], r) a b (q, q', f) = (
    (rw q (take-nil e.size), rw q' (take-nil (e.size - 0)), f),
    rw (q, q') (drop-nil (e.size - 0) ∙ sym (drop-nil e.size)),
  )
  after-Reads n m e (ok (c ∷ bs), r) a b (q, l, f) = (
    (rw q (take-append e.size (c ∷ bs) (rest r) (omega arith)), omega arith, f),
    rw q (sym (drop-append e.size (c ∷ bs) (rest r) (omega arith))),
  )
  after-Reads n m e (err k, r) a b (q, f) = ((rw q refl, f), rw q refl)

  read-Reads :
      (n : ℕ) (e : EqualReader R)
      → 0 < n
      → Reads body inner_fuel n e (read inner n e) × (beyond (read inner n e).1 ≡ beyond e)
  unfolding read
  read-Reads n e h = elim (Bool-cases (e.size == 0)) [
    | inl done ↦
        rw done (
          (take_zero e.size _ (ground arith), take_zero e.size _ (ground arith), omega arith),
          refl,
        )
    | inr more ↦ rw more (
        after-Reads n (if ltb n e.size then n else e.size) e _ (ground arith) (ground arith)
          (law.reads (if ltb n e.size then n else e.size) e.reader (ground arith)))
  ]

  -- Over a reader that keeps the contract of `Read`, an `EqualReader` keeps it too, for the first
  -- `size` bytes that the reader has left.
  pub equal_read-IsReader : IsReader (equal_read inner) body inner_fuel
  equal_read-IsReader = record { reads = λ n e h. (read-Reads n e h).0 }

  -- Over a reader that keeps the contract of `Read`, a read into a buffer that is not empty does
  -- not change what comes behind the body.
  pub beyond-read : (n : ℕ) (e : EqualReader R) → 0 < n → beyond (read inner n e).1 ≡ beyond e
  beyond-read n e h = (read-Reads n e h).1

  -- How the destructor leaves the reader: with no signal the reader stands right behind the body;
  -- with `Ok` it had come to its end before; with an error it stands within the body.
  abbrev pub Leaves : ℕ → Bytes → Option (Ended × R) → Type 0
  Leaves size before none = ⊥
  Leaves size before (some (capacity_overflow, r)) = ⊥
  Leaves size before (some (left none, r)) =
      (rest r ≡ drop_bytes size before) × (size ≤ length before)
  Leaves size before (some (left (some (ok _)), r)) = (rest r ≡ []) × (length before < size)
  Leaves size before (some (left (some (err _)), r)) =
      (read_part : Bytes) × (before ≡ read_part ++ rest r) × (length read_part < size)

  Leaves-chunk :
      (size : ℕ) (before bs : Bytes) (out : Option (Ended × R))
      → length bs ≤ size
      → Leaves (size - length bs) before out
      → Leaves size (bs ++ before) out
  Leaves-chunk size before bs none h l = l
  Leaves-chunk size before bs (some (capacity_overflow, r)) h l = l
  Leaves-chunk size before bs (some (left none, r)) h (a, b) =
      (a ∙ sym (drop-append size bs before h), omega (arith, length-append bs before))
  Leaves-chunk size before bs (some (left (some (ok _)), r)) h (a, b) =
      (a, omega (arith, length-append bs before))
  Leaves-chunk size before bs (some (left (some (err _)), r)) h (p, a, b) =
      (bs ++ p, rw a (sym (append_assoc bs p (rest r))), omega (arith, length-append bs p))

  drain-Leaves :
      (steps size : ℕ) (r : R)
      → size ≤ steps
      → size ≤ isize_max
      → Leaves size (rest r) (drain inner steps size r)
  unfolding drain
  drain-Leaves steps zero r h b = (refl, omega arith)
  drain-Leaves zero (suc m) r h b = absurd (omega arith)
  drain-Leaves (suc steps) (suc m) r h b =
      go (inner.read (suc m) r) refl (law.reads (suc m) r (omega arith)) (drain-Leaves steps)
    where
      fits : ltb isize_max (suc m) ≡ false
      fits = ground arith

      go :
          (out : Result ErrorKind Bytes × R)
          → inner.read (suc m) r ≡ out
          → Reads rest fuel (suc m) r out
          → ((size' : ℕ) (r' : R)
              → size' ≤ steps
              → size' ≤ isize_max
              → Leaves size' (rest r') (drain inner steps size' r'))
          → Leaves (suc m) (rest r) (drain inner (suc steps) (suc m) r)
      go (err k, r') q (a, f) ih = rw (fits, q, drain) ([], sym a, omega arith)
      go (ok [], r') q (a, b, f) ih = rw (fits, q, drain) (b, rw a (omega arith))
      go (ok (c ∷ bs), r') q (a, l, f) ih =
          rw (fits, q, drain, a)
            (Leaves-chunk (suc m) (rest r') (c ∷ bs) _ l
              (ih (suc m - length (c ∷ bs)) r' (omega arith) (omega arith)))

  drain_overflow :
      (steps size : ℕ) (r : R)
      → size ≤ steps
      → isize_max < size
      → drain inner steps size r ≡ some (capacity_overflow, r)
  unfolding drain
  drain_overflow steps zero r h l = absurd (omega arith)
  drain_overflow zero (suc m) r h l = absurd (omega arith)
  drain_overflow (suc steps) (suc m) r h l =
      let over : ltb isize_max (suc m) ≡ true = ground arith in rw over refl

  -- A body that fits a buffer is read up; for a larger one the destructor panics before it reads.
  abbrev pub Dropped : EqualReader R → Option (Ended × R) → Type 0
  Dropped e out =
      ((e.size ≤ isize_max) × Leaves e.size (rest e.reader) out)
      ⊎ ((isize_max < e.size) × (out ≡ some (capacity_overflow, e.reader)))

  -- Over a reader that keeps the contract of `Read`, the destructor ends. If more than `isize::MAX`
  -- bytes are left of the size, it panics before it reads. Otherwise it does not panic: either it
  -- signals nothing and the reader stands right behind the body; or it signals `Ok` and the reader
  -- was at its end before the body was complete; or it signals an error and the reader stands
  -- within the body.
  pub drop-Leaves : (e : EqualReader R) → Dropped e (drop inner e)
  unfolding drop
  drop-Leaves e = elim (Bool-cases (ltb isize_max e.size)) [
    | inl over ↦
        inr (ground arith, drain_overflow e.size e.size e.reader (omega arith) (ground arith))
    | inr fits ↦
        inl (ground arith, drain-Leaves e.size e.size e.reader (omega arith) (ground arith))
  ]
