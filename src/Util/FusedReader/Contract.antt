-- ===== src/Util/FusedReader/Contract.antt =====
-- What `FusedReader` promises over a reader that keeps the contract of `Read`.
use tiny_http.Prelude.{
  ℕ, ◌+◌, ◌<◌, ◌≡◌, refl, List, [], ◌∷◌, Option, none, some, Result, ok, err, arith,
}
use tiny_http.Text.{Bytes}
use tiny_http.Io.{ErrorKind, Read}
use tiny_http.Io.Readers.{Reads, IsReader}
use tiny_http.Util.FusedReader.{FusedReader, read, read_vectored, fused_read, after}

-- How many bytes the buffers take.
abbrev pub room : List ℕ → ℕ
room [] = 0
room (n ∷ ns) = n + room ns

-- The contract of both ways to read: `read_vectored` is a read into all buffers together.
pub record ReadsBoth {S : Type 0} (r : Read S) (v : List ℕ → S → Result ErrorKind Bytes × S)
    (rest : S → Bytes) (fuel : S → ℕ) : Type 0 where
  pub plain : IsReader r rest fuel
  pub vectored : (bufs : List ℕ) (s : S) → 0 < room bufs → Reads rest fuel (room bufs) s (v bufs s)

-- The reader inside is dropped, and every read of either kind returns no byte and changes nothing.
pub record IsAtEnd {R : Type 0} (r : Read R) (v : List ℕ → R → Result ErrorKind Bytes × R)
    (f : FusedReader R) : Type 0 where
  pub dropped : f.inner ≡ none
  pub nothing_read : (m : ℕ) → read r m f ≡ (ok [], f)
  pub nothing_read_vectored : (bufs : List ℕ) → read_vectored v bufs f ≡ (ok [], f)

module _ {R : Type 0} (r : Read R) (v : List ℕ → R → Result ErrorKind Bytes × R) where
  none-IsAtEnd : (o : Option R) → o ≡ none → IsAtEnd r v (record { inner = o })
  unfolding read read_vectored
  none-IsAtEnd none e = record {
    dropped = refl;
    nothing_read = λ m. refl;
    nothing_read_vectored = λ bufs. refl;
  }
  none-IsAtEnd (some s) e = absurd (cc e)

  after_end :
      (out : Result ErrorKind Bytes × R) → (after out).0 ≡ ok [] → (after out).1.inner ≡ none
  after_end (ok [], s) h = refl
  after_end (ok (b ∷ bs), s) h = absurd (cc h)
  after_end (err k, s) h = absurd (cc h)

  read_end :
      (n : ℕ) (o : Option R)
      → (read r n (record { inner = o })).0 ≡ ok []
      → (read r n (record { inner = o })).1.inner ≡ none
  unfolding read
  read_end n none h = refl
  read_end n (some inner) h = after_end (r.read n inner) h

  read_vectored_end :
      (bufs : List ℕ) (o : Option R)
      → (read_vectored v bufs (record { inner = o })).0 ≡ ok []
      → (read_vectored v bufs (record { inner = o })).1.inner ≡ none
  unfolding read_vectored
  read_vectored_end bufs none h = refl
  read_vectored_end bufs (some inner) h = after_end (v bufs inner) h

  -- Whichever read returned no byte.
  pub record Fuses : Type 0 where
    pub after_read :
        (n : ℕ) (f : FusedReader R) → (read r n f).0 ≡ ok [] → IsAtEnd r v (read r n f).1
    pub after_read_vectored :
        (bufs : List ℕ) (f : FusedReader R)
        → (read_vectored v bufs f).0 ≡ ok []
        → IsAtEnd r v (read_vectored v bufs f).1

  fused-Fuses : Fuses
  fused-Fuses = record {
    after_read = λ n f h. none-IsAtEnd _ (read_end n f.inner h);
    after_read_vectored = λ bufs f h. none-IsAtEnd _ (read_vectored_end bufs f.inner h);
  }

module _ {R : Type 0} (r : Read R) (rest : R → Bytes) (fuel : R → ℕ)
    (law : IsReader r rest fuel) where
  -- What the reader inside still has; nothing once it is dropped.
  abbrev rest_of : Option R → Bytes
  rest_of none = []
  rest_of (some inner) = rest inner

  abbrev fuel_of : Option R → ℕ
  fuel_of none = 0
  fuel_of (some inner) = fuel inner

  abbrev pub left : FusedReader R → Bytes
  left f = rest_of f.inner

  abbrev left_fuel : FusedReader R → ℕ
  left_fuel f = fuel_of f.inner

  after-Reads :
      (n : ℕ) (inner : R) (out : Result ErrorKind Bytes × R)
      → Reads rest fuel n inner out
      → Reads left left_fuel n (record { inner = some inner }) (after out)
  after-Reads n inner (ok [], s) (a, b, c) = (a, refl, omega arith)
  after-Reads n inner (ok (b ∷ bs), s) h = h
  after-Reads n inner (err k, s) h = h

  read-Reads :
      (n : ℕ) (o : Option R)
      → 0 < n
      → Reads left left_fuel n (record { inner = o }) (read r n (record { inner = o }))
  unfolding read
  read-Reads n none h = (refl, refl, omega arith)
  read-Reads n (some inner) h = after-Reads n inner (r.read n inner) (law.reads n inner h)

  vectored-Reads :
      (v : List ℕ → R → Result ErrorKind Bytes × R) (bufs : List ℕ) (n : ℕ)
      → ((s : R) → Reads rest fuel n s (v bufs s))
      → (o : Option R)
      → Reads left left_fuel n (record { inner = o }) (read_vectored v bufs (record { inner = o }))
  unfolding read_vectored
  vectored-Reads v bufs n h none = (refl, refl, omega arith)
  vectored-Reads v bufs n h (some inner) = after-Reads n inner (v bufs inner) (h inner)

  -- Over a reader whose `read` and `read_vectored` keep the contract of `Read`, those of a
  -- `FusedReader` keep it too, for the same bytes; `read_vectored` counts as a read into all its
  -- buffers together. And once either read has returned no byte, the reader inside is dropped, and
  -- every later read of either kind returns no byte and changes nothing.
  pub fused_read-ReadsBoth :
      (v : List ℕ → R → Result ErrorKind Bytes × R)
      → ((bufs : List ℕ) (s : R) → 0 < room bufs → Reads rest fuel (room bufs) s (v bufs s))
      → ReadsBoth (fused_read r) (read_vectored v) left left_fuel × Fuses r v
  fused_read-ReadsBoth v h = (
    record {
      plain = record { reads = λ n f k. read-Reads n f.inner k };
      vectored = λ bufs f k. vectored-Reads v bufs (room bufs) (λ s. h bufs s k) f.inner;
    },
    fused-Fuses r v,
  )
