-- ===== src/Io/Slice.antt =====
-- `Read` for `&[u8]` and `Cursor`: the reader is the bytes that are left.
use tiny_http.Prelude.{
  ℕ, zero, suc, ◌+◌, ◌<◌, ◌≤◌, ◌≡◌, refl, sym, ap, [], ◌∷◌, ◌++◌, arith, ok, take, drop, length,
}
use tiny_http.Text.{Bytes}
use tiny_http.Io.Kinds.{Read}
use tiny_http.Io.Readers.{Reads, IsReader}

abbrev pub slice_read : Read Bytes
slice_read = record { read = λ n s. (ok (take n s), drop n s) }

abbrev pub all_left : Bytes → Bytes
all_left s = s

split_at :
    (n : ℕ) (s : Bytes)
    → (take n s ++ drop n s ≡ s)
      × (length (take n s) ≤ n)
      × (length (take n s) + length (drop n s) ≡ length s)
split_at zero s = (refl, omega arith, omega arith)
split_at (suc n) [] = (refl, omega arith, omega arith)
split_at (suc n) (b ∷ s) = let (e, l, k) = split_at n s in (ap (◌∷◌ b) e, omega arith, omega arith)

pub slice_read-IsReader : IsReader slice_read all_left length
slice_read-IsReader = record { reads = reads }
  where
    reads : (n : ℕ) (s : Bytes) → 0 < n → Reads all_left length n s (ok (take n s), drop n s)
    reads zero s h = elim h [ ]
    reads (suc n) [] h = (refl, refl, omega arith)
    reads (suc n) (b ∷ s) h =
        let (e, l, k) = split_at n s in (ap (◌∷◌ b) (sym e), omega arith, omega arith)
