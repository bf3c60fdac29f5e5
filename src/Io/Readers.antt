-- ===== src/Io/Readers.antt =====
-- The contract of `Read`, over a ghost account of what a reader still has to deliver.
use tiny_http.Prelude.{ℕ, ◌≡◌, ◌<◌, ◌≤◌, ◌++◌, [], ◌∷◌, Result, ok, err, length}
use tiny_http.Text.{Bytes}
use tiny_http.Io.Kinds.{ErrorKind, Read}

-- One call of `read` with a buffer of length `n`: the bytes it returns fit into the buffer and are
-- the next ones; no byte means that none is left; an error takes no byte. `fuel` falls with each
-- call that brings bytes or an error: a reader brings finitely many.
abbrev pub Reads :
    {S : Type 0} (rest : S → Bytes) (fuel : S → ℕ) → ℕ → S → Result ErrorKind Bytes × S → Type 0
Reads rest fuel n s (ok [], s') = (rest s ≡ []) × (rest s' ≡ []) × (fuel s' ≤ fuel s)
Reads rest fuel n s (ok (b ∷ bs), s') =
    (rest s ≡ (b ∷ bs) ++ rest s') × (length (b ∷ bs) ≤ n) × (fuel s' < fuel s)
Reads rest fuel n s (err e, s') = (rest s' ≡ rest s) × (fuel s' < fuel s)

-- The contract speaks of buffers that are not empty.
pub record IsReader {S : Type 0} (r : Read S) (rest : S → Bytes) (fuel : S → ℕ) : Type 0 where
  pub reads : (n : ℕ) (s : S) → 0 < n → Reads rest fuel n s (r.read n s)
