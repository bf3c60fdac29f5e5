-- ===== src/Util/FusedReader.antt =====
-- src/util/fused_reader.rs: a reader that drops the reader inside it at its end.
pub mod Contract
use tiny_http.Prelude.{ℕ, ◌≡◌, Bool, List, [], ◌∷◌, Option, none, some, Result, ok, err}
use tiny_http.Text.{Bytes}
use tiny_http.Io.{ErrorKind, Read}

pub record FusedReader (R : Type 0) : Type 0 where
  pub inner : Option R

module _ {R : Type 0} where
  unfoldable pub new : R → FusedReader R
  new inner = record { inner = some inner }

  unfoldable pub into_inner : FusedReader R → Option R
  into_inner f = f.inner

  abbrev after : Result ErrorKind Bytes × R → Result ErrorKind Bytes × FusedReader R
  after (ok [], r) = (ok [], record { inner = none })
  after (ok (b ∷ bs), r) = (ok (b ∷ bs), record { inner = some r })
  after (err k, r) = (err k, record { inner = some r })

module _ {R : Type 0} (r : Read R) where
  unfoldable pub read : ℕ → FusedReader R → Result ErrorKind Bytes × FusedReader R
  read n f = elim f.inner [ some inner ↦ after (r.read n inner) | none ↦ (ok [], f) ]

  abbrev pub fused_read : Read (FusedReader R)
  fused_read = record { read = read }

-- The other read of the reader inside, by the lengths of the buffers.
module _ {R : Type 0} (inner_read_vectored : List ℕ → R → Result ErrorKind Bytes × R) where
  unfoldable pub read_vectored : List ℕ → FusedReader R → Result ErrorKind Bytes × FusedReader R
  read_vectored bufs f = elim f.inner [
    | some inner ↦ after (inner_read_vectored bufs inner)
    | none ↦ (ok [], f)
  ]
