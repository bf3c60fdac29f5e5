-- ===== src/Io/Programs.antt =====
-- Programs that write: they return a value or a fault, and the writer as they leave it.
use tiny_http.Prelude.{
  ◌≡◌, ◌++◌, ◌∙◌, List, [], ◌∷◌, Option, none, some, Result, ok, err, append_assoc, append-nil,
}
use tiny_http.Text.{Bytes}
use tiny_http.Io.Kinds.{ErrorKind, Fault, io, panic, Write, Body}

abbrev pub Io : Type 0 → Type 0 → Type 0
Io W A = W → Result Fault A × W

abbrev pub continue : {W A B : Type 0} → (A → Io W B) → Result Fault A × W → Result Fault B × W
continue f (ok a, w) = f a w
continue f (err e, w) = (err e, w)

infixl 5 ◌>>=◌ ◌>>◌
abbrev pub ◌>>=◌ : {W A B : Type 0} → Io W A → (A → Io W B) → Io W B
◌>>=◌ m f w = continue f (m w)

abbrev pub ◌>>◌ : {W B : Type 0} → Io W (Unit {0}) → Io W B → Io W B
m >> k = m >>= λ _. k

abbrev pub pure : {W A : Type 0} → A → Io W A
pure a w = (ok a, w)

-- A computed result, with the writer left alone.
abbrev pub lift : {W A : Type 0} → Result Fault A → Io W A
lift r w = (r, w)

abbrev pub as_fault : {A : Type 0} → Result ErrorKind A → Result Fault A
as_fault (ok a) = ok a
as_fault (err e) = err (io e)

-- `Result::ok` on the result of a program, its value dropped; a panic goes on.
abbrev settle : {W : Type 0} → Result Fault (Unit {0}) × W → Result Fault (Unit {0}) × W
settle (err (io e), w) = (ok tt, w)
settle (err panic, w) = (err panic, w)
settle (ok a, w) = (ok a, w)

abbrev pub ignored : {W : Type 0} → Io W (Unit {0}) → Io W (Unit {0})
ignored m w = settle (m w)

-- A reader that is held as its bytes fails only after them.
abbrev pub ending : Option ErrorKind → Result Fault (Unit {0})
ending none = ok tt
ending (some e) = err (io e)

module _ {W : Type 0} (out : Write W) where
  abbrev pub write_all : Bytes → Io W (Unit {0})
  write_all b w = let (r, w') = out.write_all b w in (as_fault r, w')

  abbrev pub flush : Io W (Unit {0})
  flush w = let (r, w') = out.flush w in (as_fault r, w')

  -- `write!`: each piece of the format goes through `write_all`.
  unfoldable pub write_pieces : List Bytes → Io W (Unit {0})
  write_pieces [] = pure tt
  write_pieces (p ∷ ps) = do write_all p; write_pieces ps

  -- `io::copy`, with what stands between reader and writer as a function of the bytes.
  unfoldable pub copy : (Bytes → Bytes) → Body → Io W (Unit {0})
  copy through body = do write_all (through body.bytes); lift (ending body.failure)

-- `Vec<u8>` as a writer: it appends, and never fails.
abbrev pub vec_writer : Write Bytes
vec_writer = record { write_all = λ b w. (ok tt, w ++ b); flush = λ w. (ok tt, w) }

abbrev pub concat : List Bytes → Bytes
concat [] = []
concat (p ∷ ps) = p ++ concat ps

pub write_pieces_vec :
    (ps : List Bytes) (w : Bytes) → write_pieces vec_writer ps w ≡ (ok tt, w ++ concat ps)
unfolding write_pieces
write_pieces_vec [] w = rw append-nil
write_pieces_vec (p ∷ ps) w = write_pieces_vec ps (w ++ p) ∙ rw append_assoc
