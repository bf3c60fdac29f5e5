-- ===== src/Client/ReadLine.antt =====
-- src/client.rs: `read_next_line`, over any reader.
pub mod Total
use tiny_http.Prelude.{
  ℕ, zero, suc, ◌≡◌, refl, Bool, true, false, ◌&&◌, List, [], ◌∷◌, ◌++◌, Option, none, some, arith,
  if◌then◌else◌, ◌==◌, Result, ok, err,
}
use tiny_http.Text.{Text, Bytes, from_ascii}
use tiny_http.Io.{ErrorKind, connection_aborted, invalid_input, interrupted, Read}

-- `Vec::pop`.
unfoldable pub pop : Bytes → Bytes
pop [] = []
pop (b ∷ []) = []
pop (b ∷ c ∷ bs) = b ∷ pop (c ∷ bs)

-- The end of a line: the carriage return goes, and the rest must be ASCII.
unfoldable pub finish : Bytes → Result ErrorKind Text
unfolding pop
finish buf = elim (from_ascii (pop buf)) [ some line ↦ ok line | none ↦ err invalid_input ]

abbrev is_interrupted : ErrorKind → Bool
is_interrupted interrupted = true
is_interrupted _ = false

-- One round of the loop, after the read of one byte; `Bytes::next` reads again where the call was
-- interrupted. `again` is the next round.
abbrev pub line_arms :
    {S : Type 0}
    → (Bool → Bytes → S → Option (Result ErrorKind Text × S))
    → Bool
    → Bytes
    → Result ErrorKind Bytes × S
    → Option (Result ErrorKind Text × S)
line_arms again cr buf (err e, s) = if is_interrupted e then again cr buf s else some (err e, s)
line_arms again cr buf (ok [], s) = some (err connection_aborted, s)
line_arms again cr buf (ok (byte ∷ _), s) =
    if byte == b'\n' && cr then some (finish buf, s) else again (byte == b'\r') (buf ++ byte ∷ []) s

module _ {S : Type 0} (source : Read S) where
  -- The loop, on fuel; `none` means that the fuel ran out.
  unfoldable pub read_line_loop : ℕ → Bool → Bytes → S → Option (Result ErrorKind Text × S)
  unfolding finish
  read_line_loop zero cr buf s = none
  read_line_loop (suc fuel) cr buf s = line_arms (read_line_loop fuel) cr buf (source.read 1 s)

  unfoldable pub read_next_line : ℕ → S → Option (Result ErrorKind Text × S)
  unfolding read_line_loop
  read_next_line fuel s = read_line_loop fuel false [] s
