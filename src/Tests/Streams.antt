-- ===== src/Tests/Streams.antt =====
-- Runs about readers and writers.
use tiny_http.Prelude.{
  ℕ, ◌≡◌, refl, false, List, [], ◌∷◌, ◌++◌, none, some, Result, ok, arith, length, take, drop,
}
use tiny_http.Io.{ErrorKind}
use tiny_http.Text.{Bytes, codes}
use tiny_http.Io.Readers.{IsReader}
use tiny_http.Io.Slice.{slice_read, all_left, slice_read-IsReader}
use tiny_http.Client.ReadLine.{read_next_line}
use tiny_http.Client.ReadLine.Total.{Total, read_next_line-Total}
use tiny_http.Util.EqualReader.{EqualReader, equal_read}
use tiny_http.Util.EqualReader
use tiny_http.Util.EqualReader.Contract.{
  body, Dropped, equal_read-IsReader, drop-Leaves, beyond, beyond-read,
}
use tiny_http.Util.FusedReader.{read_vectored, fused_read}
use tiny_http.Util.FusedReader.Contract.{room, ReadsBoth, Fuses, left, fused_read-ReadsBoth}
use tiny_http.Util.Sequential.Writers.{Writers, update}
use tiny_http.Util.Sequential.Writers
use tiny_http.Util.Sequential.Contiguous.{bytes_of, in_turn, Reach-in_turn}
use tiny_http.Util.Sequential.Order.{Reach, start, issues, writes, write_gets_through}
use tiny_http.Util.Sequential.Overtaking.{dropped_lets_pass}
use tiny_http.Tests.Data.{stream}

read_next_line-Total_example : Total all_left stream (read_next_line slice_read 100 stream)
read_next_line-Total_example =
    read_next_line-Total slice_read all_left length slice_read-IsReader 100 stream (omega arith)

abbrev bounded : EqualReader Bytes
bounded = record { reader = stream; size = 5 }

drop-Leaves_example :
    Dropped slice_read all_left length slice_read-IsReader bounded
      (EqualReader.drop slice_read bounded)
drop-Leaves_example = drop-Leaves slice_read all_left length slice_read-IsReader bounded

equal_read-IsReader_example :
    IsReader
      (equal_read slice_read)
      (body slice_read all_left length slice_read-IsReader)
      (λ e. length e.reader)
equal_read-IsReader_example = equal_read-IsReader slice_read all_left length slice_read-IsReader

beyond-read_example :
    beyond slice_read all_left length slice_read-IsReader (EqualReader.read slice_read 3 bounded).1
    ≡ beyond slice_read all_left length slice_read-IsReader bounded
beyond-read_example =
    beyond-read slice_read all_left length slice_read-IsReader 3 bounded (omega arith)

-- A slice fills all buffers.
abbrev slice_read_vectored : List ℕ → Bytes → Result ErrorKind Bytes × Bytes
slice_read_vectored bufs s = (ok (take (room bufs) s), drop (room bufs) s)

fused_read-ReadsBoth_example :
    ReadsBoth
      (fused_read slice_read)
      (read_vectored slice_read_vectored)
      (left slice_read all_left length slice_read-IsReader)
      (λ f. elim f.inner [ none ↦ 0 | some s ↦ length s ])
    × Fuses slice_read slice_read_vectored
fused_read-ReadsBoth_example =
    fused_read-ReadsBoth slice_read all_left length slice_read-IsReader slice_read_vectored
      (λ bufs s h. slice_read-IsReader.reads (room bufs) s h)

-- Two writers, of which the second has not been used, and the first has written.
abbrev two_writers : Writers
two_writers = record {
  written = (0, codes "one") ∷ [];
  next_trigger = some 1;
  issued = 2;
  trigger = update (update (λ _. none) 0 none) 1 (some 0);
  sent = λ _. false;
  dropped = λ _. false;
}

two_writers-Reach : Reach two_writers
unfolding Writers.new Writers.next Writers.write Writers.await
two_writers-Reach = writes 0 (codes "one") (issues (issues start)) (omega arith) refl refl

Reach-in_turn_example : bytes_of two_writers.written ≡ in_turn 0 2 two_writers.written
Reach-in_turn_example = Reach-in_turn two_writers-Reach

write_gets_through_example :
    (t : Writers) × (Writers.write 0 (codes "two") two_writers ≡ some t)
    × (t.written ≡ two_writers.written ++ (0, codes "two") ∷ [])
write_gets_through_example =
    write_gets_through 0 (codes "two") two_writers-Reach (omega arith) (λ j h. absurd (omega arith))

dropped_lets_pass_example :
    (t : Writers) × (Writers.write 3
        (codes "late")
        (Writers.next (Writers.drop 2 (Writers.next two_writers)))
      ≡ some t)
    × (t.written ≡ two_writers.written ++ (3, codes "late") ∷ [])
    × (t.dropped 1 ≡ false)
dropped_lets_pass_example = dropped_lets_pass two_writers (codes "late") 1 refl refl (omega arith)
