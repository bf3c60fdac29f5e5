-- ===== src/Client/ReadLine/Total.antt =====
-- `read_next_line` on any reader: it ends, and takes exactly one line.
use tiny_http.Prelude.{
  ℕ, zero, suc, ◌<◌, ◌≡◌, refl, sym, ap, ◌∙◌, subst, Bool, true, false, ◌&&◌, ◌||◌, [], ◌∷◌, ◌++◌,
  Option, none, some, arith, if◌then◌else◌, ◌==◌, Result, ok, err, append_assoc, append-nil,
  Bool-cases, inl, inr,
}
use tiny_http.Text.{Text, Bytes, is_ascii}
use tiny_http.Io.{ErrorKind, connection_aborted, invalid_input, Read}
use tiny_http.Io.Readers.{Reads, IsReader}
use tiny_http.Client.ReadLine.{
  pop, finish, is_interrupted, line_arms, read_line_loop, read_next_line,
}

-- Whether a line feed stands right behind a carriage return; `cr` tells whether one came before.
abbrev pub has_crlf : Bool → Bytes → Bool
has_crlf cr [] = false
has_crlf cr (b ∷ bs) = (b == b'\n' && cr) || has_crlf (b == b'\r') bs

abbrev last_cr : Bool → Bytes → Bool
last_cr cr [] = cr
last_cr cr (b ∷ bs) = last_cr (b == b'\r') bs

has_crlf-concat :
    (cr : Bool) (bs : Bytes) (b : ℕ)
    → has_crlf cr (bs ++ b ∷ []) ≡ (has_crlf cr bs || (b == b'\n' && last_cr cr bs))
has_crlf-concat cr [] b = ground arith
has_crlf-concat cr (c ∷ bs) b = ground (arith, has_crlf-concat (c == b'\r') bs b)

last_cr-concat : (cr : Bool) (bs : Bytes) (b : ℕ) → last_cr cr (bs ++ b ∷ []) ≡ (b == b'\r')
last_cr-concat cr [] b = refl
last_cr-concat cr (c ∷ bs) b = last_cr-concat (c == b'\r') bs b

pop-last_cr :
    (cr : Bool) (b : ℕ) (bs : Bytes)
    → last_cr cr (b ∷ bs) ≡ true
    → b ∷ bs ≡ pop (b ∷ bs) ++ b'\r' ∷ []
unfolding pop
pop-last_cr cr b [] h = ground arith
pop-last_cr cr b (c ∷ bs) h = ap (◌∷◌ b) (pop-last_cr (b == b'\r') c bs h)

pop_cr : (bs : Bytes) → last_cr false bs ≡ true → bs ≡ pop bs ++ b'\r' ∷ []
pop_cr [] h = cc
pop_cr (b ∷ bs) h = pop-last_cr false b bs h

-- A line stands where the bytes have their first carriage return with a line feed.
abbrev pub IsLine : Bytes → Type 0
IsLine line = has_crlf false (line ++ b'\r' ∷ []) ≡ false

module _ {S : Type 0} (rest : S → Bytes) where
  -- How the call ends on `before`: with the first line, which must be ASCII; at the end of the
  -- stream, with no line end before it; or with the error of the reader, before a line end.
  pub data Ends (before : Bytes) : Result ErrorKind Text × S → Type 0 where
    line :
        (l : Bytes) (s : S)
        → before ≡ l ++ b'\r' ∷ b'\n' ∷ rest s
        → IsLine l
        → Ends before ((if is_ascii l then ok l else err invalid_input), s)
    eof :
        (s : S)
        → rest s ≡ []
        → has_crlf false before ≡ false
        → Ends before (err connection_aborted, s)
    failed :
        (e : ErrorKind) (s : S) (part : Bytes)
        → before ≡ part ++ rest s
        → has_crlf false part ≡ false
        → is_interrupted e ≡ false
        → Ends before (err e, s)

  -- The loop comes to an end, as `Ends` says.
  abbrev pub Total : Bytes → Option (Result ErrorKind Text × S) → Type 0
  Total before none = ⊥
  Total before (some out) = Ends before out

pub finish_lem :
    (buf : Bytes) → finish buf ≡ (if is_ascii (pop buf) then ok (pop buf) else err invalid_input)
unfolding finish
finish_lem buf = ground arith

module _ {S : Type 0} (source : Read S) (rest : S → Bytes) (fuel : S → ℕ)
    (law : IsReader source rest fuel) where
  arms-Total :
      (k : ℕ) (cr : Bool) (buf : Bytes) (s : S) (out : Result ErrorKind Bytes × S)
      → fuel s < suc k
      → cr ≡ last_cr false buf
      → has_crlf false buf ≡ false
      → Reads rest fuel 1 s out
      → ((cr' : Bool) (buf' : Bytes) (s' : S)
          → fuel s' < k
          → cr' ≡ last_cr false buf'
          → has_crlf false buf' ≡ false
          → Total rest (buf' ++ rest s') (read_line_loop source k cr' buf' s'))
      → Total rest (buf ++ rest s) (line_arms (read_line_loop source k) cr buf out)
  arms-Total k cr buf s (err e, s') f c h (same, falls) again =
      elim (Bool-cases (is_interrupted e)) [
        | inl stopped ↦ rw stopped (rw (← same) (again cr buf s' (omega arith) c h))
        | inr hard ↦ rw hard (failed e s' buf (rw (← same) refl) h hard)
      ]
  arms-Total k cr buf s (ok [], s') f c h (none_left, none_after, _) again =
      eof s' none_after (rw none_left (rw append-nil h))
  arms-Total k cr buf s (ok (b ∷ c' ∷ bs), s') f c h (_, l, _) again = absurd (omega arith)
  arms-Total k cr buf s (ok (b ∷ []), s') f c h (next, l, falls) again =
      elim (Bool-cases (b == b'\n' && cr)) [
        | inl stop ↦
            let shape = pop_cr buf (ground arith) in
            let is_feed : b ≡ b'\n' = ground arith in
            rw (stop, finish_lem buf)
              (line (pop buf) s'
                (rw (next, is_feed)
                  (ap (λ t. t ++ b'\n' ∷ rest s') shape
                    ∙ append_assoc (pop buf) (b'\r' ∷ []) (b'\n' ∷ rest s')))
                (rw (← shape) h))
        | inr more ↦
            rw (more, next)
              (subst (λ t. Total rest t (read_line_loop source k (b == b'\r') (buf ++ b ∷ []) s'))
                (append_assoc buf (b ∷ []) (rest s'))
                (again (b == b'\r') (buf ++ b ∷ []) s' (omega arith)
                  (sym (last_cr-concat false buf b)) (has_crlf-concat false buf b ∙ ground arith)))
      ]

  read_line_loop-Total :
      (k : ℕ) (cr : Bool) (buf : Bytes) (s : S)
      → fuel s < k
      → cr ≡ last_cr false buf
      → has_crlf false buf ≡ false
      → Total rest (buf ++ rest s) (read_line_loop source k cr buf s)
  unfolding read_line_loop
  read_line_loop-Total zero cr buf s f c h = absurd (omega arith)
  read_line_loop-Total (suc k) cr buf s f c h =
      arms-Total k cr buf s (source.read 1 s) f c h (law.reads 1 s (omega arith))
        (read_line_loop-Total k)

  -- On any reader that keeps the contract of `Read`, with more fuel than the reader has events,
  -- `read_next_line` ends: with the bytes before the first carriage return and line feed, exactly
  -- these taken off the stream (an error if they are not ASCII); or with `ConnectionAborted` at the
  -- end of a stream that has no line end; or with an error of the reader other than `Interrupted`,
  -- before a line end.
  pub read_next_line-Total :
      (k : ℕ) (s : S) → fuel s < k → Total rest (rest s) (read_next_line source k s)
  unfolding read_next_line
  read_next_line-Total k s f = read_line_loop-Total k false [] s f refl refl
