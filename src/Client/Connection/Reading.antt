-- ===== src/Client/Connection/Reading.antt =====
-- Reading a head that stands on the stream whole.
use tiny_http.Prelude.{
  ℕ, zero, suc, ◌+◌, ◌≤◌, ◌<◌, ◌≡◌, ◌≢◌, refl, ap, ◌∙◌, true, false, ◌&&◌, List, [], ◌∷◌, ◌++◌,
  append_assoc, append-nil, Option, some, arith, any, length, ◌==◌, length-append, Result, ok,
}
use tiny_http.Text.{Text, Bytes, is_ascii}
use tiny_http.Text.Pieces.{trim}
use tiny_http.Io.Slice.{slice_read}
use tiny_http.Common.Header.{Header, from_str}
use tiny_http.Common.Method.{Method}
use tiny_http.Common.HttpVersion.{HttpVersion}
use tiny_http.Client.RequestLine.{ReadError, parse_request_line}
use tiny_http.Client.ReadLine.{pop, finish, read_line_loop, read_next_line}
use tiny_http.Client.ReadLine.Total.{finish_lem}
use tiny_http.Util.HeaderValue.{Float}
use tiny_http.Request.New.{new_request}
use tiny_http.Client.Head.{headers_arms, read_headers, read_head}
use tiny_http.Client.Connection.{Sink, Connection, read, created}

-- A line as it stands on the stream.
abbrev pub ended : Text → Bytes → Bytes
ended line rest = line ++ b'\r' ∷ b'\n' ∷ rest

-- ASCII with no carriage return.
pub record IsPlainLine (line : Text) : Type 0 where
  pub no_return : any (λ c. c == b'\r') line ≡ false
  pub ascii : is_ascii line ≡ true

pop-concat : (bs : Bytes) (b : ℕ) → pop (bs ++ b ∷ []) ≡ bs
unfolding pop
pop-concat [] b = refl
pop-concat (c ∷ []) b = refl
pop-concat (c ∷ d ∷ bs) b = ap (◌∷◌ c) (pop-concat (d ∷ bs) b)

line_loop :
    (fuel : ℕ) (line buf rest : Bytes)
    → any (λ c. c == b'\r') line ≡ false
    → length line + 1 < fuel
    → read_line_loop slice_read fuel false buf (ended line rest)
      ≡ some (finish ((buf ++ line) ++ b'\r' ∷ []), rest)
unfolding read_line_loop
line_loop zero line buf rest h l = absurd (omega arith)
line_loop (suc zero) [] buf rest h l = absurd (omega arith)
line_loop (suc (suc fuel)) [] buf rest h l = rw append-nil refl
line_loop (suc fuel) (c ∷ line) buf rest h l =
    let more : (c == b'\n' && false) ≡ false = ground arith in
    let solid : (c == b'\r') ≡ false = ground arith in
    rw (more, solid)
      (line_loop fuel line (buf ++ c ∷ []) rest (ground arith) (omega arith)
        ∙ ap (λ b. some (finish (b ++ b'\r' ∷ []), rest)) (append_assoc buf (c ∷ []) line))

finish-concat : (line : Bytes) → is_ascii line ≡ true → finish (line ++ b'\r' ∷ []) ≡ ok line
finish-concat line a = rw (finish_lem (line ++ b'\r' ∷ []), pop-concat line b'\r', a) refl

read_line :
    (fuel : ℕ) (line rest : Bytes)
    → IsPlainLine line
    → length line + 1 < fuel
    → read_next_line slice_read fuel (ended line rest) ≡ some (ok line, rest)
unfolding read_next_line
read_line fuel line rest p l =
    line_loop fuel line [] rest p.no_return l
    ∙ ap (λ r. some (r, rest)) (finish-concat line p.ascii)

-- A header line: it is not empty, and reads, trimmed, as its header.
pub record HeaderLine : Type 0 where
  pub line : Text
  pub header : Header
  pub plain : IsPlainLine line
  pub full : line ≢ []
  pub reads : from_str (trim line) ≡ ok header

abbrev pub headers_of : List HeaderLine → List Header
headers_of [] = []
headers_of (l ∷ ls) = l.header ∷ headers_of ls

-- The header lines and the empty line that ends them.
abbrev pub head_rest : List HeaderLine → Bytes → Bytes
head_rest [] rest = ended [] rest
head_rest (l ∷ ls) rest = ended l.line (head_rest ls rest)

headers_arms_full :
    {S : Type 0} (again : S → Option (Result ReadError (List Header) × S)) (v : HttpVersion)
    (line : Text) (h : Header) (hs : List Header) (s s' : S)
    → line ≢ []
    → from_str (trim line) ≡ ok h
    → again s ≡ some (ok hs, s')
    → headers_arms again v (some (ok line, s)) ≡ some (ok (h ∷ hs), s')
headers_arms_full again v [] h hs s s' n e a = absurd (n refl)
headers_arms_full again v (c ∷ line) h hs s s' n e a = rw (e, a) refl

read_headers_lem :
    (fuel : ℕ) (v : HttpVersion) (ls : List HeaderLine) (rest : Bytes)
    → length (head_rest ls []) ≤ fuel
    → read_headers slice_read fuel v (head_rest ls rest) ≡ some (ok (headers_of ls), rest)
unfolding read_headers
read_headers_lem zero v [] rest h = absurd (omega arith)
read_headers_lem zero v (l ∷ ls) rest h =
    absurd (omega (arith, length-append l.line (b'\r' ∷ b'\n' ∷ head_rest ls [])))
read_headers_lem (suc fuel) v [] rest h =
    rw (read_line (suc fuel) [] rest (record { no_return = refl; ascii = refl }) (omega arith)) refl
read_headers_lem (suc fuel) v (l ∷ ls) rest h =
    let size = length-append l.line (b'\r' ∷ b'\n' ∷ head_rest ls []) in
    rw (read_line (suc fuel) l.line (head_rest ls rest) l.plain (omega (arith, size))) (
      headers_arms_full (read_headers slice_read fuel v) v l.line l.header (headers_of ls)
        (head_rest ls rest) rest l.full l.reads
        (read_headers_lem fuel v ls rest (omega (arith, size))))

read_head_lem :
    (fuel : ℕ) (first : Text) (ls : List HeaderLine) (rest : Bytes) (m : Method) (path : Text)
    (v : HttpVersion)
    → IsPlainLine first
    → parse_request_line (trim first) ≡ ok (m, path, v)
    → length (ended first (head_rest ls [])) ≤ fuel
    → read_head slice_read fuel (ended first (head_rest ls rest))
      ≡ some (ok (m, path, v, headers_of ls), rest)
unfolding read_head
read_head_lem fuel first ls rest m path v p e h =
    let size = length-append first (b'\r' ∷ b'\n' ∷ head_rest ls []) in
    rw
      (
        read_line fuel first (head_rest ls rest) p (omega (arith, size)),
        e,
        read_headers_lem fuel v ls rest (omega (arith, size)),
      )
      refl

module _ (float : Float) (date : Text) (encode : Bytes → Bytes) (sink : Sink) {D : Type 0}
    (decode : Bytes → D) (undecode : D → Bytes) where
  -- If the stream holds a first line, header lines, an empty line and then anything, each line
  -- ASCII with no carriage return, the first one read, trimmed, as a method, a path and a version,
  -- and each header line not empty and read, trimmed, as a header, then `read`, with fuel for the
  -- bytes of the head, takes the next writer and makes a request of that method, path and version
  -- and of these headers in order, over the bytes right behind the empty line.
  pub read_lem :
      (fuel : ℕ) (c : Connection sink.K) (first : Text) (ls : List HeaderLine) (rest : Bytes)
      (m : Method) (path : Text) (v : HttpVersion)
      → IsPlainLine first
      → parse_request_line (trim first) ≡ ok (m, path, v)
      → length (ended first (head_rest ls [])) ≤ fuel
      → read float date encode sink slice_read decode undecode fuel c
          (ended first (head_rest ls rest))
        ≡ created float date encode sink slice_read decode undecode
            (record c { sink = (sink.next c.sink).1 })
            (sink.next c.sink).0
            v
            (new_request slice_read decode
              (record {
                secure = c.secure;
                method = m;
                path = path;
                version = v;
                headers = headers_of ls;
                remote_addr = c.remote_addr;
              })
              (sink.next c.sink).0
              rest)
  unfolding read
  read_lem fuel c first ls rest m path v p e h =
      rw (read_head_lem fuel first ls rest m path v p e h) refl
