-- ===== src/Client/Head.antt =====
-- src/client.rs: the first block of `read`: the request line and the headers.
use tiny_http.Prelude.{ℕ, zero, suc, List, [], ◌∷◌, Option, none, some, Result, ok, err}
use tiny_http.Text.{Text}
use tiny_http.Text.Pieces.{trim}
use tiny_http.Io.{ErrorKind, Read}
use tiny_http.Common.Header.{Header, from_str}
use tiny_http.Common.Method.{Method}
use tiny_http.Common.HttpVersion.{HttpVersion}
use tiny_http.Client.RequestLine.{ReadError, wrong_header, read_io_error, parse_request_line}
use tiny_http.Client.ReadLine.{read_next_line}

-- What the first lines of a request say.
abbrev pub Start : Type 0
Start = Method × Text × HttpVersion × List Header

module _ {S : Type 0} where
  abbrev cons_result :
      Header
      → Option (Result ReadError (List Header) × S)
      → Option (Result ReadError (List Header) × S)
  cons_result h none = none
  cons_result h (some (err e, s)) = some (err e, s)
  cons_result h (some (ok hs, s)) = some (ok (h ∷ hs), s)

  -- One header line; `later` is what the lines behind it give.
  abbrev pub header_arms :
      HttpVersion
      → Option (Result ReadError (List Header) × S)
      → S
      → Result (Unit {0}) Header
      → Option (Result ReadError (List Header) × S)
  header_arms v later s (ok h) = cons_result h later
  header_arms v later s (err _) = some (err (wrong_header v), s)

  abbrev pub headers_arms :
      (S → Option (Result ReadError (List Header) × S))
      → HttpVersion
      → Option (Result ErrorKind Text × S)
      → Option (Result ReadError (List Header) × S)
  headers_arms again v none = none
  headers_arms again v (some (err e, s)) = some (err (read_io_error e), s)
  headers_arms again v (some (ok [], s)) = some (ok [], s)
  headers_arms again v (some (ok (c ∷ line), s)) =
      header_arms v (again s) s (from_str (trim (c ∷ line)))

  abbrev with_headers :
      Method × Text × HttpVersion
      → Option (Result ReadError (List Header) × S)
      → Option (Result ReadError Start × S)
  with_headers (m, path, v) none = none
  with_headers (m, path, v) (some (err e, s)) = some (err e, s)
  with_headers (m, path, v) (some (ok hs, s)) = some (ok (m, path, v, hs), s)

  module _ (source : Read S) where
    -- The loop over the header lines, on fuel; `none` means that the fuel ran out.
    unfoldable pub read_headers : ℕ → HttpVersion → S → Option (Result ReadError (List Header) × S)
    read_headers zero v s = none
    read_headers (suc fuel) v s =
        headers_arms (read_headers fuel v) v (read_next_line source (suc fuel) s)

    abbrev start_arms :
        ℕ → S → Result ReadError (Method × Text × HttpVersion) → Option (Result ReadError Start × S)
    start_arms fuel s (err e) = some (err e, s)
    start_arms fuel s (ok (m, path, v)) = with_headers (m, path, v) (read_headers fuel v s)

    abbrev head_arms : ℕ → Option (Result ErrorKind Text × S) → Option (Result ReadError Start × S)
    head_arms fuel none = none
    head_arms fuel (some (err e, s)) = some (err (read_io_error e), s)
    head_arms fuel (some (ok line, s)) = start_arms fuel s (parse_request_line (trim line))

    -- The first block of `read`: the request line and the headers.
    unfoldable pub read_head : ℕ → S → Option (Result ReadError Start × S)
    unfolding read_headers
    read_head fuel s = head_arms fuel (read_next_line source fuel s)
