-- ===== src/Client/RequestLine.antt =====
-- src/client.rs: `parse_http_version` and `parse_request_line`.
pub mod Parse
use tiny_http.Prelude.{
  ℕ, ◌≡◌, refl, Bool, true, false, List, [], ◌∷◌, ◌++◌, Option, none, some, arith, if◌then◌else◌,
  any, ◌==◌, Result, ok, err, ok_or, ok?, and_then,
}
use tiny_http.Text.{Text, codes, text_eq}
use tiny_http.Text.Pieces.{split}
use tiny_http.Io.{ErrorKind}
use tiny_http.Common.Method.{Method}
use tiny_http.Common.Method
use tiny_http.Common.HttpVersion.{HttpVersion, version}

-- Why no request could be read.
pub data ReadError : Type 0 where
  wrong_request_line : ReadError
  wrong_header : HttpVersion → ReadError
  expectation_failed : HttpVersion → ReadError
  read_io_error : ErrorKind → ReadError

unfoldable pub parse_http_version : Text → Result ReadError HttpVersion
parse_http_version s =
    if text_eq s (codes "HTTP/0.9")
    then ok (version 0 9)
    else if text_eq s (codes "HTTP/1.0")
    then ok (version 1 0)
    else if text_eq s (codes "HTTP/1.1")
    then ok (version 1 1)
    else if text_eq s (codes "HTTP/2.0")
    then ok (version 2 0)
    else if text_eq s (codes "HTTP/3.0")
    then ok (version 3 0)
    else err wrong_request_line

-- `Iterator::next` on the pieces.
abbrev next : List Text → Option Text × List Text
next [] = (none, [])
next (p ∷ ps) = (some p, ps)

unfoldable pub parse_request_line : Text → Result ReadError (Method × Text × HttpVersion)
parse_request_line line =
    let (first, parts) = next (split b' ' line) in
    let method = and_then first (λ w. ok? (Method.from_str w)) in
    let (path, parts') = next parts in
    let (third, _) = next parts' in
    let version' = and_then third (λ w. ok? (parse_http_version w)) in
    ok_or (and_then method (λ m. and_then path (λ p. and_then version' (λ v. some (m, p, v)))))
      wrong_request_line
