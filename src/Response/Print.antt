-- ===== src/Response/Print.antt =====
-- src/response.rs: `write_message_header` and `raw_print`.
pub mod Framing
pub mod Wire
use tiny_http.Prelude.{
  ℕ, Bool, true, false, List, [], ◌∷◌, ◌++◌, Option, none, some, leb, if◌then◌else◌, Result, ok,
  err,
}
use tiny_http.Text.{Text, Bytes, codes}
use tiny_http.Text.Decimal.{decimal}
use tiny_http.Io.{
  Fault, panic, Body, Write, Io, ◌>>=◌, ◌>>◌, pure, lift, write_all, write_pieces, copy,
}
use tiny_http.Common.StatusCode.{StatusCode, default_reason_phrase}
use tiny_http.Common.Header.{Header}
use tiny_http.Common.HttpVersion.{HttpVersion}
use tiny_http.Util.HeaderValue.{Float}
use tiny_http.Response.TransferEncoding.{TransferEncoding, identity, chunked}
use tiny_http.Response.Builder.{Response}
use tiny_http.Response.Prepare.{Prepared, prepare}

abbrev pub crlf : Bytes
crlf = b'\r' ∷ b'\n' ∷ []

-- The pieces of the status line, as `write!` writes them.
abbrev pub status_line : HttpVersion → StatusCode → List Bytes
status_line v s =
    codes "HTTP/"
    ∷ decimal v.major
    ∷ codes "."
    ∷ decimal v.minor
    ∷ codes " "
    ∷ decimal s.code
    ∷ codes " "
    ∷ default_reason_phrase s
    ∷ crlf
    ∷ []

module _ {W : Type 0} (out : Write W) where
  unfoldable pub write_headers : List Header → Io W (Unit {0})
  write_headers [] = pure tt
  write_headers (h ∷ hs) = do
    write_all out h.field.name
    write_all out (codes ": ")
    write_all out h.value
    write_all out crlf
    write_headers hs

  unfoldable pub write_message_header : HttpVersion → StatusCode → List Header → Io W (Unit {0})
  unfolding write_headers
  write_message_header http_version status_code headers = do
    write_pieces out (status_line http_version status_code)
    write_headers headers
    write_all out crlf

  -- The body, unless it is left out; `encode` is what `chunked_transfer::Encoder` makes of it.
  unfoldable pub send_body :
      (Bytes → Bytes) → Option TransferEncoding → Option ℕ → Body → Io W (Unit {0})
  send_body encode (some chunked) data_length body = copy out encode body
  send_body encode (some identity) (some l) body =
      if leb 1 l then copy out (λ b. b) body else pure tt
  send_body encode (some identity) none body = lift (err panic)
  send_body encode none data_length body = pure tt

module _ (float : Float) (date : Text) (encode : Bytes → Bytes) {W : Type 0} (out : Write W) where
  unfoldable pub send : HttpVersion → StatusCode → Prepared → Io W (Unit {0})
  unfolding write_message_header send_body
  send http_version status_code p = do
    write_message_header out http_version status_code p.headers
    if p.silent then pure tt else send_body out encode p.encoding p.data_length p.body

  unfoldable pub raw_print :
      Response Body → HttpVersion → List Header → Bool → Option Text → Io W (Unit {0})
  unfolding send
  raw_print r http_version request_headers do_not_send_body upgrade = do
    p ← lift (prepare float date r http_version request_headers do_not_send_body upgrade)
    send http_version r.status_code p
