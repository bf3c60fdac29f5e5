-- ===== src/Response/Prepare.antt =====
-- src/response.rs: the part of `raw_print` up to the first write: encoding, headers and body.
use tiny_http.Prelude.{
  ℕ, Bool, false, ◌||◌, ◌&&◌, List, [], ◌∷◌, ◌++◌, Option, none, some, leb, ◌==◌, if◌then◌else◌,
  length, any, Result, ok, err, ◌>>=◌,
}
use tiny_http.Text.{Text, Bytes, codes}
use tiny_http.Text.Decimal.{decimal}
use tiny_http.Io.{Fault, io, panic, Body}
use tiny_http.Common.StatusCode.{StatusCode}
use tiny_http.Common.Header.{Header, equiv, from_bytes}
use tiny_http.Common.HttpVersion.{HttpVersion}
use tiny_http.Util.HeaderValue.{Float}
use tiny_http.Response.TransferEncoding.{
  TransferEncoding, identity, chunked, choose_transfer_encoding,
}
use tiny_http.Response.Builder.{Response, threshold, cursor}

-- `Header::from_bytes(..).unwrap()`.
unwrap : Result (Unit {0}) Header → Result Fault Header
unwrap (ok h) = ok h
unwrap (err _) = err panic

unfoldable pub must_header : Bytes → Bytes → Result Fault Header
unfolding unwrap
must_header field value = unwrap (from_bytes field value)

-- `build_date_header`; `date` is what `HttpDate` prints for the current time.
unfoldable pub build_date_header : Text → Result Fault Header
build_date_header date = must_header (codes "Date") date

unfoldable pub add_date : Text → List Header → Result Fault (List Header)
unfolding build_date_header
add_date date headers =
    if any (λ h. equiv h.field (codes "Date")) headers
    then ok headers
    else (do h ← build_date_header date; ok (h ∷ headers))

unfoldable pub add_server : List Header → Result Fault (List Header)
add_server headers =
    if any (λ h. equiv h.field (codes "Server")) headers
    then ok headers
    else (do h ← must_header (codes "Server") (codes "tiny-http (Rust)"); ok (h ∷ headers))

unfoldable pub add_upgrade : Option Text → List Header → Result Fault (List Header)
add_upgrade none headers = ok headers
add_upgrade (some protocol) headers = do
  u ← must_header (codes "Upgrade") protocol
  c ← must_header (codes "Connection") (codes "upgrade")
  ok (c ∷ u ∷ headers)

-- The body is read into a buffer where its length is needed and not known.
unfoldable pub buffer : Body → Option ℕ → Option TransferEncoding → Result Fault (Body × Option ℕ)
buffer reader (some l) encoding = ok (reader, some l)
buffer reader none none = ok (reader, none)
buffer reader none (some chunked) = ok (reader, none)
buffer reader none (some identity) = elim reader.failure [
  | none ↦ ok (cursor reader.bytes, some (length reader.bytes))
  | some e ↦ err (io e)
]

-- Whether the body is left out: on request, and for 1xx, 204 and 304.
unfoldable pub suppressed : Bool → StatusCode → Bool
suppressed do_not_send_body status_code =
    do_not_send_body
    || (leb 100 status_code.code && leb status_code.code 199)
    || status_code.code == 204
    || status_code.code == 304

unfoldable pub add_framing :
    Option TransferEncoding → Option ℕ → List Header → Result Fault (List Header)
add_framing (some chunked) data_length headers = do
  h ← must_header (codes "Transfer-Encoding") (codes "chunked")
  ok (headers ++ h ∷ [])
add_framing (some identity) (some l) headers = do
  h ← must_header (codes "Content-Length") (decimal l)
  ok (headers ++ h ∷ [])
add_framing (some identity) none headers = err panic
add_framing none data_length headers = ok headers

-- What is sent: the headers, the body with its length, its encoding, and whether it is left out.
pub record Prepared : Type 0 where
  pub headers : List Header
  pub body : Body
  pub data_length : Option ℕ
  pub encoding : Option TransferEncoding
  pub silent : Bool

abbrev pub encoding_for : Option Text → TransferEncoding → Option TransferEncoding
encoding_for none encoding = some encoding
encoding_for (some protocol) encoding = none

module _ (float : Float) (date : Text) where
  unfoldable pub prepare :
      Response Body → HttpVersion → List Header → Bool → Option Text → Result Fault Prepared
  unfolding add_date add_server add_upgrade buffer suppressed add_framing
  prepare r http_version request_headers do_not_send_body upgrade = do
    let chosen =
        choose_transfer_encoding float r.status_code request_headers http_version r.data_length
          false (threshold r)
    dated ← add_date date r.headers
    served ← add_server dated
    upgraded ← add_upgrade upgrade served
    let encoding = encoding_for upgrade chosen
    reader ← buffer r.reader r.data_length encoding
    framed ← add_framing encoding reader.1 upgraded
    ok (record {
      headers = framed;
      body = reader.0;
      data_length = reader.1;
      encoding = encoding;
      silent = suppressed do_not_send_body r.status_code;
    })
