-- ===== src/Request/Create.antt =====
-- src/request.rs: `Request` and `new_request`.
use tiny_http.Prelude.{
  ℕ, zero, suc, ◌-◌, Bool, true, false, not, ◌&&◌, List, [], ◌∷◌, ◌++◌, Option, none, some,
  if◌then◌else◌, leb, ◌==◌, find, length, Result, ok, err, and_then,
}
use mathlib.Core.Option
use tiny_http.Text.{Text, Bytes, codes, eq_ignore_ascii_case, to_ascii_lowercase}
use tiny_http.Text.Decimal.{from_str}
use tiny_http.Text.Pieces.{contains}
use tiny_http.Io.{ErrorKind, connection_aborted, Read}
use tiny_http.Common.Header.{Header, equiv}
use tiny_http.Common.Method.{Method}
use tiny_http.Common.HttpVersion.{HttpVersion}
use tiny_http.Util.EqualReader.{EqualReader}
use tiny_http.Util.EqualReader
use tiny_http.Util.FusedReader.{FusedReader}
use tiny_http.Util.FusedReader

-- `chunked_transfer::Decoder` over a source: a type of decoders, and how one is made.
pub record Decoding (S : Type 0) : Type 1 where
  pub Decoder : Type 0
  pub decode : S → Decoder

-- A `SocketAddr`, as it is printed.
abbrev pub SocketAddr : Type 0
SocketAddr = Text

pub data RequestCreationError : Type 0 where
  expectation_failed : RequestCreationError
  creation_io_error : ErrorKind → RequestCreationError

-- The reader of a body, by how it is bounded; `D` is the type of chunk decoders.
pub data DataReader (S D : Type 0) : Type 0 where
  whole : S → DataReader S D
  nothing : DataReader S D
  buffered : Bytes → DataReader S D
  sized : FusedReader (EqualReader S) → DataReader S D
  chunks : FusedReader D → DataReader S D

pub record Request (S D W : Type 0) : Type 0 where
  pub data_reader : Option (DataReader S D)
  pub response_writer : Option W
  pub remote_addr : Option SocketAddr
  pub secure : Bool
  pub method : Method
  pub path : Text
  pub http_version : HttpVersion
  pub headers : List Header
  pub body_length : Option ℕ
  pub must_send_continue : Bool
  -- whether a message is to be sent after responding
  pub notify_when_responded : Bool

-- The value of the first header of that name.
abbrev pub header_value : Text → List Header → Option Text
header_value name headers = Option.map (λ h. h.value) (find (λ h. equiv h.field name) headers)

abbrev pub transfer_encoding : List Header → Option Text
transfer_encoding = header_value (codes "Transfer-Encoding")

-- The length of the body, which a transfer encoding overrides.
unfoldable pub content_length : List Header → Option ℕ
content_length headers = elim (transfer_encoding headers) [
  | some _ ↦ none
  | none ↦ and_then (header_value (codes "Content-Length") headers) from_str
]

unfoldable pub expects_continue : List Header → Result RequestCreationError Bool
expects_continue headers = elim (header_value (codes "Expect") headers) [
  | none ↦ ok false
  | some v ↦
      if eq_ignore_ascii_case v (codes "100-continue") then ok true else err expectation_failed
]

unfoldable pub connection_upgrade : List Header → Bool
connection_upgrade headers = elim (header_value (codes "Connection") headers) [
  | some v ↦ contains (codes "upgrade") (to_ascii_lowercase v)
  | none ↦ false
]

-- One round of the loop that fills the buffer; `again` is the next round.
abbrev pub fill_arms :
    {S : Type 0}
    → (ℕ → Bytes → S → Option (Result RequestCreationError Bytes × S))
    → ℕ
    → Bytes
    → Result ErrorKind Bytes × S
    → Option (Result RequestCreationError Bytes × S)
fill_arms again missing buffer (err e, s) = some (err (creation_io_error e), s)
fill_arms again missing buffer (ok [], s) = some (err (creation_io_error connection_aborted), s)
fill_arms again missing buffer (ok (b ∷ bs), s) =
    again (missing - length (b ∷ bs)) (buffer ++ b ∷ bs) s

module _ {S : Type 0} (source : Read S) where
  -- The loop, over what the buffer holds and what it still misses, on fuel; `none` means that the
  -- fuel ran out.
  unfoldable pub fill : ℕ → ℕ → Bytes → S → Option (Result RequestCreationError Bytes × S)
  fill fuel zero buffer s = some (ok buffer, s)
  fill zero (suc m) buffer s = none
  fill (suc fuel) (suc m) buffer s = fill_arms (fill fuel) (suc m) buffer (source.read (suc m) s)

-- A reader and, where it does not hold the source, the source as it is given back.
abbrev pub Chosen : Type 0 → Type 0 → Type 0
Chosen S D = Result RequestCreationError (DataReader S D) × Option S

abbrev pub keep_buffer :
    {S D : Type 0} → Option (Result RequestCreationError Bytes × S) → Option (Chosen S D)
keep_buffer none = none
keep_buffer (some (ok bytes, s)) = some (ok (buffered bytes), some s)
keep_buffer (some (err e, s)) = some (err e, some s)

module _ {S D : Type 0} (source : Read S) (decode : S → D) where
  -- The reader for a body of a known length.
  unfoldable pub sized_reader : ℕ → Bool → S → Option (Chosen S D)
  unfolding fill
  sized_reader n expects s =
      if n == 0
      then some (ok nothing, some s)
      else if leb n 1024 && not expects
      then keep_buffer (fill source n n [] s)
      else some (ok (sized (FusedReader.new (EqualReader.new s n))), none)

  unfoldable pub choose_reader : Bool → Option ℕ → Bool → Bool → S → Option (Chosen S D)
  unfolding sized_reader
  choose_reader upgrade length' expects has_encoding s =
      if upgrade then some (ok (whole s), none) else elim length' [
        | some n ↦ sized_reader n expects s
        | none ↦
            if has_encoding
            then some (ok (chunks (FusedReader.new (decode s))), none)
            else some (ok nothing, some s)
      ]
