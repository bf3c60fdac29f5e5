-- ===== src/Response/Builder.antt =====
-- src/response.rs: `Response` and the operations that build one.
pub mod Headers
use tiny_http.Prelude.{
  ℕ, ◌≡◌, refl, Bool, true, false, ◌||◌, List, [], ◌∷◌, ◌++◌, Option, none, some, if◌then◌else◌,
  length, Result, ok, err,
}
use mathlib.Core.Option
use tiny_http.Text.{Text, Bytes, codes}
use tiny_http.Text.Decimal.{from_str}
use tiny_http.Io.{Body}
use tiny_http.Common.StatusCode.{StatusCode}
use tiny_http.Common.Header.{Header, equiv}

pub record Response (R : Type 0) : Type 0 where
  pub reader : R
  pub status_code : StatusCode
  pub headers : List Header
  pub data_length : Option ℕ
  pub chunked_threshold : Option ℕ

abbrev pub is_content_type : Header → Bool
is_content_type h = equiv h.field (codes "Content-Type")

-- The headers that cannot be set.
abbrev pub is_forbidden : Header → Bool
is_forbidden h =
    equiv h.field (codes "Connection")
    || equiv h.field (codes "Trailer")
    || equiv h.field (codes "Transfer-Encoding")
    || equiv h.field (codes "Upgrade")

abbrev pub is_content_length : Header → Bool
is_content_length h = equiv h.field (codes "Content-Length")

-- Overwrites the value of the first `Content-Type`; `none` where there is none.
unfoldable pub overwrite : Text → List Header → Option (List Header)
overwrite value [] = none
overwrite value (h ∷ hs) =
    let later = Option.map (◌∷◌ h) (overwrite value hs) in
    if is_content_type h then some (record h { value = value } ∷ hs) else later

module _ {R : Type 0} where
  abbrev push : Response R → Header → Response R
  push r h = record r { headers = r.headers ++ h ∷ [] }

  unfoldable pub add_header : Response R → Header → Response R
  unfolding overwrite
  add_header r header =
      if is_forbidden header
      then r
      else if is_content_length header
      then elim (from_str header.value) [
        | some val ↦ record r { data_length = some val }
        | none ↦ r
      ]
      else if is_content_type header
      then elim (overwrite header.value r.headers) [
        | some hs ↦ record r { headers = hs }
        | none ↦ push r header
      ]
      else push r header

  unfoldable pub add_headers : Response R → List Header → Response R
  unfolding add_header
  add_headers r [] = r
  add_headers r (h ∷ hs) = add_headers (add_header r h) hs

  -- `new`; the receiver of additional headers is the list of what it yields until it is closed.
  unfoldable pub new : StatusCode → List Header → R → Option ℕ → Option (List Header) → Response R
  unfolding add_headers
  new status_code headers reader data_length additional_headers =
      let response : Response R = record {
        reader = reader;
        status_code = status_code;
        headers = [];
        data_length = data_length;
        chunked_threshold = none;
      } in
      let built = add_headers response headers in
      elim additional_headers [ some more ↦ add_headers built more | none ↦ built ]

  unfoldable pub with_chunked_threshold : Response R → ℕ → Response R
  with_chunked_threshold r n = record r { chunked_threshold = some n }

  unfoldable pub into_reader : Response R → R
  into_reader r = r.reader

  unfoldable pub threshold : Response R → ℕ
  threshold r = elim r.chunked_threshold [ some n ↦ n | none ↦ 32768 ]

  unfoldable pub with_header : Response R → Header → Response R
  unfolding add_header
  with_header r header = add_header r header

  unfoldable pub with_status_code : Response R → StatusCode → Response R
  with_status_code r code = record r { status_code = code }

  unfoldable pub with_data : {S : Type 0} → Response R → S → Option ℕ → Response S
  with_data r reader data_length = record {
    reader = reader;
    status_code = r.status_code;
    headers = r.headers;
    data_length = data_length;
    chunked_threshold = r.chunked_threshold;
  }

-- A reader over bytes at hand.
abbrev pub cursor : Bytes → Body
cursor bytes = record { bytes = bytes; failure = none }

abbrev pub status : ℕ → StatusCode
status n = record { code = n }

unfoldable pub from_data : Bytes → Response Body
unfolding new
from_data data' = new (status 200) [] (cursor data') (some (length data')) none

-- `from_file`, with the length that the file's metadata give, if they can be read.
unfoldable pub from_file : Body → Option ℕ → Response Body
unfolding new
from_file file file_size = new (status 200) [] file file_size none

abbrev text_plain : Header
text_plain = record {
  field = record { name = codes "Content-Type" };
  value = codes "text/plain; charset=UTF-8";
}

-- `from_string`, over the UTF-8 bytes of the string.
unfoldable pub from_string : Bytes → Response Body
unfolding new
from_string data' = new (status 200) (text_plain ∷ []) (cursor data') (some (length data')) none

unfoldable pub empty : StatusCode → Response Body
unfolding new
empty status_code = new status_code [] (cursor []) (some 0) none
