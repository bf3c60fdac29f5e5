-- ===== src/Response/Access.antt =====
-- src/response.rs: what a response tells of itself, and its copies.
use tiny_http.Prelude.{ℕ, List, Option}
use tiny_http.Io.{Body}
use tiny_http.Common.StatusCode.{StatusCode}
use tiny_http.Common.Header.{Header}
use tiny_http.Response.Builder.{Response, empty}

module _ {R : Type 0} where
  unfoldable pub status_code : Response R → StatusCode
  status_code r = r.status_code

  unfoldable pub data_length : Response R → Option ℕ
  data_length r = r.data_length

  unfoldable pub headers : Response R → List Header
  headers r = r.headers

  -- The argument makes a `dyn Read` of the reader.
  unfoldable pub boxed : {B : Type 0} → (R → B) → Response R → Response B
  boxed box r = record {
    reader = box r.reader;
    status_code = r.status_code;
    headers = r.headers;
    data_length = r.data_length;
    chunked_threshold = r.chunked_threshold;
  }

unfoldable pub new_empty : StatusCode → Response Body
unfolding empty
new_empty status_code = empty status_code

-- `Clone` of a response with an empty reader.
unfoldable pub clone_empty : Response (Unit {0}) → Response (Unit {0})
clone_empty r = record {
  reader = tt;
  status_code = r.status_code;
  headers = r.headers;
  data_length = r.data_length;
  chunked_threshold = r.chunked_threshold;
}
