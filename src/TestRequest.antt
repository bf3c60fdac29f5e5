-- ===== src/TestRequest.antt =====
-- src/test.rs: `TestRequest`, and the request that it is turned into.
pub mod Body
use tiny_http.Prelude.{
  ℕ, Bool, true, false, List, [], ◌∷◌, ◌++◌, Option, none, some, Result, ok, err, if◌then◌else◌,
  any, length, ◌>>=◌,
}
use tiny_http.Text.{Text, Bytes, codes, from_ascii}
use tiny_http.Text.Decimal.{decimal}
use tiny_http.Io.{Fault, panic}
use tiny_http.Io.Slice.{slice_read}
use tiny_http.Common.Header.{Header, HeaderField, equiv, field_from_str}
use tiny_http.Common.Method.{Method, get}
use tiny_http.Common.HttpVersion.{HttpVersion, version}
use tiny_http.Request.Create.{Request, SocketAddr}
use tiny_http.Request.New.{Created, new_request}

-- The body is kept as its UTF-8 bytes.
pub record TestRequest : Type 0 where
  pub body : Bytes
  pub remote_addr : SocketAddr
  pub secure : Bool
  pub method : Method
  pub path : Text
  pub http_version : HttpVersion
  pub headers : List Header

unfoldable pub default_request : TestRequest
default_request = record {
  body = [];
  remote_addr = codes "127.0.0.1:23456";
  secure = false;
  method = get;
  path = codes "/";
  http_version = version 1 1;
  headers = [];
}

unfoldable pub with_body : TestRequest → Bytes → TestRequest
with_body r body = record r { body = body }

unfoldable pub with_remote_addr : TestRequest → SocketAddr → TestRequest
with_remote_addr r remote_addr = record r { remote_addr = remote_addr }

unfoldable pub with_https : TestRequest → TestRequest
with_https r = record r { secure = true }

unfoldable pub with_method : TestRequest → Method → TestRequest
with_method r method = record r { method = method }

unfoldable pub with_path : TestRequest → Text → TestRequest
with_path r path = record r { path = path }

unfoldable pub with_http_version : TestRequest → HttpVersion → TestRequest
with_http_version r v = record r { http_version = v }

unfoldable pub with_test_header : TestRequest → Header → TestRequest
with_test_header r header = record r { headers = r.headers ++ header ∷ [] }

abbrev unwrap_field : Result (Unit {0}) HeaderField → Result Fault HeaderField
unwrap_field (ok f) = ok f
unwrap_field (err _) = err panic

abbrev unwrap_value : Option Text → Result Fault Text
unwrap_value (some v) = ok v
unwrap_value none = err panic

-- The length is added unless there is one.
unfoldable pub length_added : TestRequest → Result Fault (List Header)
length_added mock =
    if any (λ h. equiv h.field (codes "Content-Length")) mock.headers then ok mock.headers else (do
      f ← unwrap_field (field_from_str (codes "Content-Length"))
      v ← unwrap_value (from_ascii (decimal (length mock.body)))
      ok (mock.headers ++ record { field = f; value = v } ∷ []))

-- `new_request(..).unwrap()`; the writer is `io::sink()`. `none` means that its fuel ran out.
abbrev unwrap_created :
    {D : Type 0}
    → Option (Created Bytes D (Unit {0}))
    → Option (Result Fault (Request Bytes D (Unit {0})))
unwrap_created none = none
unwrap_created (some (ok rq, s)) = some (ok rq)
unwrap_created (some (err e, s)) = some (err panic)

abbrev requested :
    {D : Type 0}
    → (Bytes → D)
    → TestRequest
    → Result Fault (List Header)
    → Option (Result Fault (Request Bytes D (Unit {0})))
requested decode mock (err f) = some (err f)
requested decode mock (ok headers) = unwrap_created (
    new_request slice_read decode
      (record {
        secure = mock.secure;
        method = mock.method;
        path = mock.path;
        version = mock.http_version;
        headers = headers;
        remote_addr = some mock.remote_addr;
      })
      tt mock.body)

-- `From<TestRequest> for Request`.
unfoldable pub into_request :
    {D : Type 0} → (Bytes → D) → TestRequest → Option (Result Fault (Request Bytes D (Unit {0})))
unfolding length_added
into_request decode mock = requested decode mock (length_added mock)
