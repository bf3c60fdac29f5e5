-- ===== src/Request/Access.antt =====
-- src/request.rs: what a request tells of itself.
use tiny_http.Prelude.{ℕ, List, ◌++◌, Bool, Option}
use tiny_http.Text.{Text, codes}
use tiny_http.Common.Header.{Header}
use tiny_http.Common.Method.{Method, as_str}
use tiny_http.Common.HttpVersion.{HttpVersion}
use tiny_http.Request.Create.{Request, SocketAddr}

module _ {S D W : Type 0} where
  unfoldable pub secure : Request S D W → Bool
  secure rq = rq.secure

  unfoldable pub method : Request S D W → Method
  method rq = rq.method

  unfoldable pub url : Request S D W → Text
  url rq = rq.path

  unfoldable pub headers : Request S D W → List Header
  headers rq = rq.headers

  unfoldable pub http_version : Request S D W → HttpVersion
  http_version rq = rq.http_version

  unfoldable pub body_length : Request S D W → Option ℕ
  body_length rq = rq.body_length

  unfoldable pub remote_addr : Request S D W → Option SocketAddr
  remote_addr rq = rq.remote_addr

  -- `Debug`; how an optional address is written is the standard library's.
  unfoldable pub request_debug : (Option SocketAddr → Text) → Request S D W → Text
  unfolding as_str
  request_debug debug rq =
      codes "Request("
      ++ (as_str rq.method
          ++ (codes " " ++ (rq.path ++ (codes " from " ++ (debug rq.remote_addr ++ codes ")")))))
