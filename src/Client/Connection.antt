-- ===== src/Client/Connection.antt =====
-- src/client.rs: `ClientConnection`: `read`, and the iterator over its requests. A connection whose
-- socket cannot tell its peer's address is left out: `read` panics there. The stream is passed in once
-- it is this connection's turn to read, and given back unless a request still holds it.
pub mod Reading
pub mod Ending
pub mod Refusal
use tiny_http.Prelude.{
  ℕ, zero, suc, Bool, true, false, not, ◌&&◌, ◌||◌, List, [], ◌∷◌, Option, none, some,
  if◌then◌else◌, Result, ok, err,
}
use mathlib.Core.Option
use tiny_http.Text.{Text, Bytes, codes, to_ascii_lowercase}
use tiny_http.Text.Pieces.{trim, contains}
use tiny_http.Io.{ErrorKind, timed_out, Fault, Body, Read, Write}
use tiny_http.Common.Header.{Header, from_str}
use tiny_http.Common.Method.{Method}
use tiny_http.Common.HttpVersion.{HttpVersion, version, version_eq, version_gt}
use tiny_http.Util.HeaderValue.{Float}
use tiny_http.Util.EqualReader
use tiny_http.Util.FusedReader.{FusedReader}
use tiny_http.Response.Builder.{Response, empty, status, from_string, with_status_code}
use tiny_http.Response.Print.{raw_print}
use tiny_http.Request.Create.{
  Request, RequestCreationError, expectation_failed, creation_io_error, DataReader, whole, nothing,
  buffered, sized, chunks, SocketAddr, header_value,
}
use tiny_http.Request.New.{Head, Created, new_request}
use tiny_http.Request.Answer.{Answer, drop}
use tiny_http.Client.RequestLine.{
  ReadError, wrong_request_line, wrong_header, read_io_error, parse_request_line,
}
use tiny_http.Client.RequestLine.{expectation_failed as unknown_expect}
use tiny_http.Client.Head.{Start, read_head}

-- `SequentialWriterBuilder` as the connection uses it: `K` is the builder with all its writers.
pub record Sink : Type 1 where
  pub K : Type 0
  pub W : Type 0
  pub next : K → W × K
  pub writer : W → Write K
  pub close : W → K → K

pub record Connection (K : Type 0) : Type 0 where
  pub sink : K
  pub remote_addr : Option SocketAddr
  pub no_more_requests : Bool
  pub secure : Bool

-- `map_err` on the errors of `new_request`.
unfoldable pub as_read_error : HttpVersion → RequestCreationError → ReadError
as_read_error v (creation_io_error e) = read_io_error e
as_read_error v expectation_failed = unknown_expect v

-- The match on the `Connection` header: whether this request is the last one.
unfoldable pub is_last : HttpVersion → Option Text → Bool
is_last v none = version_eq v (version 1 0)
is_last v (some val) =
    contains (codes "close") val
    || contains (codes "upgrade") val
    || (not (contains (codes "keep-alive") val) && version_eq v (version 1 0))

abbrev pub connection_value : List Header → Option Text
connection_value headers = Option.map to_ascii_lowercase (header_value (codes "Connection") headers)

abbrev the_refusal : Text
the_refusal = codes "This server only supports HTTP versions 1.0 and 1.1"

module _ (float : Float) (date : Text) (encode : Bytes → Bytes) (sink : Sink) {S D : Type 0}
    (source : Read S) (decode : S → D) (undecode : D → S) where
  open sink use {K, W}

  abbrev pub Asked : Type 0
  Asked = Result ReadError (Request S D W) × Connection K × Option S

  -- A writer that `new_request` does not keep is dropped.
  abbrev pub created : Connection K → W → HttpVersion → Option (Created S D W) → Option Asked
  created c w v none = none
  created c w v (some (ok rq, s)) = some (ok rq, c, s)
  created c w v (some (err e, s)) =
      some (err (as_read_error v e), record c { sink = sink.close w c.sink }, s)

  abbrev pub create : Connection K → Start → S → W × K → Option Asked
  create c (m, path, v, headers) s (w, k) =
      created (record c { sink = k }) w v
        (new_request source decode
          (record {
            secure = c.secure;
            method = m;
            path = path;
            version = v;
            headers = headers;
            remote_addr = c.remote_addr;
          })
          w s)

  abbrev read_arms : Connection K → Option (Result ReadError Start × S) → Option Asked
  read_arms c none = none
  read_arms c (some (err e, s)) = some (err e, c, some s)
  read_arms c (some (ok start, s)) = create c start s (sink.next c.sink)

  unfoldable pub read : ℕ → Connection K → S → Option Asked
  unfolding as_read_error read_head
  read fuel c s = read_arms c (read_head source fuel s)

  -- A response of the connection itself, through the next writer, which is then dropped; an error is
  -- ignored.
  unfoldable pub reply : Response Body → HttpVersion → Bool → Connection K → Connection K
  reply response v quiet c =
      let (w, k) = sink.next c.sink in
      let printed = raw_print float date encode (sink.writer w) response v [] quiet none k in
      record c { sink = sink.close w printed.1 }

  -- Nothing if the destructor panics: so does the iterator then.
  abbrev behind : Option (EqualReader.Ended × S) → Option S
  behind none = none
  behind (some (EqualReader.left signal, s)) = some s
  behind (some (EqualReader.capacity_overflow, s)) = none

  abbrev unread : Option (EqualReader.EqualReader S) → Option S
  unread none = none
  unread (some e) = behind (EqualReader.drop source e)

  -- The source behind a request whose reader is dropped.
  abbrev pub release : Option (DataReader S D) → Option S → Option S
  release reader (some s) = some s
  release none none = none
  release (some (whole s)) none = some s
  release (some nothing) none = none
  release (some (buffered b)) none = none
  release (some (sized f)) none = unread f.inner
  release (some (chunks f)) none = Option.map undecode f.inner

  abbrev with_writer : Request S D W → K → Request S D K
  with_writer rq k = record {
    data_reader = rq.data_reader;
    response_writer = some k;
    remote_addr = rq.remote_addr;
    secure = rq.secure;
    method = rq.method;
    path = rq.path;
    http_version = rq.http_version;
    headers = rq.headers;
    body_length = rq.body_length;
    must_send_continue = rq.must_send_continue;
    notify_when_responded = rq.notify_when_responded;
  }

  abbrev sink_after : K → W → Option K → K
  sink_after k w none = k
  sink_after k w (some k') = sink.close w k'

  -- A request that is dropped unanswered, by its destructor.
  unfoldable pub discard : Request S D W → Connection K → Connection K
  discard rq c = elim rq.response_writer [
    | none ↦ c
    | some w ↦ record c {
      sink =
          sink_after c.sink w
            (drop float date encode (sink.writer w) (with_writer rq c.sink)).writer;
    }
  ]

  -- What `next` returns, the connection, and the stream where no request holds it.
  abbrev pub Next : Type 0
  Next = Option (Request S D W) × Connection K × Option S

  abbrev resume : (Connection K → S → Option Next) → Connection K → Option S → Option Next
  resume again c none = none
  resume again c (some s) = again c s

  -- One pass of the loop of `next`, after the request was read.
  abbrev pub next_arms : (Connection K → S → Option Next) → Option Asked → Option Next
  next_arms again none = none
  next_arms again (some (err wrong_request_line, c, s)) =
      some (none, reply (empty (status 400)) (version 1 1) false c, s)
  next_arms again (some (err (wrong_header v), c, s)) =
      some (none, reply (empty (status 400)) v false c, s)
  next_arms again (some (err (read_io_error timed_out), c, s)) =
      some (none, reply (empty (status 408)) (version 1 1) false c, s)
  next_arms again (some (err (unknown_expect v), c, s)) =
      some (none, reply (empty (status 417)) v true c, s)
  next_arms again (some (err (read_io_error _), c, s)) = some (none, c, s)
  next_arms again (some (ok rq, c, s)) =
      let refused =
        resume again
          (discard rq
            (reply (with_status_code (from_string the_refusal) (status 505)) (version 1 1) false c))
          (release rq.data_reader s) in
      if version_gt rq.http_version (version 1 1)
      then refused
      else some (
        some rq,
        record c {
          no_more_requests =
              is_last rq.http_version (connection_value rq.headers) || c.no_more_requests;
        },
        s,
      )

  -- The loop, on fuel; `none` means that the fuel ran out, or that the stream does not come back: a
  -- request holds it, or the destructor of a body panicked.
  unfoldable pub next_loop : ℕ → ℕ → Connection K → S → Option Next
  unfolding read reply discard is_last
  next_loop fuel zero c s = none
  next_loop fuel (suc rounds) c s = next_arms (next_loop fuel rounds) (read fuel c s)

  unfoldable pub next : ℕ → Connection K → S → Option Next
  unfolding next_loop
  next fuel c s = if c.no_more_requests then some (none, c, some s) else next_loop fuel fuel c s
