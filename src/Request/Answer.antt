-- ===== src/Request/Answer.antt =====
-- src/request.rs: answering a request. A message on `notify_when_responded` is a flag of the result;
-- whoever waits for it is taken to be there.
pub mod Once
pub mod Answered
pub mod Upgraded
pub mod Told
use tiny_http.Prelude.{Bool, true, false, List, Option, none, some, if◌then◌else◌, Result, ok, err}
use tiny_http.Text.{Text, Bytes}
use tiny_http.Io.{
  ErrorKind, broken_pipe, connection_aborted, connection_refused, connection_reset, Fault, io,
  panic, Body, Write, ◌>>◌, flush, ignored,
}
use tiny_http.Common.Method.{Method, head, method_eq}
use tiny_http.Util.HeaderValue.{Float}
use tiny_http.Response.Builder.{Response, empty, status}
use tiny_http.Response.Print.{raw_print}
use tiny_http.Request.Create.{DataReader, Request}

-- The errors that say that the client has closed the connection.
unfoldable pub is_closing : ErrorKind → Bool
is_closing broken_pipe = true
is_closing connection_aborted = true
is_closing connection_refused = true
is_closing connection_reset = true
is_closing _ = false

unfoldable pub ignore_client_closing_errors : Result Fault (Unit {0}) → Result Fault (Unit {0})
unfolding is_closing
ignore_client_closing_errors (ok u) = ok u
ignore_client_closing_errors (err (io e)) = if is_closing e then ok tt else err (io e)
ignore_client_closing_errors (err panic) = err panic

module _ {S D W : Type 0} where
  -- The assertion fails where there is no writer.
  unfoldable pub extract_writer_impl : Request S D W → Result Fault (W × Request S D W)
  extract_writer_impl rq = elim rq.response_writer [
    | some w ↦ ok (w, record rq { response_writer = none })
    | none ↦ err panic
  ]

  unfoldable pub extract_reader_impl : Request S D W → Result Fault (DataReader S D × Request S D W)
  extract_reader_impl rq = elim rq.data_reader [
    | some r ↦ ok (r, record rq { data_reader = none })
    | none ↦ err panic
  ]

  unfoldable pub with_notify_sender : Request S D W → Request S D W
  with_notify_sender rq = record rq { notify_when_responded = true }

-- What answering leaves: the result, the request as it is dropped, the writer that was taken out of
-- it, and whether the message was sent.
pub record Answer (S D W : Type 0) : Type 0 where
  pub result : Result Fault (Unit {0})
  pub request : Request S D W
  pub writer : Option W
  pub notified : Bool

-- The stream of an upgraded connection.
pub record Stream (S D W : Type 0) : Type 0 where
  pub reader : DataReader S D
  pub writer : W
  pub notifies : Bool

abbrev is_panic : Result Fault (Unit {0}) → Bool
is_panic (err panic) = true
is_panic (err (io e)) = false
is_panic (ok u) = false

-- The notification, which a panic before it skips.
abbrev pub notify : {S D W : Type 0} → Answer S D W → Answer S D W
notify a = if is_panic a.result then a else record a {
  notified = a.request.notify_when_responded;
  request = record a.request { notify_when_responded = false };
}

module _ (float : Float) (date : Text) (encode : Bytes → Bytes) {W : Type 0} (out : Write W) where
  abbrev flush_with : {S D : Type 0} → Request S D W → Result Fault (Unit {0}) × W → Answer S D W
  flush_with rq (err f, w) = record {
    result = err f;
    request = rq;
    writer = some w;
    notified = false;
  }
  flush_with rq (ok u, w) =
      let (r, w') = flush out w in
      record {
        result = ignore_client_closing_errors r;
        request = rq;
        writer = some w';
        notified = false;
      }

  abbrev respond_with :
      {S D : Type 0}
      → Response Body
      → Request S D W
      → Result Fault (W × Request S D W)
      → Answer S D W
  respond_with response rq (err f) = record {
    result = err f;
    request = rq;
    writer = none;
    notified = false;
  }
  respond_with response rq (ok (w, rq')) =
      let (r, w') =
        raw_print float date encode out response rq'.http_version rq'.headers
          (method_eq rq'.method head) none w in
      flush_with rq' (ignore_client_closing_errors r, w')

  module _ {S D : Type 0} where
    unfoldable pub respond_impl : Response Body → Request S D W → Answer S D W
    unfolding extract_writer_impl
    respond_impl response rq = respond_with response rq (extract_writer_impl rq)

    unfoldable pub respond : Response Body → Request S D W → Answer S D W
    unfolding respond_impl
    respond response rq = notify (respond_impl response rq)

    -- The destructor: a request that has not been answered is answered with 500.
    unfoldable pub drop : Request S D W → Answer S D W
    unfolding respond_impl
    drop rq = elim rq.response_writer [
      | some w ↦ notify (respond_impl (empty (status 500)) rq)
      | none ↦ record { result = ok tt; request = rq; writer = none; notified = false }
    ]

    abbrev continued :
        Request S D W → Result Fault (Unit {0}) × W → Result Fault (Unit {0}) × Request S D W
    continued rq (ok u, w) =
        (ok tt, record rq { response_writer = some w; must_send_continue = false })
    continued rq (err f, w) = (err f, record rq { response_writer = some w })

    -- `as_reader` up to the reader that it returns, which is `data_reader`: where the client expects
    -- it, 100 is sent, and its errors are ignored.
    unfoldable pub as_reader : Request S D W → Result Fault (Unit {0}) × Request S D W
    as_reader rq =
        if rq.must_send_continue
        then elim rq.response_writer [
          | some w ↦ continued rq (
              (do
                ignored (
                    raw_print float date encode out (empty (status 100)) rq.http_version rq.headers
                      true none)
                ignored (flush out))
                w)
          | none ↦ (err panic, rq)
        ]
        else (ok tt, rq)

    unfoldable pub into_writer : Request S D W → Result Fault (W × Bool × Request S D W)
    unfolding extract_writer_impl
    into_writer rq = elim (extract_writer_impl rq) [
      | ok (w, rq') ↦
          ok (w, rq'.notify_when_responded, record rq' { notify_when_responded = false })
      | err f ↦ err f
    ]

    abbrev streamed : Request S D W → Result Fault (Unit {0}) × W → Result Fault (Stream S D W)
    streamed rq (err f, w) = err f
    streamed rq (ok u, w) = elim rq.data_reader [
      | some r ↦ ok (record { reader = r; writer = w; notifies = rq.notify_when_responded })
      | none ↦ err panic
    ]

    unfoldable pub upgrade : Text → Response Body → Request S D W → Result Fault (Stream S D W)
    upgrade protocol response rq = elim rq.response_writer [
      | some w ↦ streamed rq (
          (do
            ignored (
                raw_print float date encode out response rq.http_version rq.headers false
                  (some protocol))
            ignored (flush out))
            w)
      | none ↦ err panic
    ]
