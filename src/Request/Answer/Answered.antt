-- ===== src/Request/Answer/Answered.antt =====
-- What a client sees of an answer, where its connection takes all that is written.
use tiny_http.Prelude.{ℕ, ◌≡◌, ◌<◌, refl, true, [], ◌∷◌, ◌++◌, none, some, ok, arith, length}
use tiny_http.Text.{Text, Bytes, is_ascii}
use tiny_http.Text.Decimal.{usize_limit}
use tiny_http.Io.{Body, vec_writer}
use tiny_http.Common.Method.{head, method_eq}
use tiny_http.Util.HeaderValue.{Float}
use tiny_http.Response.Builder.{Response, new, empty, status, cursor}
use tiny_http.Response.Builder.Headers.{IsClean, new-IsClean}
use tiny_http.Response.Print.Framing.{IsHonest, head_bytes}
use tiny_http.Response.Print.Wire.{Message, raw_print-Message}
use tiny_http.Request.Create.{Request}
use tiny_http.Request.Answer.Once.{drop-answered}
use tiny_http.Request.Answer.{
  ignore_client_closing_errors, extract_writer_impl, Answer, notify, respond_impl, respond, drop,
}

empty-IsClean : (s : ℕ) → IsClean (empty (status s)).headers
unfolding empty
empty-IsClean s = new-IsClean (status s) [] (cursor []) (some 0) none

module _ {S D : Type 0} (float : Float) (date : Text) (encode : Bytes → Bytes) where
  -- The answer went out whole: the client was sent one message for this response.
  pub record Answered (response : Response Body) (rq : Request S D Bytes) (w : Bytes)
      (a : Answer S D Bytes) : Type 0 where
    pub message :
        Message float date encode response rq.http_version rq.headers (method_eq rq.method head) w
    pub result : a.result ≡ ok tt
    pub sent :
        a.writer
        ≡ some (
            w
            ++ (head_bytes rq.http_version response.status_code
                  (message.front ++ (response.headers ++ message.framing ∷ []))
                ++ message.payload))
    pub notified : a.notified ≡ rq.notify_when_responded

  answered :
      (response : Response Body) (rq : Request S D Bytes) (w : Bytes)
      → rq.response_writer ≡ some w
      → Message float date encode response rq.http_version rq.headers (method_eq rq.method head) w
      → Answered response rq w (notify (respond_impl float date encode vec_writer response rq))
  unfolding respond_impl extract_writer_impl ignore_client_closing_errors
  answered response rq w present m = record {
    message = m;
    result = rw (present, m.written) refl;
    sent = rw (present, m.written) refl;
    notified = rw (present, m.written) refl;
  }

  -- If a request has its writer, which does not fail, the date text is ASCII, the headers of the
  -- response are clean, its reader does not fail, a length that was given is that of the body, and
  -- the body has less than 2^64 bytes, then `respond` ends with no error, the writer has been given
  -- one framed message for the response, with no body where the method is HEAD, and the message of
  -- notification is sent exactly if it was asked for.
  pub respond-Answered :
      (response : Response Body) (rq : Request S D Bytes) (w : Bytes)
      → rq.response_writer ≡ some w
      → is_ascii date ≡ true
      → IsClean response.headers
      → response.reader.failure ≡ none
      → IsHonest response.data_length response.reader.bytes
      → length response.reader.bytes < usize_limit
      → Answered response rq w (respond float date encode vec_writer response rq)
  unfolding respond
  respond-Answered response rq w present ascii clean fine honest bound =
      answered response rq w present (
        raw_print-Message float date encode response rq.http_version rq.headers
          (method_eq rq.method head) w ascii clean fine honest bound)

  -- If a request that has its writer, which does not fail, is dropped, and the date text is ASCII,
  -- then the writer has been given one framed message for an empty response of status 500, and the
  -- message of notification is sent exactly if it was asked for.
  pub drop-Answered :
      (rq : Request S D Bytes) (w : Bytes)
      → rq.response_writer ≡ some w
      → is_ascii date ≡ true
      → Answered (empty (status 500)) rq w (drop float date encode vec_writer rq)
  unfolding empty new
  drop-Answered rq w present ascii = rw (drop-answered float date encode vec_writer rq w present) (
      answered (empty (status 500)) rq w present (
        raw_print-Message float date encode (empty (status 500)) rq.http_version rq.headers
          (method_eq rq.method head) w ascii (empty-IsClean 500) refl refl (omega arith)))
