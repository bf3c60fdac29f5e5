-- ===== src/Request/Answer/Once.antt =====
-- Whoever answers a request, it is answered once, and a client that has gone is no error.
use tiny_http.Prelude.{
  ◌≡◌, ◌≢◌, refl, sym, ◌∙◌, true, false, none, some, Result, ok, err, arith, Option-cases,
  Bool-cases, inl, inr,
}
use tiny_http.Text.{Text, Bytes}
use tiny_http.Io.{
  ErrorKind, broken_pipe, connection_aborted, connection_refused, connection_reset, Fault, io,
  panic, Body, Write, ◌>>◌, flush, ignored,
}
use tiny_http.Util.HeaderValue.{Float}
use tiny_http.Response.Builder.{Response, empty, status}
use tiny_http.Response.Print.{raw_print}
use tiny_http.Request.Create.{Request}
use tiny_http.Request.Answer.{
  is_closing, ignore_client_closing_errors, extract_writer_impl, Answer, notify, flush_with,
  respond_impl, respond, drop, as_reader, continued,
}

-- The destructor had nothing to do.
abbrev pub untouched : {S D W : Type 0} → Request S D W → Answer S D W
untouched rq = record { result = ok tt; request = rq; writer = none; notified = false }

-- The four kinds of error that a closed connection has are not this one.
abbrev pub OpenStill : ErrorKind → Type 0
OpenStill e =
    (e ≢ broken_pipe) × (e ≢ connection_aborted) × (e ≢ connection_refused) × (e ≢ connection_reset)

not_closing : (e : ErrorKind) → is_closing e ≡ false → OpenStill e
unfolding is_closing
not_closing e h = (
  λ q. absurd (cc (rw q at h)),
  λ q. absurd (cc (rw q at h)),
  λ q. absurd (cc (rw q at h)),
  λ q. absurd (cc (rw q at h)),
)

ignored-is_closing :
    (r : Result Fault (Unit {0})) (e : ErrorKind)
    → ignore_client_closing_errors r ≡ err (io e)
    → is_closing e ≡ false
unfolding ignore_client_closing_errors
ignored-is_closing (ok u) e h = absurd (cc h)
ignored-is_closing (err panic) e h = absurd (cc h)
ignored-is_closing (err (io k)) e h = elim (Bool-cases (is_closing k)) [
  | inl closing ↦ absurd (cc (rw (closing, ignore_client_closing_errors) at h))
  | inr open' ↦
      let same : k ≡ e = cc (rw (open', ignore_client_closing_errors) at h) in rw (← same) open'
]

module _ {S D W : Type 0} (float : Float) (date : Text) (encode : Bytes → Bytes)
    (out : Write W) where
  pub drop-untouched :
      (rq : Request S D W)
      → rq.response_writer ≡ none
      → drop float date encode out rq ≡ untouched rq
  unfolding drop
  drop-untouched rq e = rw e

  notify-writer :
      (a : Answer S D W)
      → a.request.response_writer ≡ none
      → (notify a).request.response_writer ≡ none
  notify-writer a e = ground arith

  flush_with-writer :
      (rq : Request S D W) (p : Result Fault (Unit {0}) × W)
      → rq.response_writer ≡ none
      → (flush_with float date encode out rq p).request.response_writer ≡ none
  flush_with-writer rq (ok u, w) e = e
  flush_with-writer rq (err f, w) e = e

  respond_impl-writer :
      (response : Response Body) (rq : Request S D W)
      → (respond_impl float date encode out response rq).request.response_writer ≡ none
  unfolding respond_impl extract_writer_impl
  respond_impl-writer response rq = elim (Option-cases rq.response_writer) [
    | inl absent ↦ rw absent refl
    | inr (w, present) ↦ rw present (flush_with-writer _ _ refl)
  ]

  pub drop-answered :
      (rq : Request S D W) (w : W)
      → rq.response_writer ≡ some w
      → drop float date encode out rq
        ≡ notify (respond_impl float date encode out (empty (status 500)) rq)
  unfolding drop
  drop-answered rq w present = rw present

  drop-writer :
      (rq : Request S D W) → (drop float date encode out rq).request.response_writer ≡ none
  unfolding drop
  drop-writer rq = elim (Option-cases rq.response_writer) [
    | inl absent ↦ rw absent refl
    | inr (w, present) ↦ rw (drop-answered rq w present) (
        notify-writer (respond_impl float date encode out (empty (status 500)) rq)
          (respond_impl-writer (empty (status 500)) rq))
  ]

  -- For any writer: once a request has been responded to, with whatever result, its destructor does
  -- nothing; and once its destructor has run, to run it again would do nothing.
  pub respond-drop :
      (response : Response Body) (rq : Request S D W)
      → (drop float date encode out (respond float date encode out response rq).request
          ≡ untouched (respond float date encode out response rq).request)
        × (drop float date encode out (drop float date encode out rq).request
            ≡ untouched (drop float date encode out rq).request)
  unfolding respond
  respond-drop response rq = (
    drop-untouched _ (
        notify-writer (respond_impl float date encode out response rq)
          (respond_impl-writer response rq)),
    drop-untouched _ (drop-writer rq),
  )

  flush_with-is_closing :
      (rq : Request S D W) (r x : Result Fault (Unit {0})) (w : W) (e : ErrorKind)
      → ignore_client_closing_errors r ≡ x
      → (flush_with float date encode out rq (x, w)).result ≡ err (io e)
      → is_closing e ≡ false
  flush_with-is_closing rq r (ok u) w e q h = ignored-is_closing _ e h
  flush_with-is_closing rq r (err f) w e q h = ignored-is_closing r e (q ∙ h)

  notify-result : (a : Answer S D W) → (notify a).result ≡ a.result
  notify-result a = ground arith

  respond-is_closing_lem :
      (response : Response Body) (rq : Request S D W) (e : ErrorKind)
      → (respond float date encode out response rq).result ≡ err (io e)
      → is_closing e ≡ false
  unfolding respond respond_impl extract_writer_impl
  respond-is_closing_lem response rq e h = elim (Option-cases rq.response_writer) [
    | inl absent ↦ absurd (cc (rw (absent, respond) at h))
    | inr (w, present) ↦
        flush_with-is_closing _ _ _ _ e refl
          (rw present at (sym (notify-result (respond_impl float date encode out response rq)) ∙ h))
  ]

  -- For any writer: an error that `respond` returns is none of the four kinds that say that the
  -- client has closed the connection: `BrokenPipe`, `ConnectionAborted`, `ConnectionRefused` and
  -- `ConnectionReset`.
  pub respond-is_closing :
      (response : Response Body) (rq : Request S D W) (e : ErrorKind)
      → (respond float date encode out response rq).result ≡ err (io e)
      → OpenStill e
  respond-is_closing response rq e h = not_closing e (respond-is_closing_lem response rq e h)

  continued-again :
      (rq : Request S D W) (p : Result Fault (Unit {0}) × W)
      → (continued float date encode out rq p).0 ≡ ok tt
      → as_reader float date encode out (continued float date encode out rq p).1
        ≡ (ok tt, (continued float date encode out rq p).1)
  unfolding as_reader
  continued-again rq (ok u, w) e = refl
  continued-again rq (err f, w) e = absurd (cc e)

  abbrev hundred : Request S D W → W → Result Fault (Unit {0}) × W
  hundred rq = do
    ignored
        (raw_print float date encode out (empty (status 100)) rq.http_version rq.headers true none)
    ignored (flush out)

  as_reader-continued :
      (rq : Request S D W) (w : W)
      → rq.must_send_continue ≡ true
      → rq.response_writer ≡ some w
      → as_reader float date encode out rq ≡ continued float date encode out rq (hundred rq w)
  unfolding as_reader
  as_reader-continued rq w sends present = simp (sends, present)

  as_reader-silent :
      (rq : Request S D W)
      → rq.must_send_continue ≡ false
      → as_reader float date encode out rq ≡ (ok tt, rq)
  unfolding as_reader
  as_reader-silent rq silent = rw silent

  -- For any writer: after a call of `as_reader` that does not panic, a second call changes nothing,
  -- so that `100 Continue` is sent at most once.
  pub as_reader_twice :
      (rq : Request S D W)
      → (as_reader float date encode out rq).0 ≡ ok tt
      → as_reader float date encode out (as_reader float date encode out rq).1
        ≡ (ok tt, (as_reader float date encode out rq).1)
  as_reader_twice rq e = elim (Bool-cases rq.must_send_continue) [
    | inl sends ↦ elim (Option-cases rq.response_writer) [
      | inl absent ↦ absurd (unfold as_reader in cc (rw (sends, absent, as_reader) at e))
      | inr (w, present) ↦
          let q = as_reader-continued rq w sends present in
          rw q (continued-again rq (hundred rq w) (rw q at e))
    ]
    | inr silent ↦ let q = as_reader-silent rq silent in rw q q
  ]
