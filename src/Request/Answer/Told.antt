-- ===== src/Request/Answer/Told.antt =====
-- Who waits for the end of an answer is told of it exactly once, whichever way the request goes.
use tiny_http.Prelude.{
  ℕ, ◌+◌, ◌≡◌, refl, ap, ◌∙◌, Bool, true, false, none, some, Result, ok, err, Option-cases, inl,
  inr,
}
use tiny_http.Text.{Text, Bytes}
use tiny_http.Io.{Fault, Body, Write}
use tiny_http.Util.HeaderValue.{Float}
use tiny_http.Response.Builder.{Response, empty, status}
use tiny_http.Request.Create.{Request}
use tiny_http.Request.Answer.{
  is_panic, with_notify_sender, extract_writer_impl, Answer, Stream, notify, flush_with,
  respond_impl, respond, drop, into_writer, streamed, upgrade,
}
use tiny_http.Request.Answer.Once.{drop-untouched, drop-answered, respond-drop}

-- How many messages an answer sends.
abbrev pub messages : Bool → ℕ
messages true = 1
messages false = 0

-- A stream that was returned notifies when it is dropped.
abbrev pub Notifies : {S D W : Type 0} → Result Fault (Stream S D W) → Type 0
Notifies (ok s) = s.notifies ≡ true
Notifies (err e) = Unit {0}

module _ {S D W : Type 0} (float : Float) (date : Text) (encode : Bytes → Bytes)
    (out : Write W) where
  flush_with_flag :
      (rq : Request S D W) (p : Result Fault (Unit {0}) × W)
      → (flush_with float date encode out rq p).request.notify_when_responded
        ≡ rq.notify_when_responded
  flush_with_flag rq (ok u, w) = refl
  flush_with_flag rq (err f, w) = refl

  respond_impl_flag :
      (response : Response Body) (rq : Request S D W)
      → (respond_impl float date encode out response rq).request.notify_when_responded
        ≡ rq.notify_when_responded
  unfolding respond_impl extract_writer_impl
  respond_impl_flag response rq = elim (Option-cases rq.response_writer) [
    | inl absent ↦ rw absent refl
    | inr (w, present) ↦ rw present (flush_with_flag _ _)
  ]

  notify_told :
      (a : Answer S D W)
      → is_panic a.result ≡ false
      → a.request.notify_when_responded ≡ true
      → (notify a).notified ≡ true
  notify_told a calm flag = rw calm flag

  streamed_told :
      (rq : Request S D W) (p : Result Fault (Unit {0}) × W)
      → rq.notify_when_responded ≡ true
      → Notifies (streamed float date encode out rq p)
  streamed_told rq (err f, w) flag = tt
  streamed_told rq (ok u, w) flag = elim (Option-cases rq.data_reader) [
    | inl absent ↦ rw absent tt
    | inr (r, present) ↦ rw present flag
  ]

  -- The ways that a request that is to notify can go.
  pub record Told (response : Response Body) (protocol : Text) (w : W) (rq : Request S D W)
      : Type 0 where
    pub by_respond :
        messages (respond float date encode out response rq).notified
          + messages
              (drop float date encode out
                (respond float date encode out response rq).request).notified
        ≡ 1
    pub by_drop : messages (drop float date encode out rq).notified ≡ 1
    pub by_writer :
        (rest : Request S D W) × (into_writer float date encode out rq ≡ ok (w, true, rest))
        × (messages (drop float date encode out rest).notified ≡ 0)
    pub by_upgrade : Notifies (upgrade float date encode out protocol response rq)

  told :
      (response : Response Body) (protocol : Text) (rq : Request S D W) (w : W)
      → rq.response_writer ≡ some w
      → rq.notify_when_responded ≡ true
      → is_panic (respond_impl float date encode out response rq).result ≡ false
      → is_panic (respond_impl float date encode out (empty (status 500)) rq).result ≡ false
      → Told response protocol w rq
  unfolding respond into_writer extract_writer_impl upgrade
  told response protocol rq w present flag calm calm' =
      let answered : (respond float date encode out response rq).notified ≡ true =
        notify_told (respond_impl float date encode out response rq) calm
          (respond_impl_flag response rq ∙ flag) in
      let rest : Request S D W = record rq {
        response_writer = none;
        notify_when_responded = false;
      } in
      record {
        by_respond = rw (answered, (respond-drop float date encode out response rq).0) refl;
        by_drop = rw (drop-answered float date encode out rq w present) (
            ap messages (
              notify_told (respond_impl float date encode out (empty (status 500)) rq) calm'
                (respond_impl_flag (empty (status 500)) rq ∙ flag)));
        by_writer = (
          rest,
          rw (present, flag) refl,
          ap (λ a. messages a.notified) (drop-untouched float date encode out rest refl),
        );
        by_upgrade = rw present (streamed_told rq _ flag);
      }

  -- If a request that is to notify has its writer, and printing the response, and that of the
  -- destructor, does not panic, then whatever the writer does, somebody who waits for the end of
  -- the answer is told exactly once, whichever way the request goes: by `respond` and then its
  -- destructor, by its destructor alone, or by the writer of `into_writer`, whose destructor
  -- notifies, and then not by what is left of the request; and a stream that `upgrade` returns
  -- notifies.
  pub with_notify_sender-Told :
      (response : Response Body) (protocol : Text) (rq : Request S D W) (w : W)
      → rq.response_writer ≡ some w
      → is_panic (respond_impl float date encode out response (with_notify_sender rq)).result
        ≡ false
      → is_panic
          (respond_impl float date encode out (empty (status 500)) (with_notify_sender rq)).result
        ≡ false
      → Told response protocol w (with_notify_sender rq)
  unfolding with_notify_sender
  with_notify_sender-Told response protocol rq w present calm calm' =
      told response protocol (with_notify_sender rq) w present refl calm calm'
