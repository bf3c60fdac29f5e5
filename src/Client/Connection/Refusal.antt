-- ===== src/Client/Connection/Refusal.antt =====
-- The iterator's own responses through the sequential writers, while the writer before is alive.
use tiny_http.Prelude.{
  ℕ, ◌≡◌, refl, ap, ◌∙◌, Bool, false, List, [], ◌∷◌, Option, none, some, Result, ok, err, and_then,
  ◌⊎◌, inl, inr, leb, Bool-cases,
}
use mathlib.Core.Option
use tiny_http.Text.{Text, Bytes, codes}
use tiny_http.Io.{Fault, Body, Write, Io, write_all, write_pieces, copy, ending}
use tiny_http.Io.{◌>>=◌, continue}
use tiny_http.Common.StatusCode.{StatusCode}
use tiny_http.Common.Header.{Header}
use tiny_http.Common.HttpVersion.{HttpVersion}
use tiny_http.Util.HeaderValue.{Float}
use tiny_http.Util.Sequential.Writers.{Writers}
use tiny_http.Util.Sequential.Writers
use tiny_http.Util.Sequential.Overtaking.{next_blocked}
use tiny_http.Util.Sequential.Waiting.{Later, Later-Waits, Waits-blocked, next-Waits}
use tiny_http.Response.Builder.{Response}
use tiny_http.Response.TransferEncoding.{TransferEncoding, identity, chunked}
use tiny_http.Response.Prepare.{Prepared, prepare}
use tiny_http.Response.Print.{
  write_headers, write_message_header, status_line, crlf, send_body, send, raw_print,
}
use tiny_http.Client.Connection.{Sink, Connection, reply}
use tiny_http.Io.{Read}

-- The sequential writers as the connection's sink; `none` is a call that has to wait.
abbrev pub sequential_sink : Sink
sequential_sink = record {
  K = Option Writers;
  W = ℕ;
  next = λ o. (elim o [ some s ↦ s.issued | none ↦ 0 ], Option.map Writers.next o);
  writer = λ k. record {
    write_all = λ b o. (ok tt, and_then o (Writers.write k b));
    flush = λ o. (ok tt, and_then o (Writers.flush k));
  };
  close = λ k o. Option.map (Writers.drop k) o;
}

module _ {W : Type 0} (P : W → Type 0) where
  -- A program that keeps `P` of the writer.
  abbrev Keeps : {A : Type 0} → Io W A → Type 0
  Keeps m = (w : W) → P w → P (m w).1

  bind-Keeps :
      {A B : Type 0} (m : Io W A) (f : A → Io W B)
      → Keeps m
      → ((a : A) → Keeps (f a))
      → Keeps (m >>= f)
  bind-Keeps {A} {B} m f h k w p = go (m w) (h w p)
    where
      go : (out : Result Fault A × W) → P out.1 → P (continue f out).1
      go (ok a, w') q = k a w' q
      go (err e, w') q = q

  module _ (out : Write W) (writes : (b : Bytes) (w : W) → P w → P (out.write_all b w).1) where
    write_pieces-Keeps : (ps : List Bytes) → Keeps (write_pieces out ps)
    unfolding write_pieces
    write_pieces-Keeps [] = λ w p. p
    write_pieces-Keeps (b ∷ ps) =
        bind-Keeps (write_all out b) (λ _. write_pieces out ps) (writes b)
          (λ _. write_pieces-Keeps ps)

    then-Keeps :
        {B : Type 0} (b : Bytes) (m : Io W B) → Keeps m → Keeps (write_all out b >>= (λ _. m))
    then-Keeps b m k = bind-Keeps (write_all out b) (λ _. m) (writes b) (λ _. k)

    write_headers-Keeps : (hs : List Header) → Keeps (write_headers out hs)
    unfolding write_headers
    write_headers-Keeps [] = λ w p. p
    write_headers-Keeps (h ∷ hs) = then-Keeps h.field.name _ (
        then-Keeps (codes ": ") _
          (then-Keeps h.value _ (then-Keeps crlf _ (write_headers-Keeps hs))))

    write_message_header-Keeps :
        (v : HttpVersion) (s : StatusCode) (hs : List Header)
        → Keeps (write_message_header out v s hs)
    unfolding write_message_header
    write_message_header-Keeps v s hs =
        bind-Keeps (write_pieces out (status_line v s)) _ (write_pieces-Keeps (status_line v s))
          (λ _. bind-Keeps (write_headers out hs) _ (write_headers-Keeps hs) (λ _. writes crlf))

    copy-Keeps : (through : Bytes → Bytes) (body : Body) → Keeps (copy out through body)
    unfolding copy
    copy-Keeps through body =
        then-Keeps (through body.bytes) (λ w. (ending body.failure, w)) (λ w p. p)

    send_body-Keeps :
        (encode : Bytes → Bytes) (te : Option TransferEncoding) (len : Option ℕ) (body : Body)
        → Keeps (send_body out encode te len body)
    unfolding send_body
    send_body-Keeps encode none len body = λ w p. p
    send_body-Keeps encode (some chunked) len body = copy-Keeps encode body
    send_body-Keeps encode (some identity) none body = λ w p. p
    send_body-Keeps encode (some identity) (some l) body = elim (Bool-cases (leb 1 l)) [
      | inl more ↦ rw more (copy-Keeps (λ b. b) body)
      | inr empty' ↦ rw empty' (λ w p. p)
    ]

    module _ (float : Float) (date : Text) (encode : Bytes → Bytes) where
      send-Keeps :
          (v : HttpVersion) (s : StatusCode) (p : Prepared)
          → Keeps (send float date encode out v s p)
      unfolding send
      send-Keeps v s p =
          bind-Keeps (write_message_header out v s p.headers) _
            (write_message_header-Keeps v s p.headers)
            (λ _. elim (Bool-cases p.silent) [
              | inl quiet ↦ rw quiet (λ w q. q)
              | inr loud ↦ rw loud (send_body-Keeps encode p.encoding p.data_length p.body)
            ])

      raw_print-Keeps :
          (r : Response Body) (v : HttpVersion) (hs : List Header) (quiet : Bool)
          (upgrade : Option Text)
          → Keeps (raw_print float date encode out r v hs quiet upgrade)
      unfolding raw_print
      raw_print-Keeps r v hs quiet upgrade =
          bind-Keeps (λ w. (prepare float date r v hs quiet upgrade, w)) _ (λ w p. p)
            (λ p. send-Keeps v r.status_code p)

-- Nobody has got further: a call has to wait, or nothing has happened.
abbrev AtMost : Writers → Option Writers → Type 0
AtMost s o = (o ≡ none) ⊎ (o ≡ some s)

AtMost-write :
    (k : ℕ) (s : Writers)
    → ((b : Bytes) → Writers.write k b s ≡ none)
    → (b : Bytes) (o : Option Writers) → AtMost s o
    → AtMost s (and_then o (Writers.write k b))
AtMost-write k s stuck b o (inl e) = inl (ap (λ p. and_then p (Writers.write k b)) e)
AtMost-write k s stuck b o (inr e) = inl (ap (λ p. and_then p (Writers.write k b)) e ∙ stuck b)

module _ (float : Float) (date : Text) (encode : Bytes → Bytes) {S D : Type 0} (source : Read S)
    (decode : S → D) (undecode : D → S) where
  -- The connection after its response, where the writers are those of `s`.
  abbrev pub replied :
      Response Body
      → HttpVersion
      → Bool
      → Connection (Option Writers)
      → Writers
      → Connection (Option Writers)
  replied response v quiet c s =
      reply float date encode sequential_sink source decode undecode response v quiet
        (record c { sink = some s })

  reply_now :
      (response : Response Body) (v : HttpVersion) (quiet : Bool) (c : Connection (Option Writers))
      (s : Writers) (n : ℕ)
      → s.next_trigger ≡ some n
      → s.sent n ≡ false
      → ((replied response v quiet c s).sink ≡ none)
        ⊎ ((u : Writers) × ((replied response v quiet c s).sink ≡ some u) × (u.written ≡ s.written))
  unfolding reply Writers.drop Writers.next
  reply_now response v quiet c s n trigger unsent =
      let k = s.issued in
      elim (raw_print-Keeps (AtMost (Writers.next s)) (sequential_sink.writer k)
        (AtMost-write k (Writers.next s) (λ b. (next_blocked s b n trigger unsent).0)) float date
        encode response v [] quiet none (some (Writers.next s)) (inr refl)) [
          | inl gone ↦ inl (ap (Option.map (Writers.drop k)) gone)
          | inr same ↦
              inr (Writers.drop k (Writers.next s), ap (Option.map (Writers.drop k)) same, refl)
        ]

  -- If the writer that was made last has not sent its signal, then a response that the connection
  -- itself sends through the next writer, whatever the response, has to wait now or is given up
  -- with nothing written; and a write or a flush through that next writer still has to wait in
  -- every state that the store comes to, whatever other writers are made, used and dropped, until
  -- the writer before it is dropped.
  pub reply_blocked :
      (response : Response Body) (v : HttpVersion) (quiet : Bool) (c : Connection (Option Writers))
      (s t : Writers) (n : ℕ) (buf : Bytes)
      → s.next_trigger ≡ some n
      → s.sent n ≡ false
      → Later n s.issued (Writers.next s) t
      → (((replied response v quiet c s).sink ≡ none)
          ⊎ ((u : Writers) × ((replied response v quiet c s).sink ≡ some u)
              × (u.written ≡ s.written)))
        × (Writers.write s.issued buf t ≡ none)
        × (Writers.flush s.issued t ≡ none)
  reply_blocked response v quiet c s t n buf trigger unsent later =
      let (write_waits, flush_waits) =
        Waits-blocked n s.issued t buf
          (Later-Waits n s.issued (Writers.next s) t (next-Waits s n trigger unsent) later) in
      (reply_now response v quiet c s n trigger unsent, write_waits, flush_waits)
