-- ===== src/Client/Connection/Ending.antt =====
-- Which requests the iterator returns, and which one ends it.
use tiny_http.Prelude.{
  ℕ, zero, suc, ◌≡◌, ◌↔◌, ◌⊎◌, inl, inr, refl, ◌∙◌, true, false, Option, none, some, arith, Result,
  ok, err, Bool-cases, Option-cases, subst,
}
use tiny_http.Text.{Text, Bytes, codes}
use tiny_http.Text.Pieces.{contains}
use tiny_http.Io.{timed_out, Read}
use tiny_http.Common.HttpVersion.{HttpVersion, version, version_gt, cmp_order}
use tiny_http.Util.HeaderValue.{Float}
use tiny_http.Request.Create.{Request}
use tiny_http.Request.New.{Created}
use tiny_http.Client.RequestLine.{ReadError, wrong_request_line, wrong_header, read_io_error}
use tiny_http.Client.RequestLine.{expectation_failed as unknown_expect}
use tiny_http.Client.Head.{Start, read_head}
use tiny_http.Client.Connection.{
  Sink, Connection, is_last, connection_value, Asked, created, read_arms, read, reply, discard,
  resume, Next, next_arms, next_loop, next,
}

-- No request follows: the `Connection` header, in lower case, says `close` or `upgrade`, or the
-- version is 1.0 and the header does not say `keep-alive`, or is absent.
abbrev pub Closes : HttpVersion → Option Text → Type 0
Closes v none = v ≡ version 1 0
Closes v (some val) =
    (contains (codes "close") val ≡ true)
    ⊎ (contains (codes "upgrade") val ≡ true)
    ⊎ ((contains (codes "keep-alive") val ≡ false) × (v ≡ version 1 0))

is_last_iff : (v : HttpVersion) (o : Option Text) → (is_last v o ≡ true) ↔ Closes v o
unfolding is_last
is_last_iff v none = (cmp_order v (version 1 0)).2
is_last_iff v (some val) = ground (arith, (cmp_order v (version 1 0)).2)

module _ (float : Float) (date : Text) (encode : Bytes → Bytes) (sink : Sink) {S D : Type 0}
    (source : Read S) (decode : S → D) (undecode : D → S) where
  -- Nothing has said yet that no request follows.
  abbrev Fresh : Option (Asked float date encode sink source decode undecode) → Type 0
  Fresh none = Unit {0}
  Fresh (some (r, c, s)) = c.no_more_requests ≡ false

  created-Fresh :
      (c : Connection sink.K) (w : sink.W) (v : HttpVersion) (o : Option (Created S D sink.W))
      → c.no_more_requests ≡ false
      → Fresh (created float date encode sink source decode undecode c w v o)
  created-Fresh c w v none h = tt
  created-Fresh c w v (some (ok rq, s)) h = h
  created-Fresh c w v (some (err e, s)) h = h

  read_arms-Fresh :
      (c : Connection sink.K) (o : Option (Result ReadError Start × S))
      → c.no_more_requests ≡ false
      → Fresh (read_arms float date encode sink source decode undecode c o)
  read_arms-Fresh c none h = tt
  read_arms-Fresh c (some (err e, s)) h = h
  read_arms-Fresh c (some (ok (m, path, v, headers), s)) h =
      created-Fresh (record c { sink = (sink.next c.sink).1 }) (sink.next c.sink).0 v _ h

  read-Fresh :
      (fuel : ℕ) (c : Connection sink.K) (s : S)
      → c.no_more_requests ≡ false
      → Fresh (read float date encode sink source decode undecode fuel c s)
  unfolding read
  read-Fresh fuel c s h = read_arms-Fresh c (read_head source fuel s) h

  -- What the iterator promises of a request that it returns.
  abbrev pub Returns : Option (Next float date encode sink source decode undecode) → Type 0
  Returns none = Unit {0}
  Returns (some (none, c, s)) = Unit {0}
  Returns (some (some rq, c, s)) =
      (version_gt rq.http_version (version 1 1) ≡ false)
      × ((c.no_more_requests ≡ true) ↔ Closes rq.http_version (connection_value rq.headers))

  discard-fresh :
      (rq : Request S D sink.W) (c : Connection sink.K)
      → (discard float date encode sink source decode undecode rq c).no_more_requests
        ≡ c.no_more_requests
  unfolding discard
  discard-fresh rq c = elim (Option-cases rq.response_writer) [
    | inl absent ↦ rw absent refl
    | inr (w, present) ↦ rw present refl
  ]

  resume-Returns :
      (again : Connection sink.K → S → Option (Next float date encode sink source decode undecode))
      (c : Connection sink.K) (o : Option S)
      → ((c : Connection sink.K) (s : S) → c.no_more_requests ≡ false → Returns (again c s))
      → c.no_more_requests ≡ false
      → Returns (resume float date encode sink source decode undecode again c o)
  resume-Returns again c none ih h = tt
  resume-Returns again c (some s) ih h = ih c s h

  arms-Returns :
      (again : Connection sink.K → S → Option (Next float date encode sink source decode undecode))
      (out : Option (Asked float date encode sink source decode undecode))
      → ((c : Connection sink.K) (s : S) → c.no_more_requests ≡ false → Returns (again c s))
      → Fresh out
      → Returns (next_arms float date encode sink source decode undecode again out)
  unfolding reply
  arms-Returns again none ih h = tt
  arms-Returns again (some (err wrong_request_line, c, s)) ih h = tt
  arms-Returns again (some (err (wrong_header v), c, s)) ih h = tt
  arms-Returns again (some (err (unknown_expect v), c, s)) ih h = tt
  arms-Returns again (some (err (read_io_error timed_out), c, s)) ih h = tt
  arms-Returns again (some (err (read_io_error _), c, s)) ih h = tt
  arms-Returns again (some (ok rq, c, s)) ih h =
      elim (Bool-cases (version_gt rq.http_version (version 1 1))) [
        | inl refused ↦ rw refused (resume-Returns again _ _ ih (discard-fresh rq _ ∙ h))
        | inr served ↦
            rw (served, h)
              (served, ground (arith, is_last_iff rq.http_version (connection_value rq.headers)))
      ]

  loop-Returns :
      (fuel rounds : ℕ) (c : Connection sink.K) (s : S)
      → c.no_more_requests ≡ false
      → Returns (next_loop float date encode sink source decode undecode fuel rounds c s)
  unfolding next_loop
  loop-Returns fuel zero c s h = tt
  loop-Returns fuel (suc rounds) c s h =
      arms-Returns _ _ (loop-Returns fuel rounds) (read-Fresh fuel c s h)

  next_over :
      (fuel : ℕ) (c : Connection sink.K) (s : S)
      → c.no_more_requests ≡ true
      → next float date encode sink source decode undecode fuel c s ≡ some (none, c, some s)
  unfolding next
  next_over fuel c s h = simp h

  next_open :
      (fuel : ℕ) (c : Connection sink.K) (s : S)
      → c.no_more_requests ≡ false
      → next float date encode sink source decode undecode fuel c s
        ≡ next_loop float date encode sink source decode undecode fuel fuel c s
  unfolding next
  next_open fuel c s h = simp h

  -- A request that the iterator returns has version 1.1 at most, and leaves `no_more_requests` set
  -- exactly if its `Connection` header says `close` or `upgrade`, or its version is 1.0 and the
  -- header does not say `keep-alive` or is absent.
  pub next-Returns :
      (fuel : ℕ) (c : Connection sink.K) (s : S)
      → Returns (next float date encode sink source decode undecode fuel c s)
  next-Returns fuel c s = elim (Bool-cases c.no_more_requests) [
    | inl over ↦ rw (next_over fuel c s over) tt
    | inr open' ↦ rw (next_open fuel c s open') (loop-Returns fuel fuel c s open')
  ]

  -- If the iterator returned a request whose `Connection` header says `close` or `upgrade`, or
  -- whose version is 1.0 with a header that does not say `keep-alive` or is absent, then its next
  -- call, with any fuel and on any stream, returns nothing, reads nothing and writes nothing.
  pub next-next :
      (fuel fuel' : ℕ) (c c' : Connection sink.K) (s s' : S) (rq : Request S D sink.W)
      (o : Option S)
      → next float date encode sink source decode undecode fuel c s ≡ some (some rq, c', o)
      → Closes rq.http_version (connection_value rq.headers)
      → next float date encode sink source decode undecode fuel' c' s' ≡ some (none, c', some s')
  next-next fuel fuel' c c' s s' rq o e closes =
      next_over fuel' c' s' ((subst Returns e (next-Returns fuel c s)).1.1 closes)
