-- ===== src/Response/Print/Wire.antt =====
-- `raw_print` as a whole: it answers, and the message that it writes is framed correctly.
use tiny_http.Prelude.{
  ℕ, ◌≤◌, ◌<◌, ◌≡◌, refl, ap, ◌∙◌, Bool, true, false, List, [], ◌∷◌, ◌++◌, Option, none, some,
  if◌then◌else◌, arith, count_if, count_if-append, length, length_zero, Bool-cases, inl, inr,
  append_assoc, append-nil, ok, leb,
}
use tiny_http.Text.{Text, Bytes, is_ascii}
use tiny_http.Text.Decimal.{usize_limit}
use tiny_http.Io.{Body, Io, vec_writer, copy}
use tiny_http.Common.StatusCode.{StatusCode}
use tiny_http.Common.Header.{Header}
use tiny_http.Common.HttpVersion.{HttpVersion}
use tiny_http.Util.HeaderValue.{Float}
use tiny_http.Response.TransferEncoding.{
  TransferEncoding, identity, chunked, choose_transfer_encoding,
}
use tiny_http.Response.Builder.{Response, threshold, cursor, is_content_length, is_forbidden}
use tiny_http.Response.Builder.Headers.{IsClean}
use tiny_http.Response.Prepare.{Prepared, prepare, buffer, suppressed, add_framing}
use tiny_http.Response.Print.{send_body, send, raw_print}
use tiny_http.Response.Print.Framing.{
  head_bytes, write_message_header_vec, Framed, is_transfer_encoding, IsHonest, IsNeutral,
  add_date-Adds, add_server-Adds, length_header, chunked_header, add_length, add_chunked,
  length_header-Framed, chunked_header-Framed,
}

copy_vec :
    (through : Bytes → Bytes) (body : Body) (w : Bytes)
    → body.failure ≡ none
    → copy vec_writer through body w ≡ (ok tt, w ++ through body.bytes)
unfolding copy
copy_vec through body w e = rw e

send_length :
    (encode : Bytes → Bytes) (reader : Body) (n : ℕ) (w : Bytes)
    → reader.failure ≡ none
    → n ≡ length reader.bytes
    → send_body vec_writer encode (some identity) (some n) reader w ≡ (ok tt, w ++ reader.bytes)
unfolding send_body
send_length encode reader n w fine e = elim (Bool-cases (leb 1 n)) [
  | inl some_bytes ↦ rw some_bytes (copy_vec (λ b. b) reader w fine)
  | inr no_bytes ↦ rw no_bytes (rw (length_zero reader.bytes (ground arith)) (rw append-nil))
]

module _ (encode : Bytes → Bytes) (reader : Body) (fine : reader.failure ≡ none) where
  -- From the headers without framing to what is sent: the steps of `prepare` that look at the body,
  -- and the writes after the head.
  record Sending (te : TransferEncoding) (len : Option ℕ) (hs : List Header) (silent : Bool)
      : Type 0 where
    framing : Header
    body : Body
    known : Option ℕ
    payload : Bytes
    buffered : buffer reader len (some te) ≡ ok (body, known)
    added : add_framing (some te) known hs ≡ ok (hs ++ framing ∷ [])
    sent :
        (w : Bytes)
        → (if silent then (λ v. (ok tt, v)) else send_body vec_writer encode (some te) known body) w
          ≡ (ok tt, w ++ payload)
    framed : Framed encode (hs ++ framing ∷ []) reader.bytes payload silent

  silent_or :
      (silent : Bool) (program : Io Bytes (Unit {0})) (bytes w : Bytes)
      → program w ≡ (ok tt, w ++ bytes)
      → (if silent then (λ v. (ok tt, v)) else program) w
        ≡ (ok tt, w ++ (if silent then [] else bytes))
  silent_or true program bytes w e = rw append-nil
  silent_or false program bytes w e = e

  sending :
      (te : TransferEncoding) (len : Option ℕ) (hs : List Header) (silent : Bool)
      → IsHonest len reader.bytes
      → IsNeutral hs
      → length reader.bytes < usize_limit
      → Sending te len hs silent
  unfolding buffer
  sending identity (some n) hs silent honest neutral bound = record {
    framing = length_header (length reader.bytes);
    body = reader;
    known = some n;
    payload = if silent then [] else reader.bytes;
    buffered = refl;
    added = rw (← honest) (add_length n hs);
    sent = λ w. silent_or silent _ reader.bytes w (send_length encode reader n w fine honest);
    framed = length_header-Framed encode hs reader.bytes silent neutral bound;
  }
  sending identity none hs silent honest neutral bound = record {
    framing = length_header (length reader.bytes);
    body = cursor reader.bytes;
    known = some (length reader.bytes);
    payload = if silent then [] else reader.bytes;
    buffered = rw fine;
    added = add_length (length reader.bytes) hs;
    sent = λ w.
        silent_or silent _ reader.bytes w
          (send_length encode (cursor reader.bytes) (length reader.bytes) w refl refl);
    framed = length_header-Framed encode hs reader.bytes silent neutral bound;
  }
  sending chunked len hs silent honest neutral bound = record {
    framing = chunked_header;
    body = reader;
    known = len;
    payload = if silent then [] else encode reader.bytes;
    buffered = keeps len;
    added = add_chunked len hs;
    sent = λ w.
        silent_or silent _ (encode reader.bytes) w
          (unfold send_body in copy_vec encode reader w fine);
    framed = chunked_header-Framed encode hs reader.bytes silent neutral;
  }
    where
      keeps : (len : Option ℕ) → buffer reader len (some chunked) ≡ ok (reader, len)
      keeps none = refl
      keeps (some n) = refl

pub IsNeutral-append : (hs ks : List Header) → IsNeutral hs → IsNeutral ks → IsNeutral (hs ++ ks)
IsNeutral-append hs ks (a, b) (c, d) = (
  count_if-append is_content_length hs ks ∙ rw (a, c),
  count_if-append is_transfer_encoding hs ks ∙ rw (b, d),
)

encoding-le-forbidden :
    (hs : List Header) → count_if is_transfer_encoding hs ≤ count_if is_forbidden hs
encoding-le-forbidden [] = omega arith
encoding-le-forbidden (h ∷ hs) = ground (arith, encoding-le-forbidden hs)

pub IsClean-IsNeutral : (hs : List Header) → IsClean hs → IsNeutral hs
IsClean-IsNeutral hs c = (c.no_length, omega (arith, encoding-le-forbidden hs, c.allowed))

module _ (float : Float) (date : Text) (encode : Bytes → Bytes) where
  -- What one call writes: a head for `hs`, then `payload`, and the two fit together.
  pub record Message (r : Response Body) (v : HttpVersion) (request : List Header) (quiet : Bool)
      (w : Bytes) : Type 0 where
    pub front : List Header
    pub framing : Header
    pub payload : Bytes
    pub written : raw_print float date encode vec_writer r v request quiet none w ≡ (
      ok tt,
      w ++ (head_bytes v r.status_code (front ++ (r.headers ++ framing ∷ [])) ++ payload),
    )
    pub framed :
        Framed encode
          (front ++ (r.headers ++ framing ∷ []))
          r.reader.bytes
          payload
          (suppressed quiet r.status_code)

  pub send_lem :
      (v : HttpVersion) (code : StatusCode) (p : Prepared) (payload w : Bytes)
      → ((u : Bytes)
          → (if p.silent
                then (λ x. (ok tt, x))
                else send_body vec_writer encode p.encoding p.data_length p.body)
              u
            ≡ (ok tt, u ++ payload))
      → send float date encode vec_writer v code p w
        ≡ (ok tt, w ++ (head_bytes v code p.headers ++ payload))
  unfolding send
  send_lem v code p payload w body = rw (write_message_header_vec v code p.headers w) (
      body (w ++ head_bytes v code p.headers)
      ∙ ap (λ b. (ok tt, b)) (append_assoc w (head_bytes v code p.headers) payload))

  raw_print_prepared :
      (r : Response Body) (v : HttpVersion) (request : List Header) (quiet : Bool) (w : Bytes)
      (p : Prepared)
      → prepare float date r v request quiet none ≡ ok p
      → raw_print float date encode vec_writer r v request quiet none w
        ≡ send float date encode vec_writer v r.status_code p w
  unfolding raw_print
  raw_print_prepared r v request quiet w p e = rw (e, raw_print)

  -- If the date text is ASCII, the headers of the response are clean, its reader does not fail, a
  -- length that was given is that of the body, and the body has less than 2^64 bytes, then
  -- `raw_print` without an upgrade, to a writer that does not fail, ends with no error and writes
  -- the status line, some headers, all headers of the response in their order, one framing header,
  -- the empty line and a payload. The head either gives the length of the body, once and readable,
  -- with no transfer encoding, or has one `Transfer-Encoding` with the value `chunked` and no
  -- length; the payload is the body so encoded, or nothing where the body is left out.
  pub raw_print-Message :
      (r : Response Body) (v : HttpVersion) (request : List Header) (quiet : Bool) (w : Bytes)
      → is_ascii date ≡ true
      → IsClean r.headers
      → r.reader.failure ≡ none
      → IsHonest r.data_length r.reader.bytes
      → length r.reader.bytes < usize_limit
      → Message r v request quiet w
  raw_print-Message r v request quiet w ascii clean fine honest bound =
      let te =
        choose_transfer_encoding float r.status_code request v r.data_length false (threshold r) in
      let (fd, dated, nd, _) = add_date-Adds date r.headers ascii in
      let (fs, served, ns, _) = add_server-Adds (fd ++ r.headers) in
      let neutral =
        IsNeutral-append fs _ ns (IsNeutral-append fd _ nd (IsClean-IsNeutral r.headers clean)) in
      let s =
        sending encode r.reader fine te r.data_length (fs ++ (fd ++ r.headers))
          (suppressed quiet r.status_code) honest neutral bound in
      let order : (fs ++ (fd ++ r.headers)) ++ s.framing ∷ []
          ≡ (fs ++ fd) ++ (r.headers ++ s.framing ∷ []) =
        simp append_assoc in
      record {
        front = fs ++ fd;
        framing = s.framing;
        payload = s.payload;
        written = rw (← order) (
            raw_print_prepared r v request quiet w
              (record {
                headers = (fs ++ (fd ++ r.headers)) ++ s.framing ∷ [];
                body = s.body;
                data_length = s.known;
                encoding = some te;
                silent = suppressed quiet r.status_code;
              })
              (unfold prepare in rw (dated, served, s.buffered, s.added))
            ∙ send_lem v r.status_code _ s.payload w s.sent);
        framed = rw (← order) s.framed;
      }
