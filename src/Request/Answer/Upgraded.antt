-- ===== src/Request/Answer/Upgraded.antt =====
-- What a client sees of an upgrade, where its connection takes all that is written.
use tiny_http.Prelude.{
  ℕ, ◌≤◌, ◌≡◌, refl, ap, ◌∙◌, Bool, true, false, List, [], ◌∷◌, ◌++◌, Option, none, some, arith,
  count_if, count_if-append, ok, append_assoc, append-nil, if◌then◌else◌,
}
use tiny_http.Text.{Text, Bytes, codes, is_ascii, eq_ignore_ascii_case}
use tiny_http.Io.{Body, vec_writer}
use tiny_http.Common.Header.{Header, make_header, equiv}
use tiny_http.Common.HttpVersion.{HttpVersion}
use tiny_http.Util.HeaderValue.{Float}
use tiny_http.Response.Builder.{Response, is_forbidden}
use tiny_http.Response.Builder.Headers.{IsClean}
use tiny_http.Response.Prepare.{
  add_date, add_server, add_upgrade, add_framing, buffer, prepare, suppressed,
}
use tiny_http.Response.Print.{raw_print, send_body}
use tiny_http.Response.Print.Wire.{send_lem, IsNeutral-append, IsClean-IsNeutral}
use tiny_http.Response.Print.Framing.{
  head_bytes, IsNeutral, add_date-Adds, add_server-Adds, must_header_ascii,
}
use tiny_http.Request.Create.{Request, DataReader}
use tiny_http.Request.Answer.{upgrade}

abbrev pub is_connection : Header → Bool
is_connection h = equiv h.field (codes "Connection")

abbrev pub is_upgrade : Header → Bool
is_upgrade h = equiv h.field (codes "Upgrade")

-- Headers with none of the fields that cannot be set.
abbrev IsAllowed : List Header → Type 0
IsAllowed hs = count_if is_forbidden hs ≡ 0

forbidden_le :
    (hs : List Header)
    → (count_if is_connection hs ≤ count_if is_forbidden hs)
      × (count_if is_upgrade hs ≤ count_if is_forbidden hs)
forbidden_le [] = (omega arith, omega arith)
forbidden_le (h ∷ hs) = (ground (arith, forbidden_le hs), ground (arith, forbidden_le hs))

abbrev connection_header : Header
connection_header = make_header (codes "Connection") (codes "upgrade")

abbrev upgrade_header : Text → Header
upgrade_header protocol = make_header (codes "Upgrade") protocol

-- The two headers, before others that can be set.
announced :
    (protocol : Text) (hs : List Header)
    → IsAllowed hs
    → IsNeutral hs
    → (count_if is_connection (connection_header ∷ upgrade_header protocol ∷ hs) ≡ 1)
      × (count_if is_upgrade (connection_header ∷ upgrade_header protocol ∷ hs) ≡ 1)
      × IsNeutral (connection_header ∷ upgrade_header protocol ∷ hs)
unfolding equiv eq_ignore_ascii_case
announced protocol hs a n = (
  omega (arith, forbidden_le hs, a),
  omega (arith, forbidden_le hs, a),
  (omega (arith, n), omega (arith, n)),
)

add_upgrade_lem :
    (protocol : Text) (hs : List Header)
    → is_ascii protocol ≡ true
    → add_upgrade (some protocol) hs ≡ ok (connection_header ∷ upgrade_header protocol ∷ hs)
unfolding add_upgrade
add_upgrade_lem protocol hs a =
    rw (must_header_ascii (codes "Upgrade") protocol refl a)
      (rw (must_header_ascii (codes "Connection") (codes "upgrade") refl refl))

-- The body is not looked at.
buffer_upgrade : (reader : Body) (len : Option ℕ) → buffer reader len none ≡ ok (reader, len)
unfolding buffer
buffer_upgrade reader none = refl
buffer_upgrade reader (some l) = refl

no_body :
    (encode : Bytes → Bytes) (silent : Bool) (len : Option ℕ) (body : Body) (u : Bytes)
    → (if silent then (λ x. (ok tt, x)) else send_body vec_writer encode none len body) u
      ≡ (ok tt, u ++ [])
unfolding send_body
no_body encode true len body u = rw append-nil
no_body encode false len body u = rw append-nil

module _ (float : Float) (date : Text) (encode : Bytes → Bytes) where
  -- What is printed for an upgrade, from what the steps of `prepare` add.
  printed :
      (protocol : Text) (r : Response Body) (v : HttpVersion) (request : List Header) (w : Bytes)
      (dated served : List Header)
      → is_ascii protocol ≡ true
      → add_date date r.headers ≡ ok dated
      → add_server dated ≡ ok served
      → raw_print float date encode vec_writer r v request false (some protocol) w ≡ (
        ok tt,
        w ++ head_bytes v r.status_code (connection_header ∷ upgrade_header protocol ∷ served),
      )
  unfolding raw_print prepare
  printed protocol r v request w dated served a d e =
      rw
        (
          d,
          e,
          add_upgrade_lem protocol served a,
          buffer_upgrade r.reader r.data_length,
          raw_print,
          prepare,
          add_framing,
        )
        (send_lem float date encode v r.status_code
            (record {
              headers = connection_header ∷ upgrade_header protocol ∷ served;
              body = r.reader;
              data_length = r.data_length;
              encoding = none;
              silent = suppressed false r.status_code;
            })
            [] w (no_body encode (suppressed false r.status_code) r.data_length r.reader)
          ∙ ap (λ b. (ok tt, w ++ b)) (append-nil _))

module _ (float : Float) (date : Text) (encode : Bytes → Bytes) {S D : Type 0} where
  -- The head that announces the new protocol, and the stream that follows it.
  pub record Upgraded (protocol : Text) (response : Response Body) (rq : Request S D Bytes)
      (w : Bytes) (rd : DataReader S D) : Type 0 where
    pub front : List Header
    pub stream :
        upgrade float date encode vec_writer protocol response rq
        ≡ ok (record {
          reader = rd;
          writer = w ++ head_bytes rq.http_version response.status_code (front ++ response.headers);
          notifies = rq.notify_when_responded;
        })
    pub connection : count_if is_connection (front ++ response.headers) ≡ 1
    pub protocols : count_if is_upgrade (front ++ response.headers) ≡ 1
    pub first : (rest : List Header) × (front ≡ connection_header ∷ upgrade_header protocol ∷ rest)
    pub bodiless : IsNeutral (front ++ response.headers)

  -- If a request has its writer, which does not fail, and its reader, the texts of the date and of
  -- the protocol are ASCII and the headers of the response are clean, then `upgrade` returns the
  -- reader with the writer behind a head of the response: it starts with `Connection: upgrade` and
  -- `Upgrade` with the protocol, has exactly one header of either name, has all headers of the
  -- response at its end, in order, announces no length and no encoding, and no byte of the body
  -- follows it. The stream notifies if the request was to.
  pub upgrade-Upgraded :
      (protocol : Text) (response : Response Body) (rq : Request S D Bytes) (w : Bytes)
      (rd : DataReader S D)
      → rq.response_writer ≡ some w
      → rq.data_reader ≡ some rd
      → is_ascii date ≡ true
      → is_ascii protocol ≡ true
      → IsClean response.headers
      → Upgraded protocol response rq w rd
  unfolding upgrade
  upgrade-Upgraded protocol r rq w rd writer reader ascii clear clean =
      let (fd, dated, nd, ad) = add_date-Adds date r.headers ascii in
      let (fs, served, ns, asr) = add_server-Adds (fd ++ r.headers) in
      let order : fs ++ (fd ++ r.headers) ≡ (fs ++ fd) ++ r.headers = simp append_assoc in
      let quiet : IsAllowed (fs ++ (fd ++ r.headers)) =
        rw
          (
            count_if-append is_forbidden fs (fd ++ r.headers),
            asr,
            count_if-append is_forbidden fd r.headers,
            ad,
            clean.allowed,
          )
          refl in
      let neutral =
        IsNeutral-append fs _ ns (IsNeutral-append fd _ nd (IsClean-IsNeutral r.headers clean)) in
      let (one, two, none_framing) = announced protocol _ quiet neutral in
      record {
        front = connection_header ∷ upgrade_header protocol ∷ (fs ++ fd);
        stream =
            rw
              (
                writer,
                printed float date encode protocol r rq.http_version rq.headers w _ _ clear dated
                    served,
                reader,
                order,
              )
              refl;
        connection = rw (← order) one;
        protocols = rw (← order) two;
        first = (fs ++ fd, refl);
        bodiless = rw (← order) none_framing;
      }
