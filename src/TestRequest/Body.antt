-- ===== src/TestRequest/Body.antt =====
-- A test request becomes a request with its body.
use tiny_http.Prelude.{
  ℕ, zero, suc, ◌<◌, ◌≡◌, refl, ap, ◌∙◌, Bool, false, List, [], ◌∷◌, ◌++◌, Option, none, some,
  Result, ok, err, arith, any, find, length, take, leb, ◌==◌, and_then, find-append_none,
  Bool-cases, inl, inr,
}
use mathlib.Core.Option
use tiny_http.Prelude.{drop as drop_bytes}
use tiny_http.Text.{Text, Bytes, codes, eq_ignore_ascii_case}
use tiny_http.Text.Decimal.{
  decimal, usize_limit, from_str, from_str-decimal, decimal-digits, digits-ascii,
}
use tiny_http.Text.Pieces.{is_whitespace}
use tiny_http.Io.{Fault}
use tiny_http.Io.Slice.{slice_read, all_left, slice_read-IsReader}
use tiny_http.Common.Header.{Header, make_header, equiv, field_from_str}
use tiny_http.Util.EqualReader
use tiny_http.Util.FusedReader
use tiny_http.Request.Create.{
  Request, fill, sized_reader, choose_reader, Chosen, content_length, expects_continue,
  connection_upgrade, header_value,
}
use tiny_http.Request.New.{Head, new_request, build, built}
use tiny_http.Request.New.Framing.{body_bytes}
use tiny_http.TestRequest.{TestRequest, length_added, requested, unwrap_created, into_request}

take_all : (k : ℕ) (s : Bytes) → length s ≡ k → take k s ≡ s
take_all zero [] e = refl
take_all zero (b ∷ s) e = absurd (omega (arith, e))
take_all (suc k) [] e = refl
take_all (suc k) (b ∷ s) e = ap (◌∷◌ b) (take_all k s (omega (arith, e)))

drop_all : (k : ℕ) (s : Bytes) → length s ≡ k → drop_bytes k s ≡ []
drop_all zero [] e = refl
drop_all zero (b ∷ s) e = absurd (omega (arith, e))
drop_all (suc k) [] e = refl
drop_all (suc k) (b ∷ s) e = drop_all k s (omega (arith, e))

fill_done :
    (fuel m : ℕ) (buffer : Bytes) → m ≡ 0 → fill slice_read fuel m buffer [] ≡ some (ok buffer, [])
unfolding fill
fill_done fuel m buffer h = rw h refl

-- The loop gets all of a slice with its first read.
fill_slice :
    (k : ℕ) (s : Bytes) → length s ≡ suc k → fill slice_read (suc k) (suc k) [] s ≡ some (ok s, [])
unfolding fill
fill_slice k [] e = absurd (omega (arith, e))
fill_slice k (b ∷ s) e =
    let whole : take k s ≡ s = take_all k s (omega (arith, e)) in
    let gone : drop_bytes k s ≡ [] = drop_all k s (omega (arith, e)) in
    rw (whole, gone) (fill_done k _ (b ∷ s) (omega (arith, e)))

abbrev has : Text → List Header → Bool
has name = any (λ h. equiv h.field name)

-- Headers that do not say where the body ends, or what is done before it.
pub record IsQuiet (hs : List Header) : Type 0 where
  pub no_length : has (codes "Content-Length") hs ≡ false
  pub no_encoding : has (codes "Transfer-Encoding") hs ≡ false
  pub no_expect : has (codes "Expect") hs ≡ false
  pub no_connection : has (codes "Connection") hs ≡ false

find-any : (p : Header → Bool) (hs : List Header) → any p hs ≡ false → find p hs ≡ none
find-any p [] e = refl
find-any p (h ∷ hs) e = ground (arith, find-any p hs)

abbrev length_of : Bytes → Header
length_of body = make_header (codes "Content-Length") (decimal (length body))

value_added :
    (name : Text) (hs : List Header) (h : Header)
    → has name hs ≡ false
    → header_value name (hs ++ h ∷ []) ≡ header_value name (h ∷ [])
value_added name hs h e =
    ap (Option.map (λ (k : Header). k.value))
      (find-append_none (λ k. equiv k.field name) hs (h ∷ []) (find-any _ hs e))

length_added_lem :
    (mock : TestRequest)
    → IsQuiet mock.headers
    → length_added mock ≡ ok (mock.headers ++ length_of mock.body ∷ [])
unfolding length_added field_from_str is_whitespace
length_added_lem mock q =
    rw (q.no_length, digits-ascii (decimal (length mock.body)) (decimal-digits (length mock.body)))
      refl

-- What delivers a body of a known length.
Delivers : {D : Type 0} → Bytes → Option (Chosen Bytes D) → Type 0
Delivers body none = ⊥
Delivers body (some (ok reader, s)) =
    body_bytes slice_read all_left length slice_read-IsReader reader ≡ some body
Delivers body (some (err e, s)) = ⊥

sized_reader-Delivers :
    {D : Type 0} (decode : Bytes → D) (body : Bytes)
    → Delivers body (sized_reader slice_read decode (length body) false body)
unfolding sized_reader Delivers EqualReader.new FusedReader.new
sized_reader-Delivers decode [] = refl
sized_reader-Delivers decode (b ∷ body) =
    let more : (suc (length body) == 0) ≡ false = ground arith in
    elim (Bool-cases (leb (suc (length body)) 1024)) [
      | inl small ↦ rw (more, small, fill_slice (length body) (b ∷ body) refl) refl
      | inr large ↦ rw (more, large) (ap some (take_all (suc (length body)) (b ∷ body) refl))
    ]

-- The request that was made, with the body, the headers with the length behind them, and the length.
pub record Made {D : Type 0} (mock : TestRequest)
    (o : Option (Result Fault (Request Bytes D (Unit {0})))) : Type 0 where
  pub request : Request Bytes D (Unit {0})
  pub made : o ≡ some (ok request)
  pub delivers :
      and_then request.data_reader (body_bytes slice_read all_left length slice_read-IsReader)
      ≡ some mock.body
  pub headers : request.headers ≡ mock.headers ++ length_of mock.body ∷ []
  pub body_length : request.body_length ≡ some (length mock.body)

abbrev grown : TestRequest → List Header
grown mock = mock.headers ++ length_of mock.body ∷ []

content_length_given :
    (hs : List Header) (v : Text)
    → header_value (codes "Transfer-Encoding") hs ≡ none
    → header_value (codes "Content-Length") hs ≡ some v
    → content_length hs ≡ from_str v
unfolding content_length
content_length_given hs v e f = rw (content_length, e, f)

expects_continue_absent :
    (hs : List Header) → header_value (codes "Expect") hs ≡ none → expects_continue hs ≡ ok false
unfolding expects_continue
expects_continue_absent hs e = rw (expects_continue, e)

connection_upgrade_absent :
    (hs : List Header) → header_value (codes "Connection") hs ≡ none → connection_upgrade hs ≡ false
unfolding connection_upgrade
connection_upgrade_absent hs e = rw (connection_upgrade, e)

grown-content_length :
    (mock : TestRequest)
    → IsQuiet mock.headers
    → length mock.body < usize_limit
    → content_length (grown mock) ≡ some (length mock.body)
unfolding equiv eq_ignore_ascii_case
grown-content_length mock q bound =
    content_length_given (grown mock) (decimal (length mock.body))
      (value_added (codes "Transfer-Encoding") mock.headers (length_of mock.body) q.no_encoding)
      (value_added (codes "Content-Length") mock.headers (length_of mock.body) q.no_length)
    ∙ from_str-decimal (length mock.body) bound

grown-expects_continue :
    (mock : TestRequest) → IsQuiet mock.headers → expects_continue (grown mock) ≡ ok false
unfolding equiv eq_ignore_ascii_case
grown-expects_continue mock q =
    expects_continue_absent (grown mock)
      (value_added (codes "Expect") mock.headers (length_of mock.body) q.no_expect)

grown-connection_upgrade :
    (mock : TestRequest) → IsQuiet mock.headers → connection_upgrade (grown mock) ≡ false
unfolding equiv eq_ignore_ascii_case
grown-connection_upgrade mock q =
    connection_upgrade_absent (grown mock)
      (value_added (codes "Connection") mock.headers (length_of mock.body) q.no_connection)

module _ {D : Type 0} (decode : Bytes → D) where
  new_request-sized_reader :
      (h : Head) (s : Bytes) (n : ℕ)
      → expects_continue h.headers ≡ ok false
      → connection_upgrade h.headers ≡ false
      → content_length h.headers ≡ some n
      → new_request slice_read decode h tt s
        ≡ built h false tt (sized_reader slice_read decode n false s)
  unfolding new_request choose_reader
  new_request-sized_reader h s n e u l = rw (e, u, l) refl

  abbrev head_of : TestRequest → Head
  head_of mock = record {
    secure = mock.secure;
    method = mock.method;
    path = mock.path;
    version = mock.http_version;
    headers = grown mock;
    remote_addr = some mock.remote_addr;
  }

  made :
      (mock : TestRequest) (o : Option (Result Fault (Request Bytes D (Unit {0}))))
      (out : Option (Chosen Bytes D))
      → content_length (grown mock) ≡ some (length mock.body)
      → o ≡ unwrap_created (built (head_of mock) false tt out)
      → Delivers mock.body out
      → Made mock o
  unfolding build Delivers
  made mock o none l e d = absurd d
  made mock o (some (err k, s)) l e d = absurd d
  made mock o (some (ok reader, s)) l e d = record {
    request = build (head_of mock) false tt reader;
    made = e;
    delivers = d;
    headers = refl;
    body_length = l;
  }

  -- A test request with a body of less than 2^64 bytes and with none of the headers
  -- `Content-Length`, `Transfer-Encoding`, `Expect` and `Connection` is turned into a request
  -- without a panic; the request delivers that body, knows its length, and has the headers with
  -- `Content-Length` behind them.
  pub into_request-Made :
      (mock : TestRequest)
      → IsQuiet mock.headers
      → length mock.body < usize_limit
      → Made mock (into_request decode mock)
  unfolding into_request
  into_request-Made mock q bound =
      let l = grown-content_length mock q bound in
      made mock (into_request decode mock)
        (sized_reader slice_read decode (length mock.body) false mock.body) l
        (ap (requested decode mock) (length_added_lem mock q)
          ∙ ap unwrap_created (
              new_request-sized_reader (head_of mock) mock.body (length mock.body)
                (grown-expects_continue mock q) (grown-connection_upgrade mock q) l))
        (sized_reader-Delivers decode mock.body)
