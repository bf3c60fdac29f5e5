-- ===== src/Response/Print/Framing.antt =====
-- What `raw_print` puts on the wire: the head, and a body that the head announces correctly.
use tiny_http.Prelude.{
  ℕ, ◌<◌, ◌≡◌, refl, ◌∙◌, Bool, true, List, [], ◌∷◌, ◌++◌, Option, none, some, if◌then◌else◌, find,
  any, count_if, count_if-append, find-append_none, count_zero-find, length, Bool-cases, inl, inr,
  append_assoc, append-nil, Result, ok,
}
use tiny_http.Text.{Text, Bytes, codes, is_ascii, eq_ignore_ascii_case}
use tiny_http.Text.Decimal.{
  decimal, from_str, from_str-decimal, decimal-digits, digits-ascii, usize_limit,
}
use tiny_http.Io.{Fault, vec_writer, concat, write_pieces_vec}
use tiny_http.Common.StatusCode.{StatusCode, default_reason_phrase}
use tiny_http.Common.Header.{make_header, Header, equiv, from_bytes}
use tiny_http.Common.HttpVersion.{HttpVersion}
use tiny_http.Response.TransferEncoding.{identity, chunked}
use tiny_http.Response.Builder.{is_content_length, is_forbidden}
use tiny_http.Response.Prepare.{must_header, add_date, add_server, add_framing}
use tiny_http.Response.Print.{status_line, crlf, write_headers, write_message_header}

abbrev pub headers_bytes : List Header → Bytes
headers_bytes [] = []
headers_bytes (h ∷ hs) =
    h.field.name ++ (codes ": " ++ (h.value ++ (codes "\r\n" ++ headers_bytes hs)))

-- `HTTP/x.y`, the code and its phrase, with spaces between them.
abbrev pub first_line : HttpVersion → StatusCode → Bytes
first_line v s =
    codes "HTTP/"
    ++ (decimal v.major
        ++ (codes "."
            ++ (decimal v.minor
                ++ (codes " "
                    ++ (decimal s.code
                        ++ (codes " " ++ (default_reason_phrase s ++ codes "\r\n")))))))

-- The status line, the headers in order, and the empty line.
abbrev pub head_bytes : HttpVersion → StatusCode → List Header → Bytes
head_bytes v s hs = first_line v s ++ (headers_bytes hs ++ codes "\r\n")

concat-status_line : (v : HttpVersion) (s : StatusCode) → concat (status_line v s) ≡ first_line v s
concat-status_line v s = refl

write_headers_vec :
    (hs : List Header) (w : Bytes) → write_headers vec_writer hs w ≡ (ok tt, w ++ headers_bytes hs)
unfolding write_headers
write_headers_vec [] w = rw append-nil
write_headers_vec (h ∷ hs) w =
    write_headers_vec hs ((((w ++ h.field.name) ++ codes ": ") ++ h.value) ++ crlf)
    ∙ simp append_assoc

pub write_message_header_vec :
    (v : HttpVersion) (s : StatusCode) (hs : List Header) (w : Bytes)
    → write_message_header vec_writer v s hs w ≡ (ok tt, w ++ head_bytes v s hs)
unfolding write_message_header
write_message_header_vec v s hs w =
    rw
      (
        write_pieces_vec (status_line v s) w,
        concat-status_line v s,
        write_headers_vec hs (w ++ concat (status_line v s)),
      )
      (simp append_assoc)

abbrev pub is_transfer_encoding : Header → Bool
is_transfer_encoding h = equiv h.field (codes "Transfer-Encoding")

-- The head gives the length of the body, once, in decimal, and no encoding; or it says once that the
-- encoding is `chunked`, and gives no length. What follows is the body so encoded, or nothing where
-- the body is left out.
pub data Framed (encode : Bytes → Bytes) (hs : List Header) (body payload : Bytes) (silent : Bool)
    : Type 0 where
  by_length :
      (h : Header)
      → find is_content_length hs ≡ some h
      → from_str h.value ≡ some (length body)
      → count_if is_content_length hs ≡ 1
      → count_if is_transfer_encoding hs ≡ 0
      → payload ≡ (if silent then [] else body)
      → Framed encode hs body payload silent
  by_chunks :
      (h : Header)
      → find is_transfer_encoding hs ≡ some h
      → h.value ≡ codes "chunked"
      → count_if is_content_length hs ≡ 0
      → count_if is_transfer_encoding hs ≡ 1
      → payload ≡ (if silent then [] else encode body)
      → Framed encode hs body payload silent

-- A length that was given is that of the body.
abbrev pub IsHonest : Option ℕ → Bytes → Type 0
IsHonest none bytes = Unit {0}
IsHonest (some n) bytes = n ≡ length bytes

-- Headers that say nothing about the body.
abbrev pub IsNeutral : List Header → Type 0
IsNeutral hs = (count_if is_content_length hs ≡ 0) × (count_if is_transfer_encoding hs ≡ 0)

pub must_header_ascii :
    (f v : Text) → is_ascii f ≡ true → is_ascii v ≡ true → must_header f v ≡ ok (make_header f v)
unfolding must_header from_bytes
must_header_ascii f v a b = rw (a, b)

abbrev pub Adds : (List Header → Result Fault (List Header)) → List Header → Type 0
Adds add hs =
    (front : List Header) × (add hs ≡ ok (front ++ hs))
    × IsNeutral front
    × (count_if is_forbidden front ≡ 0)

pub add_date-Adds :
    (date : Text) (hs : List Header) → is_ascii date ≡ true → Adds (add_date date) hs
unfolding add_date
add_date-Adds date hs a = elim (Bool-cases (any (λ h. equiv h.field (codes "Date")) hs)) [
  | inl there ↦ ([], rw there, (refl, refl), refl)
  | inr absent ↦ (
    make_header (codes "Date") date ∷ [],
    rw (absent, must_header_ascii (codes "Date") date refl a),
    unfold equiv eq_ignore_ascii_case in (refl, refl),
    unfold equiv eq_ignore_ascii_case in refl,
  )
]

pub add_server-Adds : (hs : List Header) → Adds add_server hs
unfolding add_server
add_server-Adds hs = elim (Bool-cases (any (λ h. equiv h.field (codes "Server")) hs)) [
  | inl there ↦ ([], rw there, (refl, refl), refl)
  | inr absent ↦ (
    make_header (codes "Server") (codes "tiny-http (Rust)") ∷ [],
    rw (absent, must_header_ascii (codes "Server") (codes "tiny-http (Rust)") refl refl),
    unfold equiv eq_ignore_ascii_case in (refl, refl),
    unfold equiv eq_ignore_ascii_case in refl,
  )
]

pub length_header : ℕ → Header
length_header n = make_header (codes "Content-Length") (decimal n)

pub chunked_header : Header
chunked_header = make_header (codes "Transfer-Encoding") (codes "chunked")

pub add_length :
    (n : ℕ) (hs : List Header)
    → add_framing (some identity) (some n) hs ≡ ok (hs ++ length_header n ∷ [])
unfolding add_framing length_header
add_length n hs = rw (
    must_header_ascii (codes "Content-Length") (decimal n) refl
      (digits-ascii (decimal n) (decimal-digits n)))

pub add_chunked :
    (len : Option ℕ) (hs : List Header)
    → add_framing (some chunked) len hs ≡ ok (hs ++ chunked_header ∷ [])
unfolding add_framing chunked_header
add_chunked len hs = rw (must_header_ascii (codes "Transfer-Encoding") (codes "chunked") refl refl)

pub length_header-Framed :
    (encode : Bytes → Bytes) (hs : List Header) (body : Bytes) (silent : Bool)
    → IsNeutral hs
    → length body < usize_limit
    → Framed encode
        (hs ++ length_header (length body) ∷ [])
        body
        (if silent then [] else body)
        silent
unfolding length_header
length_header-Framed encode hs body silent (a, b) l =
    by_length (length_header (length body))
      (find-append_none is_content_length hs (length_header (length body) ∷ [])
          (count_zero-find is_content_length hs a)
        ∙ unfold equiv eq_ignore_ascii_case in refl)
      (from_str-decimal (length body) l)
      (count_if-append is_content_length hs (length_header (length body) ∷ [])
        ∙ rw a (unfold equiv eq_ignore_ascii_case in refl))
      (count_if-append is_transfer_encoding hs (length_header (length body) ∷ [])
        ∙ rw b (unfold equiv eq_ignore_ascii_case in refl))
      refl

pub chunked_header-Framed :
    (encode : Bytes → Bytes) (hs : List Header) (body : Bytes) (silent : Bool)
    → IsNeutral hs
    → Framed encode (hs ++ chunked_header ∷ []) body (if silent then [] else encode body) silent
unfolding chunked_header
chunked_header-Framed encode hs body silent (a, b) =
    by_chunks chunked_header
      (find-append_none is_transfer_encoding hs (chunked_header ∷ [])
          (count_zero-find is_transfer_encoding hs b)
        ∙ unfold equiv eq_ignore_ascii_case in refl)
      refl
      (count_if-append is_content_length hs (chunked_header ∷ [])
        ∙ rw a (unfold equiv eq_ignore_ascii_case in refl))
      (count_if-append is_transfer_encoding hs (chunked_header ∷ [])
        ∙ rw b (unfold equiv eq_ignore_ascii_case in refl))
      refl
