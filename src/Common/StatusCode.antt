-- ===== src/Common/StatusCode.antt =====
-- src/common.rs: `StatusCode`, its reason phrases, the conversions into it and its comparisons.
use Prim.Native.Nat.{compare, Ordering}
use tiny_http.Prelude.{
  ℕ, ◌-◌, ◌%◌, ◌^◌, ◌≡◌, refl, Bool, true, ◌&&◌, List, [], ◌∷◌, Option, some, arith, ltb, leb, ◌==◌,
  if◌then◌else◌, all,
}
use tiny_http.Text.{Text, codes}

-- A `u16`.
pub record StatusCode : Type 0 where
  pub code : ℕ

-- `AsRef<u16>`.
unfoldable pub as_ref : StatusCode → ℕ
as_ref s = s.code

abbrev phrases : List (ℕ × Text)
phrases =
    (100, codes "Continue")
    ∷ (101, codes "Switching Protocols")
    ∷ (102, codes "Processing")
    ∷ (103, codes "Early Hints")
    ∷ (200, codes "OK")
    ∷ (201, codes "Created")
    ∷ (202, codes "Accepted")
    ∷ (203, codes "Non-Authoritative Information")
    ∷ (204, codes "No Content")
    ∷ (205, codes "Reset Content")
    ∷ (206, codes "Partial Content")
    ∷ (207, codes "Multi-Status")
    ∷ (208, codes "Already Reported")
    ∷ (226, codes "IM Used")
    ∷ (300, codes "Multiple Choices")
    ∷ (301, codes "Moved Permanently")
    ∷ (302, codes "Found")
    ∷ (303, codes "See Other")
    ∷ (304, codes "Not Modified")
    ∷ (305, codes "Use Proxy")
    ∷ (307, codes "Temporary Redirect")
    ∷ (308, codes "Permanent Redirect")
    ∷ (400, codes "Bad Request")
    ∷ (401, codes "Unauthorized")
    ∷ (402, codes "Payment Required")
    ∷ (403, codes "Forbidden")
    ∷ (404, codes "Not Found")
    ∷ (405, codes "Method Not Allowed")
    ∷ (406, codes "Not Acceptable")
    ∷ (407, codes "Proxy Authentication Required")
    ∷ (408, codes "Request Timeout")
    ∷ (409, codes "Conflict")
    ∷ (410, codes "Gone")
    ∷ (411, codes "Length Required")
    ∷ (412, codes "Precondition Failed")
    ∷ (413, codes "Payload Too Large")
    ∷ (414, codes "URI Too Long")
    ∷ (415, codes "Unsupported Media Type")
    ∷ (416, codes "Range Not Satisfiable")
    ∷ (417, codes "Expectation Failed")
    ∷ (421, codes "Misdirected Request")
    ∷ (422, codes "Unprocessable Entity")
    ∷ (423, codes "Locked")
    ∷ (424, codes "Failed Dependency")
    ∷ (426, codes "Upgrade Required")
    ∷ (428, codes "Precondition Required")
    ∷ (429, codes "Too Many Requests")
    ∷ (431, codes "Request Header Fields Too Large")
    ∷ (451, codes "Unavailable For Legal Reasons")
    ∷ (500, codes "Internal Server Error")
    ∷ (501, codes "Not Implemented")
    ∷ (502, codes "Bad Gateway")
    ∷ (503, codes "Service Unavailable")
    ∷ (504, codes "Gateway Timeout")
    ∷ (505, codes "HTTP Version Not Supported")
    ∷ (506, codes "Variant Also Negotiates")
    ∷ (507, codes "Insufficient Storage")
    ∷ (508, codes "Loop Detected")
    ∷ (510, codes "Not Extended")
    ∷ (511, codes "Network Authentication Required")
    ∷ []

-- The arms of the `match`, in order.
phrase_for : ℕ → List (ℕ × Text) → Text
phrase_for c [] = codes "Unknown"
phrase_for c ((k, phrase) ∷ rest) = if c == k then phrase else phrase_for c rest

unfoldable pub default_reason_phrase : StatusCode → Text
unfolding phrase_for
default_reason_phrase s = phrase_for s.code phrases

-- The signed integers that status codes are made from: `negsuc n` is -(n + 1).
pub data ℤ : Type 0 where
  pos : ℕ → ℤ
  negsuc : ℕ → ℤ

abbrev pub u16_limit : ℕ
u16_limit = 2 ^ 16

-- `as u16` from `u8`, `u16` or `u32`.
unfoldable pub from_unsigned : ℕ → StatusCode
from_unsigned n = record { code = n % u16_limit }

-- `as u16` from `i8`, `i16` or `i32`: the low 16 bits of the two's complement.
unfoldable pub from_signed : ℤ → StatusCode
from_signed (pos n) = record { code = n % u16_limit }
from_signed (negsuc n) = record { code = u16_limit - 1 - n % u16_limit }

-- `PartialEq<u16>` and `PartialOrd<u16>`, both ways round.
unfoldable pub eq_u16 : StatusCode → ℕ → Bool
eq_u16 s n = s.code == n

unfoldable pub partial_cmp_u16 : StatusCode → ℕ → Option Ordering
partial_cmp_u16 s n = some (compare s.code n)

-- Text that may stand in a status line: ASCII, with no control character.
abbrev pub is_line_char : ℕ → Bool
is_line_char c = leb 32 c && ltb c 127

phrase_for_line :
    (rows : List (ℕ × Text)) (c : ℕ)
    → all (λ r. all is_line_char r.1) rows ≡ true
    → all is_line_char (phrase_for c rows) ≡ true
unfolding phrase_for
phrase_for_line [] c h = refl
phrase_for_line ((k, phrase) ∷ rest) c h = ground (arith, phrase_for_line rest c)

-- The reason phrase of every status code, known or not, is printable ASCII.
pub default_reason_phrase_line :
    (s : StatusCode) → all is_line_char (default_reason_phrase s) ≡ true
unfolding default_reason_phrase
default_reason_phrase_line s = phrase_for_line phrases s.code refl
