-- ===== src/Common/Header.antt =====
-- src/common.rs: `Header` and `HeaderField`.
pub mod Equiv
pub mod Parse
use tiny_http.Prelude.{
  ℕ, ◌≡◌, refl, Bool, true, List, [], ◌∷◌, ◌++◌, Option, none, some, if◌then◌else◌, any, Result, ok,
  err, ◌>>=◌, ok_or, ok?, and_then,
}
use tiny_http.Text.{Text, Bytes, codes, from_ascii, is_ascii, eq_ignore_ascii_case}
use tiny_http.Text.Pieces.{is_whitespace, splitn2, trim}

-- A wrapped `AsciiString`.
pub record HeaderField : Type 0 where
  pub name : Text

unfoldable pub field_as_str : HeaderField → Text
field_as_str f = f.name

pub record Header : Type 0 where
  pub field : HeaderField
  pub value : Text

abbrev pub make_header : Text → Text → Header
make_header f v = record { field = record { name = f }; value = v }

unfoldable pub field_from_bytes : Bytes → Result (Unit {0}) HeaderField
field_from_bytes bytes = do s ← ok_or (from_ascii bytes) tt; ok (record { name = s })

unfoldable pub field_from_str : Text → Result (Unit {0}) HeaderField
field_from_str s =
    if any is_whitespace s
    then err tt
    else (do a ← ok_or (from_ascii s) tt; ok (record { name = a }))

-- `equiv`: equal to a literal, without regard to case.
unfoldable pub equiv : HeaderField → Text → Bool
equiv f other = eq_ignore_ascii_case other f.name

-- `PartialEq`.
unfoldable pub field_eq : HeaderField → HeaderField → Bool
field_eq f g = eq_ignore_ascii_case f.name g.name

unfoldable pub from_bytes : Bytes → Bytes → Result (Unit {0}) Header
unfolding field_from_bytes
from_bytes header value = do
  f ← field_from_bytes header
  v ← ok_or (from_ascii value) tt
  ok (record { field = f; value = v })

unfoldable pub from_str : Text → Result (Unit {0}) Header
unfolding field_from_str
from_str input = do
  let elems = splitn2 b':' input
  field ← ok_or (ok? (field_from_str elems.0)) tt
  value ← ok_or (and_then elems.1 (λ v. from_ascii (trim v))) tt
  ok (record { field = field; value = value })

-- `Display` of a field and of a header.
unfoldable pub field_display : HeaderField → Text
field_display f = f.name

unfoldable pub header_display : Header → Text
unfolding field_display
header_display h = field_display h.field ++ (b':' ∷ b' ' ∷ h.value)
