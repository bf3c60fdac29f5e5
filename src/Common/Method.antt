-- ===== src/Common/Method.antt =====
-- src/common.rs: `Method`.
use tiny_http.Prelude.{
  ◌≡◌, refl, Bool, true, false, List, [], ◌∷◌, arith, if◌then◌else◌, Result, ok, ◌>>=◌, ok_or, any,
}
use tiny_http.Text.{Text, codes, from_ascii, is_ascii, text_eq, text_eq_iff}

pub data Method : Type 0 where
  get head post put delete connect options trace patch : Method
  non_standard : Text → Method

unfoldable pub as_str : Method → Text
as_str get = codes "GET"
as_str head = codes "HEAD"
as_str post = codes "POST"
as_str put = codes "PUT"
as_str delete = codes "DELETE"
as_str connect = codes "CONNECT"
as_str options = codes "OPTIONS"
as_str trace = codes "TRACE"
as_str patch = codes "PATCH"
as_str (non_standard s) = s

-- `Display`.
unfoldable pub method_display : Method → Text
unfolding as_str
method_display m = as_str m

unfoldable pub from_str : Text → Result (Unit {0}) Method
from_str s =
    if text_eq s (codes "GET")
    then ok get
    else if text_eq s (codes "HEAD")
    then ok head
    else if text_eq s (codes "POST")
    then ok post
    else if text_eq s (codes "PUT")
    then ok put
    else if text_eq s (codes "DELETE")
    then ok delete
    else if text_eq s (codes "CONNECT")
    then ok connect
    else if text_eq s (codes "OPTIONS")
    then ok options
    else if text_eq s (codes "TRACE")
    then ok trace
    else if text_eq s (codes "PATCH")
    then ok patch
    else (do ascii_string ← ok_or (from_ascii s) tt; ok (non_standard ascii_string))

-- `==` on methods, derived.
unfoldable pub method_eq : Method → Method → Bool
method_eq get get = true
method_eq head head = true
method_eq post post = true
method_eq put put = true
method_eq delete delete = true
method_eq connect connect = true
method_eq options options = true
method_eq trace trace = true
method_eq patch patch = true
method_eq (non_standard s) (non_standard t) = text_eq s t
method_eq _ _ = false

abbrev standard_names : List Text
standard_names =
    codes "GET"
    ∷ codes "HEAD"
    ∷ codes "POST"
    ∷ codes "PUT"
    ∷ codes "DELETE"
    ∷ codes "CONNECT"
    ∷ codes "OPTIONS"
    ∷ codes "TRACE"
    ∷ codes "PATCH"
    ∷ []

-- A non-standard method is ASCII and spells no standard one.
abbrev pub IsCanonical : Method → Type 0
IsCanonical (non_standard s) = (is_ascii s ≡ true) × (any (text_eq s) standard_names ≡ false)
IsCanonical _ = Unit {0}

-- A method that was read prints as the text that it was read from, and is canonical: a non-standard
-- one is ASCII and spells no standard one.
pub as_str-from_str : (s : Text) (m : Method) → from_str s ≡ ok m → (as_str m ≡ s) × IsCanonical m
unfolding as_str from_str
as_str-from_str s m h = ground (
  arith,
  text_eq_iff s (codes "GET"),
  text_eq_iff s (codes "HEAD"),
  text_eq_iff s (codes "POST"),
  text_eq_iff s (codes "PUT"),
  text_eq_iff s (codes "DELETE"),
  text_eq_iff s (codes "CONNECT"),
  text_eq_iff s (codes "OPTIONS"),
  text_eq_iff s (codes "TRACE"),
  text_eq_iff s (codes "PATCH"),
)

-- A method, if it is standard, or ASCII and spelling no standard one, is read back from what it
-- prints.
pub from_str-as_str : (m : Method) → IsCanonical m → from_str (as_str m) ≡ ok m
unfolding as_str from_str text_eq
from_str-as_str (non_standard s) c = ground arith
from_str-as_str _ c = refl
