-- ===== src/Common/Header/Parse.antt =====
-- `Header::from_str`: what it accepts, what it refuses, and the round trip through `Display`.
use tiny_http.Prelude.{
  ◌≡◌, subst, refl, sym, ◌∙◌, true, false, ◌∷◌, ◌++◌, Option, none, some, arith, ◌==◌, any, Result,
  ok, err,
}
use tiny_http.Text.{Text, is_ascii}
use tiny_http.Text.Pieces.{
  is_whitespace, splitn2, splitn2-append, splitn2-none, splitn2_sound, trim, trim-cons, trim_idem,
  IsTrimmed,
}
use tiny_http.Common.Header.{make_header, Header, from_str, field_from_str, header_display}

-- What stands between two line ends of a message: a field with no white space and no colon, and a
-- trimmed value, all ASCII.
pub record IsWellFormed (h : Header) : Type 0 where
  pub solid : any is_whitespace h.field.name ≡ false
  pub no_colon : any (λ c. c == b':') h.field.name ≡ false
  pub name_ascii : is_ascii h.field.name ≡ true
  pub value_ascii : is_ascii h.value ≡ true
  pub trimmed : IsTrimmed h.value

abbrev Accepts : Text → Text → Type 0
Accepts f v = (any is_whitespace f ≡ false) × (is_ascii f ≡ true) × (is_ascii (trim v) ≡ true)

abbrev Verdict : Text → Text → Result (Unit {0}) Header → Type 0
Verdict f v (ok h) = Accepts f v × (h ≡ make_header f (trim v))
Verdict f v (err _) = ¬ Accepts f v

-- The verdict on `f:v`.
from_str_colon :
    (f v : Text) → any (λ c. c == b':') f ≡ false → Verdict f v (from_str (f ++ b':' ∷ v))
unfolding from_str field_from_str
from_str_colon f v h = rw (splitn2-append b':' f v h, from_str) (ground arith)

-- A line with no colon is refused.
from_str_plain : (s : Text) → any (λ c. c == b':') s ≡ false → from_str s ≡ err tt
unfolding from_str field_from_str
from_str_plain s h = rw (splitn2-none b':' s h, from_str) (ground arith)

IsWellFormed-Verdict :
    (f v : Text) (h : Header) → any (λ c. c == b':') f ≡ false → Verdict f v (ok h) → IsWellFormed h
IsWellFormed-Verdict f v h colon ((solid, ascii, value), e) = rw e (record {
  solid = solid;
  no_colon = colon;
  name_ascii = ascii;
  value_ascii = value;
  trimmed = trim_idem v;
})

-- A line that `Header::from_str` accepts gives a header whose field is ASCII with no white space
-- and no colon, and whose value is ASCII and trimmed.
pub from_str-IsWellFormed : (s : Text) (h : Header) → from_str s ≡ ok h → IsWellFormed h
from_str-IsWellFormed s h e = go (splitn2 b':' s) refl
  where
    go : (p : Text × Option Text) → splitn2 b':' s ≡ p → IsWellFormed h
    go (f, none) q = absurd (unfold from_str field_from_str in ground arith)
    go (f, some v) q =
        let (whole, colon) = splitn2_sound b':' s f v q in
        IsWellFormed-Verdict f v h colon
          (subst (Verdict f v) (rw whole at e) (from_str_colon f v colon))

-- A header whose field is ASCII with no white space and no colon, and whose value is ASCII and
-- trimmed, is read back from what it prints.
pub from_str-header_display : (h : Header) → IsWellFormed h → from_str (header_display h) ≡ ok h
unfolding from_str field_from_str header_display
from_str-header_display h w =
    rw (splitn2-append b':' h.field.name (b' ' ∷ h.value) w.no_colon, from_str)
      (ground (arith, trim-cons b' ' h.value (unfold is_whitespace in refl), w.trimmed))

-- So `Display` after `from_str` gives a line with the same meaning.
pub from_str-display-from_str :
    (s : Text) (h : Header) → from_str s ≡ ok h → from_str (header_display h) ≡ from_str s
from_str-display-from_str s h e = from_str-header_display h (from_str-IsWellFormed s h e) ∙ sym e
