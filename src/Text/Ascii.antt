-- ===== src/Text/Ascii.antt =====
-- Texts as lists of code points, ASCII texts, and comparison without regard to ASCII case.
use Prim.Native.Char.{code}
use Prim.Native.String.{String}
use tiny_http.Prelude.{
  ℕ, ◌+◌, ◌≡◌, ◌↔◌, refl, Bool, true, false, ◌&&◌, List, [], ◌∷◌, ◌++◌, map, Option, none, some,
  arith, ltb, leb, ◌==◌, if◌then◌else◌, all,
}

abbrev pub Text : Type 0
Text = List ℕ

abbrev pub Bytes : Type 0
Bytes = List ℕ

-- The code points of a literal: its bytes, if it is ASCII.
abbrev pub codes : String → Text
codes String.[] = []
codes (String.◌∷◌ c s) = code c ∷ codes s

abbrev pub is_ascii : Text → Bool
is_ascii = all (λ c. ltb c 128)

-- `AsciiString::from_ascii`.
abbrev pub from_ascii : Text → Option Text
from_ascii s = if is_ascii s then some s else none

-- `==` on texts.
unfoldable pub text_eq : Text → Text → Bool
text_eq [] [] = true
text_eq (a ∷ as') (b ∷ bs) = a == b && text_eq as' bs
text_eq _ _ = false

pub text_eq_iff : (a b : Text) → (text_eq a b ≡ true) ↔ (a ≡ b)
unfolding text_eq
text_eq_iff (x ∷ a) (y ∷ b) = ground (arith, text_eq_iff a b)
text_eq_iff _ _ = ground arith

-- `u8::to_ascii_lowercase`.
abbrev pub lower : ℕ → ℕ
lower c = if leb b'A' c && leb c b'Z' then c + 32 else c

abbrev pub to_ascii_lowercase : Text → Text
to_ascii_lowercase = map lower

unfoldable pub eq_ignore_ascii_case : Text → Text → Bool
eq_ignore_ascii_case [] [] = true
eq_ignore_ascii_case (a ∷ as') (b ∷ bs) = lower a == lower b && eq_ignore_ascii_case as' bs
eq_ignore_ascii_case _ _ = false

-- Equal without regard to case is equal in lower case.
pub eq_ignore_ascii_case_iff :
    (a b : Text) → (eq_ignore_ascii_case a b ≡ true) ↔ (to_ascii_lowercase a ≡ to_ascii_lowercase b)
unfolding eq_ignore_ascii_case
eq_ignore_ascii_case_iff (x ∷ a) (y ∷ b) = ground (arith, eq_ignore_ascii_case_iff a b)
eq_ignore_ascii_case_iff _ _ = ground arith

pub is_ascii-append : (a b : Text) → is_ascii (a ++ b) ≡ (is_ascii a && is_ascii b)
is_ascii-append [] b = refl
is_ascii-append (c ∷ a) b = ground (arith, is_ascii-append a b)
