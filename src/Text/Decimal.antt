-- ===== src/Text/Decimal.antt =====
-- Decimal numbers: `Display` of an unsigned integer and `usize::from_str`.
use tiny_http.Prelude.{
  ℕ, zero, suc, ◌+◌, ◌-◌, ◌*◌, ◌/◌, ◌%◌, ◌^◌, ◌<◌, ◌≡◌, refl, ◌∙◌, Bool, true, ◌&&◌, [], ◌∷◌,
  Option, none, some, arith, ltb, leb, ◌==◌, ◌≢◌, all, Bool-cases, inl, inr, if◌then◌else◌,
  and_then,
}
use tiny_http.Text.Ascii.{Text, is_ascii}

-- The digits of `n` before `acc`; `n` rounds are enough.
digits_onto : ℕ → ℕ → Text → Text
digits_onto zero n acc = acc
digits_onto (suc fuel) n acc =
    let acc' = (b'0' + n % 10) ∷ acc in
    let more = digits_onto fuel (n / 10) acc' in if ltb n 10 then acc' else more

unfoldable pub decimal : ℕ → Text
unfolding digits_onto
decimal n = digits_onto (suc n) n []

-- `usize` has 64 bits.
abbrev pub usize_limit : ℕ
usize_limit = 2 ^ 64

abbrev pub is_digit : ℕ → Bool
is_digit c = leb b'0' c && leb c b'9'

-- One more digit, with `checked_mul` and `checked_add`.
push_digit : ℕ → ℕ → Option ℕ
push_digit acc c =
    if is_digit c
    then (if ltb (acc * 10 + (c - b'0')) usize_limit then some (acc * 10 + (c - b'0')) else none)
    else none

parse_digits : ℕ → Text → Option ℕ
parse_digits acc [] = some acc
parse_digits acc (c ∷ cs) = and_then (push_digit acc c) (λ acc'. parse_digits acc' cs)

-- At least one digit.
parse_nonempty : Text → Option ℕ
parse_nonempty [] = none
parse_nonempty (c ∷ cs) = parse_digits 0 (c ∷ cs)

unfoldable pub from_str : Text → Option ℕ
unfolding parse_digits push_digit parse_nonempty
from_str [] = none
from_str (c ∷ cs) = if c == b'+' then parse_nonempty cs else parse_digits 0 (c ∷ cs)

push_digit-mod : (q n : ℕ) → q ≡ n / 10 → n < usize_limit → push_digit q (b'0' + n % 10) ≡ some n
unfolding push_digit
push_digit-mod q n e h = ground arith

-- Reading the digits of `n` from the left gives `n`, and what follows them is read from there.
parse_digits-digits_onto :
    (fuel n : ℕ) (t : Text)
    → n < fuel
    → n < usize_limit
    → parse_digits 0 (digits_onto fuel n t) ≡ parse_digits n t
unfolding parse_digits digits_onto
parse_digits-digits_onto zero n t h l = elim h [ ]
parse_digits-digits_onto (suc fuel) n t h l = elim (Bool-cases (ltb n 10)) [
  | inl small ↦ rw small (let e : 0 ≡ n / 10 = ground arith in rw (push_digit-mod 0 n e l))
  | inr large ↦ rw large (
      parse_digits-digits_onto fuel (n / 10) ((b'0' + n % 10) ∷ t) (ground arith) (omega arith)
      ∙ rw (push_digit-mod (n / 10) n refl l))
]

digits_onto-digits : (fuel n : ℕ) (t : Text) → all is_digit (digits_onto fuel n t) ≡ all is_digit t
unfolding digits_onto
digits_onto-digits zero n t = refl
digits_onto-digits (suc fuel) n t =
    ground (arith, digits_onto-digits fuel (n / 10) ((b'0' + n % 10) ∷ t))

digits_onto-ne-nil : (fuel n c : ℕ) (t : Text) → digits_onto fuel n (c ∷ t) ≢ []
unfolding digits_onto
digits_onto-ne-nil zero n c t = λ e. cc
digits_onto-ne-nil (suc fuel) n c t =
    ground (arith, digits_onto-ne-nil fuel (n / 10) (b'0' + n % 10) (c ∷ t))

pub decimal-digits : (n : ℕ) → all is_digit (decimal n) ≡ true
unfolding decimal
decimal-digits n = digits_onto-digits (suc n) n []

pub decimal-ne-nil : (n : ℕ) → decimal n ≢ []
unfolding decimal digits_onto
decimal-ne-nil n = ground (arith, digits_onto-ne-nil n (n / 10) (b'0' + n % 10) [])

from_str_digits : (s : Text) → all is_digit s ≡ true → s ≢ [] → from_str s ≡ parse_digits 0 s
unfolding from_str
from_str_digits [] d h = absurd (h refl)
from_str_digits (c ∷ cs) d h = ground arith

-- What `Display` prints for a `usize`, `from_str` reads back.
pub from_str-decimal : (n : ℕ) → n < usize_limit → from_str (decimal n) ≡ some n
unfolding decimal
from_str-decimal n h =
    from_str_digits (decimal n) (decimal-digits n) (decimal-ne-nil n)
    ∙ parse_digits-digits_onto (suc n) n [] (omega arith) h
    ∙ unfold parse_digits in refl

-- Digits hold no white space and are ASCII.
pub digits-ascii : (s : Text) → all is_digit s ≡ true → is_ascii s ≡ true
digits-ascii [] h = refl
digits-ascii (c ∷ s) h = ground (arith, digits-ascii s)

parse_digits_bound :
    (s : Text) (a n : ℕ) → a < usize_limit → parse_digits a s ≡ some n → n < usize_limit
unfolding parse_digits push_digit
parse_digits_bound [] a n h e = ground arith
parse_digits_bound (c ∷ s) a n h e = ground (arith, parse_digits_bound s (a * 10 + (c - b'0')) n)

-- A parsed number fits in 64 bits.
pub from_str_bound : (s : Text) (n : ℕ) → from_str s ≡ some n → n < usize_limit
unfolding from_str
from_str_bound [] n e = cc
from_str_bound (c ∷ []) n e = ground (arith, parse_digits_bound (c ∷ []) 0 n)
from_str_bound (c ∷ d ∷ ds) n e =
    ground (arith, parse_digits_bound (c ∷ d ∷ ds) 0 n, parse_digits_bound (d ∷ ds) 0 n)
