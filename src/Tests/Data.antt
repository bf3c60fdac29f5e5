-- ===== src/Tests/Data.antt =====
-- The data that the runs share: a stand-in for `f32`, a date, a store of writers.
use Prim.Native.Nat.{compare}
use tiny_http.Prelude.{ℕ, refl, List, [], ◌∷◌, some, arith, All}
use tiny_http.Text.{Text, Bytes, codes}
use tiny_http.Text.Decimal
use tiny_http.Util.HeaderValue.{Float}
use tiny_http.Response.TransferEncoding.Best.{IsOrdered, IsNumber}

-- Whole numbers in place of `f32`.
abbrev pub whole_numbers : Float
whole_numbers = record {
  F = ℕ;
  zero' = 0;
  one = 1;
  from_str = λ s. Decimal.from_str s;
  partial_cmp = λ a b. some (compare a b);
}

pub whole_numbers-IsOrdered : IsOrdered whole_numbers
whole_numbers-IsOrdered = record {
  mirror = λ a b. ground arith;
  total = λ a b p q. (compare a b, refl);
  trans = λ a b c p q. ground arith;
}

abbrev pub a_date : Text
a_date = codes "Sun, 06 Nov 1994 08:49:37 GMT"

pub numbers-IsNumber :
    (es : List (Text × ℕ)) → All (IsNumber whole_numbers whole_numbers-IsOrdered) es
numbers-IsNumber [] = tt
numbers-IsNumber ((t, n) ∷ es) = (ground arith, numbers-IsNumber es)

-- The start of a request, as it comes from the network.
abbrev pub stream : Bytes
stream = codes "GET / HTTP/1.1\r\nHost: a\r\n"
