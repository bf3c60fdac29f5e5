-- ===== src/Common/HttpVersion.antt =====
-- src/common.rs: `HTTPVersion` and its order.
use Prim.Native.Nat.{compare, Ordering}
use tiny_http.Prelude.{
  ℕ, ◌≡◌, ◌<◌, ◌↔◌, ◌⊎◌, Bool, true, false, not, ◌&&◌, ◌++◌, ◌∷◌, Option, none, some, arith, ◌==◌,
  if◌then◌else◌,
}
use tiny_http.Text.{Text}
use tiny_http.Text.Decimal.{decimal}

-- Two `u8`s.
pub record HttpVersion : Type 0 where
  pub major : ℕ
  pub minor : ℕ

abbrev pub version : ℕ → ℕ → HttpVersion
version a b = record { major = a; minor = b }

-- `Display`.
unfoldable pub version_display : HttpVersion → Text
version_display v = decimal v.major ++ (b'.' ∷ decimal v.minor)

unfoldable pub cmp : HttpVersion → HttpVersion → Ordering
cmp v w = if not (v.major == w.major) then compare v.major w.major else compare v.minor w.minor

unfoldable pub partial_cmp : HttpVersion → HttpVersion → Option Ordering
unfolding cmp
partial_cmp v w = some (cmp v w)

-- `==`, derived, which the comparisons with a pair of numbers go through.
unfoldable pub version_eq : HttpVersion → HttpVersion → Bool
version_eq v w = v.major == w.major && v.minor == w.minor

abbrev is_le : Option Ordering → Bool
is_le (some Ordering.gt) = false
is_le (some Ordering.eq) = true
is_le (some Ordering.lt) = true
is_le none = false

abbrev is_gt : Option Ordering → Bool
is_gt (some Ordering.gt) = true
is_gt (some Ordering.eq) = false
is_gt (some Ordering.lt) = false
is_gt none = false

-- `<=` and `>` on versions, as `PartialOrd` derives them from `partial_cmp`.
unfoldable pub version_le : HttpVersion → HttpVersion → Bool
unfolding partial_cmp
version_le v w = is_le (partial_cmp v w)

unfoldable pub version_gt : HttpVersion → HttpVersion → Bool
unfolding partial_cmp
version_gt v w = is_gt (partial_cmp v w)

-- The order is lexicographic.
abbrev pub Earlier : HttpVersion → HttpVersion → Type 0
Earlier v w = (v.major < w.major) ⊎ ((v.major ≡ w.major) × (v.minor < w.minor))

abbrev pub flip : Ordering → Ordering
flip Ordering.lt = Ordering.gt
flip Ordering.eq = Ordering.eq
flip Ordering.gt = Ordering.lt

-- `cmp` on versions is `Less` exactly when the first is lexicographically before the second,
-- `Equal` exactly when `==` holds, which is exactly when they are the same, and turns round with
-- its arguments.
pub cmp_order :
    (v w : HttpVersion)
    → ((cmp v w ≡ Ordering.lt) ↔ Earlier v w)
      × ((cmp v w ≡ Ordering.eq) ↔ (version_eq v w ≡ true))
      × ((version_eq v w ≡ true) ↔ (v ≡ w))
      × (cmp w v ≡ flip (cmp v w))
unfolding cmp version_eq
cmp_order v w = (ground arith, ground arith, ground arith, ground arith)

pub version_gt-le : (v w : HttpVersion) → version_gt v w ≡ not (version_le v w)
unfolding version_gt version_le cmp
version_gt-le v w = ground arith
