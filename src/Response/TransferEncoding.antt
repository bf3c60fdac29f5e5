-- ===== src/Response/TransferEncoding.antt =====
-- src/response.rs: `TransferEncoding` and `choose_transfer_encoding`.
pub mod Sort
pub mod Best
use Prim.Native.Nat.{Ordering}
use tiny_http.Prelude.{
  ℕ, ◌≡◌, refl, Bool, true, false, ◌||◌, List, [], ◌∷◌, map, Option, none, some, ltb, leb, ◌==◌,
  if◌then◌else◌, find, Result, ok, err, and_then,
}
use mathlib.Core.Option
use tiny_http.Text.{Text, codes, eq_ignore_ascii_case}
use tiny_http.Common.StatusCode.{StatusCode}
use tiny_http.Common.Header.{Header, equiv}
use tiny_http.Common.HttpVersion.{HttpVersion, version, version_le}
use tiny_http.Util.HeaderValue.{Float, parse_header_value}

pub data TransferEncoding : Type 0 where
  identity chunked : TransferEncoding

unfoldable pub from_str : Text → Result (Unit {0}) TransferEncoding
from_str input =
    if eq_ignore_ascii_case input (codes "identity")
    then ok identity
    else if eq_ignore_ascii_case input (codes "chunked")
    then ok chunked
    else err tt

-- The value of the first `TE` header.
unfoldable pub te_value : List Header → Option Text
te_value request_headers =
    Option.map (λ h. h.value) (find (λ h. equiv h.field (codes "TE")) request_headers)

-- `map_or(true, |val| *val >= threshold)`.
abbrev pub is_long : Option ℕ → ℕ → Bool
is_long none threshold = true
is_long (some val) threshold = leb threshold val

module _ (float : Float) where
  open float use {F, partial_cmp, zero'}

  -- `a <= b` on floats.
  abbrev pub float_le : F → F → Bool
  float_le a b = elim (partial_cmp a b) [
    | some c ↦ elim c [ Ordering.gt ↦ false | _ ↦ true ]
    | none ↦ false
  ]

  -- `b.1.partial_cmp(&a.1).unwrap_or(Equal)`: whether `a` comes strictly behind `b`.
  abbrev pub behind : Text × F → Text × F → Bool
  behind a b = elim (partial_cmp b.1 a.1) [
    | some c ↦ elim c [ Ordering.gt ↦ true | _ ↦ false ]
    | none ↦ false
  ]

  -- `sort_by`, a stable sort: an element goes in front of the first one that it does not come behind.
  unfoldable pub insert : Text × F → List (Text × F) → List (Text × F)
  insert a [] = a ∷ []
  insert a (b ∷ bs) = if behind a b then b ∷ insert a bs else a ∷ b ∷ bs

  unfoldable pub sort : List (Text × F) → List (Text × F)
  unfolding insert
  sort [] = []
  sort (a ∷ bs) = insert a (sort bs)

  -- The loop over the sorted elements.
  unfoldable pub first_supported : List (Text × F) → Option TransferEncoding
  first_supported [] = none
  first_supported ((name, q) ∷ rest) =
      let later = first_supported rest in
      if float_le q zero' then later else elim (from_str name) [ ok te ↦ some te | err _ ↦ later ]

  -- The closure of `and_then`.
  unfoldable pub requested : Text → Option TransferEncoding
  unfolding sort first_supported
  requested value = first_supported (sort (parse_header_value float value))

  unfoldable pub choose_transfer_encoding :
      StatusCode → List Header → HttpVersion → Option ℕ → Bool → ℕ → TransferEncoding
  unfolding te_value requested
  choose_transfer_encoding status_code request_headers http_version entity_length
        has_additional_headers chunked_threshold =
      if version_le http_version (version 1 0)
      then identity
      else if ltb status_code.code 200 || status_code.code == 204
      then identity
      else elim (and_then (te_value request_headers) requested) [
        | some user_request ↦ user_request
        | none ↦
            if has_additional_headers
            then chunked
            else if is_long entity_length chunked_threshold
            then chunked
            else identity
      ]
