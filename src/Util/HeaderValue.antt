-- ===== src/Util/HeaderValue.antt =====
-- src/util/mod.rs: `parse_header_value`.
pub mod Elements
pub mod Quality
use Prim.Native.Nat.{Ordering}
use tiny_http.Prelude.{
  ℕ, ◌≡◌, refl, ◌∙◌, ap, Bool, true, false, List, [], ◌∷◌, ◌++◌, map, Option, none, some, arith,
  ◌==◌, if◌then◌else◌, drop, any, length, suc, ◌+◌, count_if,
}
use tiny_http.Text.{Text, codes}
use tiny_http.Text.Pieces.{
  split, split-append, split_single, trim, trim_idem, trim_start, starts_with, IsTrimmed,
}

-- `f32`, as far as quality values need it: the constants, `from_str` and `partial_cmp`.
pub record Float : Type 1 where
  pub F : Type 0
  pub zero' : F
  pub one : F
  pub from_str : Text → Option F
  pub partial_cmp : F → F → Option Ordering

abbrev pub push_some : {A : Type 0} → Option A → List A → List A
push_some none xs = xs
push_some (some x) xs = x ∷ xs

module _ (float : Float) where
  open float use {F, one, from_str}

  -- The loop over the parameters: the first `q=` whose number parses ends it.
  unfoldable pub quality : List Text → F → F
  quality [] value = value
  quality (p ∷ params) value =
      let rest = quality params value in
      if starts_with (codes "q=") (trim_start p)
      then elim (from_str (trim (drop 2 (trim_start p)))) [ some val ↦ val | none ↦ rest ]
      else rest

  -- The closure of `filter_map` on one element; `split` never gives an empty list.
  unfoldable pub parse_element : List Text → Option (Text × F)
  unfolding quality
  parse_element [] = none
  parse_element (t ∷ params) = some (trim t, quality params one)

  -- `filter_map` over the elements.
  abbrev pub filter_elements : List Text → List (Text × F)
  filter_elements [] = []
  filter_elements (e ∷ es) = push_some (parse_element (split b';' e)) (filter_elements es)

  unfoldable pub parse_header_value : Text → List (Text × F)
  parse_header_value input = filter_elements (split b',' input)
