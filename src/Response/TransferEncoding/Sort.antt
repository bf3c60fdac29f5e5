-- ===== src/Response/TransferEncoding/Sort.antt =====
-- The stable sort by descending quality keeps the elements.
use tiny_http.Prelude.{
  ◌≡◌, refl, Bool, true, false, List, [], ◌∷◌, if◌then◌else◌, All, Some, ◌⊎◌, inl, inr, Bool-cases,
}
use tiny_http.Text.{Text}
use tiny_http.Util.HeaderValue.{Float}
use tiny_http.Response.TransferEncoding.{behind, insert, sort}

module _ (float : Float) (P : Text × float.F → Type 0) where
  open float use {F}

  pub insert-All :
      (a : Text × F) (bs : List (Text × F)) → P a → All P bs → All P (insert float a bs)
  unfolding insert
  insert-All a [] p h = (p, tt)
  insert-All a (b ∷ bs) p (q, h) = elim (Bool-cases (behind float a b)) [
    | inl back ↦ rw back (q, insert-All a bs p h)
    | inr front ↦ rw front (p, (q, h))
  ]

  All-insert : (a : Text × F) (bs : List (Text × F)) → All P (insert float a bs) → P a × All P bs
  unfolding insert
  All-insert a [] h = h
  All-insert a (b ∷ bs) h = go (behind float a b) refl h (All-insert a bs)
    where
      go :
          (t : Bool)
          → behind float a b ≡ t
          → All P (if t then b ∷ insert float a bs else a ∷ b ∷ bs)
          → (All P (insert float a bs) → P a × All P bs)
          → P a × (P b × All P bs)
      go true e (q, h) ih = let (p, hs) = ih h in (p, (q, hs))
      go false e (p, (q, h)) ih = (p, (q, h))

  pub sort-All : (es : List (Text × F)) → All P es → All P (sort float es)
  unfolding sort
  sort-All [] h = tt
  sort-All (e ∷ es) (p, h) = insert-All e (sort float es) p (sort-All es h)

  pub All-sort : (es : List (Text × F)) → All P (sort float es) → All P es
  unfolding sort
  All-sort [] h = tt
  All-sort (e ∷ es) h = let (p, rest) = All-insert e (sort float es) h in (p, All-sort es rest)

  Some-insert : (a : Text × F) (bs : List (Text × F)) → Some P (insert float a bs) → P a ⊎ Some P bs
  unfolding insert
  Some-insert a [] h = h
  Some-insert a (b ∷ bs) h = go (behind float a b) h (Some-insert a bs)
    where
      go :
          (t : Bool)
          → Some P (if t then b ∷ insert float a bs else a ∷ b ∷ bs)
          → (Some P (insert float a bs) → P a ⊎ Some P bs)
          → P a ⊎ (P b ⊎ Some P bs)
      go true (inl q) ih = inr (inl q)
      go true (inr h) ih = elim (ih h) [ inl p ↦ inl p | inr s ↦ inr (inr s) ]
      go false h ih = h

  pub Some-sort : (es : List (Text × F)) → Some P (sort float es) → Some P es
  unfolding sort
  Some-sort [] h = h
  Some-sort (e ∷ es) h = elim (Some-insert e (sort float es) h) [
    | inl p ↦ inl p
    | inr s ↦ inr (Some-sort es s)
  ]
