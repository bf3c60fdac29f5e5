-- ===== src/Response/TransferEncoding/Best.antt =====
-- Which of the encodings that a `TE` header asks for is taken.
use Prim.Native.Nat.{Ordering}
use tiny_http.Prelude.{
  ◌≡◌, refl, sym, ◌∙◌, Bool, true, false, List, [], ◌∷◌, none, some, if◌then◌else◌, All, Some,
  All-map, Some-map, inl, inr, Bool-cases, Result, ok, err, Option-cases, Option,
}
use mathlib.Core.Option
use mathlib.Core.Bool.{false≢true}
use tiny_http.Text.{Text}
use tiny_http.Common.HttpVersion.{flip}
use tiny_http.Util.HeaderValue.{Float, parse_header_value}
use tiny_http.Response.TransferEncoding.Sort.{insert-All, sort-All, All-sort, Some-sort}
use tiny_http.Response.TransferEncoding.{
  TransferEncoding, from_str, float_le, behind, insert, sort, first_supported, requested,
}

-- What `partial_cmp` promises, on numbers that are not NaN: a total order.
pub record IsOrdered (float : Float) : Type 0 where
  pub mirror : (a b : float.F) → float.partial_cmp b a ≡ Option.map flip (float.partial_cmp a b)
  pub total :
      (a b : float.F)
      → float.partial_cmp a a ≡ some Ordering.eq
      → float.partial_cmp b b ≡ some Ordering.eq
      → (c : Ordering) × (float.partial_cmp a b ≡ some c)
  pub trans :
      (a b c : float.F)
      → float_le float a b ≡ true
      → float_le float b c ≡ true
      → float_le float a c ≡ true

module _ (float : Float) (order : IsOrdered float) where
  open float use {F, partial_cmp, zero'}

  abbrev Item : Type 0
  Item = Text × F

  abbrev pub IsNumber : Text × F → Type 0
  IsNumber e = partial_cmp e.1 e.1 ≡ some Ordering.eq

  -- An element that names a supported encoding, with a quality above 0.
  abbrev pub IsCandidate : TransferEncoding → Text × F → Type 0
  IsCandidate te e = (from_str e.0 ≡ ok te) × (float_le float e.1 zero' ≡ false)

  -- No candidate has a higher quality than `e`.
  abbrev pub Dominates : Text × F → Text × F → Type 0
  Dominates e other =
      (te : TransferEncoding) → IsCandidate te other → float_le float other.1 e.1 ≡ true

  abbrev Below : F → Text × F → Type 0
  Below q e = float_le float e.1 q ≡ true

  abbrev Descends : List (Text × F) → Type 0
  Descends [] = Unit {0}
  Descends (e ∷ es) = All (Below e.1) es × Descends es

  le_refl : (e : Text × F) → IsNumber e → float_le float e.1 e.1 ≡ true
  le_refl e n = rw (n, float_le)

  -- An element that `a` comes behind has the higher quality; any other has none higher.
  behind_le :
      (a b : Text × F)
      → IsNumber a
      → IsNumber b
      → (behind float a b ≡ true → Below b.1 a) × (behind float a b ≡ false → Below a.1 b)
  behind_le a b na nb =
      let (c, e) = order.total b.1 a.1 nb na in let m = order.mirror b.1 a.1 in cases c e (m ∙ rw e)
    where
      cases :
          (c : Ordering)
          → partial_cmp b.1 a.1 ≡ some c
          → partial_cmp a.1 b.1 ≡ some (flip c)
          → (behind float a b ≡ true → Below b.1 a) × (behind float a b ≡ false → Below a.1 b)
      cases Ordering.lt e m =
          (λ h. absurd (false≢true (rw (e, behind) at h)), λ h. rw (e, float_le))
      cases Ordering.eq e m =
          (λ h. absurd (false≢true (rw (e, behind) at h)), λ h. rw (e, float_le))
      cases Ordering.gt e m =
          (λ h. rw (m, float_le), λ h. absurd (false≢true (sym (rw (e, behind) at h))))

  insert-Descends :
      (a : Text × F) (bs : List (Text × F))
      → IsNumber a
      → All IsNumber bs
      → Descends bs
      → Descends (insert float a bs)
  unfolding insert
  insert-Descends a [] na nb d = (tt, tt)
  insert-Descends a (b ∷ bs) na (nb, ns) (below, d) = elim (Bool-cases (behind float a b)) [
    | inl back ↦ rw back (
      insert-All float (Below b.1) a bs ((behind_le a b na nb).0 back) below,
      insert-Descends a bs na ns d,
    )
    | inr front ↦ rw front (
        let le = (behind_le a b na nb).1 front in
        (
          (le, All-map (Below b.1) (Below a.1) bs (λ e h. order.trans e.1 b.1 a.1 h le) below),
          (below, d),
        ))
  ]

  sort-Descends : (es : List (Text × F)) → All IsNumber es → Descends (sort float es)
  unfolding sort
  sort-Descends [] n = tt
  sort-Descends (e ∷ es) (n, ns) =
      insert-Descends e (sort float es) n (sort-All float IsNumber es ns) (sort-Descends es ns)

  -- The winner is a candidate that dominates the list.
  abbrev pub Wins : TransferEncoding → List (Text × F) → Text × F → Type 0
  Wins te es e = IsCandidate te e × All (Dominates e) es

  first_supported-Wins :
      (te : TransferEncoding) (es : List (Text × F))
      → All IsNumber es
      → Descends es
      → first_supported float es ≡ some te
      → Some (Wins te es) es
  unfolding first_supported
  first_supported-Wins te [] n d e = cc
  first_supported-Wins te ((name, q) ∷ es) (n, ns) (below, d) e =
      go (float_le float q zero') refl (from_str name) refl e (first_supported-Wins te es ns d)
    where
      loser :
          ((te' : TransferEncoding) → ¬ IsCandidate te' (name, q))
          → Some (Wins te es) es
          → Some (Wins te ((name, q) ∷ es)) es
      loser refuted =
          Some-map (Wins te es) (Wins te ((name, q) ∷ es)) es
            λ x (c, h). (c, ((λ te' k. absurd (refuted te' k)), h))

      go :
          (zero_q : Bool)
          → float_le float q zero' ≡ zero_q
          → (r : Result (Unit {0}) TransferEncoding) → from_str name ≡ r
          → (if zero_q
              then first_supported float es
              else elim r [ ok te' ↦ some te' | err _ ↦ first_supported float es ])
            ≡ some te
          → (first_supported float es ≡ some te → Some (Wins te es) es)
          → Some (Wins te ((name, q) ∷ es)) ((name, q) ∷ es)
      go true z r s e ih = inr (loser (λ te' k. false≢true (sym k.1 ∙ z)) (ih e))
      go false z (ok te') s e ih = inl (
        (s ∙ cc, z),
        (
          (λ _ _. le_refl (name, q) n),
          All-map (Below q) (Dominates (name, q)) es (λ x h _ _. h) below,
        ),
      )
      go false z (err u) s e ih = inr (loser (λ te' k. cc) (ih e))

  -- Where the comparison of qualities is a total order on those that occur, and a `TE` value makes
  -- the choice of an encoding, the value has an element that names this encoding with a quality
  -- above 0, and no element that names a supported encoding with a quality above 0 has a higher
  -- quality.
  pub requested-Wins :
      (value : Text) (te : TransferEncoding)
      → All IsNumber (parse_header_value float value)
      → requested float value ≡ some te
      → Some (Wins te (parse_header_value float value)) (parse_header_value float value)
  unfolding requested
  requested-Wins value te n e =
      let items = parse_header_value float value in
      let sorted = sort float items in
      Some-map (Wins te sorted) (Wins te items) items
        (λ x (c, h). (c, All-sort float (Dominates x) items h))
        (Some-sort float (Wins te sorted) items (
          first_supported-Wins te sorted (sort-All float IsNumber items n) (sort-Descends items n)
            e))

  first_supported-none :
      (es : List (Text × F))
      → first_supported float es ≡ none
      → All (λ e. (te : TransferEncoding) → ¬ IsCandidate te e) es
  unfolding first_supported
  first_supported-none [] e = tt
  first_supported-none ((name, q) ∷ es) e =
      go (float_le float q zero') refl (from_str name) refl e (first_supported-none es)
    where
      go :
          (zero_q : Bool)
          → float_le float q zero' ≡ zero_q
          → (r : Result (Unit {0}) TransferEncoding) → from_str name ≡ r
          → (if zero_q
              then first_supported float es
              else elim r [ ok te' ↦ some te' | err _ ↦ first_supported float es ])
            ≡ none
          → (first_supported float es ≡ none
              → All (λ e. (te : TransferEncoding) → ¬ IsCandidate te e) es)
          → ((te : TransferEncoding) → ¬ IsCandidate te (name, q))
            × All (λ e. (te : TransferEncoding) → ¬ IsCandidate te e) es
      go true z r s e ih = ((λ te' k. false≢true (sym k.1 ∙ z)), ih e)
      go false z (ok te') s e ih = absurd (cc e)
      go false z (err u) s e ih = ((λ te' k. cc), ih e)

  -- Where a `TE` value makes no choice, none of its elements names a supported encoding with a
  -- quality above 0.
  pub requested-none :
      (value : Text)
      → requested float value ≡ none
      → All (λ e. (te : TransferEncoding) → ¬ IsCandidate te e) (parse_header_value float value)
  unfolding requested
  requested-none value e =
      let items = parse_header_value float value in
      All-sort float (λ e. (te : TransferEncoding) → ¬ IsCandidate te e) items
        (first_supported-none (sort float items) e)

  -- What the answer to a `TE` value says of its elements.
  abbrev pub Verdict : Option TransferEncoding → List (Text × F) → Type 0
  Verdict none items = All (λ e. (te : TransferEncoding) → ¬ IsCandidate te e) items
  Verdict (some te) items = Some (Wins te items) items

  -- Where the comparison of qualities is a total order on those that occur in a `TE` value: if the
  -- value makes the choice of an encoding, it has an element that names this encoding with a
  -- quality above 0, and no element that names a supported encoding with a quality above 0 has a
  -- higher quality; if it makes no choice, none of its elements names a supported encoding with a
  -- quality above 0.
  pub requested-Verdict :
      (value : Text)
      → All IsNumber (parse_header_value float value)
      → Verdict (requested float value) (parse_header_value float value)
  requested-Verdict value n = elim (Option-cases (requested float value)) [
    | inl nothing ↦ rw nothing (requested-none value nothing)
    | inr (te, chosen) ↦ rw chosen (requested-Wins value te n chosen)
  ]
