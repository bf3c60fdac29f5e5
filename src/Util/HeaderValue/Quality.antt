-- ===== src/Util/HeaderValue/Quality.antt =====
-- Which quality the parameters of an element give, said apart from the loop that looks for it.
use tiny_http.Prelude.{
  ◌≡◌, refl, sym, ap, ◌∙◌, true, List, [], ◌∷◌, ◌++◌, some, arith, all, drop, Bool-cases,
  Option-cases, inl, inr,
}
use tiny_http.Text.{Text, codes}
use tiny_http.Text.Pieces.{is_whitespace, trim, trim_start, starts_with}
use tiny_http.Util.HeaderValue.{Float, quality}

front_blanks :
    (p : Text) → (blanks : Text) × (p ≡ blanks ++ trim_start p) × (all is_whitespace blanks ≡ true)
unfolding trim_start
front_blanks [] = ([], refl, refl)
front_blanks (c ∷ p) = elim (Bool-cases (is_whitespace c)) [
  | inl blank ↦ let (b, e, a) = front_blanks p in rw blank (c ∷ b, ap (◌∷◌ c) e, ground arith)
  | inr solid ↦ rw solid ([], refl, refl)
]

trim_start-blanks :
    (blanks s : Text) → all is_whitespace blanks ≡ true → trim_start (blanks ++ s) ≡ trim_start s
unfolding trim_start
trim_start-blanks [] s h = refl
trim_start-blanks (c ∷ b) s h = ground (arith, trim_start-blanks b s)

starts_with-drop : (t : Text) → starts_with (codes "q=") t ≡ true → t ≡ codes "q=" ++ drop 2 t
unfolding starts_with
starts_with-drop [] h = absurd (cc h)
starts_with-drop (c ∷ []) h = ground arith
starts_with-drop (c ∷ d ∷ t) h = ground arith

starts_with_self : (n : Text) → starts_with (codes "q=") (codes "q=" ++ n) ≡ true
unfolding starts_with
starts_with_self n = refl

module _ (float : Float) where
  -- After white space, `q=`, and a number: its value.
  pub record Gives (p : Text) (v : float.F) : Type 0 where
    pub blanks : Text
    pub number : Text
    pub shape : p ≡ blanks ++ (codes "q=" ++ number)
    pub blank : all is_whitespace blanks ≡ true
    pub parsed : float.from_str (trim number) ≡ some v

  -- The first parameter that gives a value decides; without one it is 1.
  pub data Means : List Text → float.F → Type 0 where
    by_default : Means [] float.one
    given : {p : Text} {ps : List Text} {v : float.F} → Gives p v → Means (p ∷ ps) v
    passed :
        {p : Text} {ps : List Text} {v : float.F}
        → ((w : float.F) → ¬ Gives p w)
        → Means ps v
        → Means (p ∷ ps) v

  Gives-trim_start :
      (p : Text) (v : float.F) (g : Gives p v) → trim_start p ≡ codes "q=" ++ g.number
  Gives-trim_start p v g =
      ap trim_start g.shape
      ∙ trim_start-blanks g.blanks (codes "q=" ++ g.number) g.blank
      ∙ unfold trim_start is_whitespace in refl

  pub quality-Means : (ps : List Text) → Means ps (quality float ps float.one)
  unfolding quality
  quality-Means [] = by_default
  quality-Means (p ∷ ps) = elim (Bool-cases (starts_with (codes "q=") (trim_start p))) [
    | inl q ↦ elim (Option-cases (float.from_str (trim (drop 2 (trim_start p))))) [
      | inl wrong ↦
          rw (q, wrong)
            (passed
              (λ w g. absurd (
                cc (
                  sym wrong
                  ∙ ap (λ t. float.from_str (trim (drop 2 t))) (Gives-trim_start p w g)
                  ∙ g.parsed)))
              (quality-Means ps))
      | inr (v, right) ↦
          let (b, e, a) = front_blanks p in
          rw (q, right)
            (given (record {
              blanks = b;
              number = drop 2 (trim_start p);
              shape = e ∙ ap (◌++◌ b) (starts_with-drop (trim_start p) q);
              blank = a;
              parsed = right;
            }))
    ]
    | inr other ↦ rw other (
        passed
          (λ w g. absurd (
            cc (
              sym other
              ∙ ap (starts_with (codes "q=")) (Gives-trim_start p w g)
              ∙ starts_with_self g.number)))
          (quality-Means ps))
  ]
