-- ===== src/Util/Sequential/Readers/Baton.antt =====
-- The inner reader is in one place at a time, and is handed on in order.
use tiny_http.Prelude.{
  ℕ, zero, suc, ◌<◌, ◌≤◌, ◌≡◌, ◌≢◌, refl, sym, ap, ◌∙◌, List, [], ◌∷◌, ◌++◌, append_assoc,
  append-nil, none, some, ◌==◌, arith, ◌⊎◌, inl, inr, All, Bool-cases,
}
use tiny_http.Text.{Bytes}
use tiny_http.Util.Sequential.Writers.{update}
use tiny_http.Util.Sequential.Order.{Ascends}
use tiny_http.Util.Sequential.Readers.{first, not_first, my_turn, waiting, empty, Readers}

abbrev pub bytes_of : List (ℕ × Bytes) → Bytes
bytes_of [] = []
bytes_of (e ∷ es) = e.1 ++ bytes_of es

pub bytes_of-concat :
    (es : List (ℕ × Bytes)) (k : ℕ) (bs : Bytes) → bytes_of (es ++ (k, bs) ∷ []) ≡ bytes_of es ++ bs
bytes_of-concat [] k bs = append-nil bs
bytes_of-concat (e ∷ es) k bs =
    ap (◌++◌ e.1) (bytes_of-concat es k bs) ∙ sym (append_assoc e.1 (bytes_of es) bs)

pub compare_turns : (k h : ℕ) → (k < h) ⊎ (k ≡ h) ⊎ (h < k)
compare_turns k h = ground arith

module _ {R : Type 0} where
  -- Where the inner reader `r` is, if it is the turn of reader `h`: in that reader, in the channel to
  -- it, or still in the builder.
  pub data Place (s : Readers R) (h : ℕ) (r : R) : Type 0 where
    reading : s.state h ≡ my_turn r → h < s.issued → ((c : ℕ) → s.sent c ≡ none) → Place s h r
    under_way :
        (c : ℕ)
        → h ≡ suc c
        → s.sent c ≡ some r
        → ((d : ℕ) → d ≢ c → s.sent d ≡ none)
        → (h < s.issued → s.state h ≡ waiting c)
        → Place s h r
    unissued : s.issued ≡ 0 → h ≡ 0 → s.inner ≡ first r → ((c : ℕ) → s.sent c ≡ none) → Place s h r

  -- It is the turn of reader `h`: those before it are dropped, and those after it wait.
  pub record Holds (s : Readers R) (h : ℕ) (r : R) : Type 0 where
    pub place : Place s h r
    pub passed : (j : ℕ) → j < h → s.state j ≡ empty
    pub waits : (c : ℕ) → h ≤ c → suc c < s.issued → s.state (suc c) ≡ waiting c
    pub fresh : (j : ℕ) → s.issued ≤ j → s.state j ≡ empty
    pub builder :
        ((s.issued ≡ 0) × (s.inner ≡ first r) × (h ≡ 0))
        ⊎ ((n : ℕ) × (s.issued ≡ suc n) × (s.inner ≡ not_first n))
    pub bound : h ≤ s.issued
    pub behind : All (λ e. e.0 ≤ h) s.delivered
    pub order : Ascends s.delivered

  -- A reader behind the turn waits, or is not issued.
  pub later_state :
      (s : Readers R) (h k : ℕ) (r : R)
      → Holds s h r
      → h < k
      → (s.state k ≡ empty) ⊎ ((c : ℕ) × (k ≡ suc c) × (s.state k ≡ waiting c))
  later_state s h zero r v l = absurd (omega arith)
  later_state s h (suc c) r v l = elim (compare_turns (suc c) s.issued) [
    | inl issued ↦ inr (c, refl, v.waits c (omega arith) issued)
    | inr (inl edge) ↦ inl (v.fresh (suc c) (omega arith))
    | inr (inr out) ↦ inl (v.fresh (suc c) (omega arith))
  ]

  -- Who has the inner reader has the turn.
  pub mine-turn :
      (s : Readers R) (h k : ℕ) (r q : R)
      → Holds s h r
      → s.state k ≡ my_turn q
      → (k ≡ h) × (q ≡ r) × (h < s.issued) × ((c : ℕ) → s.sent c ≡ none)
  mine-turn s h k r q v e = elim (compare_turns k h) [
    | inl before ↦ absurd (cc (sym e ∙ v.passed k before))
    | inr (inl same) ↦ here v.place same
    | inr (inr after) ↦ elim (later_state s h k r v after) [
      | inl gone ↦ absurd (cc (sym e ∙ gone))
      | inr (c, _, waits) ↦ absurd (cc (sym e ∙ waits))
    ]
  ]
    where
      here : Place s h r → k ≡ h → (k ≡ h) × (q ≡ r) × (h < s.issued) × ((c : ℕ) → s.sent c ≡ none)
      here (reading m l n) same = (same, cc (sym e ∙ ap s.state same ∙ m), l, n)
      here (under_way c p m n w) same = elim (compare_turns h s.issued) [
        | inl l ↦ absurd (cc (sym e ∙ ap s.state same ∙ w l))
        | inr (inl edge) ↦ absurd (cc (sym e ∙ ap s.state same ∙ v.fresh h (omega arith)))
        | inr (inr out) ↦ absurd (cc (sym e ∙ ap s.state same ∙ v.fresh h (omega arith)))
      ]
      here (unissued z p i n) same = absurd (cc (sym e ∙ ap s.state same ∙ v.fresh h (omega arith)))

  -- Who waits, and can have the inner reader, has the turn.
  pub waiting-turn :
      (s : Readers R) (h k c : ℕ) (r q : R)
      → Holds s h r
      → s.state k ≡ waiting c
      → s.sent c ≡ some q
      → (k ≡ h) × (q ≡ r) × (h < s.issued) × ((d : ℕ) → update s.sent c none d ≡ none)
  waiting-turn s h k c r q v e f = go v.place
    where
      go :
          Place s h r
          → (k ≡ h) × (q ≡ r) × (h < s.issued) × ((d : ℕ) → update s.sent c none d ≡ none)
      go (reading m l n) = absurd (cc (sym f ∙ n c))
      go (unissued z p i n) = absurd (cc (sym f ∙ n c))
      go (under_way d p m n w) = elim (Bool-cases (d == c)) [
        | inl same' ↦
            let same : d ≡ c = ground arith in
            elim (compare_turns k h) [
              | inl before ↦ absurd (cc (sym e ∙ v.passed k before))
              | inr (inl here) ↦ elim (compare_turns h s.issued) [
                | inl l ↦ (here, cc (sym f ∙ ap s.sent (sym same) ∙ m), l, λ x. ground (arith, n x))
                | inr (inl edge) ↦ absurd (cc (sym e ∙ v.fresh k (omega arith)))
                | inr (inr out) ↦ absurd (cc (sym e ∙ v.fresh k (omega arith)))
              ]
              | inr (inr after) ↦ elim (later_state s h k r v after) [
                | inl gone ↦ absurd (cc (sym e ∙ gone))
                | inr (b, kb, waits) ↦ let cb : c ≡ b = cc (sym e ∙ waits) in absurd (omega arith)
              ]
            ]
        | inr other ↦ absurd (cc (sym f ∙ n c (λ x. ground arith)))
      ]
