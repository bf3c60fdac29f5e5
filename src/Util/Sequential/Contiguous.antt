-- ===== src/Util/Sequential/Contiguous.antt =====
-- What the stream carries: the bytes of one writer after those of the one before it.
use tiny_http.Prelude.{
  ℕ, zero, suc, ◌+◌, ◌<◌, ◌≤◌, ◌≡◌, refl, sym, ap, ◌∙◌, false, List, [], ◌∷◌, ◌++◌, All, All-map,
  arith, Bool-cases, inl, inr, ◌==◌, if◌then◌else◌, append_assoc,
}
use tiny_http.Text.{Bytes}
use tiny_http.Util.Sequential.Writers.{Writers}
use tiny_http.Util.Sequential.Order.{Reach, Ascends, Reach-Good}

-- All bytes, in the order of the writes.
abbrev pub bytes_of : List (ℕ × Bytes) → Bytes
bytes_of [] = []
bytes_of ((k, b) ∷ es) = b ++ bytes_of es

-- The bytes of writer `k`.
abbrev pub bytes_by : ℕ → List (ℕ × Bytes) → Bytes
bytes_by k [] = []
bytes_by k ((j, b) ∷ es) = if j == k then b ++ bytes_by k es else bytes_by k es

-- The bytes of the writers from `k` on, `n` of them, one writer after the other.
abbrev pub in_turn : ℕ → ℕ → List (ℕ × Bytes) → Bytes
in_turn k zero es = []
in_turn k (suc n) es = bytes_by k es ++ in_turn (suc k) n es

-- Nothing of a writer before all those that wrote.
bytes_by_none : (k : ℕ) (es : List (ℕ × Bytes)) → All (λ e. k < e.0) es → bytes_by k es ≡ []
bytes_by_none k [] h = refl
bytes_by_none k ((j, b) ∷ es) (l, h) = elim (Bool-cases (j == k)) [
  | inl same ↦ absurd (ground arith)
  | inr other ↦ rw other (bytes_by_none k es h)
]

-- An entry of a writer that is not asked for.
in_turn_skip :
    (k n j : ℕ) (b : Bytes) (es : List (ℕ × Bytes))
    → j < k
    → in_turn k n ((j, b) ∷ es) ≡ in_turn k n es
in_turn_skip k zero j b es l = refl
in_turn_skip k (suc n) j b es l =
    let other : (j == k) ≡ false = ground arith in
    rw (other, in_turn_skip (suc k) n j b es (omega arith)) refl

-- The first entry of a list that does not fall.
in_turn_first :
    (k n j : ℕ) (b : Bytes) (es : List (ℕ × Bytes))
    → k ≤ j
    → j < k + n
    → All (λ e. j ≤ e.0) es
    → in_turn k n ((j, b) ∷ es) ≡ b ++ in_turn k n es
in_turn_first k zero j b es l m h = absurd (omega arith)
in_turn_first k (suc n) j b es l m h = elim (Bool-cases (j == k)) [
  | inl same ↦
      let e : j ≡ k = ground arith in
      rw (same, in_turn_skip (suc k) n j b es (omega (arith, e)))
        (append_assoc b (bytes_by k es) (in_turn (suc k) n es))
  | inr other ↦
      let less : k < j = ground (arith, other) in
      let behind = bytes_by_none k es (All-map _ _ es (λ e m. omega (arith, less, m)) h) in
      rw (other, behind) (in_turn_first (suc k) n j b es less (omega arith) h)
]

bytes_of-in_turn :
    (k n : ℕ) (es : List (ℕ × Bytes))
    → Ascends es
    → All (λ e. (k ≤ e.0) × (e.0 < k + n)) es
    → bytes_of es ≡ in_turn k n es
bytes_of-in_turn k n [] a h = nothing k n
  where
    nothing : (k n : ℕ) → [] ≡ in_turn k n []
    nothing k zero = refl
    nothing k (suc n) = nothing (suc k) n
bytes_of-in_turn k n ((j, b) ∷ es) (above, a) ((l, m), h) =
    ap (◌++◌ b) (bytes_of-in_turn k n es a h) ∙ sym (in_turn_first k n j b es l m above)

-- If every writer has its turn, by a write or a flush, before it is dropped, then whatever the
-- order of the calls, the stream carries all bytes of the first writer that was made, then all of
-- the second, and so on: no two responses are mixed or change places.
pub Reach-in_turn : {s : Writers} → Reach s → bytes_of s.written ≡ in_turn 0 s.issued s.written
Reach-in_turn {s} r =
    let (v, a) = Reach-Good r in
    bytes_of-in_turn 0 s.issued s.written a
      (All-map _ _ s.written (λ e (l, _). (omega arith, omega (arith, l))) v.passed)
