-- ===== src/Util/Sequential/Readers/Steps.antt =====
-- Each operation on the readers keeps the order of turns.
use tiny_http.Prelude.{
  ℕ, suc, ◌+◌, ◌<◌, ◌≤◌, ◌≡◌, refl, List, Option, none, some, arith, ◌⊎◌, inl, inr, All, All-map,
}
use tiny_http.Text.{Bytes}
use tiny_http.Util.Sequential.Writers.{update}
use tiny_http.Util.Sequential.Order.{Ascends}
use tiny_http.Util.Sequential.Readers.{
  first, not_first, my_turn, waiting, empty, Readers, new, next,
}
use tiny_http.Util.Sequential.Readers.Baton.{
  Place, reading, under_way, unissued, Holds, compare_turns,
}

module _ {R : Type 0} where
  pub new-Holds : (r : R) → Holds (new r) 0 r
  unfolding new
  new-Holds r = record {
    place = unissued refl refl refl (λ c. refl);
    passed = λ j l. absurd (omega arith);
    waits = λ c a b. absurd (omega arith);
    fresh = λ j l. refl;
    builder = inl (refl, refl, refl);
    bound = omega arith;
    behind = tt;
    order = tt;
  }

  -- The store in which reader `h` has had the inner reader, and keeps it.
  pub kept-Holds :
      (s : Readers R) (h : ℕ) (r r' : R) (log : List (ℕ × Bytes)) (sent : ℕ → Option R)
      → Holds s h r
      → h < s.issued
      → ((c : ℕ) → sent c ≡ none)
      → All (λ e. e.0 ≤ h) log
      → Ascends log
      → Holds
          (record s { delivered = log; state = update s.state h (my_turn r'); sent = sent })
          h
          r'
  kept-Holds s h r r' log sent v l n b o = record {
    place = reading (ground arith) l n;
    passed = λ j m. ground (arith, v.passed j m);
    waits = λ c a m. ground (arith, v.waits c a m);
    fresh = λ j m. ground (arith, v.fresh j m);
    builder = elim v.builder [ inl (z, _, _) ↦ absurd (omega (arith, z)) | inr more ↦ inr more ];
    bound = v.bound;
    behind = b;
    order = o;
  }

  -- The store in which reader `h` has handed the inner reader on.
  pub handed-Holds :
      (s : Readers R) (h : ℕ) (r : R) (sent : ℕ → Option R)
      → Holds s h r
      → h < s.issued
      → ((c : ℕ) → sent c ≡ none)
      → Holds (record s { state = update s.state h empty; sent = update sent h (some r) }) (suc h) r
  handed-Holds s h r sent v l n = record {
    place =
        under_way h refl (ground arith) (λ d m. ground (arith, n d))
          (λ m. ground (arith, v.waits h (omega arith) m));
    passed = λ j m. elim (compare_turns j h) [
      | inl before ↦ ground (arith, v.passed j before)
      | inr (inl here) ↦ ground arith
      | inr (inr after) ↦ absurd (omega arith)
    ];
    waits = λ c a m. ground (arith, v.waits c (omega arith) m);
    fresh = λ j m. ground (arith, v.fresh j m);
    builder = elim v.builder [ inl (z, _, _) ↦ absurd (omega (arith, z)) | inr more ↦ inr more ];
    bound = omega arith;
    behind = All-map _ _ s.delivered (λ e b. omega arith) v.behind;
    order = v.order;
  }

  pub next-Holds : (s : Readers R) (h : ℕ) (r : R) → Holds s h r → Holds (next s) h r
  unfolding next
  next-Holds s h r v = record {
    place = place v.place v.builder;
    passed = λ j m. ground (arith, v.passed j m, v.bound);
    waits = λ c a m. waits c a m v.builder;
    fresh = λ j m. ground (arith, v.fresh j (omega arith));
    builder = inr (s.issued, omega arith, refl);
    bound = omega (arith, v.bound);
    behind = v.behind;
    order = v.order;
  }
    where
      place :
          Place s h r
          → ((s.issued ≡ 0) × (s.inner ≡ first r) × (h ≡ 0))
            ⊎ ((n : ℕ) × (s.issued ≡ suc n) × (s.inner ≡ not_first n))
          → Place (next s) h r
      place (reading m l n) b = reading (ground arith) (omega arith) n
      place (unissued z p i n) b = reading (ground arith) (omega arith) n
      place (under_way c p m n w) (inl (z, _, _)) = absurd (omega (arith, v.bound))
      place (under_way c p m n w) (inr (d, k, i)) = under_way c p m n (λ l.
          elim (compare_turns h s.issued) [
            | inl before ↦ ground (arith, w before)
            | inr (inl edge) ↦ let same : c ≡ d = omega arith in ground arith
            | inr (inr out) ↦ absurd (omega arith)
          ])

      waits :
          (c : ℕ)
          → h ≤ c
          → suc c < s.issued + 1
          → ((s.issued ≡ 0) × (s.inner ≡ first r) × (h ≡ 0))
            ⊎ ((n : ℕ) × (s.issued ≡ suc n) × (s.inner ≡ not_first n))
          → (next s).state (suc c) ≡ waiting c
      waits c a m (inl (z, _, _)) = absurd (omega arith)
      waits c a m (inr (d, k, i)) = elim (compare_turns (suc c) s.issued) [
        | inl before ↦ ground (arith, v.waits c a before)
        | inr (inl edge) ↦ let same : c ≡ d = omega arith in ground arith
        | inr (inr out) ↦ absurd (omega arith)
      ]
