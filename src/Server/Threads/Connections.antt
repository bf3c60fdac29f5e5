-- ===== src/Server/Threads/Connections.antt =====
-- What each connection has asked, and how often it was notified.
use tiny_http.Prelude.{
  ℕ, suc, ◌≤◌, ◌≡◌, ◌≢◌, refl, sym, ap, subst, ◌∙◌, Bool, true, false, List, [], ◌∷◌, ◌++◌, Option,
  none, some, length, arith, Bool-cases, inl, inr, ◌==◌, ==_refl, ==_iff,
}
use tiny_http.Request.Create.{Request}
use tiny_http.Server.Accept.{Accepted, client, skipped, failed, crashed}
use tiny_http.Server.Threads.{
  Thread, absent, queued, serving, waiting, gone, System, round, begin, notified, serve, set,
}
use tiny_http.Server.Threads.Runs.{
  Event, opens, fails, asks, tells, serve_event, round_event, opened, asked, told, Yields,
  begins_with, and_asks, and_changes,
}

length-concat : {A : Type 0} (xs : List A) (x : A) → length (xs ++ x ∷ []) ≡ suc (length xs)
length-concat [] x = refl
length-concat (y ∷ xs) x = ap suc (length-concat xs x)

-- What a history knows of a connection: its client, its requests, and how often it was notified.
abbrev Facts : Type 0 → Type 0 → Type 0
Facts C Rq = Option C × List Rq × ℕ

abbrev pub facts : {C Rq : Type 0} → ℕ → List (Event C Rq) → Facts C Rq
facts i log = (opened i log, asked i log, told i log)

module _ {C Rq : Type 0} (next : C → Option (Option Rq × C)) (secure : C → Bool)
    (meanwhile : C → C → Type 0) where
  -- How they fit to where its task is. A task that is not secure is not notified.
  abbrev pub Traced : Facts C Rq → Thread C → Type 0
  Traced (o, rqs, k) absent = (o ≡ none) × (rqs ≡ []) × (k ≡ 0)
  Traced (o, rqs, k) (queued c) = (o ≡ some c) × (rqs ≡ []) × (k ≡ 0)
  Traced (o, rqs, k) (serving safe d) =
      (c : C) × (o ≡ some c)
      × Yields next meanwhile c rqs d
      × (safe ≡ secure c)
      × (safe ≡ true → k ≡ length rqs)
  Traced (o, rqs, k) (waiting d) =
      (c : C) × (o ≡ some c)
      × Yields next meanwhile c rqs d
      × (true ≡ secure c)
      × (suc k ≡ length rqs)
  Traced (o, rqs, k) (gone e) =
      (c : C) × (d : C) × (o ≡ some c)
      × Yields next meanwhile c rqs d
      × (next d ≡ some (none, e))
      × (secure c ≡ true → k ≡ length rqs)

  pub record Follows (log : List (Event C Rq)) (s : System C Rq) : Type 0 where
    pub fresh : (i : ℕ) → s.spawned ≤ i → s.thread i ≡ absent
    pub each : (i : ℕ) → Traced (facts i log) (s.thread i)

  -- A step at connection `i`.
  step_at :
      (i : ℕ) (a : Thread C) (log log' : List (Event C Rq)) (thread : ℕ → Thread C)
      → ((j : ℕ) → Traced (facts j log) (thread j))
      → ((j : ℕ) → (j == i) ≡ false → facts j log' ≡ facts j log)
      → Traced (facts i log') a
      → (j : ℕ) → Traced (facts j log') (set thread i a j)
  step_at i a log log' thread each other here j = elim (Bool-cases (j == i)) [
    | inl same ↦ rw same (subst (λ k. Traced (facts k log') a) (sym ((==_iff j i).0 same)) here)
    | inr differs ↦ rw (differs, other j differs) (each j)
  ]

  -- A step that no connection has part in.
  pub aside :
      (log log' : List (Event C Rq)) (s t : System C Rq)
      → Follows log s
      → ((j : ℕ) → facts j log' ≡ facts j log)
      → t.spawned ≡ s.spawned
      → t.thread ≡ s.thread
      → Follows log' t
  aside log log' s t v same n e = record {
    fresh = λ i h. rw e (v.fresh i (rw n at h));
    each = λ i. rw (e, same i) (v.each i);
  }

  pub round-Follows :
      (r : Accepted C) (log : List (Event C Rq)) (s : System C Rq)
      → Follows log s
      → Follows (round_event s.spawned r log) (round r s)
  unfolding round
  round-Follows (client c) log s v = record {
    fresh = λ i h. ground (arith, v.fresh i);
    each =
        step_at s.spawned (queued c) log (opens s.spawned c ∷ log) s.thread v.each
          (λ j e. rw e refl) (let (x, y) = unasked in rw (==_refl s.spawned) (refl, x, y));
  }
    where
      unasked : (asked s.spawned log ≡ []) × (told s.spawned log ≡ 0)
      unasked =
          let (_, none_asked, none_told) =
            rw (v.fresh s.spawned (omega arith)) at (v.each s.spawned) in
          (none_asked, none_told)
  round-Follows skipped log s v = aside log log s _ v (λ j. refl) refl refl
  round-Follows (failed e) log s v = aside log (fails e ∷ log) s _ v (λ j. refl) refl refl
  round-Follows crashed log s v = aside log log s _ v (λ j. refl) refl refl

  -- A connection that is in use is no fresh one.
  used :
      (i : ℕ) (a b : Thread C) (log log' : List (Event C Rq)) (s : System C Rq)
      → Follows log s
      → s.thread i ≡ b
      → b ≢ absent
      → ((j : ℕ) → (j == i) ≡ false → facts j log' ≡ facts j log)
      → (Traced (facts i log) b → Traced (facts i log') a)
      → ((j : ℕ) → s.spawned ≤ j → set s.thread i a j ≡ absent)
        × ((j : ℕ) → Traced (facts j log') (set s.thread i a j))
  used i a b log log' s v here live other moves = (
    λ j h. elim (Bool-cases (j == i)) [
      | inl same ↦
          let mine = (==_iff j i).0 same in absurd (live (sym here ∙ rw (← mine) (v.fresh j h)))
      | inr differs ↦ rw differs (v.fresh j h)
    ],
    step_at i a log log' s.thread v.each other (moves (rw here at (v.each i))),
  )

  pub begin-Follows :
      (i : ℕ) (c : C) (log : List (Event C Rq)) (s : System C Rq)
      → Follows log s
      → s.thread i ≡ queued c
      → Follows log (begin secure i c s)
  unfolding begin
  begin-Follows i c log s v e =
      let (fresh, each) =
        used i (serving (secure c) c) (queued c) log log s v e (λ x. absurd cc) (λ j x. refl)
          (λ (o, none_asked, none_told).
            (c, o, rw none_asked begins_with, refl, λ x. rw (none_asked, none_told) refl)) in
      record { fresh = fresh; each = each }

  pub notified-Follows :
      (i : ℕ) (d : C) (log : List (Event C Rq)) (s : System C Rq)
      → Follows log s
      → s.thread i ≡ waiting d
      → Follows (tells i ∷ log) (notified i d s)
  unfolding notified
  notified-Follows i d log s v e =
      let (fresh, each) =
        used i (serving true d) (waiting d) log (tells i ∷ log) s v e (λ x. absurd cc)
          (λ j x. rw x refl)
          (λ (c, o, yields, safe, count). (c, o, yields, safe, λ x. rw (==_refl i) count)) in
      record { fresh = fresh; each = each }

  pub changes-Follows :
      (i : ℕ) (safe : Bool) (c d : C) (log : List (Event C Rq)) (s : System C Rq)
      → Follows log s
      → s.thread i ≡ serving safe c
      → meanwhile c d
      → Follows log (record s { thread = set s.thread i (serving safe d) })
  changes-Follows i safe c d log s v e h =
      let (fresh, each) =
        used i (serving safe d) (serving safe c) log log s v e (λ x. absurd cc) (λ j x. refl)
          (λ (b, o, yields, same, count). (b, o, and_changes yields h, same, count)) in
      record { fresh = fresh; each = each }

module _ {C S D W : Type 0} (next : C → Option (Option (Request S D W) × C)) (secure : C → Bool)
    (meanwhile : C → C → Type 0) where
  pub serve-Follows :
      (i : ℕ) (safe : Bool) (d : C) (o : Option (Request S D W) × C)
      (log : List (Event C (Request S D W))) (s : System C (Request S D W))
      → Follows next secure meanwhile log s
      → s.thread i ≡ serving safe d
      → next d ≡ some o
      → Follows next secure meanwhile (serve_event i safe o log) (serve i safe o s)
  unfolding serve
  serve-Follows i safe d (none, e) log s v here h =
      let (fresh, each) =
        used next secure meanwhile i (gone e) (serving safe d) log log s v here (λ x. absurd cc)
          (λ j x. refl)
          (λ (c, o, yields, same, count). (c, d, o, yields, h, λ x. count (same ∙ x))) in
      record { fresh = fresh; each = each }
  serve-Follows i true d (some rq, e) log s v here h =
      let (fresh, each) =
        used next secure meanwhile i (waiting e) (serving true d) log (asks i true rq ∷ log) s v
          here (λ x. absurd cc) (λ j x. rw x refl)
          (λ (c, o, yields, same, count). (
            c,
            o,
            rw (==_refl i) (and_asks rq yields h),
            same,
            rw (==_refl i, length-concat (asked i log) rq) (ap suc (count refl)),
          )) in
      record { fresh = fresh; each = each }
  serve-Follows i false d (some rq, e) log s v here h =
      let (fresh, each) =
        used next secure meanwhile i (serving false e) (serving false d) log (asks i false rq ∷ log)
          s v here (λ x. absurd cc) (λ j x. rw x refl)
          (λ (c, o, yields, same, count).
            (c, o, rw (==_refl i) (and_asks rq yields h), same, λ x. absurd cc)) in
      record { fresh = fresh; each = each }
