-- ===== src/Util/TaskPool/Conserved.antt =====
-- No task is lost, run twice, or left without a thread.
use tiny_http.Prelude.{
  ℕ, ◌+◌, ◌-◌, ◌<◌, ◌≡◌, refl, ap, Bool, true, not, ◌&&◌, List, [], ◌∷◌, ◌++◌, Option, none, some,
  leb, ◌==◌, if◌then◌else◌, arith, count_if, count_if-append, length, Bool-cases, inl, inr,
}
use tiny_http.Util.TaskPool.{
  TaskPool, min_threads, is_nil, add_thread, new, spawn, begin, next_task, look, wake, wake_nap,
  finish, unwind, drop,
}

module _ {T : Type 0} where
  -- The histories of a pool that was given these tasks, the last one first.
  pub data Runs : List T → TaskPool T → Type 0 where
    starts : Runs [] new
    spawns : {ts : List T} {s : TaskPool T} (code : T) → Runs ts s → Runs (code ∷ ts) (spawn code s)
    begins :
        {ts : List T} {s : TaskPool T} (before after : List (Option T)) (o : Option T)
        → Runs ts s
        → s.fresh ≡ before ++ o ∷ after
        → Runs ts (begin before o after s)
    looks : {ts : List T} {s : TaskPool T} → Runs ts s → 0 < s.looking → Runs ts (look s)
    wakes : {ts : List T} {s : TaskPool T} → Runs ts s → 0 < s.sleeping → Runs ts (wake s)
    naps_end :
        {ts : List T} {s : TaskPool T} (received : Bool)
        → Runs ts s
        → 0 < s.napping
        → Runs ts (wake_nap received s)
    finishes :
        {ts : List T} {s : TaskPool T} (before after : List T) (code : T)
        → Runs ts s
        → s.running ≡ before ++ code ∷ after
        → Runs ts (finish before code after s)
    panics :
        {ts : List T} {s : TaskPool T} (before after : List T) (code : T)
        → Runs ts s
        → s.running ≡ before ++ code ∷ after
        → Runs ts (unwind before code after s)
    drops : {ts : List T} {s : TaskPool T} → Runs ts s → Runs ts (drop s)

  abbrev one : (T → Bool) → T → ℕ
  one p t = if p t then 1 else 0

  abbrev first_task : (T → Bool) → Option T → ℕ
  first_task p none = 0
  first_task p (some t) = one p t

  -- The first tasks of the threads that have not begun.
  abbrev pub count_fresh : (T → Bool) → List (Option T) → ℕ
  count_fresh p [] = 0
  count_fresh p (o ∷ os) = first_task p o + count_fresh p os

  count_fresh-append :
      (p : T → Bool) (os ps : List (Option T))
      → count_fresh p (os ++ ps) ≡ count_fresh p os + count_fresh p ps
  count_fresh-append p [] ps = omega arith
  count_fresh-append p (o ∷ os) ps = omega (arith, count_fresh-append p os ps)

  -- The tasks of each kind, wherever they are.
  abbrev pub held : (T → Bool) → TaskPool T → ℕ
  held p s =
      count_if p s.todo
      + count_fresh p s.fresh
      + count_if p s.running
      + count_if p s.finished
      + count_if p s.failed

  -- The threads that have begun.
  abbrev pub alive : TaskPool T → ℕ
  alive s = s.looking + s.sleeping + s.napping + length s.running

  record Sound (p : T → Bool) (ts : List T) (s : TaskPool T) : Type 0 where
    tasks : count_if p ts ≡ held p s
    waits : s.waiting_tasks ≡ s.sleeping + s.napping
    tended : 0 < length s.todo → 0 < alive s + length s.failed

  next_task-Sound :
      (p : T → Bool) (ts : List T) (s : TaskPool T) (todo : List T)
      → todo ≡ s.todo
      → count_if p ts ≡ held p s
      → s.waiting_tasks ≡ s.sleeping + s.napping
      → Sound p ts (next_task todo s)
  next_task-Sound p ts s (t ∷ todo) e c w = record {
    tasks = let q = ap (count_if p) e in ground (arith, q);
    waits = w;
    tended = λ h. omega arith;
  }
  next_task-Sound p ts s [] e c w = elim (Bool-cases (leb s.active_tasks min_threads)) [
    | inl few ↦ rw few (record { tasks = c; waits = omega arith; tended = λ h. omega arith })
    | inr many ↦ rw many (record { tasks = c; waits = omega arith; tended = λ h. omega arith })
  ]

  spawn-Sound :
      (p : T → Bool) (ts : List T) (code : T) (s : TaskPool T)
      → Sound p ts s
      → Sound p (code ∷ ts) (spawn code s)
  unfolding spawn add_thread
  spawn-Sound p ts code s v = elim (Bool-cases (s.waiting_tasks == 0)) [
    | inl nobody ↦ rw nobody (record {
      tasks = ground (arith, v.tasks);
      waits = ground (arith, v.waits);
      tended = v.tended;
    })
    | inr somebody ↦ rw somebody (record {
      tasks = ground (arith, v.tasks, count_if-append p s.todo (code ∷ []));
      waits = v.waits;
      tended = λ h. ground (arith, v.waits);
    })
  ]

  begin-Sound :
      (p : T → Bool) (ts : List T) (before after : List (Option T)) (o : Option T) (s : TaskPool T)
      → s.fresh ≡ before ++ o ∷ after
      → Sound p ts s
      → Sound p ts (begin before o after s)
  unfolding begin
  begin-Sound p ts before after (some code) s e v = record {
    tasks = ground (
      arith,
      v.tasks,
      ap (count_fresh p) e,
      count_fresh-append p before (some code ∷ after),
      count_fresh-append p before after,
    );
    waits = v.waits;
    tended = λ h. omega arith;
  }
  begin-Sound p ts before after none s e v = record {
    tasks = omega (
      arith,
      v.tasks,
      ap (count_fresh p) e,
      count_fresh-append p before (none ∷ after),
      count_fresh-append p before after,
    );
    waits = v.waits;
    tended = λ h. omega arith;
  }

  finish-Sound :
      (p : T → Bool) (ts before after : List T) (code : T) (s : TaskPool T)
      → s.running ≡ before ++ code ∷ after
      → Sound p ts s
      → Sound p ts (finish before code after s)
  unfolding finish
  finish-Sound p ts before after code s e v = record {
    tasks = ground (
      arith,
      v.tasks,
      ap (count_if p) e,
      count_if-append p before (code ∷ after),
      count_if-append p before after,
    );
    waits = v.waits;
    tended = λ h. omega arith;
  }

  unwind-Sound :
      (p : T → Bool) (ts before after : List T) (code : T) (s : TaskPool T)
      → s.running ≡ before ++ code ∷ after
      → Sound p ts s
      → Sound p ts (unwind before code after s)
  unfolding unwind
  unwind-Sound p ts before after code s e v = record {
    tasks = ground (
      arith,
      v.tasks,
      ap (count_if p) e,
      count_if-append p before (code ∷ after),
      count_if-append p before after,
    );
    waits = v.waits;
    tended = λ h. omega arith;
  }

  wake_nap-Sound :
      (p : T → Bool) (ts : List T) (received : Bool) (s : TaskPool T)
      → 0 < s.napping
      → Sound p ts s
      → Sound p ts (wake_nap received s)
  unfolding wake_nap
  wake_nap-Sound p ts received s l v = elim (Bool-cases (not received && is_nil s.todo)) [
    | inl over ↦ rw over (record {
      tasks = v.tasks;
      waits = omega (arith, v.waits);
      tended = λ h. absurd (nothing_left s.todo (ground arith) h);
    })
    | inr on ↦ rw on (next_task-Sound p ts _ s.todo refl v.tasks (omega (arith, v.waits)))
  ]
    where
      nothing_left : (todo : List T) → is_nil todo ≡ true → 0 < length todo → ⊥
      nothing_left [] e h = omega arith
      nothing_left (t ∷ todo) e h = cc e

  Runs-Sound : (p : T → Bool) {ts : List T} {s : TaskPool T} → Runs ts s → Sound p ts s
  unfolding new add_thread look wake drop
  Runs-Sound p starts = record { tasks = refl; waits = refl; tended = λ h. absurd (omega arith) }
  Runs-Sound p (spawns {ts} {s} code r) = spawn-Sound p ts code s (Runs-Sound p r)
  Runs-Sound p (begins {ts} {s} before after o r e) =
      begin-Sound p ts before after o s e (Runs-Sound p r)
  Runs-Sound p (looks {ts} {s} r l) =
      let v = Runs-Sound p r in
      next_task-Sound p ts (record s { looking = s.looking - 1 }) s.todo refl v.tasks v.waits
  Runs-Sound p (wakes {ts} {s} r l) =
      let v = Runs-Sound p r in
      next_task-Sound p ts
        (record s { sleeping = s.sleeping - 1; waiting_tasks = s.waiting_tasks - 1 }) s.todo refl
        v.tasks (omega (arith, v.waits))
  Runs-Sound p (naps_end {ts} {s} received r l) = wake_nap-Sound p ts received s l (Runs-Sound p r)
  Runs-Sound p (finishes {ts} {s} before after code r e) =
      finish-Sound p ts before after code s e (Runs-Sound p r)
  Runs-Sound p (panics {ts} {s} before after code r e) =
      unwind-Sound p ts before after code s e (Runs-Sound p r)
  Runs-Sound p (drops {ts} {s} r) =
      let v = Runs-Sound p r in record { tasks = v.tasks; waits = v.waits; tended = v.tended }

  -- In any history of the pool, with tasks that return or panic, of any kind of tasks exactly as
  -- many were spawned as are queued, stand at a fresh thread, run, have finished, or have panicked:
  -- none is lost or run twice. And where a task is queued, a thread that has begun has not ended,
  -- unless a task has panicked.
  pub Runs-held :
      (p : T → Bool) {ts : List T} {s : TaskPool T}
      → Runs ts s
      → (count_if p ts ≡ held p s) × (0 < length s.todo → 0 < alive s + length s.failed)
  Runs-held p r = let v = Runs-Sound p r in (v.tasks, v.tended)
