-- ===== src/Util/TaskPool.antt =====
-- src/util/task_pool.rs: the pool of threads. What a thread does under the lock of `todo`, from where
-- it takes the lock to where it starts a task, waits or ends, is one step. Threads are told apart by
-- where they are: spawned and not begun, at the lock, in a wait without or with a timeout, in a task.
pub mod Conserved
use tiny_http.Prelude.{
  ℕ, zero, suc, ◌+◌, ◌-◌, Bool, true, false, not, ◌&&◌, List, [], ◌∷◌, ◌++◌, Option, none, some,
  leb, ◌==◌, if◌then◌else◌,
}

pub record TaskPool (T : Type 0) : Type 0 where
  pub todo : List T
  pub active_tasks : ℕ
  pub waiting_tasks : ℕ
  -- threads that are spawned and not begun, with their first task
  pub fresh : List (Option T)
  pub looking : ℕ
  pub sleeping : ℕ
  pub napping : ℕ
  pub running : List T
  pub finished : List T
  -- tasks that panicked
  pub failed : List T

abbrev min_threads : ℕ
min_threads = 4

abbrev is_nil : {T : Type 0} → List T → Bool
is_nil [] = true
is_nil (_ ∷ _) = false

module _ {T : Type 0} where
  unfoldable pub add_thread : Option T → TaskPool T → TaskPool T
  add_thread initial s = record s { fresh = initial ∷ s.fresh }

  abbrev add_threads : ℕ → TaskPool T → TaskPool T
  add_threads zero s = s
  add_threads (suc n) s = add_threads n (add_thread none s)

  unfoldable pub new : TaskPool T
  unfolding add_thread
  new = add_threads min_threads (record {
    todo = [];
    active_tasks = 0;
    waiting_tasks = 0;
    fresh = [];
    looking = 0;
    sleeping = 0;
    napping = 0;
    running = [];
    finished = [];
    failed = [];
  })

  unfoldable pub spawn : T → TaskPool T → TaskPool T
  unfolding add_thread
  spawn code s =
      if s.waiting_tasks == 0
      then add_thread (some code) s
      else record s { todo = s.todo ++ code ∷ [] }

  -- A fresh thread, which stands between others, registers and goes to its first task, or to the lock.
  unfoldable pub begin : List (Option T) → Option T → List (Option T) → TaskPool T → TaskPool T
  begin before (some code) after s = record s {
    fresh = before ++ after;
    active_tasks = s.active_tasks + 1;
    running = code ∷ s.running;
  }
  begin before none after s = record s {
    fresh = before ++ after;
    active_tasks = s.active_tasks + 1;
    looking = s.looking + 1;
  }

  -- The inner loop up to the wait: a thread that has the lock.
  abbrev next_task : List T → TaskPool T → TaskPool T
  next_task (code ∷ todo) s = record s { todo = todo; running = code ∷ s.running }
  next_task [] s =
      if leb s.active_tasks min_threads
      then record s { sleeping = s.sleeping + 1; waiting_tasks = s.waiting_tasks + 1 }
      else record s { napping = s.napping + 1; waiting_tasks = s.waiting_tasks + 1 }

  -- A thread at the lock gets it.
  unfoldable pub look : TaskPool T → TaskPool T
  look s = let s' = record s { looking = s.looking - 1 } in next_task s'.todo s'

  -- A wait without a timeout ends.
  unfoldable pub wake : TaskPool T → TaskPool T
  wake s =
      let s' = record s { sleeping = s.sleeping - 1; waiting_tasks = s.waiting_tasks - 1 } in
      next_task s'.todo s'

  -- A wait with a timeout ends: by it, if `received` is false.
  unfoldable pub wake_nap : Bool → TaskPool T → TaskPool T
  wake_nap received s =
      let s' = record s { napping = s.napping - 1; waiting_tasks = s.waiting_tasks - 1 } in
      if not received && is_nil s.todo
      then record s' { active_tasks = s.active_tasks - 1 }
      else next_task s'.todo s'

  -- A task, which stands between others, returns; its thread goes to the lock.
  unfoldable pub finish : List T → T → List T → TaskPool T → TaskPool T
  finish before code after s = record s {
    running = before ++ after;
    finished = code ∷ s.finished;
    looking = s.looking + 1;
  }

  -- A task, which stands between others, panics: its thread unwinds, and the registration is dropped.
  unfoldable pub unwind : List T → T → List T → TaskPool T → TaskPool T
  unwind before code after s = record s {
    running = before ++ after;
    failed = code ∷ s.failed;
    active_tasks = s.active_tasks - 1;
  }

  -- `drop` of the pool.
  unfoldable pub drop : TaskPool T → TaskPool T
  drop s = record s { active_tasks = 999_999_999 }
