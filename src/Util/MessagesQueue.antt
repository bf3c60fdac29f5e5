-- ===== src/Util/MessagesQueue.antt =====
-- src/util/messages_queue.rs: the queue between the connection threads and the application. The
-- lock makes each operation atomic; a call that waits on the condition variable is `none`.
pub mod History
pub mod Timeout
use tiny_http.Prelude.{
  ℕ, ◌+◌, ◌-◌, Bool, true, false, ◌||◌, List, [], ◌∷◌, ◌++◌, Option, none, some, if◌then◌else◌, ltb,
}

pub data Control {ℓ} (A : Type ℓ) : Type ℓ where
  elem : A → Control A
  unblocked : Control A

-- What happens in one wait of `pop_timeout`: the queue when the lock is taken again, how long the
-- wait took, in nanoseconds, and whether it ended by the timeout.
pub record Wait {ℓ} (A : Type ℓ) : Type ℓ where
  pub queue : List (Control A)
  pub slept : ℕ
  pub timed_out : Bool

-- `pop_timeout` over the waits that the environment makes of it; `none` means that it waits still.
module _ {ℓ} {A : Type ℓ} where
  -- `with_capacity`: a `VecDeque` starts empty, and grows as it must.
  unfoldable pub with_capacity : ℕ → List (Control A)
  with_capacity n = []

  unfoldable pub push : A → List (Control A) → List (Control A)
  push value queue = queue ++ elem value ∷ []

  unfoldable pub unblock : List (Control A) → List (Control A)
  unblock queue = queue ++ unblocked ∷ []

  -- One pass of the loop of `pop`: the value that is returned, or `none` to wait again.
  unfoldable pub pop : List (Control A) → Option (Option A × List (Control A))
  pop [] = none
  pop (elem value ∷ queue) = some (some value, queue)
  pop (unblocked ∷ queue) = some (none, queue)

  unfoldable pub try_pop : List (Control A) → Option A × List (Control A)
  try_pop [] = (none, [])
  try_pop (elem value ∷ queue) = (some value, queue)
  try_pop (unblocked ∷ queue) = (none, queue)

  unfoldable pub pop_timeout :
      ℕ → List (Wait A) → List (Control A) → Option (Option A × List (Control A))
  pop_timeout duration waits (elem value ∷ queue) = some (some value, queue)
  pop_timeout duration waits (unblocked ∷ queue) = some (none, queue)
  pop_timeout duration [] [] = none
  pop_timeout duration (w ∷ waits) [] =
      let left = duration - w.slept in
      let again = pop_timeout left waits w.queue in
      if w.timed_out || ltb left 1_000_000 then some (none, w.queue) else again
