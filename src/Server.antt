-- ===== src/Server.antt =====
-- src/lib.rs: how requests get from the threads of the connections to the application. Binding,
-- accepting and the threads themselves are the operating system's.
pub mod Receive
pub mod Start
pub mod Started
pub mod Accept
pub mod Threads
use tiny_http.Prelude.{ℕ, Bool, List, Option, none, some, Result, ok, err, if◌then◌else◌}
use tiny_http.Io.{ErrorKind, other}
use tiny_http.Util.MessagesQueue.{
  Control, Wait, with_capacity, push, unblock, pop, try_pop, pop_timeout,
}
use tiny_http.Request.Create.{Request}
use tiny_http.Request.Answer.{with_notify_sender}

pub data Message (Rq : Type 0) : Type 0 where
  error : ErrorKind → Message Rq
  new_request : Rq → Message Rq

abbrev pub Messages : Type 0 → Type 0
Messages Rq = List (Control (Message Rq))

-- The queue that `from_listener` makes.
unfoldable pub no_messages : (Rq : Type 0) → Messages Rq
unfolding with_capacity
no_messages Rq = with_capacity 8

-- What the accept thread does with an error.
unfoldable pub report : {Rq : Type 0} → ErrorKind → Messages Rq → Messages Rq
unfolding push
report e messages = push (error e) messages

-- What the thread of a connection does with a request; over TLS it asks to be told of the answer,
-- and then waits for it.
unfoldable pub announce :
    {S D W : Type 0} → Bool → Request S D W → Messages (Request S D W) → Messages (Request S D W)
unfolding push
announce secure rq messages =
    if secure
    then push (new_request (with_notify_sender rq)) messages
    else push (new_request rq) messages

module _ {Rq : Type 0} where
  abbrev recv_arms :
      Option (Option (Message Rq) × Messages Rq) → Option (Result ErrorKind Rq × Messages Rq)
  recv_arms none = none
  recv_arms (some (some (error e), messages)) = some (err e, messages)
  recv_arms (some (some (new_request rq), messages)) = some (ok rq, messages)
  recv_arms (some (none, messages)) = some (err other, messages)

  unfoldable pub recv : Messages Rq → Option (Result ErrorKind Rq × Messages Rq)
  unfolding pop
  recv messages = recv_arms (pop messages)

  abbrev optional : Option (Message Rq) → Result ErrorKind (Option Rq)
  optional (some (error e)) = err e
  optional (some (new_request rq)) = ok (some rq)
  optional none = ok none

  abbrev optional_after :
      Option (Option (Message Rq) × Messages Rq)
      → Option (Result ErrorKind (Option Rq) × Messages Rq)
  optional_after none = none
  optional_after (some (message, messages)) = some (optional message, messages)

  unfoldable pub recv_timeout :
      ℕ
      → List (Wait (Message Rq))
      → Messages Rq
      → Option (Result ErrorKind (Option Rq) × Messages Rq)
  unfolding pop_timeout
  recv_timeout timeout waits messages = optional_after (pop_timeout timeout waits messages)

  unfoldable pub try_recv : Messages Rq → Result ErrorKind (Option Rq) × Messages Rq
  unfolding try_pop
  try_recv messages = let (message, messages') = try_pop messages in (optional message, messages')

  unfoldable pub unblock_one : Messages Rq → Messages Rq
  unfolding unblock
  unblock_one messages = unblock messages

  abbrev ok_only : Option (Result ErrorKind Rq × Messages Rq) → Option (Option Rq × Messages Rq)
  ok_only none = none
  ok_only (some (ok rq, messages)) = some (some rq, messages)
  ok_only (some (err e, messages)) = some (none, messages)

  -- `IncomingRequests::next`.
  unfoldable pub incoming_next : Messages Rq → Option (Option Rq × Messages Rq)
  unfolding recv
  incoming_next messages = ok_only (recv messages)
