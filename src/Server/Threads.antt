-- ===== src/Server/Threads.antt =====
-- src/lib.rs: the accept thread and the threads of the connections, over the state that they share.
-- What a thread does from one wait to the next is one function. A connection is an iterator over its
-- requests, `next`, as `ClientConnection` is one.
pub mod Runs
pub mod Connections
pub mod Order
pub mod Ending
pub mod Lifting
pub mod Clients
use tiny_http.Prelude.{ℕ, ◌+◌, Bool, true, false, Option, none, some, if◌then◌else◌, ◌==◌}
use tiny_http.Io.{ErrorKind}
use tiny_http.Request.Create.{Request}
use tiny_http.Server.{Messages, no_messages, report, announce, unblock_one}
use tiny_http.Server.Accept.{Accepted, client, skipped, failed, crashed}

-- Where the accept thread is: before the test of its loop, in `accept`, or at its end.
pub data Acceptor : Type 0 where
  testing accepting ended : Acceptor

-- Where the task of a connection is: in the pool, at the head of its loop, which is one of the two by
-- whether it is secure, in `receiver.recv()`, or at its end.
pub data Thread (C : Type 0) : Type 0 where
  absent : Thread C
  queued : C → Thread C
  serving : Bool → C → Thread C
  waiting : C → Thread C
  gone : C → Thread C

pub record System (C Rq : Type 0) : Type 0 where
  pub close : Bool
  pub messages : Messages Rq
  pub acceptor : Acceptor
  pub spawned : ℕ
  pub thread : ℕ → Thread C

abbrev pub set : {A : Type 0} → (ℕ → A) → ℕ → A → ℕ → A
set f i a j = if j == i then a else f j

-- What `from_listener` leaves running.
unfoldable pub started : {C Rq : Type 0} → System C Rq
unfolding no_messages
started {Rq = Rq} = record {
  close = false;
  messages = no_messages Rq;
  acceptor = testing;
  spawned = 0;
  thread = λ _. absent;
}

module _ {C Rq : Type 0} where
  -- The test of the loop of the accept thread.
  unfoldable pub test_close : System C Rq → System C Rq
  test_close s = record s { acceptor = if s.close then ended else accepting }

  -- The rest of a round: the task of the client is spawned, or the error is reported.
  unfoldable pub round : Accepted C → System C Rq → System C Rq
  unfolding report
  round (client c) s = record s {
    acceptor = testing;
    spawned = s.spawned + 1;
    thread = set s.thread s.spawned (queued c);
  }
  round skipped s = record s { acceptor = testing }
  round (failed e) s = record s { acceptor = ended; messages = report e s.messages }
  round crashed s = record s { acceptor = ended }

  -- `client.secure()` decides between the two loops of the task.
  unfoldable pub begin : (C → Bool) → ℕ → C → System C Rq → System C Rq
  begin secure i c s = record s { thread = set s.thread i (serving (secure c) c) }

  -- The message that an answer sends.
  unfoldable pub notified : ℕ → C → System C Rq → System C Rq
  notified i c s = record s { thread = set s.thread i (serving true c) }

  -- `Server::unblock`, and the flag that the destructor sets.
  unfoldable pub unblocking : System C Rq → System C Rq
  unfolding unblock_one
  unblocking s = record s { messages = unblock_one s.messages }

  unfoldable pub closing : System C Rq → System C Rq
  closing s = record s { close = true }

abbrev pub after : {C : Type 0} → Bool → C → Thread C
after secure c = if secure then waiting c else serving false c

module _ {C S D W : Type 0} where
  -- A round of the loop of the task, with what `next` returned.
  unfoldable pub serve :
      ℕ → Bool → Option (Request S D W) × C → System C (Request S D W) → System C (Request S D W)
  unfolding announce
  serve i secure (some rq, c) s = record s {
    messages = announce secure rq s.messages;
    thread = set s.thread i (after secure c);
  }
  serve i secure (none, c) s = record s { thread = set s.thread i (gone c) }
