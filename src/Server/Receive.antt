-- ===== src/Server/Receive.antt =====
-- The ways to receive agree, and requests are received in the order in which they were announced.
use tiny_http.Prelude.{
  ℕ, ◌≡◌, refl, ap, ◌∙◌, Bool, true, false, List, [], ◌∷◌, ◌++◌, append_assoc, append-nil, Option,
  none, some, Result, ok, err, if◌then◌else◌, map,
}
use tiny_http.Io.{ErrorKind, other}
use tiny_http.Util.MessagesQueue.{Control, elem, unblocked, Wait, push, pop, try_pop, pop_timeout}
use tiny_http.Request.Create.{Request}
use tiny_http.Request.Answer.{with_notify_sender}
use tiny_http.Server.{
  Message, error, new_request, Messages, no_messages, announce, recv, recv_timeout, try_recv,
  incoming_next,
}

module _ {Rq : Type 0} where
  -- What the message at the front means to who does not wait for a request.
  abbrev pub outcome : Control (Message Rq) → Result ErrorKind (Option Rq)
  outcome (elem (error e)) = err e
  outcome (elem (new_request rq)) = ok (some rq)
  outcome unblocked = ok none

  -- And to who does.
  abbrev pub demanded : Control (Message Rq) → Result ErrorKind Rq
  demanded (elem (error e)) = err e
  demanded (elem (new_request rq)) = ok rq
  demanded unblocked = err other

  -- On any queue that is not empty, `recv`, `try_recv` and `recv_timeout` take the message at the
  -- front and agree on it: an error is returned by all, a request by all, and an `unblock` is an
  -- error of kind `Other` for `recv` and no request for the others. On the empty queue `recv`
  -- waits, and `try_recv` returns no request.
  pub recv-try_recv :
      (timeout : ℕ) (waits : List (Wait (Message Rq))) (c : Control (Message Rq)) (q : Messages Rq)
      → (recv (c ∷ q) ≡ some (demanded c, q))
        × (try_recv (c ∷ q) ≡ (outcome c, q))
        × (recv_timeout timeout waits (c ∷ q) ≡ some (outcome c, q))
        × (recv {Rq = Rq} [] ≡ none)
        × (try_recv {Rq = Rq} [] ≡ (ok none, []))
  unfolding recv try_recv recv_timeout pop try_pop pop_timeout
  recv-try_recv timeout waits (elem (error e)) q = (refl, refl, refl, refl, refl)
  recv-try_recv timeout waits (elem (new_request rq)) q = (refl, refl, refl, refl, refl)
  recv-try_recv timeout waits unblocked q = (refl, refl, refl, refl, refl)

  abbrev yielded : Option (Option Rq × Messages Rq) → (Messages Rq → List Rq) → List Rq
  yielded none later = []
  yielded (some (none, q)) later = []
  yielded (some (some rq, q)) later = rq ∷ later q

  -- What a loop over the incoming requests gets, up to a wait or the end; a round for each message.
  unfoldable pub incoming : List (Control (Message Rq)) → Messages Rq → List Rq
  incoming [] q = []
  incoming (_ ∷ rounds) q = yielded (incoming_next q) (incoming rounds)

abbrev pub announced : {S D W : Type 0} → Bool → List (Request S D W) → List (Request S D W)
announced secure = map (λ rq. if secure then with_notify_sender rq else rq)

module _ {S D W : Type 0} where
  unfoldable pub announce_all :
      Bool → List (Request S D W) → Messages (Request S D W) → Messages (Request S D W)
  announce_all secure [] q = q
  announce_all secure (rq ∷ rqs) q = announce_all secure rqs (announce secure rq q)

  abbrev wrapped : List (Request S D W) → Messages (Request S D W)
  wrapped = map (λ rq. elem (new_request rq))

  announce_all-wrapped :
      (secure : Bool) (rqs : List (Request S D W)) (q : Messages (Request S D W))
      → announce_all secure rqs q ≡ q ++ wrapped (announced secure rqs)
  unfolding announce_all announce push
  announce_all-wrapped secure [] q = rw append-nil
  announce_all-wrapped true (rq ∷ rqs) q =
      announce_all-wrapped true rqs _
      ∙ append_assoc q (elem (new_request (with_notify_sender rq)) ∷ []) _
  announce_all-wrapped false (rq ∷ rqs) q =
      announce_all-wrapped false rqs _ ∙ append_assoc q (elem (new_request rq) ∷ []) _

  incoming-wrapped : (rqs : List (Request S D W)) → incoming (wrapped rqs) (wrapped rqs) ≡ rqs
  unfolding incoming incoming_next recv pop
  incoming-wrapped [] = refl
  incoming-wrapped (rq ∷ rqs) = ap (◌∷◌ rq) (incoming-wrapped rqs)

  -- If any requests are announced one after the other on the queue of a new server, a loop over the
  -- incoming requests gets exactly these, in that order; over TLS each with its request to be
  -- notified.
  pub incoming-announce_all :
      (secure : Bool) (rqs : List (Request S D W))
      → incoming
          (announce_all secure rqs (no_messages (Request S D W)))
          (announce_all secure rqs (no_messages (Request S D W)))
        ≡ announced secure rqs
  unfolding no_messages
  incoming-announce_all secure rqs =
      rw (announce_all-wrapped secure rqs []) (incoming-wrapped (announced secure rqs))
