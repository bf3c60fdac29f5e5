-- ===== src/Server/Threads/Clients.antt =====
-- The connections of Client/Connection as those of the threads of the server. A connection is without
-- its stream while a request holds it.
use tiny_http.Prelude.{
  ℕ, ◌≡◌, Bool, true, false, List, Option, none, some, if◌then◌else◌, All, Bool-cases, inl, inr,
}
use tiny_http.Text.{Text, Bytes}
use tiny_http.Io.{Read}
use tiny_http.Util.HeaderValue.{Float}
use tiny_http.Common.HttpVersion.{version, version_gt}
use tiny_http.Request.Create.{Request}
use tiny_http.Client.Connection.{Sink, Connection, Next, next}
use tiny_http.Client.Connection.Ending.{Returns, next-Returns}
use tiny_http.Server.Threads.{System}
use tiny_http.Server.Threads.Runs.{Event, Runs, received, marked}
use tiny_http.Server.Threads.Lifting.{Fine, Yielded, Runs-Fine}
use tiny_http.Request.Answer.{with_notify_sender}

abbrev pub Client : Sink → Type 0 → Type 0
Client sink S = Connection sink.K × Option S

-- What others do to it: they write through its writers, and give the stream back.
pub data Meanwhile (sink : Sink) (S : Type 0) : Client sink S → Client sink S → Type 0 where
  writes :
      {c : Connection sink.K} {o : Option S} (k : sink.K)
      → Meanwhile sink S (c, o) (record c { sink = k }, o)
  returns : {c : Connection sink.K} (s : S) → Meanwhile sink S (c, none) (c, some s)

module _ (float : Float) (date : Text) (encode : Bytes → Bytes) (sink : Sink) {S D : Type 0}
    (source : Read S) (decode : S → D) (undecode : D → S) where
  abbrev pub Outcome : Type 0
  Outcome = Option (Option (Request S D sink.W) × Client sink S)

  abbrev pub repack : Option (Next float date encode sink source decode undecode) → Outcome
  repack none = none
  repack (some (o, c, s)) = some (o, (c, s))

  -- Without the stream, `next` ends where no more request is to come, and waits otherwise.
  unfoldable pub next_client : ℕ → Client sink S → Outcome
  unfolding next
  next_client fuel (c, some s) =
      repack (next float date encode sink source decode undecode fuel c s)
  next_client fuel (c, none) = if c.no_more_requests then some (none, (c, none)) else none

  abbrev pub secure_client : Client sink S → Bool
  secure_client (c, _) = c.secure

  -- A request of a version that the server speaks.
  abbrev pub IsSupported : Request S D sink.W → Type 0
  IsSupported rq = version_gt rq.http_version (version 1 1) ≡ false

  supported :
      (safe : Bool) (rq : Request S D sink.W) → IsSupported rq → IsSupported (marked safe rq)
  unfolding with_notify_sender
  supported true rq h = h
  supported false rq h = h

  repack-Yielded :
      (o : Option (Next float date encode sink source decode undecode))
      → Returns float date encode sink source decode undecode o
      → Yielded IsSupported (repack o)
  repack-Yielded none h = tt
  repack-Yielded (some (none, c, s)) h = tt
  repack-Yielded (some (some rq, c, s)) (h, _) = λ safe. supported safe rq h

  next_client-Yielded : (fuel : ℕ) (c : Client sink S) → Yielded IsSupported (next_client fuel c)
  unfolding next_client
  next_client-Yielded fuel (c, some s) =
      repack-Yielded _ (next-Returns float date encode sink source decode undecode fuel c s)
  next_client-Yielded fuel (c, none) = elim (Bool-cases c.no_more_requests) [
    | inl over ↦ rw over tt
    | inr open' ↦ rw open' tt
  ]

  -- In any history of the threads of a server over the connections of `ClientConnection`, on any
  -- streams, with the writers used and the streams given back at any time, every request that the
  -- application receives has version 1.1 at most.
  pub Runs-IsSupported :
      (fuel : ℕ) {log : List (Event (Client sink S) (Request S D sink.W))}
      {s : System (Client sink S) (Request S D sink.W)}
      → Runs (next_client fuel) secure_client (Meanwhile sink S) log s
      → All (Fine IsSupported) (received log)
  Runs-IsSupported fuel r = Runs-Fine IsSupported (next_client-Yielded fuel) r
