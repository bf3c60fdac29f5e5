-- ===== src/Request/Notify.antt =====
-- src/request.rs: `NotifyOnDrop`, which wraps what `upgrade` and `into_writer` return where somebody
-- waits for the end of the answer. The channel is the number of messages under way and whether its
-- receiver is there.
use tiny_http.Prelude.{ℕ, ◌+◌, Bool, Result, ok, err, if◌then◌else◌}
use tiny_http.Io.{Fault, panic, Read, Write}

pub record Channel : Type 0 where
  pub under_way : ℕ
  pub listened : Bool

pub record NotifyOnDrop (R : Type 0) : Type 0 where
  pub sender : Channel
  pub inner : R

-- `Sender::send`, with the `unwrap`.
unfoldable pub send : Channel → Result Fault (Unit {0}) × Channel
send c = if c.listened then (ok tt, record c { under_way = c.under_way + 1 }) else (err panic, c)

module _ {R : Type 0} where
  unfoldable pub notify_read : Read R → Read (NotifyOnDrop R)
  notify_read r = record {
    read = λ n s. let (out, inner) = r.read n s.inner in (out, record s { inner = inner });
  }

  unfoldable pub notify_write : Write R → Write (NotifyOnDrop R)
  notify_write w = record {
    write_all =
        λ b s. let (out, inner) = w.write_all b s.inner in (out, record s { inner = inner });
    flush = λ s. let (out, inner) = w.flush s.inner in (out, record s { inner = inner });
  }

  unfoldable pub drop : NotifyOnDrop R → Result Fault (Unit {0}) × NotifyOnDrop R
  unfolding send
  drop s = let (out, sender) = send s.sender in (out, record s { sender = sender })
