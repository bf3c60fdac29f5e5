-- ===== src/Io/Kinds.antt =====
-- `io::ErrorKind`, as far as the server makes or tests one, and what can end a computation early.
use tiny_http.Prelude.{ℕ, Option, Result}
use tiny_http.Text.{Bytes}

-- The kinds that the code names; `other` is any other kind.
pub data ErrorKind : Type 0 where
  broken_pipe connection_aborted connection_refused connection_reset : ErrorKind
  timed_out invalid_input interrupted other : ErrorKind

-- An `io::Error` that is returned, or a panic.
pub data Fault : Type 0 where
  io : ErrorKind → Fault
  panic : Fault

-- `Read`: the bytes that one call puts into a buffer of the given length.
pub record Read (S : Type 0) : Type 0 where
  pub read : ℕ → S → Result ErrorKind Bytes × S

-- `Write`.
pub record Write (W : Type 0) : Type 0 where
  pub write_all : Bytes → W → Result ErrorKind (Unit {0}) × W
  pub flush : W → Result ErrorKind (Unit {0}) × W

-- A reader as what it delivers: the bytes up to its end, or up to the error that ends it.
pub record Body : Type 0 where
  pub bytes : Bytes
  pub failure : Option ErrorKind
