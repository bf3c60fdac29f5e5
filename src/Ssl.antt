-- ===== src/Ssl.antt =====
-- src/ssl.rs and src/ssl/: what the server asks of a TLS implementation, and the three that there are.
pub mod Shared
pub mod Contract
pub mod Rustls
pub mod OpenSsl
pub mod NativeTls
use tiny_http.Prelude.{ℕ, Result}
use tiny_http.Text.{Bytes}
use tiny_http.Sockets.Platform.{Socket}
use tiny_http.Ssl.Shared.{Failure, Machine}

-- The aliases `SslContextImpl` and `SslStream`, with the operations that `lib.rs` and
-- `refined_tcp_stream.rs` call on them.
pub record Ssl (W T C Addr : Type 0) : Type 1 where
  pub Context : Type 0
  pub from_pem : Bytes → Bytes → Result Failure Context
  pub accept : Context → C → Machine W T → Result Failure ℕ × Machine W T
  pub stream : Socket (Machine W T) ℕ Addr
