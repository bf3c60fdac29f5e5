-- ===== src/Server/Accept/Secured.antt =====
-- What a client is that the accept thread makes a task of.
use tiny_http.Prelude.{ℕ, ◌≡◌, refl, subst, Bool, true, false, Option, none, some, Result, ok, err}
use tiny_http.Io.{Fault, io, panic, continue, pure}
use tiny_http.Sockets.Platform.{Socket, Platform}
use tiny_http.Sockets.Connection.{Connection, accept, as_socket}
use tiny_http.Sockets.RefinedTcpStream.{
  Stream, http, https, halves, unwrap, stream_clone, stream_secure, secure, new,
}
use tiny_http.Ssl.Shared.{
  Failure, io_error, message, library, panicked, Machine, outside, outside_socket,
}
use tiny_http.Server.Start.{Feature, SslContext, Accepting}
use tiny_http.Server.Accept.{
  Client, Accepted, client, new_client, split, refined, connected, secured, upgraded, accepted,
  accept_client, ssl_socket, Handle,
}

-- A client that is secure or not, with one half for each side.
pub record Wired {C H Addr : Type 0} (safe : Bool) (c : Client C H Addr) : Type 0 where
  pub is_secure : c.secure ≡ safe
  pub reads_only : (c.reads.close_read ≡ true) × (c.reads.close_write ≡ false)
  pub writes_only : (c.writes.close_read ≡ false) × (c.writes.close_write ≡ true)
  pub fresh : c.no_more_requests ≡ false

-- What holds of a round that ends with a client.
abbrev Ready : {C H Addr M : Type 0} → Bool → Accepted (Client C H Addr) × M → Type 0
Ready safe (client c, m) = Wired safe c
Ready safe _ = Unit {0}

module _ {M C H Addr : Type 0} (tcp : Socket M C Addr) (ssl : Socket M H Addr) where
  -- The two halves, from the result of the clone.
  cloned-Ready :
      {B : Type 0} (wrap : B → Stream C H) (safe : Bool) (x : Stream C H) (r : Result Fault B × M)
      → ((b : B) → stream_secure tcp ssl (wrap b) ≡ safe)
      → Ready safe (
          split tcp ssl
            (continue (λ c. pure (halves tcp ssl c x)) (continue (λ b. pure (wrap b)) r)))
  unfolding new_client secure split
  cloned-Ready wrap safe x (ok b, m) same = record {
    is_secure = same b;
    reads_only = (refl, refl);
    writes_only = (refl, refl);
    fresh = refl;
  }
  cloned-Ready wrap safe x (err e, m) same = tt

  refined-Ready : (x : Stream C H) (m : M) → Ready (stream_secure tcp ssl x) (refined tcp ssl x m)
  unfolding new stream_clone stream_secure split refined
  refined-Ready (http c) m =
      cloned-Ready http false (http c) (unwrap (tcp.try_clone c) m) (λ b. refl)
  refined-Ready (https h) m = cloned-Ready https true (https h) (ssl.try_clone h m) (λ b. refl)

abbrev asks_tls : {A : Type 0} → Option A → Bool
asks_tls none = false
asks_tls (some _) = true

module _ (platform : Platform) (T : Type 0) where
  upgraded-Ready :
      (tls : Feature platform T) (ssl : Option (SslContext platform T tls))
      (sock : Connection platform) (m : Machine platform.W T)
      → Ready (asks_tls ssl) (upgraded platform T tls ssl sock m)
  unfolding stream_secure connected refined
  upgraded-Ready tls none sock m =
      refined-Ready (outside_socket (as_socket platform)) (ssl_socket platform T tls) (http sock) m
  upgraded-Ready none (some context) sock m = tt
  upgraded-Ready (some i) (some context) sock m = go (i.accept context sock m)
    where
      go : (r : Result Failure ℕ × Machine platform.W T) → Ready true (secured platform T i r)
      go (ok h, m) = refined-Ready (outside_socket (as_socket platform)) i.stream (https h) m
      go (err panicked, m) = tt
      go (err (io_error e), m) = tt
      go (err (message t), m) = tt
      go (err library, m) = tt

  -- A client that the accept thread makes a task of is secure exactly if the server has a TLS
  -- context, over any system and TLS implementation; it has not ended, and of its two halves the
  -- one that it reads from closes only the reading side and the one that it writes to only the
  -- writing side.
  pub accept_client-Wired :
      (tls : Feature platform T) (a : Accepting platform T tls) (m m' : Machine platform.W T)
      (c : Client (Connection platform) (Handle platform T tls) (Option platform.SocketAddr))
      → accept_client platform T tls a m ≡ (client c, m')
      → Wired (asks_tls a.ssl) c
  unfolding accept_client
  accept_client-Wired tls a m m' c e =
      subst (Ready (asks_tls a.ssl)) e (go (outside (accept platform a.server) m))
    where
      go :
          (r : Result Fault (Connection platform × Option platform.SocketAddr)
            × Machine platform.W T)
          → Ready (asks_tls a.ssl) (accepted platform T tls a.ssl r)
      go (ok (sock, addr), m) = upgraded-Ready tls a.ssl sock m
      go (err (io x), m) = tt
      go (err panic, m) = tt
