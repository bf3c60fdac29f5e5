-- ===== src/Tests/Servers.antt =====
-- Runs about servers and their threads.
use tiny_http.Prelude.{◌≡◌, refl, ℕ, ◌+◌, false, true, Bool, List, [], ◌∷◌, Option, ok, none, some}
use tiny_http.Io.{other}
use tiny_http.Text.{Bytes}
use tiny_http.Sockets.Platform.{Platform, Socket}
use tiny_http.Sockets.Connection.{Connection, as_socket, ip, tcp, bind, local_addr}
use tiny_http.Ssl.Shared.{Machine}
use tiny_http.Server.{no_messages}
use tiny_http.Util.MessagesQueue.{with_capacity}
use tiny_http.Server.Start.{Feature, Accepting, ServerConfig, new, from_listener, ssl_context}
use tiny_http.Server.Started.{Starts, new-Starts}
use tiny_http.Server.Accept.{Client, client, failed, accept_client}
use tiny_http.Ssl.NativeTls.{NativeTls, implementation}
use tiny_http.Ssl.NativeTls.{accept as accept_tls, clone, stream as tls_stream}
use tiny_http.Sockets.Connection.{accept}
use tiny_http.Server.Accept.{connected, refined, split, new_client}
use tiny_http.Sockets.RefinedTcpStream.{stream_clone}
use tiny_http.Sockets.RefinedTcpStream.{new as new_halves}
use tiny_http.Server.Accept.Secured.{Wired, accept_client-Wired}
use tiny_http.Server.Threads.{System, started, test_close, round, begin, serve, closing}
use tiny_http.Server.Threads.Runs.{
  Runs, starts, tests, rounds, begins, serves, closes_it, opens, asks, fails, closes,
}
use tiny_http.Server.Threads.Connections.{facts, Traced}
use tiny_http.Server.Threads.Order.{Balanced, Runs-Ordered}
use tiny_http.Server.Threads.Ending.{Ends, Runs-Ends}
use tiny_http.Request.Create.{Request}
use tiny_http.Tests.Service.{numbered}

-- A connection that is known as the requests that it will bring.
abbrev Script : Type 0
Script = List (Request Bytes Bytes ℕ)

abbrev next : Script → Option (Option (Request Bytes Bytes ℕ) × Script)
next [] = some (none, [])
next (rq ∷ rqs) = some (some rq, rqs)

-- Nobody else changes it.
abbrev Unchanged : Script → Script → Type 0
Unchanged _ _ = ⊥

abbrev always : Script → Bool
always _ = true

abbrev script : Script
script = numbered 0 ∷ numbered 1 ∷ []

-- One client is accepted, its task asks its first request, and the server is dropped.
abbrev accepted_one : System Script (Request Bytes Bytes ℕ)
accepted_one = round (client script) (test_close started)

abbrev asked_one : System Script (Request Bytes Bytes ℕ)
asked_one = serve 0 true (some (numbered 0), numbered 1 ∷ []) (begin always 0 script accepted_one)

asked_one-Runs :
    Runs next always Unchanged (asks 0 true (numbered 0) ∷ opens 0 script ∷ []) asked_one
unfolding started test_close round begin
asked_one-Runs =
    serves 0 true script (some (numbered 0), numbered 1 ∷ [])
      (begins 0 script (rounds (client script) (tests starts refl) refl) refl) refl refl

Runs-Ordered_example :
    Balanced (asks 0 true (numbered 0) ∷ opens 0 script ∷ []) asked_one.messages
    × Traced next always Unchanged
        (facts 0 (asks 0 true (numbered 0) ∷ opens 0 script ∷ []))
        (asked_one.thread 0)
Runs-Ordered_example = Runs-Ordered 0 asked_one-Runs

-- After it, the server is dropped while the accept thread waits, whose wait then fails.
abbrev waiting_one : System Script (Request Bytes Bytes ℕ)
waiting_one = closing (test_close accepted_one)

failed_one-Runs :
    Runs next always Unchanged
      (fails other ∷ closes ∷ opens 0 script ∷ [])
      (round (failed other) waiting_one)
unfolding started test_close round closing
failed_one-Runs =
    rounds (failed other) (closes_it (tests (rounds (client script) (tests starts refl) refl) refl))
      refl

Runs-Ends_example :
    Ends (fails other ∷ closes ∷ opens 0 script ∷ []) (round (failed other) waiting_one)
Runs-Ends_example = Runs-Ends failed_one-Runs

-- A system whose addresses are numbers, and where every call succeeds.
abbrev quiet_socket : Socket ℕ ℕ ℕ
quiet_socket = record {
  read = λ n s w. (ok [], w);
  write = λ buf s w. (ok 0, w);
  flush = λ s w. (ok tt, w);
  shutdown = λ how s w. (ok tt, w);
  try_clone = λ s w. (ok s, w);
  peer_addr = λ s w. (ok s, w);
}

abbrev a_platform : Platform
a_platform = record {
  W = ℕ;
  SocketAddr = ℕ;
  UnixAddr = ℕ;
  PathBuf = ℕ;
  TcpListener = ℕ;
  TcpStream = ℕ;
  UnixListener = ℕ;
  UnixStream = ℕ;
  tcp = quiet_socket;
  unix = quiet_socket;
  tcp_listener = record {
    bind = λ addrs w. (ok 80, w + 1);
    local_addr = λ l w. (ok l, w);
    accept = λ l w. (ok (l, w), w);
  };
  unix_listener = record {
    bind = λ path w. (ok path, w);
    local_addr = λ l w. (ok l, w);
    accept = λ l w. (ok (l, w), w);
  };
  show_ip = λ a. [];
  debug_unix = λ a. [];
  tcp_connect = λ a w. (ok a, w);
  unix_connect = λ p w. (ok p, w);
  as_pathname = λ a. some a;
  remove_file = λ p w. (ok tt, w);
}

abbrev idle : Machine ℕ ℕ
idle = record { os = 0; sessions = λ _. none; allocated = 0 }

abbrev a_config : ServerConfig a_platform ℕ
a_config = record { addr = ip (80 ∷ []); ssl = none }

new-Starts_example :
    Starts a_platform ℕ none {Rq = ℕ} a_config idle
      (record idle { os = 1 })
      (record { close = false; messages = []; listening_addr = ip 80 })
      (record { server = tcp 80; ssl = none })
unfolding new from_listener bind local_addr ssl_context no_messages with_capacity
new-Starts_example =
    new-Starts a_platform ℕ none a_config idle (record idle { os = 1 })
      (record { close = false; messages = []; listening_addr = ip 80 })
      (record { server = tcp 80; ssl = none }) refl

-- A TLS library whose session is the connection below it.
abbrev a_library : NativeTls ℕ (Connection a_platform) (Connection a_platform)
a_library = record {
  Identity = Bytes;
  TlsAcceptor = Bytes;
  session = record {
    read = λ n s. (ok [], s);
    write = λ buf s. (ok 0, s);
    flush = λ s. (ok tt, s);
    socket = λ t. t;
  };
  from_pkcs8 = λ certificates private_key. ok private_key;
  acceptor = λ identity. ok identity;
  handshake = λ a c w. (ok c, w);
}

abbrev a_feature : Feature a_platform (Connection a_platform)
a_feature = some (implementation (as_socket a_platform) a_library)

abbrev no_session : Machine ℕ (Connection a_platform)
no_session = record { os = 0; sessions = λ _. none; allocated = 0 }

abbrev an_acceptor : Accepting a_platform (Connection a_platform) a_feature
unfolding implementation
an_acceptor = record { server = tcp 80; ssl = some [] }

first_round :
    (c : Client (Connection a_platform) ℕ (Option ℕ)) × (m : Machine ℕ (Connection a_platform))
    × (accept_client a_platform (Connection a_platform) a_feature an_acceptor no_session
        ≡ (client c, m))
unfolding implementation accept_client accept connected refined split new_client stream_clone
    as_socket accept_tls new_halves clone tls_stream
first_round = (_, _, refl)

accept_client-Wired_example : Wired true first_round.0
unfolding implementation
accept_client-Wired_example =
    accept_client-Wired a_platform (Connection a_platform) a_feature an_acceptor no_session
      first_round.1 first_round.0 first_round.2
