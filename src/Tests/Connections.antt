-- ===== src/Tests/Connections.antt =====
-- Runs about connections.
use tiny_http.Prelude.{
  ap, All, ◌⊎◌, Option, ◌≡◌, ◌≢◌, refl, true, false, [], ◌∷◌, none, some, arith, ok,
}
use tiny_http.Text.{Text, Bytes, codes, eq_ignore_ascii_case, text_eq}
use tiny_http.Text.Pieces.{trim, trim_start, trim_end, is_whitespace, splitn2, split}
use tiny_http.Io.{vec_writer}
use tiny_http.Io.Slice.{slice_read}
use tiny_http.Common.Header.{make_header, equiv, from_str, field_from_str}
use tiny_http.Common.Method.{get, head, method_eq}
use tiny_http.Common.Method
use tiny_http.Common.HttpVersion.{version, version_gt, version_eq}
use tiny_http.Request.Create.{
  Request, nothing, content_length, expects_continue, connection_upgrade, choose_reader,
}
use tiny_http.Request.New.{new_request}
use tiny_http.Client.RequestLine.{parse_request_line, parse_http_version}
use tiny_http.Client.ReadLine.{read_next_line}
use tiny_http.Client.Connection.{Sink, Connection, read, created, next}
use tiny_http.Client.Connection.Reading.{
  ended, head_rest, headers_of, HeaderLine, IsPlainLine, read_lem,
}
use tiny_http.Client.Connection.Ending.{Returns, next-Returns, next-next}
use tiny_http.Util.Sequential.Writers.{Writers}
use tiny_http.Util.Sequential.Writers
use tiny_http.Response.Builder.{empty, status}
use tiny_http.Client.Connection.Refusal.{replied, reply_blocked}
use tiny_http.Util.Sequential.Waiting.{now, issues, drops}
use tiny_http.Util.MessagesQueue.{push, pop, with_capacity}
use tiny_http.Server.{announce, recv, no_messages}
use tiny_http.Server.Accept.{client}
use tiny_http.Server.Threads.{System, started, test_close, round, begin, serve}
use tiny_http.Server.Threads.Runs.{
  Runs, starts, tests, rounds, begins, serves, receiving, asks, opens, receives,
}
use tiny_http.Server.Threads.Lifting.{Fine}
use tiny_http.Server.Threads.Clients.{
  Client, Meanwhile, Outcome, repack, next_client, IsSupported, Runs-IsSupported,
}
use tiny_http.Tests.Data.{whole_numbers, a_date}

-- One writer for all responses, which appends.
abbrev appending : Sink
appending = record {
  K = Bytes;
  W = Unit {0};
  next = λ k. (tt, k);
  writer = λ w. vec_writer;
  close = λ w k. k;
}

abbrev a_connection : Connection Bytes
a_connection = record { sink = []; remote_addr = none; no_more_requests = false; secure = false }

abbrev first_line : Text
first_line = codes "GET /a HTTP/1.0"

first_line-IsPlainLine : IsPlainLine first_line
first_line-IsPlainLine = record { no_return = refl; ascii = refl }

abbrev host_line : Text
host_line = codes "Host: a"

host_line-ne-nil : host_line ≢ []
host_line-ne-nil e = cc e

host_line-reads : from_str (trim host_line) ≡ ok (make_header (codes "Host") (codes "a"))
unfolding trim trim_start trim_end is_whitespace from_str field_from_str splitn2
host_line-reads = refl

abbrev a_line : HeaderLine
a_line = record {
  line = host_line;
  header = make_header (codes "Host") (codes "a");
  plain = record { no_return = refl; ascii = refl };
  full = host_line-ne-nil;
  reads = host_line-reads;
}

first_line-reads : parse_request_line (trim first_line) ≡ ok (get, codes "/a", version 1 0)
unfolding trim trim_start trim_end is_whitespace parse_request_line parse_http_version split
    Method.from_str text_eq
first_line-reads = refl

read_lem_example :
    read whole_numbers a_date
      (λ b. b)
      appending
      slice_read
      (λ s. s)
      (λ s. s)
      100
      a_connection
      (ended first_line (head_rest (a_line ∷ []) (codes "rest")))
    ≡ created whole_numbers a_date
        (λ b. b)
        appending
        slice_read
        (λ s. s)
        (λ s. s)
        a_connection
        tt
        (version 1 0)
        (new_request slice_read
          (λ s. s)
          (record {
            secure = false;
            method = get;
            path = codes "/a";
            version = version 1 0;
            headers = headers_of (a_line ∷ []);
            remote_addr = none;
          })
          tt
          (codes "rest"))
read_lem_example =
    read_lem whole_numbers a_date (λ b. b) appending (λ s. s) (λ s. s) 100 a_connection first_line
      (a_line ∷ []) (codes "rest") get (codes "/a") (version 1 0) first_line-IsPlainLine
      first_line-reads (omega arith)

next-Returns_example :
    Returns whole_numbers a_date
      (λ b. b)
      appending
      slice_read
      (λ s. s)
      (λ s. s)
      (next whole_numbers a_date
        (λ b. b)
        appending
        slice_read
        (λ s. s)
        (λ s. s)
        100
        a_connection
        (ended first_line (head_rest (a_line ∷ []) (codes "rest"))))
next-Returns_example =
    next-Returns whole_numbers a_date (λ b. b) appending slice_read (λ s. s) (λ s. s) 100
      a_connection (ended first_line (head_rest (a_line ∷ []) (codes "rest")))

abbrev old_request : Request Bytes Bytes (Unit {0})
old_request = record {
  data_reader = some nothing;
  response_writer = some tt;
  remote_addr = none;
  secure = false;
  method = get;
  path = codes "/a";
  http_version = version 1 0;
  headers = headers_of (a_line ∷ []);
  body_length = none;
  must_send_continue = false;
  notify_when_responded = false;
}

abbrev ended_connection : Connection Bytes
ended_connection = record { sink = []; remote_addr = none; no_more_requests = true; secure = false }

first_next :
    next whole_numbers a_date
      (λ b. b)
      appending
      slice_read
      (λ s. s)
      (λ s. s)
      100
      a_connection
      (ended first_line (head_rest (a_line ∷ []) (codes "rest")))
    ≡ some (some old_request, ended_connection, some (codes "rest"))
unfolding next read read_next_line parse_request_line split trim Method.from_str text_eq
    parse_http_version from_str splitn2 new_request expects_continue equiv eq_ignore_ascii_case
    choose_reader connection_upgrade content_length version_gt trim_start trim_end is_whitespace
    version_eq
first_next = refl

next-next_example :
    next whole_numbers a_date
      (λ b. b)
      appending
      slice_read
      (λ s. s)
      (λ s. s)
      7
      ended_connection
      (codes "rest")
    ≡ some (none, ended_connection, some (codes "rest"))
unfolding equiv eq_ignore_ascii_case
next-next_example =
    next-next whole_numbers a_date (λ b. b) appending slice_read (λ s. s) (λ s. s) 100 7
      a_connection ended_connection (ended first_line (head_rest (a_line ∷ []) (codes "rest")))
      (codes "rest") old_request (some (codes "rest")) first_next refl

-- The connection as a task of the server: it asks its request, which is received.
abbrev a_client : Client appending Bytes
a_client = (a_connection, some (ended first_line (head_rest (a_line ∷ []) (codes "rest"))))

abbrev a_next :
    Client appending Bytes
    → Outcome whole_numbers a_date (λ b. b) appending slice_read (λ s. s) (λ s. s)
a_next = next_client whole_numbers a_date (λ b. b) appending slice_read (λ s. s) (λ s. s) 100

abbrev a_system : System (Client appending Bytes) (Request Bytes Bytes (Unit {0}))
a_system =
    serve 0 false (some old_request, (ended_connection, some (codes "rest")))
      (begin (λ (c, _). c.secure) 0 a_client (round (client a_client) (test_close started)))

client_next : a_next a_client ≡ some (some old_request, (ended_connection, some (codes "rest")))
unfolding next_client
client_next =
    ap (repack whole_numbers a_date (λ b. b) appending slice_read (λ s. s) (λ s. s)) first_next

a_system-Runs :
    Runs a_next
      (λ (c, _). c.secure)
      (Meanwhile appending Bytes)
      (receives (ok old_request) ∷ asks 0 false old_request ∷ opens 0 a_client ∷ [])
      (record a_system { messages = [] })
unfolding started test_close round begin serve announce push recv pop no_messages with_capacity
a_system-Runs =
    receiving (ok old_request) []
      (serves 0 false a_client (some old_request, (ended_connection, some (codes "rest")))
        (begins 0 a_client (rounds (client a_client) (tests starts refl) refl) refl) refl
        client_next)
      refl

Runs-IsSupported_example :
    All
      (Fine (IsSupported whole_numbers a_date (λ b. b) appending slice_read (λ s. s) (λ s. s)))
      (ok old_request ∷ [])
Runs-IsSupported_example =
    Runs-IsSupported whole_numbers a_date (λ b. b) appending slice_read (λ s. s) (λ s. s) 100
      a_system-Runs

-- One request is being answered.
abbrev one_writer : Writers
one_writer = Writers.next Writers.new

abbrev refused : Connection (Option Writers)
refused =
    replied whole_numbers a_date (λ b. b) slice_read (λ (s : Bytes). s) (λ s. s)
      (empty (status 505)) (version 1 1) false
      (record { sink = none; remote_addr = none; no_more_requests = false; secure = false })
      one_writer

-- Meanwhile a third writer is made, and dropped.
abbrev meanwhile_writers : Writers
meanwhile_writers = Writers.drop 2 (Writers.next (Writers.next one_writer))

reply_blocked_example :
    ((refused.sink ≡ none)
      ⊎ ((u : Writers) × (refused.sink ≡ some u) × (u.written ≡ one_writer.written)))
    × (Writers.write 1 (codes "late") meanwhile_writers ≡ none)
    × (Writers.flush 1 meanwhile_writers ≡ none)
unfolding Writers.next Writers.new
reply_blocked_example =
    reply_blocked whole_numbers a_date (λ b. b) slice_read (λ (s : Bytes). s) (λ s. s)
      (empty (status 505)) (version 1 1) false
      (record { sink = none; remote_addr = none; no_more_requests = false; secure = false })
      one_writer meanwhile_writers 0 (codes "late") refl refl
      (drops 2 (issues now) (λ e. absurd (omega (arith, e))))
