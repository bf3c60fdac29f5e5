-- ===== src/Tests/Service.antt =====
-- Runs about the server, test requests and the readers that share a stream.
use tiny_http.Prelude.{
  count_if, ◌==◌, ◌<◌, ◌+◌, ℕ, ◌≡◌, refl, true, false, List, [], ◌∷◌, ◌++◌, none, some, arith,
  Result, ok, err, length,
}
use tiny_http.Text.{Bytes, codes, eq_ignore_ascii_case}
use tiny_http.Io.{ErrorKind, other}
use tiny_http.Io.Slice.{slice_read, all_left, slice_read-IsReader}
use tiny_http.Common.Header.{make_header, equiv}
use tiny_http.Common.Method.{get, post}
use tiny_http.Common.HttpVersion.{version}
use tiny_http.Util.MessagesQueue.{Control, elem, unblocked, Wait}
use tiny_http.Util.MessagesQueue.Timeout.{Decides, pop_timeout-Decides}
use tiny_http.Util.Sequential.Order.{Ascends}
use tiny_http.Util.Sequential.Readers.{Readers, new, next, drop, read}
use tiny_http.Util.Sequential.Readers.Baton.{bytes_of}
use tiny_http.Util.Sequential.Readers.History.{
  Uses, starts, makes, reads, drops, Lies, Uses-Ascends,
}
use tiny_http.Request.Create.{Request, nothing}
use tiny_http.Server.{Message, error, recv, try_recv, recv_timeout}
use tiny_http.Server.Receive.{recv-try_recv}
use tiny_http.TestRequest.{TestRequest, into_request}
use tiny_http.TestRequest.Body.{IsQuiet, Made, into_request-Made}
use tiny_http.Util.TaskPool.{TaskPool}
use tiny_http.Util.TaskPool
use tiny_http.Util.TaskPool.Conserved.{
  Runs, starts as starts_pool, spawns, begins, looks, wakes, panics, held, alive, Runs-held,
}
use tiny_http.Tests.Data.{stream}

-- Four threads begin and sleep; five tasks are queued; each thread takes one, which panics. The fifth
-- is left without a thread.
abbrev asleep : TaskPool ℕ
asleep = TaskPool.look (
    TaskPool.look (
      TaskPool.look (
        TaskPool.look (
          TaskPool.begin [] none [] (
            TaskPool.begin [] none (none ∷ []) (
              TaskPool.begin [] none (none ∷ none ∷ [])
                (TaskPool.begin [] none (none ∷ none ∷ none ∷ []) TaskPool.new)))))))

abbrev given_five : TaskPool ℕ
given_five =
    TaskPool.spawn 5
      (TaskPool.spawn 4 (TaskPool.spawn 3 (TaskPool.spawn 2 (TaskPool.spawn 1 asleep))))

abbrev stranded : TaskPool ℕ
stranded = TaskPool.unwind [] 4 [] (
    TaskPool.wake (
      TaskPool.unwind [] 3 [] (
        TaskPool.wake (
          TaskPool.unwind [] 2 []
            (TaskPool.wake (TaskPool.unwind [] 1 [] (TaskPool.wake given_five)))))))

asleep-Runs : Runs [] asleep
unfolding TaskPool.new TaskPool.add_thread TaskPool.begin TaskPool.look
asleep-Runs =
    looks
      (looks
        (looks
          (looks
            (begins [] [] none
              (begins [] (none ∷ []) none
                (begins [] (none ∷ none ∷ []) none
                  (begins [] (none ∷ none ∷ none ∷ []) none starts_pool refl) refl)
                refl)
              refl)
            (omega arith))
          (omega arith))
        (omega arith))
      (omega arith)

given_five-Runs : Runs (5 ∷ 4 ∷ 3 ∷ 2 ∷ 1 ∷ []) given_five
given_five-Runs = spawns 5 (spawns 4 (spawns 3 (spawns 2 (spawns 1 asleep-Runs))))

stranded-Runs : Runs (5 ∷ 4 ∷ 3 ∷ 2 ∷ 1 ∷ []) stranded
unfolding TaskPool.new TaskPool.add_thread TaskPool.begin TaskPool.look TaskPool.spawn TaskPool.wake
    TaskPool.unwind
stranded-Runs =
    panics [] [] 4
      (wakes
        (panics [] [] 3
          (wakes
            (panics [] [] 2
              (wakes (panics [] [] 1 (wakes given_five-Runs (omega arith)) refl) (omega arith))
              refl)
            (omega arith))
          refl)
        (omega arith))
      refl

stranded_lem : (stranded.todo ≡ 5 ∷ []) × (alive stranded ≡ 0)
unfolding TaskPool.new TaskPool.add_thread TaskPool.begin TaskPool.look TaskPool.spawn TaskPool.wake
    TaskPool.unwind
stranded_lem = (refl, refl)

Runs-held_example :
    (count_if (λ t. t == 5) (5 ∷ 4 ∷ 3 ∷ 2 ∷ 1 ∷ []) ≡ held (λ t. t == 5) stranded)
    × (0 < length stranded.todo → 0 < alive stranded + length stranded.failed)
Runs-held_example = Runs-held (λ t. t == 5) stranded-Runs

-- The first of two readers takes five bytes and is dropped; then the second takes five.
abbrev before_reads : Readers Bytes
before_reads = next (next (new stream))

first_read :
    (out : Result ErrorKind Bytes) × (t : Readers Bytes) × (read slice_read 5 0 before_reads
      ≡ some (out, t))
unfolding read next new
first_read = (_, _, refl)

after_first : Readers Bytes
after_first = first_read.1

first_drop : (t : Readers Bytes) × (drop 0 after_first ≡ some t)
unfolding drop first_read after_first read next new
first_drop = (_, refl)

second_read :
    (out : Result ErrorKind Bytes) × (t : Readers Bytes) × (read slice_read 5 1 first_drop.0
      ≡ some (out, t))
unfolding read first_drop drop first_read after_first next new
second_read = (_, _, refl)

second_read-Uses : Uses slice_read all_left length slice_read-IsReader stream second_read.1
unfolding after_first
second_read-Uses =
    reads 5 1 second_read.0
      (drops 0 (reads 5 0 first_read.0 (makes (makes starts)) (omega arith) first_read.2)
        first_drop.1)
      (omega arith) second_read.2

Uses-Ascends_example :
    Ascends second_read.1.delivered
    × ((r : Bytes) × Lies second_read.1 r
        × (bytes_of second_read.1.delivered ++ all_left r ≡ all_left stream))
Uses-Ascends_example =
    Uses-Ascends slice_read all_left length slice_read-IsReader stream second_read-Uses

abbrev a_failure : Control (Message ℕ)
a_failure = elem (error other)

recv-try_recv_example :
    (recv (a_failure ∷ unblocked ∷ []) ≡ some (err other, unblocked ∷ []))
    × (try_recv (a_failure ∷ unblocked ∷ []) ≡ (err other, unblocked ∷ []))
    × (recv_timeout 7 [] (a_failure ∷ unblocked ∷ []) ≡ some (err other, unblocked ∷ []))
    × (recv {Rq = ℕ} [] ≡ none)
    × (try_recv {Rq = ℕ} [] ≡ (ok none, []))
recv-try_recv_example = recv-try_recv 7 [] a_failure (unblocked ∷ [])

abbrev pub numbered : ℕ → Request Bytes Bytes ℕ
numbered n = record {
  data_reader = some nothing;
  response_writer = some n;
  remote_addr = none;
  secure = true;
  method = get;
  path = codes "/";
  http_version = version 1 1;
  headers = [];
  body_length = none;
  must_send_continue = false;
  notify_when_responded = false;
}

abbrev a_mock : TestRequest
a_mock = record {
  body = codes "42";
  remote_addr = codes "127.0.0.1:23456";
  secure = false;
  method = post;
  path = codes "/api/widgets";
  http_version = version 1 1;
  headers = make_header (codes "Host") (codes "a") ∷ [];
}

a_mock-IsQuiet : IsQuiet a_mock.headers
unfolding equiv eq_ignore_ascii_case
a_mock-IsQuiet = record {
  no_length = refl;
  no_encoding = refl;
  no_expect = refl;
  no_connection = refl;
}

into_request-Made_example : Made a_mock (into_request (λ (s : Bytes). s) a_mock)
into_request-Made_example = into_request-Made (λ (s : Bytes). s) a_mock a_mock-IsQuiet (omega arith)

-- A call with 50 ms on an empty queue: it is woken after 20 ms for nothing, and then times out.
abbrev two_waits : List (Wait ℕ)
two_waits =
    record { queue = []; slept = 20_000_000; timed_out = false }
    ∷ record { queue = []; slept = 50_000_000; timed_out = true }
    ∷ []

pop_timeout-Decides_example : Decides 50_000_000 50_000_000 two_waits []
pop_timeout-Decides_example =
    pop_timeout-Decides 50_000_000 50_000_000 two_waits [] (omega arith, (omega arith, tt))
      (omega arith)
