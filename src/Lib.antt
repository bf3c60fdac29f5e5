-- ===== src/Lib.antt =====
-- tiny-http: a small HTTP/1.x server library.
--
-- A connection is read by `ClientConnection`: `read_next_line` takes lines off the stream,
-- `parse_request_line` and `Header::from_str` give them meaning, and `new_request` bounds the body
-- by the headers and builds a `Request`, with a reader of its body and a writer of its turn. The
-- readers of bodies (`EqualReader`, `FusedReader`) keep one request from reading into the next; the
-- sequential writers keep the responses in the order of the requests. Requests reach the application
-- through `MessagesQueue`. The application builds a `Response`, whose `raw_print` chooses an encoding
-- and writes head and body.
--
-- Files, and the code that each is about:
--   Prelude, Text   shared lists, results and tests; what the code uses of strings: `split`, `trim`,
--                   ASCII case, `usize::from_str` and `Display` of numbers. A string or a byte string
--                   is the list of its codes.
--   Io              `Read`, `Write` and `io::ErrorKind` as the code uses them; a program is a
--                   function of the state of the writer, and `Fault` is an error or a panic.
--                   Io/Readers states the contract of `Read` that the readers keep: the bytes that
--                   are delivered are the next ones, and no byte means the end.
--   Common          src/common.rs: StatusCode, Header, Method, HttpVersion, one file each.
--   Util            src/util: HeaderValue (mod.rs), EqualReader, FusedReader, MessagesQueue, and
--                   Sequential for sequential.rs. The destructors are the functions `drop`.
--                   Sequential/Writers keeps the builder and all its writers in one store; a call that
--                   would wait is `none`. Sequential/Readers does the same for the readers.
--                   TaskPool is task_pool.rs, with a step for what a thread does under the lock.
--                   HeaderValue/Quality and Sequential/Waiting say which quality the parameters of
--                   an element give, and how long a writer waits.
--   Response        src/response.rs: TransferEncoding, Builder (the type and what builds one),
--                   Prepare (`raw_print` up to the first write) and Print (the writes).
--   Request         src/request.rs: Create (what the headers say, and the reader of the body), New
--                   (`new_request`) and Answer (`respond`, `as_reader`, `upgrade`, `into_writer` and
--                   the destructor).
--   Client          src/client.rs: RequestLine (the parsers), ReadLine (`read_next_line`), Head (the
--                   first block of `read`) and Connection (`read` and the iterator, over an
--                   interface, `Sink`, to the sequential writers, which
--                   Connection/Refusal fills with those of Util/Sequential).
--   Sockets         src/connection.rs, src/util/refined_tcp_stream.rs and src/util/custom_stream.rs, over
--                   an interface (Platform) to the sockets of the operating system. Contract states
--                   what `shutdown` and `try_clone` are documented to do.
--   Ssl             src/ssl.rs and src/ssl: one file for each TLS implementation, over an interface to
--                   its library, and Shared for the session behind a mutex that all three have.
--   Server          src/lib.rs: the messages between the threads, and how they are received; Start
--                   (the constructors and the destructor), Accept (a round of the accept thread) and
--                   Threads (the accept thread and the tasks of the connections as a step relation).
--   TestRequest     src/test.rs.
--   Tests           the theorems applied at concrete inputs.
--
-- Bounds and fuel: `usize` has 64 bits, and `usize::from_str` refuses what does not fit. Loops over a
-- reader are on fuel: `drain` gets the number of bytes left, `fill` the length of the body, since
-- each round that goes on takes at least one byte; `read_next_line` gets more than the number of
-- events (chunks and errors) that the reader has left, which the contract of a reader bounds. The
-- loops over header lines and over requests take one unit for each round; a head that stands on the
-- stream whole is read with fuel for its bytes.
--
-- Not modelled: what the operating system and other libraries do: sockets, threads, the TLS libraries
-- and the `log` crate. They are interfaces, or orders of steps. `f32` is an interface (HeaderValue)
-- with the laws of its order as hypotheses where a theorem needs them; a quality that is NaN is left
-- out there, because the comparison that `sort_by` is given is then no order. The text of the current
-- date and the encoding and decoding of chunks are parameters: httpdate and chunked_transfer are
-- other libraries. A response is printed from a reader that is known as its bytes and the error that
-- ends it, if any. A connection whose socket cannot tell its peer's address, where `read` panics, is
-- left out. A buffer that is not too large for `isize` is taken to be allocated; the thread whose
-- destructor panics on a larger one goes no further. Server/Threads takes a connection as any
-- iterator over requests, whose calls may wait; Threads/Clients fills it with the one of
-- Client/Connection. Who waits for the notification of an answer is taken to be there. The
-- examples, benches and tests are programs that use the library.
pub mod Prelude
pub mod Text
pub mod Common
pub mod Io
pub mod Util
pub mod Response
pub mod Request
pub mod Client
pub mod Sockets
pub mod Ssl
pub mod Server
pub mod TestRequest
pub mod Tests
