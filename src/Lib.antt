-- ===== src/Lib.antt =====
-- anycorn, an ASGI server (src/anycorn/). This library models its core and proves what makes each
-- part correct.
--
-- Parts and files:
--   Prelude           shared names, tests on numbers, lists.
--   Exec              methods that change an object and may raise; Exec.Hoare has triples for them.
--   Bytes, Utf8       Python's bytes and str, and its strict UTF-8 codec.
--   Config            the settings of src/anycorn/config.py that the modelled code reads.
--   Events            src/anycorn/protocol/events.py, the events between a protocol and a stream.
--   Utils             src/anycorn/utils.py: Percent (decode_asgi_path, valid_request_target),
--                     Headers (suppress_body, build_and_validate_headers, filter_pseudo_headers),
--                     Names (valid_server_name, _escape_rfc4514_value).
--   Sendfile          src/anycorn/sendfile.py: the loops of read_file_chunks and sendfile.
--   HttpStream        src/anycorn/protocol/http_stream.py: State (attributes and messages), Calls
--                     (the private methods), Handle (handle) and AppSend (app_send). Grammar and
--                     its children prove that what a stream sends is a response.
--   WorkerContext     src/anycorn/worker_context.py: EventWrapper and mark_request.
--   Middleware        src/anycorn/middleware/: ProxyFix (proxy_fix.py; ProxyFix.Hops says what
--                     the proxies in front do to the headers) and Dispatcher
--                     (dispatcher.py: the mount of a path, and the lifespan of the mounts),
--                     HttpToHttps (http_to_https.py: the URL of a redirect; Call which requests get one).
--   WsStream          src/anycorn/protocol/ws_stream.py: State has the records of WSStream and the
--                     parameter for wsproto, Handshake and Buffer the two helper classes, Calls the
--                     private methods, Handle and AppSend the two entry points; Grammar is what the
--                     protocol may rely on, Faults where a client is left without one answer.
--   H11               src/anycorn/protocol/h11.py: State has the attributes of H11Protocol and the
--                     parameter for h11, Adapter H11WSConnection, Requests what the headers of a
--                     request ask for, Calls stream_send and its methods, Handle the loop over h11's
--                     events; Runs has the interleavings, Order what they call on the streams,
--                     Order.Faults a stream that is closed twice.
--   AppWrappers       src/anycorn/app_wrappers.py: RunApp (run_app, with what a WSGI application does
--                     as a list of acts), HandleHttp (the loop over the body), Environ
--                     (_build_environ), Lifespan (_handle_lifespan, with the server's side).
--   Lifespan          src/anycorn/lifespan.py: asgi_send, the end of handle_lifespan, the waits.
--   H2                src/anycorn/protocol/h2.py: Buffer has StreamBuffer and the interleavings of the
--                     tasks that use it; State the attributes of H2Protocol and the parameters for h2
--                     and priority, Calls the methods that the others use, Opening _create_stream and
--                     server push, Sending stream_send and the sending task, Handle initiate and
--                     handle; Runs has the interleavings, Order the life of each stream,
--                     Closing what the end of the connection leaves waiting,
--                     Reset what a reset leaves of a stream.
--   ProtocolWrapper   src/anycorn/protocol/__init__.py, over H11 and H2; Order has its runs.
--   H3                src/anycorn/protocol/h3.py: State, Handle (its methods), Runs and Order likewise.
--   Connection        what H11, H2 and H3 share: the events of src/anycorn/events.py, the kinds of
--                     streams; Lives is the automaton for the life of a stream, Pseudo the headers
--                     that HTTP/2 and HTTP/3 read alike.
--   TcpServer         src/anycorn/tcp_server.py; Aside and Reads have what the protocol is
--                     handed, Ends how the socket is left.
--   Tests             the theorems at concrete inputs, and runs.
--
-- How the parts interact: a protocol hands a request to a stream's `handle`, which spawns the
-- application; the application's messages come back through `app_send`; both make calls on the
-- protocol, the application, the log and the files. A method is a function from the state of its
-- object to a result (a value or a Python exception) and the new state, and the calls that it
-- makes are kept in the state, the newest first.
--
-- Tasks: a coroutine can be interrupted where it awaits. In HttpStream the parameter `env` says
-- after each awaited call whether the disconnect is handled before the coroutine goes on; the
-- theorems hold for every `env`. The other events that may arrive there meanwhile only put
-- messages to the application. One task at a time sends for an application. In WsStream `env`
-- is what the other tasks have made of the stream when an awaited call is over; the theorems on
-- what it sends take as a hypothesis that this is nothing, or the disconnect, since bytes of
-- the client that are handled meanwhile could be answered by a pong, a close or an error
-- response in between. `StreamClosed`, once sent, comes back to a WsStream before the method
-- goes on, and the task that sends pings is left out. In H11 each call runs to its end, but for
-- the calls of a stream: while one is awaited the stream or its application may send, and while
-- it handles `StreamClosed` the other tasks may do whatever the surroundings say. In H2 and H3,
-- while a call of the server or of a stream is awaited, the other tasks take the steps that the
-- surroundings name, each to its end or to its own wait, and may themselves await calls
-- meanwhile. A stream is known there by the events that it sends, at any time.
--
-- Numbers are natural numbers; the one difference that can be negative is an integer. Text is a
-- list of code points, bytes are a list of numbers. Text that was decoded from latin-1 has code
-- points below 256, which `latin_strip` and `latin_lower` read.
--
-- Fuel: `read_loop` takes as much fuel as there are bytes to read, since every round reads one; the
-- theorem on `read_file_chunks` shows that it is enough. `sendfile_loop` runs over the answers of
-- the kernel. `handle_events` goes through at most as many rounds as the connection says that
-- events are left, and one that finds none; WsStream.Loop shows that this is enough.
-- A round of H11Protocol's loop is a step of Runs, so that loop needs no fuel.
-- `depth` of H2.Runs, H3.Runs and TcpServer bounds how many calls may be awaited within one another;
-- the theorems hold for every depth.
--
-- Parameters: the calls of the operating system (Sendfile.Os).
-- wsproto (WsStream.State.Wsproto), of which nothing is assumed unless a theorem says so.
-- h11 (H11.State.H11), with the rules of its states as H11.Order.Lawful; the streams' events,
-- what the other tasks do while a stream is closed, and the worker's
-- termination (H11.State.Surroundings).
-- Python's int, str, lower and upper where WSGI needs them (AppWrappers.State.Python).
-- h2 and priority (H2.State.H2, H2.State.Priority), of which nothing is assumed; what the other
-- tasks do while a call is awaited (H2.State.Surroundings).
-- The protocol and the socket of a TCP server (TcpServer.Surroundings).
-- aioquic (H3.State.H3), of which nothing is assumed.
--
-- Not modelled: the time that a log line reports; QUIC; process management, sockets,
-- TLS and kTLS; the command line; loading of applications; metrics.
-- Neither are the tasks of a TCP server that wait for one another, and the one that pings a
-- WebSocket.
pub mod Prelude
pub mod Exec
pub mod Bytes
pub mod Utf8
pub mod Config
pub mod Events
pub mod Utils
pub mod Sendfile
pub mod HttpStream
mod Tests
pub mod WorkerContext
pub mod AppWrappers
pub mod Connection
pub mod H11
pub mod H2
pub mod H3
pub mod ProtocolWrapper
pub mod TcpServer
pub mod Lifespan
pub mod Middleware
pub mod WsStream
