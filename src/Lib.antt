-- ===== src/Lib.antt =====
-- The ProSA Hyper crate: an HTTP server and an HTTP client as processors of the ProSA bus.
--
-- The server's processor (src/server/proc.rs) accepts connections. For each HTTP request its
-- HTTP service (src/server/service.rs) asks the user's adaptor (src/server/adaptor.rs), which
-- answers at once or names a service of the bus; then the service sends a request to the
-- processor's queue and waits on a channel of its own. The processor looks the service up, sends
-- it a new request, and keeps the HTTP request among the pending ones, under the identifier of
-- the new one, until an answer with that identifier comes back or its time is over.
-- The client's processor (src/client/proc.rs) keeps a set of sockets (src/client/socket.rs) to its
-- targets. A socket connects, offers its service on the bus, turns each request of its queue into an
-- HTTP request by the user's adaptor (src/client/adaptor.rs), and returns the answer; it speaks
-- HTTP/1.1, one request at a time, or HTTP/2, with a task for each request. The processor
-- spawns again every socket that closes.
--
-- Which file models what:
--   Http             src/lib.rs: HyperProcError, HttpError, HyperResp, SrvRespHandler,
--                    hyper_version_str, PRODUCT_VERSION_HEADER, the conversions and the texts.
--   Server/Adaptor   src/server/adaptor.rs: response_builder, default_srv_error_response, and
--                    HelloHyperServerAdaptor; Answers has what these answer.
--   Server/Service   src/server/service.rs: process_call and wait_intern_resp; Counted and Hello
--                    have their theorems.
--   Server/Settings  src/server/proc.rs: HyperServerSettings and the listener's protocols; Port has
--                    the theorems.
--   Server/Proc      src/server/proc.rs: the loop of internal_run. State is the service table and
--                    the pending requests, an Event is what select! reacts to, turn is one pass
--                    of the loop, run a sequence of them. Spec is a specification over a map of
--                    the waiting requests, Refinement relates the loop to it; Identifiers,
--                    Ledger, Drain, Branches and Correlation have the other theorems.
--   Server/Connections
--                    src/server/proc.rs: the task of each connection and the counter of sockets;
--                    Gauge has the theorems.
--   Server/System    src/server/service.rs and src/server/proc.rs: the calls, the channel of HTTP
--                    requests, and the processor that reads it, over events in any order; Calls, Account,
--                    Ends and Identifiers have the theorems.
--   Server/Start     src/server/proc.rs: internal_run from the adaptor to the bind of the listener, and
--                    as a whole; Whole has the theorems.
--   Server/TestServer
--                    src/server.rs: the adaptor of the tests, what they assert of a response, and the
--                    loop of run_test; Asserts and Run have the theorems.
--   Server/EndToEnd  a call of the service together with the processor's turns for its request;
--                    Ended has one whose processor ends first.
--   Client/Socket    src/client/socket.rs: HyperClientSocket, new, close_socket!, process_request;
--                    Http1 and Http2 are the loops of spawn_http1 and spawn_h2, Open is spawn up to
--                    them. Weights, Unanswered, Lives, Exchange, Offers, and the modules Ledger,
--                    Drops, Closing and Laws have the theorems.
--   Client/Queue     src/client/socket.rs: a socket with its channel, of setup_socket_queue, and the
--                    sends that wait for room; SocketLoop is what the channel knows of a loop, and
--                    Loops makes one of spawn_http1 and of spawn_h2. Account, Closed and Settled have
--                    the theorems.
--   Client/Proc      src/client/proc.rs: HyperClientSettings and internal_run; Sockets and
--                    Targets have the theorems.
--   Client/Task      src/client/socket.rs: the task of a socket, from its start to its end; Backed and
--                    Account have what is proved of its steps.
--   Client/System    src/client/proc.rs: the JoinSet of these tasks, the tasks of requests over HTTP/2
--                    that outlive them, and the processor; Sound, Requests and
--                    Requests/Drain have the theorems.
--   Examples         examples/server.rs and examples/client.rs: Server and Client are their adaptors,
--                    Crates an interface of what they use of other crates; Server/Pages,
--                    Client/Transaction and RoundTrip have the theorems.
--   Integration      src/tests.rs: TestAdaptor, the adaptor of the stub, the server, the injector and
--                    the client of the integration tests, with the counters; Wiring has the settings
--                    of a test, and Refused, Passes and Wiring the theorems.
--   Common           results, Boolean tests, weights of lists, and durations.
--   Samples, Tests   concrete instances, and the theorems and runs at them.
--
-- How the code is modelled. A turn is a function of the state and of one event and gives the next
-- state, the effects in order (messages returned, sent or dropped, metrics, registrations) and
-- whether the loop goes on, returns, fails or panics. An interleaving of the tasks is the order of the
-- events in a list, over which every run is a structural recursion, so no fuel is needed; in the
-- client a run is none where the code has no branch for the event in that state. Failures of what the
-- code awaits are flags or results that an event carries. A message that Rust drops is an effect. A
-- Duration is a number of nanoseconds, and `as_millis() as u64` and `as u32` wrap.
--
-- What is not under src/ is a parameter: the messages of the prosa crate (Prosa.Messages), its pending
-- messages (Prosa.Pending.PendingMsgs), the http and hyper crates (Http.HttpApi), the settings of
-- connections (Net.Net), the adaptors, and for the examples and the integration tests the payloads and
-- the parts of requests and URLs (Examples.Crates, Integration.Crates). The laws in these records are
-- their documented behaviour: a message carries what it was made of, a pending message is found under
-- its identifier, a builder makes the response that it was asked for.
--
-- Not modelled: how the listener is bound, the handshakes and HTTP themselves, the times in the
-- histogram, and log lines. A call that its connection gives up while its send waits is not modelled.
-- The channels are tokio's, so neither their order nor their capacity of 2048 is supposed: an event says
-- which send goes on and which message comes. The client's adaptor makes a payload of a response at
-- once, as a function: that it may read the body meanwhile, while the HTTP/1.1 loop that awaits it does
-- not poll the connection, is not modelled.
-- Client/System takes what is in a socket's channel as an argument of its turns; Client/Queue has the
-- channel itself, also when the client's processor ends and aborts the socket's task. How the tests
-- (src/tests.rs, src/server.rs) make certificates and start processors is not modelled, nor are the
-- main functions of the examples.
pub mod Common
pub mod Prosa
pub mod Http
pub mod Server
pub mod Net
pub mod Client
pub mod Examples
pub mod Integration
pub mod Samples
mod Tests
