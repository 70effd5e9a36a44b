-- ===== src/Lib.antt =====
-- loxy-router: an HTTP router for LLM backends, in Go. A request comes to the proxy, which lets it
-- in through the admission gate, asks the scheduler for a backend, claims a slot of that backend,
-- forwards the request, and tries the next backend where that fails. Goroutines in the background
-- check the health of the backends, and scrape which models are loaded and how much VRAM is used.
--
-- Parts and files (paths from the root of the repository):
--   * backend.go: Backend has the struct and its counters; Backend/Reserve has the atomic steps of
--     `tryReserve` by many goroutines; Pool has NewBackendPool, HealthLoop, Available and
--     TotalConcurrency. A `*Backend` is the number `addr`, its place in the pool.
--   * gate.go: Gate has the locked parts of Acquire and Release as functions on the state of the
--     gate; Gate/System has every interleaving of them, with wake-ups and cancellations, by any
--     number of requests. The live limit of a call is an argument of it: Pool.total_concurrency in
--     `main`.
--   * scheduler.go and plugin.go: Scheduler. A pick reads the pool, the state store and the
--     conversation store at one moment; a plugin is a function.
--   * conversation.go: Conversation, with the time of each call as an argument;
--     Conversation/History relates the store to the history of its calls. state.go: State.
--   * scraper.go: Scraper is the poll of Ollama, the state that it writes and the concurrency that
--     it computes; Scraper/Prom is the parser of the Prometheus format, and Scraper/Poll the poll
--     of vLLM and a round over the pool. How the endpoints of a backend answer is an argument.
--   * proxy.go: Proxy is the retry loop of ServeHTTP, with its effects on shared state as a list,
--     and with what the scheduler, the backends and the client do as an argument; Proxy/Upstream is
--     the URL and the headers of `forward`, Proxy/Stream the copying of a response in `stream`,
--     Proxy/Effects what an effect of the loop does to the state that requests share; ServeHTTP
--     around the loop, from the gate to its end, is in Router. Tokens is `tokenCounter` and
--     `jsonIntField`.
--   * auth.go: Auth. config.go: Config. request.go: Request. The names of models and priorities:
--     Model, on the string functions of Text.
--   * metrics.go: Metrics is the counters, and Metrics/Output the lines of the handler. status.go:
--     Status, the response of the handler.
--   * main.go: Router is the whole at work, as `main` sets it up: any number of requests in
--     ServeHTTP, each from one access of shared state to the next, between rounds of the health
--     loop, the scraper and the reaper, in any order and at any time (Router/Steps). The live limit
--     of a call of the gate is arbitrary, since TotalConcurrency reads backends that change
--     meanwhile; so are the end of a forward and the answers of a backend. Router/Admission is
--     about the gate in it, Router/Traces and Router/Replay about the loop of Proxy, Router/Counted
--     about the counters of /metrics, Router/Names, Router/Termination, Router/Ready and
--     Router/Progress about the steps of requests, and the other files below Router about the
--     counters of the backends. Router/Process is the life of the process, from serving to its
--     exit; server.Shutdown is taken as documented: it returns nil only when no request is in
--     flight, and otherwise the error of its context, once that has expired. Discover is loadConfig
--     and autoDiscover with what they read from outside as an argument; Routes is the routing table
--     with the guard before its handlers.
--   * Base: numbers, 64-bit integers, lists, dictionaries and their lemmas. Examples: the theorems
--     at concrete inputs.
--
-- How the code is modelled:
--   * an `int` and an `int64` are integers; a sum, difference, product or quotient of them that is
--     not known to stay small is wrapped to 64 bits (add64, sub64, mul64, quot64);
--   * a string is the list of its code points where letters matter (model names, priorities), and
--     of its bytes where bytes do (tokens, keys). Lower case and white space beyond ASCII are the
--     record Text.Unicode, with the properties of package unicode that the code relies on;
--   * a float64 is a member of the record Float.Float64: the operations of the code, and the order
--     laws of IEEE arithmetic with rounding that are used. Numbers that are no NaN are meant;
--   * a map is an association list, a channel is a number and closing it puts it on a list, a mutex
--     makes one function of what it encloses, and time is a number of nanoseconds;
--   * the retry loop runs on fuel, one round more than there are names of backends, which is enough
--     because each round tries a new name;
--   * the JSON decoder is an argument, a function from the body to the model it names; so are the
--     YAML decoder, the environment and the file system of main.go, and ParseFloat
--     (Float.FloatText);
--   * a body is the list of its reads, each with its time and whether the client takes it; a body
--     that never ends is not one of them;
--   * the order in which a loop over a map visits its keys is an argument, and sort.Slice is an
--     insertion sort;
--   * the handlers read the pool, the state store and the gate at one moment, and the polls of a
--     round of the scraper, which share the store only, are taken one after the other.
--
-- Not modelled: the HTTP server and client, how the server cleans a path (an argument of Routes), a
-- panic of it inside a handler, as WriteHeader in `stream` has at a status below 100, after which
-- decInflight does not run, the replies 413, 502 and 503 of ServeHTTP, and the transport that
-- NewProxy configures, the flags of `main`, the intervals of the background loops, logging, and the
-- text of JSON and of numbers in the output of /status and /metrics.
pub mod Base
pub mod Text
pub mod Model
pub mod Backend
pub mod Config
pub mod Pool
pub mod Gate
pub mod Conversation
pub mod Float
pub mod State
pub mod Scheduler
pub mod Request
pub mod Routes
pub mod Router
pub mod Scraper
pub mod Proxy
pub mod Tokens
pub mod Auth
pub mod Status
pub mod Metrics
pub mod Discover
pub mod Examples
