-- ===== src/Router.antt =====
-- main.go: the whole router at work. Any number of requests go through ServeHTTP at once, each from
-- one access of shared state to the next, between rounds of the health loop, of the scraper and of
-- the reaper, in any order. What TotalConcurrency returns to the gate, which reads the backends one
-- by one while they change, is arbitrary at each call.
pub mod Steps
pub mod Pointers
pub mod Accounts
pub mod Holding
pub mod Books
pub mod Located
pub mod Names
pub mod Ready
pub mod Termination
pub mod Responses
pub mod Counted
pub mod Process
pub mod Shutdown
pub mod Progress
pub mod Positions
pub mod Traces
pub mod Remaining
pub mod Replay
pub mod Slots
pub mod Load
pub mod Rest
pub mod Admission
use loxy_router.Base.{
  ℕ, suc, Bool, true, false, List, [], ◌∷◌, Option, none, some, ◌==◌, Str, map, ℤ, pos,
  if◌then◌else◌,
}
use loxy_router.Text.{Unicode}
use loxy_router.Config.{Config, Limits, queue_limits}
use loxy_router.Float.{Float64}
use loxy_router.Backend.{Backend}
use loxy_router.Pool.{new_backend_pool}
use loxy_router.State.{StateStore}
use loxy_router.Conversation.{new_conversation_store}
use loxy_router.Scheduler.{ClientRequest}
use loxy_router.Gate.{Gate, new_gate, set_limit_func}
use loxy_router.Gate.System.{Request, arriving, serving}
use loxy_router.Proxy.{
  Forward, fails, responds, Effect, releases, Outcome, served, unavailable, client_gone,
  after_stream,
}
use loxy_router.Proxy.Effects.{Shared}

-- How the loop of ServeHTTP goes on: with another round, or not at all.
pub data Next : Type 0 where
  goes_on : List (Str × Bool) → ℕ → Next
  ends_with : Outcome → Next

-- Where a request stands in the loop of ServeHTTP, with `tried` and `retries`: before PickExcluding,
-- before tryReserve of a backend, before the end of the forward to it, before some effects on shared
-- state, or behind the loop; or it never comes to the loop, because its client gave up.
pub data Work : Type 0 where
  picking : List (Str × Bool) → ℕ → Work
  chosen forwarding : Backend → List (Str × Bool) → ℕ → Work
  doing : List Effect → Next → Work
  over : Outcome → Work
  turned_away : Work

abbrev pub resume : Next → Work
resume (goes_on tried retries) = picking tried retries
resume (ends_with o) = over o

-- What follows on a forward, from decInflight on.
unfoldable pub after_forward : ClientRequest → Backend → List (Str × Bool) → ℕ → Forward → Work
after_forward req b tried retries (fails true) =
    doing (releases b.addr ∷ []) (ends_with client_gone)
after_forward req b tried retries (fails false) =
    doing (releases b.addr ∷ []) (goes_on tried (suc retries))
after_forward req b tried retries (responds status per_token_ms gone) =
    doing (after_stream req b status per_token_ms gone) (ends_with (served status retries))

-- A request that classify has read: what it asks for, where it stands at the gate, and in the loop
-- behind that.
pub record Client : Type 0 where
  pub req : ClientRequest
  pub gate : Request
  pub work : Work

-- A request that arrives.
unfoldable pub new_client : ClientRequest → Client
new_client req = record { req = req; gate = arriving req.priority; work = picking [] 0 }

-- *p, for the address of a backend
unfoldable pub deref : ℕ → List Backend → Option Backend
deref p [] = none
deref p (b ∷ bs) = if b.addr == p then some b else deref p bs

-- conversationTTL, in nanoseconds
abbrev pub conversation_ttl : ℤ
conversation_ttl = pos 600_000_000_000

module _ (f : Float64) where
  open f use {Carrier}

  pub record Router : Type 0 where
    pub gate : Gate
    pub shared : Shared
    pub store : StateStore Carrier
    pub clients : List Client

  -- What main sets up, and the requests that are to come.
  unfoldable pub start : Unicode → Config → List ClientRequest → Router
  unfolding new_client
  start u cfg reqs = record {
    gate = set_limit_func (new_gate (pos 0) (queue_limits cfg));
    shared = record {
      pool = new_backend_pool u cfg.backends cfg.backend_api_key;
      conv = some (new_conversation_store conversation_ttl);
      metrics = some [];
    };
    store = [];
    clients = map new_client reqs;
  }
