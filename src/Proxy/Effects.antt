-- ===== src/Proxy/Effects.antt =====
-- proxy.go: what the effects of the retry loop do to the backends, the conversation store and the
-- counters, one effect at a time.
pub mod Single
use loxy_router.Base.{ℕ, List, [], ◌∷◌, Option, none, some}
use loxy_router.Backend.{Backend, inc_inflight, dec_inflight, record_per_token_ms}
use loxy_router.Pool.{modify}
use loxy_router.Conversation.{ConversationStore}
use loxy_router.Conversation
use loxy_router.Metrics.{RequestTotals, inc_request}
use loxy_router.Proxy.{Effect, tries, reserves, releases, learns, pins, counts}

-- The state that requests share, but for the gate. The conversation store and the collector may be
-- nil.
pub record Shared : Type 0 where
  pub pool : List Backend
  pub conv : Option ConversationStore
  pub metrics : Option RequestTotals

-- An effect at a time. tryReserve with success adds one to the counter.
unfoldable pub apply_effect : ℕ → Shared → Effect → Shared
apply_effect now w (tries n) = w
apply_effect now w (reserves p) = record w { pool = modify p inc_inflight w.pool }
apply_effect now w (releases p) = record w { pool = modify p dec_inflight w.pool }
apply_effect now w (learns p ms) = record w {
  pool = modify p (λ b. record_per_token_ms b ms) w.pool;
}
apply_effect now w (pins c n) = record w {
  conv = elim w.conv [ none ↦ none | some s ↦ some (Conversation.set s now c n) ];
}
apply_effect now w (counts n status) = record w { metrics = inc_request n status w.metrics }
