-- ===== src/Router/Slots.antt =====
-- The counters of the backends in every state that the router can reach.
use loxy_router.Base.{
  ℕ, suc, ◌≤◌, ◌<◌, ◌^◌, ◌≡◌, refl, ap, sym, ◌⊎◌, inr, List, [], ◌∷◌, map, length, Str, ◌==◌, pos,
  pos_part, ◌≤ℤ◌, arith, All, All-In, In, false,
}
use loxy_router.Text.{Unicode}
use loxy_router.Config.{Config, BackendConfig}
use loxy_router.Float.{Float64, FloatText}
use loxy_router.Backend.{Backend}
use loxy_router.Pool.{new_backend, new_backends, new_backend_pool}
use loxy_router.Scheduler.{ClientRequest, SchedulerPlugin}
use loxy_router.Router.{new_client, Router, start}
use loxy_router.Router.Steps.{Reach}
use loxy_router.Router.Pointers.{Distinct, addrs}
use loxy_router.Router.Accounts.{Account, Account-subst}
use loxy_router.Router.Books.{held, Tidy, Books, Reach-Books}

higher_addrs :
    (u : Unicode) (key : Str) (i k : ℕ) (cs : List BackendConfig)
    → i < k
    → All (λ q. q == i ≡ false) (addrs (new_backends u key k cs))
unfolding new_backends new_backend
higher_addrs u key i k [] h = tt
higher_addrs u key i k (c ∷ cs) h = (ground arith, higher_addrs u key i (suc k) cs (omega arith))

new_backends-Distinct :
    (u : Unicode) (key : Str) (i : ℕ) (cs : List BackendConfig)
    → Distinct (addrs (new_backends u key i cs))
unfolding new_backends new_backend
new_backends-Distinct u key i [] = tt
new_backends-Distinct u key i (c ∷ cs) =
    (higher_addrs u key i (suc i) cs (omega arith), new_backends-Distinct u key (suc i) cs)

new_backends-Account :
    (u : Unicode) (key : Str) (i : ℕ) (cs : List BackendConfig) (n : ℕ → ℕ)
    → ((p : ℕ) → n p ≡ 0)
    → All (λ b. Account (n b.addr) b) (new_backends u key i cs)
unfolding new_backends new_backend
new_backends-Account u key i [] n z = tt
new_backends-Account u key i (c ∷ cs) n z = (
  Account-subst (sym (z i)) (record { counted = refl; capped = inr (omega arith) }),
  new_backends-Account u key (suc i) cs n z,
)

held_none : (p : ℕ) (reqs : List ClientRequest) → held p (map new_client reqs) ≡ 0
unfolding new_client
held_none p [] = refl
held_none p (q ∷ reqs) = omega (arith, held_none p reqs)

length-new_client : (reqs : List ClientRequest) → length (map new_client reqs) ≡ length reqs
length-new_client [] = refl
length-new_client (q ∷ reqs) = ap suc (length-new_client reqs)

new_client-Tidy : (reqs : List ClientRequest) → All Tidy (map new_client reqs)
unfolding new_client
new_client-Tidy [] = tt
new_client-Tidy (q ∷ reqs) = (
  record {
    sound = record { no_claims = tt; slot = 0; single = λ p. omega arith };
    idle = inr (λ p. refl);
  },
  new_client-Tidy reqs,
)

start-Books :
    (f : Float64) (u : Unicode) (cfg : Config) (reqs : List ClientRequest)
    → length reqs < 2 ^ 62
    → Books (start f u cfg reqs).clients (start f u cfg reqs).shared.pool
unfolding start new_backend_pool
start-Books f u cfg reqs h = record {
  few = omega (arith, length-new_client reqs);
  tidy = new_client-Tidy reqs;
  distinct = new_backends-Distinct u cfg.backend_api_key 0 cfg.backends;
  accounts = new_backends-Account u cfg.backend_api_key 0 cfg.backends _ (λ p. held_none p reqs);
}

module _ {f : Float64} (t : FloatText f) (u : Unicode) (plugins : List SchedulerPlugin) where
  pub router-Books :
      (cfg : Config) (reqs : List ClientRequest) {r : Router f}
      → length reqs < 2 ^ 62
      → Reach t u plugins (start f u cfg reqs) r
      → Books r.clients r.shared.pool
  router-Books cfg reqs h s = Reach-Books t u plugins s (start-Books f u cfg reqs h)

  -- The slots of the backends are neither lost, doubled nor oversold. Let any number of requests
  -- below 2 ^ 62 come to the router that `main` sets up. After any interleaving of their steps at
  -- the gate and in the loop of ServeHTTP, with forwards that end in any way, and of rounds of the
  -- health loop, of the scraper and of the reaper, `inflight` of each backend is the number of slots
  -- that requests hold of it, and does not exceed `max_concurrent` where that is positive.
  pub router_slots :
      (cfg : Config) (reqs : List ClientRequest) {r : Router f}
      → length reqs < 2 ^ 62
      → Reach t u plugins (start f u cfg reqs) r
      → {b : Backend} → In b r.shared.pool
      → (b.inflight ≡ pos (held b.addr r.clients))
        × ((b.max_concurrent ≤ℤ pos 0) ⊎ (held b.addr r.clients ≤ pos_part b.max_concurrent))
  router_slots cfg reqs {r} h s {b} m =
      let a =
        All-In (λ x. Account (held x.addr r.clients) x) r.shared.pool
          (router-Books cfg reqs h s).accounts m in
      (a.counted, a.capped)
