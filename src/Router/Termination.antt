-- ===== src/Router/Termination.antt =====
-- How many steps requests take.
use loxy_router.Base.{
  inl, inr, ℕ, suc, ◌+◌, ◌*◌, ◌≤◌, ◌<◌, ◌≡◌, refl, ap, subst, Bool, true, false, List, [], ◌∷◌,
  ◌++◌, map, length, Str, In, arith, total, total-append,
}
use loxy_router.Text.{Unicode}
use loxy_router.Config.{Config, BackendConfig}
use loxy_router.Float.{Float64, FloatText}
use loxy_router.Backend.{Backend}
use loxy_router.Pool.{new_backends, new_backend_pool}
use loxy_router.State.{StateStore}
use loxy_router.Scheduler.{ClientRequest, SchedulerPlugin, new_scheduler}
use loxy_router.Scheduler.Choice.{pick_excluding-Eligible}
use loxy_router.Scheduler.Health.{new_scheduler-pool}
use loxy_router.Gate.{Gate}
use loxy_router.Gate.System.{
  Request, arriving, queued, serving, finished, Move, enters, bounces, waits, wakes, gives_up,
  gives_up_woken, leaves,
}
use loxy_router.Proxy.{Forward, fails, responds, after_stream}
use loxy_router.Proxy.Loop.{untried, untried-insert, untried-length}
use loxy_router.Proxy.Effects.{Shared}
use loxy_router.Router.{
  turned_away, Next, goes_on, ends_with, Work, picking, chosen, forwarding, doing, over, resume,
  after_forward, Client, new_client, Router, start,
}
use loxy_router.Router.Steps.{
  Works, picks, finds_none, reserves_slot, loses_race, comes_back, does, resumes, ClientMoves,
  at_gate, in_loop, leaves_gate, turns_back, after_gate, after_gate_cases, Step, moves, pings,
  polls, reaps, Reach, here, later,
}
use loxy_router.Router.Names.{names, In-names, Reach-names}

-- What a request may still do in the loop, at most, and at the gate.
abbrev loop_left : List Str → Work → ℕ
loop_left ns (picking tried retries) = 8 * untried tried ns + 3
loop_left ns (chosen b tried retries) = 8 * untried tried ns + 10
loop_left ns (forwarding b tried retries) = 8 * untried tried ns + 9
loop_left ns (doing es (goes_on tried retries)) = length es + 8 * untried tried ns + 4
loop_left ns (doing es (ends_with o)) = length es + 1
loop_left ns (over o) = 0
loop_left ns turned_away = 0

abbrev gate_left : Request → ℕ
gate_left (arriving p) = 3
gate_left (queued p c) = 2
gate_left serving = 1
gate_left finished = 0

abbrev left : List Str → Client → ℕ
left ns c = gate_left c.gate + loop_left ns c.work

after_forward-left :
    (ns : List Str) (req : ClientRequest) (b : Backend) (tried : List (Str × Bool)) (retries : ℕ)
    (end : Forward)
    → loop_left ns (after_forward req b tried retries end)
      < loop_left ns (forwarding b tried retries)
unfolding after_forward after_stream
after_forward-left ns req b tried retries (fails true) = omega arith
after_forward-left ns req b tried retries (fails false) = omega arith
after_forward-left ns req b tried retries (responds s m g) = ground arith

resume-left : (ns : List Str) (n : Next) → loop_left ns (resume n) < loop_left ns (doing [] n)
resume-left ns (goes_on tried retries) = omega arith
resume-left ns (ends_with o) = omega arith

Move-left : {g h : Gate} {p q : Request} → Move g p h q → gate_left q < gate_left p
Move-left (enters live e) = omega arith
Move-left (bounces live e) = omega arith
Move-left (waits live e) = omega arith
Move-left (wakes e) = omega arith
Move-left (gives_up e) = omega arith
Move-left (gives_up_woken e) = omega arith
Move-left (leaves live) = omega arith

after_gate-left :
    (ns : List Str) {g h : Gate} {p q : Request} (m : Move g p h q) (k : Work)
    → loop_left ns (after_gate m k) ≤ loop_left ns k
after_gate-left ns m k = elim (after_gate_cases m k) [
  | inl e ↦ omega (arith, ap (loop_left ns) e)
  | inr e ↦ omega (arith, ap (loop_left ns) e)
]

total-middle :
    (w : Client → ℕ) (xs ys : List Client) (c : Client)
    → total w (xs ++ c ∷ ys) ≡ w c + total w (xs ++ ys)
total-middle w xs ys c = omega (arith, total-append w xs (c ∷ ys), total-append w xs ys)

length-names :
    (u : Unicode) (key : Str) (i : ℕ) (cs : List BackendConfig)
    → length (names (new_backends u key i cs)) ≡ length cs
unfolding new_backends
length-names u key i [] = refl
length-names u key i (c ∷ cs) = ap suc (length-names u key (suc i) cs)

all_left :
    (ns : List Str) (n : ℕ) (reqs : List ClientRequest)
    → untried [] ns ≤ n
    → total (left ns) (map new_client reqs) ≤ length reqs * (8 * n + 6)
unfolding new_client
all_left ns n [] h = omega arith
all_left ns n (q ∷ reqs) h = grind (arith, all_left ns n reqs h)

module _ {f : Float64} (t : FloatText f) (u : Unicode) (plugins : List SchedulerPlugin) where
  -- How many of the steps of a run are steps of requests.
  abbrev taken : {s r : Router f} → Step t u plugins s r → ℕ
  taken (moves xs ys c d e m) = 1
  taken (pings p get_status) = 0
  taken (polls now a m) = 0
  taken (reaps now) = 0

  abbrev pub request_steps : {s r : Router f} → Reach t u plugins s r → ℕ
  request_steps here = 0
  request_steps (later h st) = request_steps h + taken st

  Works-left :
      (ns : List Str) {store : StateStore f.Carrier} {w v : Shared} {req : ClientRequest}
      {k l : Work}
      → names w.pool ≡ ns
      → Works t u plugins store w req k v l
      → loop_left ns l < loop_left ns k
  Works-left ns {store} {w} {req} n (picks {tried} {retries} {b} now e) =
      let h =
        pick_excluding-Eligible f u (new_scheduler f w.pool store w.conv plugins) now req tried e in
      let m = subst (In b) (new_scheduler-pool f w.pool store w.conv plugins) h.member in
      omega
        (arith, untried-insert b.name tried ns (subst (In b.name) n (In-names w.pool m)) h.allowed)
  Works-left ns n (finds_none now e) = omega arith
  Works-left ns n (reserves_slot e h) = omega arith
  Works-left ns n (loses_race e h) = omega arith
  Works-left ns {req} n (comes_back {b} {tried} {retries} end) =
      after_forward-left ns req b tried retries end
  Works-left ns n (does {n = goes_on tried retries} now) = omega arith
  Works-left ns n (does {n = ends_with o} now) = omega arith
  Works-left ns n (resumes {n = m}) = resume-left ns m

  ClientMoves-left :
      (ns : List Str) {g h : Gate} {store : StateStore f.Carrier} {w v : Shared} {c d : Client}
      → names w.pool ≡ ns
      → ClientMoves t u plugins g store w c h v d
      → left ns d < left ns c
  ClientMoves-left ns n (at_gate {k} x m) = omega (arith, Move-left m, after_gate-left ns m k)
  ClientMoves-left ns n (in_loop s) = omega (arith, Works-left ns n s)
  ClientMoves-left ns n (leaves_gate live) = omega arith
  ClientMoves-left ns n (turns_back live) = omega arith

  Step-left :
      (ns : List Str) {s r : Router f}
      → names s.shared.pool ≡ ns
      → (st : Step t u plugins s r)
      → taken st + total (left ns) r.clients ≤ total (left ns) s.clients
  Step-left ns n (moves xs ys c d e m) = omega (
    arith,
    ap (total (left ns)) e,
    total-middle (left ns) xs ys c,
    total-middle (left ns) xs ys d,
    ClientMoves-left ns n m,
  )
  Step-left ns n (pings p get_status) = omega arith
  Step-left ns n (polls now a m) = omega arith
  Step-left ns n (reaps now) = omega arith

  Reach-left :
      {s r : Router f} (h : Reach t u plugins s r)
      → request_steps h + total (left (names s.shared.pool)) r.clients
        ≤ total (left (names s.shared.pool)) s.clients
  Reach-left here = omega arith
  Reach-left {s} (later h st) =
      omega (arith, Reach-left h, Step-left (names s.shared.pool) (Reach-names t u plugins h) st)

  -- The router terminates. Of the steps that it takes from its start, whatever requests, backends
  -- and background loops do, at most 8 * n + 6 for each request are steps of requests, at the gate
  -- and in the loop of ServeHTTP, where n is the number of backends.
  pub router_terminates :
      (cfg : Config) (reqs : List ClientRequest) {r : Router f}
      → (h : Reach t u plugins (start f u cfg reqs) r)
      → request_steps h ≤ length reqs * (8 * length cfg.backends + 6)
  unfolding start new_backend_pool
  router_terminates cfg reqs h =
      let ns = names (new_backends u cfg.backend_api_key 0 cfg.backends) in
      omega (
        arith,
        Reach-left h,
        all_left ns (length cfg.backends) reqs
            (omega (arith, untried-length ns, length-names u cfg.backend_api_key 0 cfg.backends)),
      )
