-- ===== src/Router/Steps.antt =====
-- Every step that the router can take, from one access of shared state to the next.
use loxy_router.Base.{
  ◌⊎◌, inl, inr, refl, ℕ, ◌≡◌, ◌≢◌, Bool, true, false, List, [], ◌∷◌, ◌++◌, Option, none, some, Str,
  ℤ, In, insert, str_Eq, if◌then◌else◌,
}
use loxy_router.Text.{Unicode}
use loxy_router.Float.{Float64, FloatText}
use loxy_router.Backend.{Backend, up, down, set_status, ping, try_reserve}
use loxy_router.Pool.{modify}
use loxy_router.State.{StateStore}
use loxy_router.Conversation.{reap}
use loxy_router.Scheduler.{ClientRequest, SchedulerPlugin, ok, new_scheduler, pick_excluding}
use loxy_router.Gate.{Gate, release}
use loxy_router.Gate.System.{
  Request, serving, finished, Move, enters, bounces, waits, wakes, gives_up, gives_up_woken, leaves,
}
use loxy_router.Scraper.Poll.{Answers, scrape_typ, stored}
use loxy_router.Proxy.{Forward, Effect, Outcome, unavailable}
use loxy_router.Proxy.Effects.{Shared, apply_effect}
use loxy_router.Router.{
  Next, Work, picking, chosen, forwarding, doing, over, turned_away, resume, after_forward, Client,
  deref, Router,
}

-- The loop behind a step at the gate: Acquire returns false to a waiter that gave up, also to one
-- that owns a slot since it was woken just then.
abbrev pub after_gate : {g h : Gate} {p q : Request} → Move g p h q → Work → Work
after_gate (gives_up_woken e) k = turned_away
after_gate (enters live e) k = k
after_gate (bounces live e) k = k
after_gate (waits live e) k = k
after_gate (wakes e) k = k
after_gate (gives_up e) k = k
after_gate (leaves live) k = k

pub after_gate_cases :
    {g h : Gate} {p q : Request} (m : Move g p h q) (k : Work)
    → (after_gate m k ≡ k) ⊎ (after_gate m k ≡ turned_away)
after_gate_cases (gives_up_woken e) k = inr refl
after_gate_cases (enters live e) k = inl refl
after_gate_cases (bounces live e) k = inl refl
after_gate_cases (waits live e) k = inl refl
after_gate_cases (wakes e) k = inl refl
after_gate_cases (gives_up e) k = inl refl
after_gate_cases (leaves live) k = inl refl

module _ {f : Float64} (t : FloatText f) (u : Unicode) (plugins : List SchedulerPlugin) where
  open f use {Carrier}

  -- One step of a request in the loop. The time of a step is arbitrary, and so is the end of a
  -- forward.
  pub data Works (store : StateStore Carrier) (w : Shared) (req : ClientRequest)
      : Work → Shared → Work → Type 0 where
    picks :
        {tried : List (Str × Bool)} {retries : ℕ} {b : Backend} (now : ℕ)
        → pick_excluding f u (new_scheduler f w.pool store w.conv plugins) now req tried ≡ ok b
        → Works store w req (picking tried retries) w (chosen b (insert b.name true tried) retries)
    finds_none :
        {tried : List (Str × Bool)} {retries : ℕ} (now : ℕ)
        → ((b : Backend)
            → pick_excluding f u (new_scheduler f w.pool store w.conv plugins) now req tried ≢ ok b)
        → Works store w req (picking tried retries) w (over (unavailable retries))
    reserves_slot :
        {b c : Backend} {tried : List (Str × Bool)} {retries : ℕ}
        → deref b.addr w.pool ≡ some c
        → (try_reserve c).1 ≡ true
        → Works store w req
            (chosen b tried retries)
            (record w { pool = modify b.addr (λ x. (try_reserve x).0) w.pool })
            (forwarding b tried retries)
    loses_race :
        {b c : Backend} {tried : List (Str × Bool)} {retries : ℕ}
        → deref b.addr w.pool ≡ some c
        → (try_reserve c).1 ≡ false
        → Works store w req (chosen b tried retries) w (picking tried retries)
    comes_back :
        {b : Backend} {tried : List (Str × Bool)} {retries : ℕ} (end : Forward)
        → Works store w req (forwarding b tried retries) w (after_forward req b tried retries end)
    does :
        {e : Effect} {es : List Effect} {n : Next} (now : ℕ)
        → Works store w req (doing (e ∷ es) n) (apply_effect now w e) (doing es n)
    resumes : {n : Next} → Works store w req (doing [] n) w (resume n)

  -- One step of a request: at the gate before the loop, in the loop, or at the gate behind it.
  pub data ClientMoves (g : Gate) (store : StateStore Carrier) (w : Shared)
      : Client → Gate → Shared → Client → Type 0 where
    at_gate :
        {h : Gate} {req : ClientRequest} {p q : Request} {k : Work}
        → p ≢ serving
        → (m : Move g p h q)
        → ClientMoves g store w
            (record { req = req; gate = p; work = k })
            h
            w
            (record { req = req; gate = q; work = after_gate m k })
    in_loop :
        {v : Shared} {req : ClientRequest} {k l : Work}
        → Works store w req k v l
        → ClientMoves g store w
            (record { req = req; gate = serving; work = k })
            g
            v
            (record { req = req; gate = serving; work = l })
    leaves_gate :
        {req : ClientRequest} {o : Outcome} (live : ℤ)
        → ClientMoves g store w
            (record { req = req; gate = serving; work = over o })
            (release g live)
            w
            (record { req = req; gate = finished; work = over o })
    turns_back :
        {req : ClientRequest} (live : ℤ)
        → ClientMoves g store w
            (record { req = req; gate = serving; work = turned_away })
            (release g live)
            w
            (record { req = req; gate = finished; work = turned_away })

  -- One step of the router: of a request, of the health loop or the scraper at one backend, or of
  -- the reaper.
  pub data Step (s : Router f) : Router f → Type 0 where
    moves :
        (xs ys : List Client) (c d : Client) {g : Gate} {w : Shared}
        → s.clients ≡ xs ++ c ∷ ys
        → ClientMoves s.gate s.store s.shared c g w d
        → Step s (record s { gate = g; shared = w; clients = xs ++ d ∷ ys })
    pings :
        (p : ℕ) (get_status : Str → Option ℤ)
        → Step s (record s {
          shared = record s.shared {
            pool =
                modify p (λ b. set_status b (if ping get_status b then up else down)) s.shared.pool;
          };
        })
    polls :
        (now : ℕ) (a : Answers) {b : Backend}
        → In b s.shared.pool
        → Step s (record s {
          shared = record s.shared {
            pool = modify b.addr (λ c. (scrape_typ t u c now a).0) s.shared.pool;
          };
          store = stored t u s.store b.name (scrape_typ t u b now a).1;
        })
    reaps :
        (now : ℕ)
        → Step s (record s {
          shared = record s.shared {
            conv = elim s.shared.conv [ none ↦ none | some c ↦ some (reap c now) ];
          };
        })

  pub data Reach (s : Router f) : Router f → Type 0 where
    here : Reach s s
    later : {r q : Router f} → Reach s r → Step r q → Reach s q
