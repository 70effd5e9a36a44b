-- ===== src/Router/Admission.antt =====
-- The gate as the router uses it.
use loxy_router.Base.{◌≡◌, refl, ap, sym, subst, ◌∙◌, ◌⊎◌, inl, inr, List, [], ◌∷◌, ◌++◌, map}
use loxy_router.Text.{Unicode}
use loxy_router.State.{StateStore}
use loxy_router.Proxy.Effects.{Shared}
use loxy_router.Config.{Config, queue_limits}
use loxy_router.Float.{Float64, FloatText}
use loxy_router.Scheduler.{ClientRequest, SchedulerPlugin}
use loxy_router.Gate.{Gate}
use loxy_router.Gate.System.{Move, Request, arriving, serving, finished, System, leaves}
use loxy_router.Gate.System
use loxy_router.Gate.Safety.{main_gate, arrivals}
use loxy_router.Router.{Client, new_client, Router, start}
use loxy_router.Router.Steps.{
  at_gate, in_loop, leaves_gate, turns_back, ClientMoves, Step, moves, pings, polls, reaps, Reach,
  here, later,
}

abbrev pub gates : List Client → List Request
gates cs = map (λ c. c.gate) cs

gates-append : (xs ys : List Client) → gates (xs ++ ys) ≡ gates xs ++ gates ys
gates-append [] ys = refl
gates-append (x ∷ xs) ys = ap (x.gate ∷◌) (gates-append xs ys)

module _ {f : Float64} (t : FloatText f) (u : Unicode) (plugins : List SchedulerPlugin) where
  -- What the gate sees of the router.
  abbrev pub gate_view : Router f → System
  gate_view s = record { gate = s.gate; requests = gates s.clients }

  view_of :
      (g : Gate) (cs ds : List Client)
      → gates cs ≡ gates ds
      → ◌≡◌ {A = System}
          (record { gate = g; requests = gates cs })
          (record { gate = g; requests = gates ds })
  view_of g cs ds e = ap (λ rs. record { gate = g; requests = rs }) e

  -- A step of a request is one at the gate, or none.
  ClientMoves-gate :
      {g h : Gate} {store : StateStore f.Carrier} {w v : Shared} {c d : Client}
      → ClientMoves t u plugins g store w c h v d
      → ((g ≡ h) × (c.gate ≡ d.gate)) ⊎ Move g c.gate h d.gate
  ClientMoves-gate (at_gate n m) = inr m
  ClientMoves-gate (in_loop s) = inl (refl, refl)
  ClientMoves-gate (leaves_gate live) = inr (leaves live)
  ClientMoves-gate (turns_back live) = inr (leaves live)

  moved_gates :
      (xs ys : List Client) (c d : Client)
      → c.gate ≡ d.gate
      → gates (xs ++ c ∷ ys) ≡ gates (xs ++ d ∷ ys)
  moved_gates xs ys c d e =
      gates-append xs (c ∷ ys)
      ∙ ap (λ r. gates xs ++ r ∷ gates ys) e
      ∙ sym (gates-append xs (d ∷ ys))

  -- A step of the router is a step of the gate, or none.
  Step-gate_view :
      {s r : Router f}
      → Step t u plugins s r
      → (gate_view s ≡ gate_view r) ⊎ System.Step (gate_view s) (gate_view r)
  Step-gate_view {s} (moves xs ys c d {g} e m) = elim (ClientMoves-gate m) [
    | inl (k, q) ↦ inl (
        view_of s.gate s.clients (xs ++ d ∷ ys) (ap gates e ∙ moved_gates xs ys c d q)
        ∙ ap (λ h. record { gate = h; requests = gates (xs ++ d ∷ ys) }) k)
    | inr mv ↦ inr (
        System.moves (gates xs) (gates ys) c.gate d.gate (ap gates e ∙ gates-append xs (c ∷ ys))
          (gates-append xs (d ∷ ys)) mv)
  ]
  Step-gate_view (pings p get_status) = inl refl
  Step-gate_view (polls now a m) = inl refl
  Step-gate_view (reaps now) = inl refl

  Reach-gate_view :
      {s r : Router f} → Reach t u plugins s r → System.Reach (gate_view s) (gate_view r)
  Reach-gate_view here = System.here
  Reach-gate_view {s} (later h st) = elim (Step-gate_view st) [
    | inl e ↦ subst (System.Reach (gate_view s)) e (Reach-gate_view h)
    | inr g ↦ System.later (Reach-gate_view h) g
  ]

  gates-arrivals :
      (reqs : List ClientRequest)
      → gates (map new_client reqs) ≡ arrivals (map (λ q. q.priority) reqs)
  unfolding new_client arrivals
  gates-arrivals [] = refl
  gates-arrivals (q ∷ reqs) = ap (arriving q.priority ∷◌) (gates-arrivals reqs)

  -- What the router does at the gate is a run of the gate alone: for every state that the router
  -- reaches from its start there is an interleaving of arrivals, waits, wake-ups, cancellations and
  -- releases by the same requests that takes the dynamic gate of `main` to the same state.
  pub router-gate :
      (cfg : Config) (reqs : List ClientRequest) {r : Router f}
      → Reach t u plugins (start f u cfg reqs) r
      → System.Reach
          (record {
            gate = main_gate (queue_limits cfg);
            requests = arrivals (map (λ q. q.priority) reqs);
          })
          (gate_view r)
  unfolding start
  router-gate cfg reqs {r} h =
      subst
        (λ rs.
          System.Reach (record { gate = main_gate (queue_limits cfg); requests = rs })
            (gate_view r))
        (gates-arrivals reqs) (Reach-gate_view h)
