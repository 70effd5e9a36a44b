-- ===== src/Router/Replay.antt =====
-- The steps of a request against the loop of Proxy.
use loxy_router.Base.{
  inl, inr, length, ℕ, ◌≡◌, ◌≢◌, refl, ap, sym, subst, ◌∙◌, true, List, [], ◌∷◌, ◌++◌, str_Eq,
}
use loxy_router.Text.{Unicode}
use loxy_router.Config.{Config}
use loxy_router.Float.{Float64, FloatText}
use loxy_router.State.{StateStore}
use loxy_router.Scheduler.{Scheduler, ClientRequest, SchedulerPlugin, new_scheduler}
use loxy_router.Proxy.{fails, Effect, Outcome, Round, loop}
use loxy_router.Proxy.Loop.{Run}
use loxy_router.Proxy.Finished.{unstuck-Run}
use loxy_router.Proxy.Effects.{Shared}
use loxy_router.Router.{turned_away, Work, over, Client, Router, start}
use loxy_router.Router.Steps.{
  picks, finds_none, reserves_slot, loses_race, comes_back, does, resumes, Reach,
}
use loxy_router.Router.Traces.{Trace, goes, Traced, router-Traced, Met, Passed, acts}
use loxy_router.Router.Positions.{AllFrom, AllFrom-at}
use loxy_router.Router.Remaining.{Replayed, picked_round, empty_round, round_forwarded, resume-Rest}

module _ {f : Float64} (t : FloatText f) (u : Unicode) (plugins : List SchedulerPlugin)
    (req : ClientRequest) where
  -- A round at the state of one step; a step that follows it chooses the rest.
  abbrev round_at : (store : StateStore f.Carrier) (w : Shared) (now : ℕ) → Round f
  round_at store w now = record {
    sched = new_scheduler f w.pool store w.conv plugins;
    now = now;
    current = λ b. b;
    forward = λ b. fails true;
  }

  module _ (M : StateStore f.Carrier → Shared → Type 0) (Saw : Scheduler f → Type 0)
      (shown : (store : StateStore f.Carrier) (w : Shared)
        → M store w
        → Saw (new_scheduler f w.pool store w.conv plugins)) where
    Trace-Replayed :
        {k m : Work} {es : List Effect} {o : Outcome}
        → Trace t u plugins M req k es m
        → m ≡ over o
        → Replayed f u req Saw k es o
    Trace-Replayed {k} {o} Trace.ends e =
        subst (λ x. Replayed f u req Saw x [] o) (sym e) (refl, refl)
    Trace-Replayed {o} (goes {store} {w} {es} i (picks {tried} {retries} {b} now e) h) q =
        let (fuel, rounds, c, end, v, g, x) = Trace-Replayed h q in
        picked_round f u req Saw (round_at store w now) b c tried retries end es o fuel rounds e v g
          (shown store w i) x
    Trace-Replayed {o} (goes {store} {w} {es} i (finds_none {tried} {retries} now n) h) q =
        let (z, v) = Trace-Replayed h q in
        empty_round f u req Saw (round_at store w now) tried retries es o n z v (shown store w i)
    Trace-Replayed (goes i (reserves_slot {b} {c} d e) h) q =
        let (fuel, rounds, end, v, g, x) = Trace-Replayed h q in
        (fuel, rounds, c, end, rw e v, g, x)
    Trace-Replayed (goes i (loses_race {b} {c} d e) h) q =
        let (fuel, rounds, v, g, x) = Trace-Replayed h q in
        (fuel, rounds, c, fails true, rw (e, v) refl, g, x)
    Trace-Replayed (goes {store} {w} i (comes_back {b} {tried} {retries} end) h) q =
        round_forwarded f u req Saw (round_at store w 0) b tried retries end (shown store w i)
          (Trace-Replayed h q)
    Trace-Replayed (goes i (does {e} now) h) q =
        let (fs, v, r) = Trace-Replayed h q in (fs, ap (e ∷◌) v, r)
    Trace-Replayed {o} (goes {es} i (resumes {n}) h) q =
        (es, refl, resume-Rest f u req Saw n es o (Trace-Replayed h q))

unturned : (o : Outcome) → over o ≢ turned_away
unturned o e = cc e

module _ {f : Float64} (t : FloatText f) (u : Unicode) (plugins : List SchedulerPlugin) where
  -- A scheduler over the shared state of some moment of a run.
  abbrev pub SeenIn : {s r : Router f} → Reach t u plugins s r → Scheduler f → Type 0
  SeenIn {r} h d =
      (q : Router f) × Passed t u plugins r h q
      × (d ≡ new_scheduler f q.shared.pool q.store q.shared.conv plugins)

  Met-SeenIn :
      {s r : Router f} (h : Reach t u plugins s r) (store : StateStore f.Carrier) (w : Shared)
      → Met t u plugins h store w
      → SeenIn h (new_scheduler f w.pool store w.conv plugins)
  Met-SeenIn h store w (q, i, e, k) = (
    q,
    i,
    sym (
        ap (λ z. new_scheduler f q.shared.pool z q.shared.conv plugins) e
        ∙ ap (λ z. new_scheduler f z.pool store z.conv plugins) k),
  )

  -- The steps of a request are the loop. Take a run of the router from its start, and the request that
  -- stands behind `xs` in its last state, at the end of the loop. There are rounds for which `loop`
  -- ends with the outcome of the request, and with exactly the effects that its steps had in that run,
  -- in order, whatever other requests and the background loops did between them; and what the
  -- scheduler sees in each round is a state that the run came through. So the request tried no
  -- backend name twice in that run, returned for each backend as many slots as it claimed, counted the
  -- status that it passed on, once, and no other, and only learned from a status from 200 to 299.
  pub router_loop :
      (cfg : Config) (reqs : List ClientRequest) {r : Router f}
      (h : Reach t u plugins (start f u cfg reqs) r) (xs ys : List Client) (c : Client)
      (o : Outcome)
      → r.clients ≡ xs ++ c ∷ ys
      → c.work ≡ over o
      → Run [] (acts t u plugins h (length xs), o)
        × (fuel : ℕ) × (rounds : ℕ → Round f) × (loop f fuel u rounds 0 c.req [] 0
            ≡ (acts t u plugins h (length xs), o))
        × ((i : ℕ) → SeenIn h (rounds i).sched)
  router_loop cfg reqs {r} h xs ys c o k e =
      let P : ℕ → Client → Type 0 =
        λ i x. Traced t u plugins (Met t u plugins h) (acts t u plugins h i) x in
      let mine : P (length xs) c =
        AllFrom-at P xs ys c (subst (AllFrom P 0) k (router-Traced t u plugins cfg reqs h)) in
      elim mine [
        | inl z ↦ absurd (unturned o (sym e ∙ z))
        | inr s ↦
            let (fuel, rounds, v, n, x) =
              Trace-Replayed t u plugins c.req (Met t u plugins h) (SeenIn h) (Met-SeenIn h) s e in
            let run =
              unstuck-Run f u c.req rounds fuel 0 [] 0 (λ q. n (sym (ap (λ x. x.1) v) ∙ q)) in
            (subst (Run []) v run, fuel, rounds, v, x)
      ]
