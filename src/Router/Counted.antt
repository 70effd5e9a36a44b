-- ===== src/Router/Counted.antt =====
-- The counters of /metrics against the responses that came back.
use loxy_router.Base.{
  ℕ, ◌+◌, ◌*◌, ◌≤◌, ◌<◌, ◌^◌, ◌≡◌, refl, ap, subst, ◌∙◌, ◌⊎◌, inl, inr, List, [], ◌∷◌, ◌++◌, map,
  length, some, pos, arith, All, All-at, All-middle,
}
use loxy_router.Text.{Unicode}
use loxy_router.Config.{Config}
use loxy_router.Float.{Float64, FloatText}
use loxy_router.State.{StateStore}
use loxy_router.Scheduler.{ClientRequest, SchedulerPlugin}
use loxy_router.Metrics.{RequestKey, RequestTotals, total_of}
use loxy_router.Metrics.Counts.{recorded, times, recorded-times}
use loxy_router.Gate.{Gate}
use loxy_router.Gate.System.{serving}
use loxy_router.Gate.Safety.{Idle}
use loxy_router.Proxy.Effects.{Shared}
use loxy_router.Router.{Work, Client, new_client, Router, start}
use loxy_router.Router.Steps.{
  Works, picks, finds_none, reserves_slot, loses_race, comes_back, does, resumes, ClientMoves,
  at_gate, in_loop, leaves_gate, turns_back, after_gate, after_gate_cases, Step, moves, pings,
  polls, reaps, Reach, here, later,
}
use loxy_router.Router.Admission.{gates}
use loxy_router.Router.Termination.{request_steps, router_terminates}
use loxy_router.Router.Responses.{
  pending, owed, owed-middle, after_forward-pending, resume-pending, keys_of, apply_effect-metrics,
  times-keys_of, length-keys_of, loop_answers, client_answers, answers,
}

-- Only a request that is served has responses to count.
abbrev Calm : Client → Type 0
Calm c = (c.gate ≡ serving) ⊎ ((k : RequestKey) → pending k c.work ≡ 0)

-- The collector, with calls of IncRequest for `ks`, after one more step of a request.
record Counted (answer : RequestKey → ℕ) (before after : RequestKey → ℕ) (ks : List RequestKey)
    (w : Shared) : Type 0 where
  keys : List RequestKey
  kept : w.metrics ≡ recorded keys
  short : length keys ≤ length ks + 1
  settled : (k : RequestKey) → times k keys + after k ≡ times k ks + before k + answer k

same_Counted :
    (answer before after : RequestKey → ℕ) (ks : List RequestKey) (w : Shared)
    → w.metrics ≡ recorded ks
    → ((k : RequestKey) → after k ≡ before k + answer k)
    → Counted answer before after ks w
same_Counted answer before after ks w e h = record {
  keys = ks;
  kept = e;
  short = omega arith;
  settled = λ k. omega (arith, h k);
}

module _ {f : Float64} (t : FloatText f) (u : Unicode) (plugins : List SchedulerPlugin) where
  Works-Counted :
      (ks : List RequestKey) {store : StateStore f.Carrier} {w v : Shared} {req : ClientRequest}
      {k l : Work}
      → (s : Works t u plugins store w req k v l) → w.metrics ≡ recorded ks
      → Counted (λ i. loop_answers t u plugins i s) (λ i. pending i k) (λ i. pending i l) ks v
  Works-Counted ks {w} (picks now e) h = same_Counted _ _ _ ks w h (λ i. omega arith)
  Works-Counted ks {w} (finds_none now n) h = same_Counted _ _ _ ks w h (λ i. omega arith)
  Works-Counted ks (reserves_slot e x) h = record {
    keys = ks;
    kept = h;
    short = omega arith;
    settled = λ i. omega arith;
  }
  Works-Counted ks {w} (loses_race e x) h = same_Counted _ _ _ ks w h (λ i. omega arith)
  Works-Counted ks {w} {req} (comes_back {b} {tried} {retries} end) h =
      same_Counted _ _ _ ks w h
        (λ i. omega (arith, after_forward-pending i req b tried retries end))
  Works-Counted ks {w} (does {e} now) h = record {
    keys = keys_of e ++ ks;
    kept = apply_effect-metrics now w ks e h;
    short = length-keys_of ks e;
    settled = λ i. omega (arith, times-keys_of i ks e);
  }
  Works-Counted ks {w} (resumes {n}) h =
      same_Counted _ _ _ ks w h (λ i. omega (arith, resume-pending i n))

  ClientMoves-Counted :
      (ks : List RequestKey) {g h : Gate} {store : StateStore f.Carrier} {w v : Shared}
      {c d : Client}
      → (m : ClientMoves t u plugins g store w c h v d) → w.metrics ≡ recorded ks
      → Calm c
      → Counted
          (λ i. client_answers t u plugins i m)
          (λ i. pending i c.work)
          (λ i. pending i d.work)
          ks
          v
        × Calm d
  ClientMoves-Counted ks {w} (at_gate {k} n m) h q =
      let none : (i : RequestKey) → pending i k ≡ 0 = elim q [ inl e ↦ absurd (n e) | inr z ↦ z ] in
      let still : (i : RequestKey) → pending i (after_gate m k) ≡ 0 = elim (after_gate_cases m k) [
        | inl e ↦ λ i. ap (pending i) e ∙ none i
        | inr e ↦ λ i. ap (pending i) e
      ] in
      (same_Counted _ _ _ ks w h (λ i. omega (arith, none i, still i)), inr still)
  ClientMoves-Counted ks (in_loop s) h q = (Works-Counted ks s h, inl refl)
  ClientMoves-Counted ks {w} (leaves_gate live) h q =
      (same_Counted _ _ _ ks w h (λ i. omega arith), inr (λ i. refl))
  ClientMoves-Counted ks {w} (turns_back live) h q =
      (same_Counted _ _ _ ks w h (λ i. omega arith), inr (λ i. refl))

  -- The collector of a state, against the run that led there.
  record Tally {s r : Router f} (h : Reach t u plugins s r) : Type 0 where
    keys : List RequestKey
    kept : r.shared.metrics ≡ recorded keys
    short : length keys ≤ request_steps t u plugins h
    calm : All Calm r.clients
    settled : (k : RequestKey) → times k keys + owed k r.clients ≡ answers t u plugins k h

  Step-Tally :
      {s r q : Router f} (h : Reach t u plugins s r) (st : Step t u plugins r q)
      → Tally h
      → Tally (later h st)
  Step-Tally {r} h (moves xs ys c d e m) v =
      let calm : All Calm (xs ++ c ∷ ys) = subst (All Calm) e v.calm in
      let (n, x) = ClientMoves-Counted v.keys m v.kept (All-at Calm xs ys c calm) in
      record {
        keys = n.keys;
        kept = n.kept;
        short = omega (arith, n.short, v.short);
        calm = All-middle Calm xs ys c d calm x;
        settled = λ k. omega (
          arith,
          n.settled k,
          v.settled k,
          ap (owed k) e,
          owed-middle k xs ys c,
          owed-middle k xs ys d,
        );
      }
  Step-Tally h (pings p get_status) v = record {
    keys = v.keys;
    kept = v.kept;
    short = omega (arith, v.short);
    calm = v.calm;
    settled = λ k. omega (arith, v.settled k);
  }
  Step-Tally h (polls now a m) v = record {
    keys = v.keys;
    kept = v.kept;
    short = omega (arith, v.short);
    calm = v.calm;
    settled = λ k. omega (arith, v.settled k);
  }
  Step-Tally h (reaps now) v = record {
    keys = v.keys;
    kept = v.kept;
    short = omega (arith, v.short);
    calm = v.calm;
    settled = λ k. omega (arith, v.settled k);
  }

  new_clients-Calm : (reqs : List ClientRequest) → All Calm (map new_client reqs)
  unfolding new_client
  new_clients-Calm [] = tt
  new_clients-Calm (q ∷ reqs) = (inr (λ k. refl), new_clients-Calm reqs)

  new_clients-owed : (k : RequestKey) (reqs : List ClientRequest) → owed k (map new_client reqs) ≡ 0
  unfolding new_client
  new_clients-owed k [] = refl
  new_clients-owed k (q ∷ reqs) = omega (arith, new_clients-owed k reqs)

  router-Tally :
      (cfg : Config) (reqs : List ClientRequest) {r : Router f}
      (h : Reach t u plugins (start f u cfg reqs) r)
      → Tally h
  unfolding start recorded times
  router-Tally cfg reqs here = record {
    keys = [];
    kept = refl;
    short = omega arith;
    calm = new_clients-Calm reqs;
    settled = λ k. omega (arith, new_clients-owed k reqs);
  }
  router-Tally cfg reqs (later h st) = Step-Tally h st (router-Tally cfg reqs h)

  Idle-owed :
      (k : RequestKey) (cs : List Client) → All Calm cs → All Idle (gates cs) → owed k cs ≡ 0
  Idle-owed k [] v a = refl
  Idle-owed k (c ∷ cs) v a = elim v.0 [
    | inl e ↦ absurd (subst Idle e a.0)
    | inr z ↦ omega (arith, z k, Idle-owed k cs v.1 a.1)
  ]

  -- The counters of /metrics count the responses of the backends. In every state that the router
  -- reaches from its start, the entry of a backend's name and a status, and the responses for it whose
  -- requests have not come to IncRequest yet, are together the number of forwards in that run, to a
  -- backend of that name, that came back with that status. Once each request has not come yet or is
  -- finished, the entry is that number. The requests are so few that their steps fit an int64.
  pub router_counted :
      (cfg : Config) (reqs : List ClientRequest) {r : Router f}
      (h : Reach t u plugins (start f u cfg reqs) r)
      → length reqs * (8 * length cfg.backends + 6) < 2 ^ 63
      → (m : RequestTotals) × (r.shared.metrics ≡ some m)
        × ((k : RequestKey)
            → (n : ℕ) × (total_of k m ≡ pos n) × (n + owed k r.clients ≡ answers t u plugins k h))
        × (All Idle (gates r.clients)
            → (k : RequestKey) → total_of k m ≡ pos (answers t u plugins k h))
  router_counted cfg reqs {r} h few =
      let v = router-Tally cfg reqs h in
      let (m, e, count) =
        recorded-times v.keys
          (omega (arith, v.short, few, router_terminates t u plugins cfg reqs h)) in
      (
        m,
        v.kept ∙ e,
        λ k. (times k v.keys, count k, v.settled k),
        λ a k. count k ∙ ap pos (omega (arith, v.settled k, Idle-owed k r.clients v.calm a)),
      )
