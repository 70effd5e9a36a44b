-- ===== src/Router/Traces.antt =====
-- The steps of one request in the loop, in order, whatever happens between them.
use loxy_router.Base.{
  ℕ, suc, ◌==◌, if◌then◌else◌, length, arith, ==_iff, ◌⊎◌, inl, inr, ◌≢◌, ◌∙◌, ◌≡◌, refl, ap, sym,
  subst, List, [], ◌∷◌, ◌++◌, map,
}
use loxy_router.Text.{Unicode}
use loxy_router.Config.{Config}
use loxy_router.Float.{Float64, FloatText}
use loxy_router.State.{StateStore}
use loxy_router.Scheduler.{ClientRequest, SchedulerPlugin}
use loxy_router.Gate.{Gate}
use loxy_router.Proxy.{Effect, tries, reserves}
use loxy_router.Proxy.Effects.{Shared}
use loxy_router.Router.{turned_away, Work, picking, Client, new_client, Router, start}
use loxy_router.Router.Steps.{
  Works, picks, finds_none, reserves_slot, loses_race, comes_back, does, resumes, ClientMoves,
  at_gate, in_loop, leaves_gate, turns_back, after_gate, after_gate_cases, Step, moves, pings,
  polls, reaps, Reach, here, later,
}
use loxy_router.Router.Positions.{AllFrom, AllFrom-imp, AllFrom-middle}

pub append_nil : (xs : List Effect) → xs ++ [] ≡ xs
append_nil [] = refl
append_nil (x ∷ xs) = ap (x ∷◌) (append_nil xs)

append_assoc : (xs ys zs : List Effect) → (xs ++ ys) ++ zs ≡ xs ++ (ys ++ zs)
append_assoc [] ys zs = refl
append_assoc (x ∷ xs) ys zs = ap (x ∷◌) (append_assoc xs ys zs)

module _ {f : Float64} (t : FloatText f) (u : Unicode) (plugins : List SchedulerPlugin) where
  -- What a step does, as the effects of the loop in Proxy.
  abbrev pub done_by :
      {store : StateStore f.Carrier} {w v : Shared} {req : ClientRequest} {k l : Work}
      → Works t u plugins store w req k v l
      → List Effect
  done_by (picks {b} now e) = tries b.name ∷ []
  done_by (finds_none now n) = []
  done_by (reserves_slot {b} e h) = reserves b.addr ∷ []
  done_by (loses_race e h) = []
  done_by (comes_back end) = []
  done_by (does {e} now) = e ∷ []
  done_by resumes = []

  -- Steps of a request from one place to another, with what they do. Each is a step at a store and a
  -- shared state that were met.
  pub data Trace (Met : StateStore f.Carrier → Shared → Type 0) (req : ClientRequest)
      : Work → List Effect → Work → Type 0 where
    ends : {k : Work} → Trace Met req k [] k
    goes :
        {store : StateStore f.Carrier} {w v : Shared} {k l m : Work} {es : List Effect}
        → Met store w
        → (s : Works t u plugins store w req k v l) → Trace Met req l es m
        → Trace Met req k (done_by s ++ es) m

  module _ {Met : StateStore f.Carrier → Shared → Type 0} where
    Trace-goes :
        {req : ClientRequest} {store : StateStore f.Carrier} {w v : Shared} {k l m : Work}
        {es : List Effect}
        → Trace Met req k es l
        → Met store w
        → (s : Works t u plugins store w req l v m) → Trace Met req k (es ++ done_by s) m
    Trace-goes {req} {k} {m} ends i s =
        subst (λ fs. Trace Met req k fs m) (append_nil (done_by s)) (goes i s ends)
    Trace-goes {req} {k} {m} (goes {es} j a h) i s =
        subst (λ fs. Trace Met req k fs m) (sym (append_assoc (done_by a) es (done_by s)))
          (goes j a (Trace-goes h i s))

    Trace-widen :
        (Seen : StateStore f.Carrier → Shared → Type 0)
        → ((store : StateStore f.Carrier) (w : Shared) → Met store w → Seen store w)
        → {req : ClientRequest} {k l : Work} {es : List Effect} → Trace Met req k es l
        → Trace Seen req k es l
    Trace-widen Seen x ends = ends
    Trace-widen Seen x (goes {store} {w} i s h) = goes (x store w i) s (Trace-widen Seen x h)

  -- What a request does in the loop by one of its steps.
  abbrev pub client_acts :
      {g h : Gate} {store : StateStore f.Carrier} {w v : Shared} {c d : Client}
      → ClientMoves t u plugins g store w c h v d
      → List Effect
  client_acts (at_gate n m) = []
  client_acts (in_loop s) = done_by s
  client_acts (leaves_gate live) = []
  client_acts (turns_back live) = []

  abbrev step_acts : {s r : Router f} → Step t u plugins s r → ℕ → List Effect
  step_acts (moves xs ys c d e m) i = if length xs == i then client_acts m else []
  step_acts (pings p get_status) i = []
  step_acts (polls now a m) i = []
  step_acts (reaps now) i = []

  -- What the request at position `i` did in the loop during a run, in order.
  abbrev pub acts : {s r : Router f} → Reach t u plugins s r → ℕ → List Effect
  acts here i = []
  acts (later h st) i = acts h i ++ step_acts st i

  -- The states that a run came through, the last one included.
  pub data Passed {s : Router f} : (r : Router f) → Reach t u plugins s r → Router f → Type 0 where
    at_end : {r : Router f} {h : Reach t u plugins s r} → Passed r h r
    earlier :
        {r q p : Router f} {h : Reach t u plugins s r} {st : Step t u plugins r q}
        → Passed r h p
        → Passed q (later h st) p

  -- A store and a shared state that the run came through.
  abbrev pub Met : {s r : Router f} → Reach t u plugins s r → StateStore f.Carrier → Shared → Type 0
  Met {r} h store w = (q : Router f) × Passed r h q × (q.store ≡ store) × (q.shared ≡ w)

  Met-later :
      {s r q : Router f} (h : Reach t u plugins s r) (st : Step t u plugins r q)
      (store : StateStore f.Carrier) (w : Shared)
      → Met h store w
      → Met (later h st) store w
  Met-later h st store w (p, i, e, z) = (p, earlier i, e, z)

  -- A request came to where it stands by these effects, or was turned away before the loop.
  abbrev pub Traced : (StateStore f.Carrier → Shared → Type 0) → List Effect → Client → Type 0
  Traced M es c = (c.work ≡ turned_away) ⊎ Trace M c.req (picking [] 0) es c.work

  Works-goes :
      {store : StateStore f.Carrier} {w v : Shared} {req : ClientRequest} {k l : Work}
      → Works t u plugins store w req k v l
      → k ≢ turned_away
  Works-goes (picks now e) z = cc z
  Works-goes (finds_none now e) z = cc z
  Works-goes (reserves_slot e h) z = cc z
  Works-goes (loses_race e h) z = cc z
  Works-goes (comes_back end) z = cc z
  Works-goes (does now) z = cc z
  Works-goes resumes z = cc z

  ClientMoves-Traced :
      (M : StateStore f.Carrier → Shared → Type 0) (es : List Effect) {g h : Gate}
      {store : StateStore f.Carrier} {w v : Shared} {c d : Client}
      → M store w
      → (m : ClientMoves t u plugins g store w c h v d) → Traced M es c
      → Traced M (es ++ client_acts m) d
  ClientMoves-Traced M es i (at_gate {req} {k} n m) x = elim (after_gate_cases m k) [
    | inr e ↦ inl e
    | inl e ↦ elim x [
      | inl z ↦ inl (e ∙ z)
      | inr h ↦ inr (
          subst (λ fs. Trace M req (picking [] 0) fs (after_gate m k)) (sym (append_nil es))
            (subst (λ l. Trace M req (picking [] 0) es l) (sym e) h))
    ]
  ]
  ClientMoves-Traced M es i (in_loop s) x = elim x [
    | inl z ↦ absurd (Works-goes s z)
    | inr h ↦ inr (Trace-goes h i s)
  ]
  ClientMoves-Traced M es {c} i (leaves_gate live) x =
      subst (λ fs. Traced M fs c) (sym (append_nil es)) x
  ClientMoves-Traced M es {c} i (turns_back live) x =
      subst (λ fs. Traced M fs c) (sym (append_nil es)) x

  Traced-widen :
      (M N : StateStore f.Carrier → Shared → Type 0) (es fs : List Effect) (c : Client)
      → ((store : StateStore f.Carrier) (w : Shared) → M store w → N store w)
      → fs ≡ es
      → Traced M es c
      → Traced N fs c
  Traced-widen M N es fs c x e h =
      subst (λ gs. Traced N gs c) (sym e)
        (elim h [ inl z ↦ inl z | inr k ↦ inr (Trace-widen N x k) ])

  -- All requests of a run.
  abbrev pub AllTraced : {s r : Router f} → Reach t u plugins s r → Type 0
  AllTraced {s} {r} h = AllFrom (λ i c. Traced (Met h) (acts h i) c) 0 r.clients

  quiet_Traced :
      {s r q : Router f} (h : Reach t u plugins s r) (st : Step t u plugins r q) (cs : List Client)
      → ((i : ℕ) → acts (later h st) i ≡ acts h i)
      → AllFrom (λ i c. Traced (Met h) (acts h i) c) 0 cs
      → AllFrom (λ i c. Traced (Met (later h st)) (acts (later h st) i) c) 0 cs
  quiet_Traced h st cs e v =
      AllFrom-imp _ _ 0 cs
        (λ j c.
          Traced-widen (Met h) (Met (later h st)) (acts h j) (acts (later h st) j) c
            (Met-later h st) (e j))
        v

  Step-Traced :
      {s r q : Router f} (h : Reach t u plugins s r) (st : Step t u plugins r q)
      → AllTraced h
      → AllTraced (later h st)
  Step-Traced {r} {q} h (moves xs ys c d e m) v =
      let st : Step t u plugins r q = moves xs ys c d e m in
      AllFrom-middle (λ i x. Traced (Met h) (acts h i) x)
        (λ i x. Traced (Met (later h st)) (acts (later h st) i) x) (length xs)
        (λ j x n p.
          Traced-widen (Met h) (Met (later h st)) (acts h j) (acts (later h st) j) x
            (Met-later h st) (rw n (append_nil (acts h j))) p)
        0 xs ys c d (omega arith)
        (λ p.
          Traced-widen (Met h) (Met (later h st)) (acts h (length xs) ++ client_acts m)
            (acts (later h st) (length xs)) d (Met-later h st)
            (rw ((==_iff (length xs) (length xs)).1 refl) refl)
            (ClientMoves-Traced (Met h) (acts h (length xs)) (r, at_end, refl, refl) m p))
        (subst (AllFrom (λ i x. Traced (Met h) (acts h i) x) 0) e v)
  Step-Traced {r} {q} h (pings p get_status) v =
      quiet_Traced h (pings p get_status) r.clients (λ i. append_nil (acts h i)) v
  Step-Traced {r} h (polls now a i) v =
      quiet_Traced h (polls now a i) r.clients (λ j. append_nil (acts h j)) v
  Step-Traced {r} h (reaps now) v =
      quiet_Traced h (reaps now) r.clients (λ i. append_nil (acts h i)) v

  Reach-Traced :
      {s r : Router f} (h : Reach t u plugins s r)
      → (let none : Reach t u plugins s s = here in AllTraced none)
      → AllTraced h
  Reach-Traced here v = v
  Reach-Traced (later h st) v = Step-Traced h st (Reach-Traced h v)

  new_client-Traced :
      (M : StateStore f.Carrier → Shared → Type 0) (i : ℕ) (reqs : List ClientRequest)
      → AllFrom (λ j c. Traced M [] c) i (map new_client reqs)
  unfolding new_client
  new_client-Traced M i [] = tt
  new_client-Traced M i (q ∷ reqs) = (inr ends, new_client-Traced M (suc i) reqs)

  pub router-Traced :
      (cfg : Config) (reqs : List ClientRequest) {r : Router f}
      (h : Reach t u plugins (start f u cfg reqs) r)
      → AllTraced h
  unfolding start
  router-Traced cfg reqs h = Reach-Traced h (new_client-Traced _ 0 reqs)
