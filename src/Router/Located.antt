-- ===== src/Router/Located.antt =====
-- The backends that requests have chosen are backends of the pool.
use loxy_router.Base.{
  ℕ, ◌≡◌, refl, ap, sym, subst, ◌∙◌, Bool, List, [], ◌∷◌, ◌++◌, map, true, false, some, Str, ◌==◌,
  ==_iff, Bool-cases, inl, inr, All, All-at, All-middle, In,
}
use loxy_router.Text.{Unicode}
use loxy_router.Config.{Config}
use loxy_router.Float.{Float64, FloatText}
use loxy_router.Backend.{Backend, try_reserve}
use loxy_router.State.{StateStore}
use loxy_router.Scheduler.{ClientRequest, SchedulerPlugin, new_scheduler}
use loxy_router.Scheduler.Choice.{pick_excluding-Eligible}
use loxy_router.Scheduler.Health.{new_scheduler-pool}
use loxy_router.Gate.{Gate}
use loxy_router.Proxy.{Forward, fails, responds}
use loxy_router.Proxy.Effects.{Shared}
use loxy_router.Proxy.Effects.Single.{apply_effect-pool}
use loxy_router.Router.{
  Next, goes_on, ends_with, Work, chosen, resume, after_forward, Client, new_client, deref, Router,
  start,
}
use loxy_router.Router.Steps.{
  Works, picks, finds_none, reserves_slot, loses_race, comes_back, does, resumes, ClientMoves,
  at_gate, in_loop, leaves_gate, turns_back, after_gate_cases, Step, moves, pings, polls, reaps,
  Reach,
}
use loxy_router.Router.Pointers.{addrs, addrs-modify}
use loxy_router.Router.Accounts.{scrape_typ-Retuned}
use loxy_router.Router.Holding.{addrs_effect, try_reserve-addr}
use loxy_router.Router.Books.{set_status-addr}

abbrev pub Located : List ℕ → Work → Type 0
Located ps (chosen b tried retries) = In b.addr ps
Located ps _ = Unit {0}

In-addrs : (bs : List Backend) {b : Backend} → In b bs → In b.addr (addrs bs)
In-addrs [] m = elim m [ ]
In-addrs (b ∷ bs) In.here = In.here
In-addrs (b ∷ bs) (In.there m) = In.there (In-addrs bs m)

pub deref-some :
    (p : ℕ) (bs : List Backend) → In p (addrs bs) → (b : Backend) × (deref p bs ≡ some b)
unfolding deref
deref-some p [] m = elim m [ ]
deref-some p (b ∷ bs) In.here = (b, rw ((==_iff b.addr b.addr).1 refl) refl)
deref-some p (b ∷ bs) (In.there m) = elim (Bool-cases (b.addr == p)) [
  | inl e ↦ (b, rw e refl)
  | inr e ↦ let (c, h) = deref-some p bs m in (c, rw e h)
]

resume-Located : (n : Next) (ps : List ℕ) → Located ps (resume n)
resume-Located (goes_on tried retries) ps = tt
resume-Located (ends_with o) ps = tt

after_forward-Located :
    (req : ClientRequest) (b : Backend) (tried : List (Str × Bool)) (retries : ℕ) (end : Forward)
    (ps : List ℕ)
    → Located ps (after_forward req b tried retries end)
unfolding after_forward
after_forward-Located req b tried retries (fails true) ps = tt
after_forward-Located req b tried retries (fails false) ps = tt
after_forward-Located req b tried retries (responds s m g) ps = tt

module _ {f : Float64} (t : FloatText f) (u : Unicode) (plugins : List SchedulerPlugin) where
  Works-Located :
      {store : StateStore f.Carrier} {w v : Shared} {req : ClientRequest} {k l : Work}
      → Works t u plugins store w req k v l
      → Located (addrs w.pool) l × (addrs v.pool ≡ addrs w.pool)
  Works-Located {store} {w} {v} {req} (picks {tried} {retries} {b} now e) =
      let h =
        pick_excluding-Eligible f u (new_scheduler f w.pool store w.conv plugins) now req tried e in
      (
        In-addrs w.pool (subst (In b) (new_scheduler-pool f w.pool store w.conv plugins) h.member),
        refl,
      )
  Works-Located (finds_none now e) = (tt, refl)
  Works-Located {w} (reserves_slot {b} e h) =
      (tt, addrs-modify b.addr (λ x. (try_reserve x).0) try_reserve-addr w.pool)
  Works-Located (loses_race e h) = (tt, refl)
  Works-Located {w} {req} (comes_back {b} {tried} {retries} end) =
      (after_forward-Located req b tried retries end (addrs w.pool), refl)
  Works-Located {w} (does {e} now) =
      (tt, ap addrs (apply_effect-pool now w e) ∙ addrs_effect e w.pool)
  Works-Located {w} (resumes {n}) = (resume-Located n (addrs w.pool), refl)

  ClientMoves-Located :
      {g h : Gate} {store : StateStore f.Carrier} {w v : Shared} {c d : Client}
      → ClientMoves t u plugins g store w c h v d
      → Located (addrs w.pool) c.work
      → Located (addrs w.pool) d.work × (addrs v.pool ≡ addrs w.pool)
  ClientMoves-Located {w} (at_gate {k} n m) i = (
    elim (after_gate_cases m k) [
      | inl e ↦ subst (Located (addrs w.pool)) (sym e) i
      | inr e ↦ subst (Located (addrs w.pool)) (sym e) tt
    ],
    refl,
  )
  ClientMoves-Located (in_loop s) i = Works-Located s
  ClientMoves-Located (leaves_gate live) i = (i, refl)
  ClientMoves-Located (turns_back live) i = (i, refl)

  abbrev pub AllLocated : Router f → Type 0
  AllLocated s = All (λ c. Located (addrs s.shared.pool) c.work) s.clients

  moved_Located :
      (cs : List Client) (ps qs : List ℕ)
      → qs ≡ ps
      → All (λ c. Located ps c.work) cs
      → All (λ c. Located qs c.work) cs
  moved_Located cs ps qs e h = subst (λ z. All (λ c. Located z c.work) cs) (sym e) h

  Step-Located : {s r : Router f} → Step t u plugins s r → AllLocated s → AllLocated r
  Step-Located {s} (moves xs ys c d {w} e m) v =
      let before : All (λ x. Located (addrs s.shared.pool) x.work) (xs ++ c ∷ ys) =
        subst (λ cs. All (λ x. Located (addrs s.shared.pool) x.work) cs) e v in
      let (i, k) =
        ClientMoves-Located m (All-at (λ x. Located (addrs s.shared.pool) x.work) xs ys c before) in
      moved_Located (xs ++ d ∷ ys) _ _ k
        (All-middle (λ x. Located (addrs s.shared.pool) x.work) xs ys c d before i)
  Step-Located {s} (pings p get_status) v =
      moved_Located s.clients _ _ (addrs-modify p _ (λ b. set_status-addr b _) s.shared.pool) v
  Step-Located {s} (polls now a {b} m) v =
      moved_Located s.clients _ _
        (addrs-modify b.addr _ (λ c. ap (λ x. x.addr) (scrape_typ-Retuned t u c now a).1)
          s.shared.pool)
        v
  Step-Located (reaps now) v = v

  Reach-Located : {s r : Router f} → Reach t u plugins s r → AllLocated s → AllLocated r
  Reach-Located Reach.here v = v
  Reach-Located (Reach.later h st) v = Step-Located st (Reach-Located h v)

  start-Located :
      (cfg : Config) (reqs : List ClientRequest) (ps : List ℕ)
      → All (λ c. Located ps c.work) (map new_client reqs)
  unfolding new_client
  start-Located cfg [] ps = tt
  start-Located cfg (q ∷ reqs) ps = (tt, start-Located cfg reqs ps)

  pub router-Located :
      (cfg : Config) (reqs : List ClientRequest) {r : Router f}
      → Reach t u plugins (start f u cfg reqs) r
      → AllLocated r
  unfolding start
  router-Located cfg reqs h = Reach-Located h (start-Located cfg reqs _)
