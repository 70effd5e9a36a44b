-- ===== src/Router/Names.antt =====
-- The names of the backends are those of the configuration for good.
use loxy_router.Base.{
  ◌≡◌, refl, ap, ◌∙◌, Bool-cases, inl, inr, List, [], ◌∷◌, map, Str, In, leb_ℤ, pos,
}
use loxy_router.Text.{Unicode}
use loxy_router.Float.{Float64, FloatText}
use loxy_router.Backend.{
  Backend, effective_concurrent, try_reserve, dec_inflight, inc_inflight, record_per_token_ms,
  set_status,
}
use loxy_router.State.{StateStore}
use loxy_router.Scheduler.{ClientRequest, SchedulerPlugin}
use loxy_router.Proxy.{Effect}
use loxy_router.Proxy.Effects.{Shared}
use loxy_router.Proxy.Effects.Single.{effect_on, effect_on-field, apply_effect-pool}
use loxy_router.Gate.{Gate}
use loxy_router.Router.{Work, Client, Router}
use loxy_router.Router.Steps.{
  Works, picks, finds_none, reserves_slot, loses_race, comes_back, does, resumes, ClientMoves,
  at_gate, in_loop, leaves_gate, turns_back, Step, moves, pings, polls, reaps, Reach,
}
use loxy_router.Router.Pointers.{map-modify}
use loxy_router.Router.Accounts.{scrape_typ-Retuned}

abbrev pub names : List Backend → List Str
names bs = map (λ b. b.name) bs

pub In-names : (bs : List Backend) {b : Backend} → In b bs → In b.name (names bs)
In-names [] m = elim m [ ]
In-names (b ∷ bs) In.here = In.here
In-names (b ∷ bs) (In.there m) = In.there (In-names bs m)

try_reserve-name : (b : Backend) → (try_reserve b).0.name ≡ b.name
unfolding try_reserve
try_reserve-name b = elim (Bool-cases (leb_ℤ (effective_concurrent b) (pos 0))) [
  | inl e ↦ rw e refl
  | inr e ↦ elim (Bool-cases (leb_ℤ (effective_concurrent b) b.inflight)) [
    | inl k ↦ rw (e, k) refl
    | inr k ↦ rw (e, k) refl
  ]
]

set_status-name : (b : Backend) (x : _) → (set_status b x).name ≡ b.name
unfolding set_status
set_status-name b x = refl

effect_on-name : (b : Backend) (e : Effect) → (effect_on b e).name ≡ b.name
unfolding inc_inflight dec_inflight record_per_token_ms
effect_on-name = effect_on-field (λ b. b.name) (λ b. refl) (λ b. refl) (λ b ms. refl)

effect-names : (e : Effect) (bs : List Backend) → names (map (λ b. effect_on b e) bs) ≡ names bs
effect-names e [] = refl
effect-names e (b ∷ bs) = rw (effect_on-name b e, effect-names e bs) refl

module _ {f : Float64} (t : FloatText f) (u : Unicode) (plugins : List SchedulerPlugin) where
  Works-names :
      {store : StateStore f.Carrier} {w v : Shared} {req : ClientRequest} {k l : Work}
      → Works t u plugins store w req k v l
      → names v.pool ≡ names w.pool
  Works-names (picks now e) = refl
  Works-names (finds_none now e) = refl
  Works-names {w} (reserves_slot {b} e h) =
      map-modify (λ x. x.name) b.addr (λ x. (try_reserve x).0) try_reserve-name w.pool
  Works-names (loses_race e h) = refl
  Works-names (comes_back end) = refl
  Works-names {w} (does {e} now) = ap names (apply_effect-pool now w e) ∙ effect-names e w.pool
  Works-names resumes = refl

  ClientMoves-names :
      {g h : Gate} {store : StateStore f.Carrier} {w v : Shared} {c d : Client}
      → ClientMoves t u plugins g store w c h v d
      → names v.pool ≡ names w.pool
  ClientMoves-names (at_gate n m) = refl
  ClientMoves-names (in_loop s) = Works-names s
  ClientMoves-names (leaves_gate live) = refl
  ClientMoves-names (turns_back live) = refl

  Step-names : {s r : Router f} → Step t u plugins s r → names r.shared.pool ≡ names s.shared.pool
  Step-names (moves xs ys c d e m) = ClientMoves-names m
  Step-names {s} (pings p get_status) =
      map-modify (λ x. x.name) p _ (λ b. set_status-name b _) s.shared.pool
  Step-names {s} (polls now a {b} m) =
      map-modify (λ x. x.name) b.addr _ (λ c. ap (λ x. x.name) (scrape_typ-Retuned t u c now a).1)
        s.shared.pool
  Step-names (reaps now) = refl

  pub Reach-names :
      {s r : Router f} → Reach t u plugins s r → names r.shared.pool ≡ names s.shared.pool
  Reach-names Reach.here = refl
  Reach-names (Reach.later h st) = Step-names st ∙ Reach-names h
