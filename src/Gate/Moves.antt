-- ===== src/Gate/Moves.antt =====
-- Each move of one request keeps the accounts of the gate. The moving request stands first.
use loxy_router.Base.{◌<◌, ◌^◌, sym, subst, List, ◌∷◌, length}
use loxy_router.Gate.{Gate}
use loxy_router.Gate.System.{
  Request, queued, serving, finished, Move, enters, bounces, waits, wakes, gives_up, gives_up_woken,
  leaves,
}
use loxy_router.Gate.Accounting.{Inv}
use loxy_router.Gate.Entries.{
  acquire_admitted, acquire_rejected, acquire_waiting, enters-Inv, bounces-Inv, waits-Inv,
  wakes-Inv, gives_up-Inv, cancel_open, cancel_woken,
}
use loxy_router.Gate.Handover.{quiet, woke, release-Released, quiet-Inv, woke-Inv}

-- Every move of a request keeps the accounts.
pub Move-Inv :
    (g : Gate) (rs : List Request) {g' : Gate} {p q : Request}
    → length rs < 2 ^ 62
    → Move g p g' q
    → Inv g (p ∷ rs)
    → Inv g' (q ∷ rs)
Move-Inv g rs w (enters {p} live h) v =
    subst (λ k. Inv k (serving ∷ rs)) (sym (acquire_admitted g live p v.in_force h))
      (enters-Inv g rs p w v)
Move-Inv g rs w (bounces {p} live h) v =
    subst (λ k. Inv k (finished ∷ rs)) (sym (acquire_rejected g live p h)) (bounces-Inv g rs p v)
Move-Inv g rs w (waits {p} {c} live h) v =
    let (e, f) = acquire_waiting g live p c h in
    subst (λ k. Inv k (queued p c ∷ rs)) (sym f) (rw e (waits-Inv g rs p v))
Move-Inv g rs w (wakes {p} {c} h) v = wakes-Inv g rs p c h v
Move-Inv g rs w (gives_up {p} {c} h) v =
    let (o, f) = cancel_open g p c h in
    subst (λ k. Inv k (finished ∷ rs)) (sym f) (gives_up-Inv g rs p c o v)
Move-Inv g rs w (gives_up_woken {p} {c} h) v =
    let (o, f) = cancel_woken g p c h in
    subst (λ k. Inv k (serving ∷ rs)) (sym f) (wakes-Inv g rs p c o v)
Move-Inv g rs w (leaves live) v = elim (release-Released g live v.in_force) [
  | quiet n e ↦ subst (λ k. Inv k (finished ∷ rs)) (sym e) (quiet-Inv g rs w v)
  | woke p c rest q e ↦ subst (λ k. Inv k (finished ∷ rs)) (sym e) (woke-Inv g rs p c rest w q v)
]
