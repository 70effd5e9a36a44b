-- ===== src/Router/Books.antt =====
-- The books of the router: what the counters of the backends have to do with the requests in flight.
use loxy_router.Base.{
  ◌∙◌, ℕ, suc, ◌+◌, ◌≤◌, ◌<◌, ◌^◌, ◌≡◌, refl, ap, sym, subst, ◌⊎◌, inl, inr, List, [], ◌∷◌, ◌++◌,
  length, ◌==◌, arith, All, All-imp, All-at, All-middle, total, total-append, length-append,
  Bool-cases,
}
use loxy_router.Text.{Unicode}
use loxy_router.Float.{Float64, FloatText}
use loxy_router.Backend.{Backend, set_status}
use loxy_router.Pool.{modify}
use loxy_router.State.{StateStore}
use loxy_router.Scheduler.{SchedulerPlugin}
use loxy_router.Gate.{Gate}
use loxy_router.Gate.System.{serving}
use loxy_router.Proxy.Effects.{Shared}
use loxy_router.Router.{Client, Router}
use loxy_router.Router.Steps.{
  ClientMoves, at_gate, in_loop, leaves_gate, turns_back, after_gate, after_gate_cases, Step, moves,
  pings, polls, reaps, Reach, here, later,
}
use loxy_router.Router.Pointers.{Distinct, addrs, addrs-modify, All-modify}
use loxy_router.Router.Accounts.{
  Account, Account-subst, Account-set_status, Account-scrape_typ, scrape_typ-Retuned,
}
use loxy_router.Router.Holding.{
  same_Balance, turned_away-Sound, holds, Sound, Balance, Works-Balance,
}

-- The slots that requests hold of the backend at `p`.
abbrev pub held : ℕ → List Client → ℕ
held p cs = total (λ c. holds p c.work) cs

-- A request holds one slot at most, and only between its admission and its release.
pub record Tidy (c : Client) : Type 0 where
  pub sound : Sound c.work
  pub idle : (c.gate ≡ serving) ⊎ ((p : ℕ) → holds p c.work ≡ 0)

held_le : (p : ℕ) (cs : List Client) → All Tidy cs → held p cs ≤ length cs
held_le p [] h = omega arith
held_le p (c ∷ cs) h = ground (arith, h.0.sound.single p, held_le p cs h.1)

held-middle :
    (p : ℕ) (xs ys : List Client) (c : Client)
    → held p (xs ++ c ∷ ys) ≡ held p (xs ++ ys) + holds p c.work
held-middle p xs ys c =
    let w : Client → ℕ = λ d. holds p d.work in
    omega (arith, total-append w xs (c ∷ ys), total-append w xs ys)

All-without :
    (P : Client → Type 0) (xs ys : List Client) (c : Client)
    → All P (xs ++ c ∷ ys)
    → All P (xs ++ ys)
All-without P [] ys c h = h.1
All-without P (x ∷ xs) ys c h = (h.0, All-without P xs ys c h.1)

length-without :
    (xs ys : List Client) (c : Client) → length (xs ++ c ∷ ys) ≡ suc (length (xs ++ ys))
length-without xs ys c = omega (arith, length-append xs (c ∷ ys), length-append xs ys)

pub record Books (cs : List Client) (pool : List Backend) : Type 0 where
  pub few : length cs < 2 ^ 62
  pub tidy : All Tidy cs
  pub distinct : Distinct (addrs pool)
  pub accounts : All (λ b. Account (held b.addr cs) b) pool

-- The books as one request sees them, and what a step of it makes of them.
to_Balance :
    (xs ys : List Client) (c : Client) (pool : List Backend)
    → Books (xs ++ c ∷ ys) pool
    → Balance (λ p. held p (xs ++ ys)) c.work pool
to_Balance xs ys c pool v = record {
  sound = (All-at Tidy xs ys c v.tidy).sound;
  distinct = v.distinct;
  accounts = All-imp _ _ pool (λ b a. Account-subst (held-middle b.addr xs ys c) a) v.accounts;
}

from_Balance :
    (xs ys : List Client) (c d : Client) (pool qool : List Backend)
    → Books (xs ++ c ∷ ys) pool
    → Tidy d
    → Balance (λ p. held p (xs ++ ys)) d.work qool
    → Books (xs ++ d ∷ ys) qool
from_Balance xs ys c d pool qool v i b = record {
  few = omega (arith, v.few, length-without xs ys c, length-without xs ys d);
  tidy = All-middle Tidy xs ys c d v.tidy i;
  distinct = b.distinct;
  accounts =
      All-imp _ _ qool (λ x a. Account-subst (sym (held-middle x.addr xs ys d)) a) b.accounts;
}

room :
    (xs ys : List Client) (c : Client) (pool : List Backend)
    → Books (xs ++ c ∷ ys) pool
    → (p : ℕ) → held p (xs ++ ys) + 1 < 2 ^ 62
room xs ys c pool v p =
    omega
      (arith, v.few, length-without xs ys c, held_le p (xs ++ ys) (All-without Tidy xs ys c v.tidy))

-- A write that keeps the address and the account of each backend.
modify-Books :
    (p : ℕ) (g : Backend → Backend) (cs : List Client) (pool : List Backend)
    → ((b : Backend) → (g b).addr ≡ b.addr)
    → ((n : ℕ) (b : Backend) → Account n b → Account n (g b))
    → Books cs pool
    → Books cs (modify p g pool)
modify-Books p g cs pool k h v = record {
  few = v.few;
  tidy = v.tidy;
  distinct = subst Distinct (sym (addrs-modify p g k pool)) v.distinct;
  accounts =
      All-modify (λ b. Account (held b.addr cs) b) p g pool
        (λ b m a. elim (Bool-cases (b.addr == p)) [
          | inl e ↦ rw e (Account-subst (ap (λ q. held q cs) (sym (k b))) (h (held b.addr cs) b a))
          | inr e ↦ rw e a
        ])
        v.accounts;
}

pub set_status-addr : (b : Backend) (x : _) → (set_status b x).addr ≡ b.addr
unfolding set_status
set_status-addr b x = refl

module _ {f : Float64} (t : FloatText f) (u : Unicode) (plugins : List SchedulerPlugin) where
  ClientMoves-Balance :
      (rest : ℕ → ℕ)
      → ((p : ℕ) → rest p + 1 < 2 ^ 62)
      → {g h : Gate} {store : StateStore f.Carrier} {w v : Shared} {c d : Client}
      → ClientMoves t u plugins g store w c h v d
      → Tidy c
      → Balance rest c.work w.pool
      → Tidy d × Balance rest d.work v.pool
  ClientMoves-Balance rest small (at_gate {k} n m) i b =
      let none : (x : ℕ) → holds x k ≡ 0 = elim i.idle [ inl e ↦ absurd (n e) | inr z ↦ z ] in
      let kept : (x : ℕ) → holds x (after_gate m k) ≡ holds x k = elim (after_gate_cases m k) [
        | inl e ↦ λ x. ap (holds x) e
        | inr e ↦ λ x. ap (holds x) e ∙ sym (none x)
      ] in
      let sound : Sound (after_gate m k) = elim (after_gate_cases m k) [
        | inl e ↦ subst Sound (sym e) i.sound
        | inr e ↦ subst Sound (sym e) turned_away-Sound
      ] in
      (
        record { sound = sound; idle = inr (λ x. kept x ∙ none x) },
        same_Balance k (after_gate m k) sound kept b,
      )
  ClientMoves-Balance rest small (in_loop s) i b =
      let after = Works-Balance t u plugins rest small s b in
      (record { sound = after.sound; idle = inl refl }, after)
  ClientMoves-Balance rest small (leaves_gate live) i b =
      (record { sound = i.sound; idle = inr (λ p. refl) }, b)
  ClientMoves-Balance rest small (turns_back live) i b =
      (record { sound = i.sound; idle = inr (λ p. refl) }, b)

  Step-Books :
      {s r : Router f}
      → Step t u plugins s r
      → Books s.clients s.shared.pool
      → Books r.clients r.shared.pool
  Step-Books {s} (moves xs ys c d {w} e m) v =
      let before : Books (xs ++ c ∷ ys) s.shared.pool = subst (λ cs. Books cs s.shared.pool) e v in
      let (i, b) =
        ClientMoves-Balance (λ p. held p (xs ++ ys)) (room xs ys c _ before) m
          (All-at Tidy xs ys c before.tidy) (to_Balance xs ys c _ before) in
      from_Balance xs ys c d _ w.pool before i b
  Step-Books {s} (pings p get_status) v =
      modify-Books p _ s.clients s.shared.pool (λ b. set_status-addr b _)
        (λ n b a. Account-set_status n b _ a) v
  Step-Books {s} (polls now a {b} m) v =
      modify-Books b.addr _ s.clients s.shared.pool
        (λ c. ap (λ x. x.addr) (scrape_typ-Retuned t u c now a).1)
        (λ n c k. Account-scrape_typ t u n c now a k) v
  Step-Books (reaps now) v = v

  pub Reach-Books :
      {s r : Router f}
      → Reach t u plugins s r
      → Books s.clients s.shared.pool
      → Books r.clients r.shared.pool
  Reach-Books here v = v
  Reach-Books (later h st) v = Step-Books st (Reach-Books h v)
