-- ===== src/Router/Holding.antt =====
-- The slots that one request holds, and what its steps make of the counters.
use loxy_router.Base.{
  ℕ, ◌+◌, ◌≤◌, ◌<◌, ◌^◌, ◌≡◌, refl, ap, sym, subst, ◌∙◌, Bool, true, false, List, [], ◌∷◌, map,
  some, Str, ◌==◌, ==_comm, ==_iff, if◌then◌else◌, arith, All, All-imp, In, total, Bool-cases, inl,
  inr,
}
use loxy_router.Text.{Unicode}
use loxy_router.Float.{Float64, FloatText}
use loxy_router.Backend.{Backend, try_reserve}
use loxy_router.Pool.{modify}
use loxy_router.State.{StateStore}
use loxy_router.Scheduler.{ClientRequest, SchedulerPlugin}
use loxy_router.Proxy.{Forward, fails, responds, Effect, after_stream}
use loxy_router.Proxy.Loop.{claims, returns}
use loxy_router.Proxy.Effects.{Shared, apply_effect}
use loxy_router.Proxy.Effects.Single.{effect_on, effect_on-addr, apply_effect-pool}
use loxy_router.Router.{
  turned_away, Next, goes_on, ends_with, Work, picking, chosen, forwarding, doing, over, resume,
  after_forward, deref,
}
use loxy_router.Router.Steps.{
  Works, picks, finds_none, reserves_slot, loses_race, comes_back, does, resumes,
}
use loxy_router.Router.Pointers.{Distinct, addrs, addrs-modify, All-modify, deref-In}
use loxy_router.Router.Accounts.{Account, Account-try_reserve, Account-subst, Account-effect_on}

-- The slots that a request holds of the backend at `p`: its own while it waits for the backend, and
-- those that it is about to give back.
abbrev pub holds : ℕ → Work → ℕ
holds p (forwarding b tried retries) = if b.addr == p then 1 else 0
holds p (doing es n) = total (returns p) es
holds p (picking tried retries) = 0
holds p (chosen b tried retries) = 0
holds p (over o) = 0
holds p turned_away = 0

abbrev pub NoClaims : Work → Type 0
NoClaims (doing es n) = (p : ℕ) → total (claims p) es ≡ 0
NoClaims _ = Unit {0}

-- A request holds at most one slot.
pub record Sound (k : Work) : Type 0 where
  pub no_claims : NoClaims k
  pub slot : ℕ
  pub single : (p : ℕ) → holds p k ≤ (if slot == p then 1 else 0)

after_forward-holds :
    (req : ClientRequest) (b : Backend) (tried : List (Str × Bool)) (retries : ℕ) (end : Forward)
    (p : ℕ)
    → holds p (after_forward req b tried retries end) ≡ (if b.addr == p then 1 else 0)
unfolding after_forward after_stream
after_forward-holds req b tried retries (fails true) p = omega arith
after_forward-holds req b tried retries (fails false) p = omega arith
after_forward-holds req b tried retries (responds s m g) p = ground arith

after_forward-NoClaims :
    (req : ClientRequest) (b : Backend) (tried : List (Str × Bool)) (retries : ℕ) (end : Forward)
    → NoClaims (after_forward req b tried retries end)
unfolding after_forward after_stream
after_forward-NoClaims req b tried retries (fails true) = λ p. omega arith
after_forward-NoClaims req b tried retries (fails false) = λ p. omega arith
after_forward-NoClaims req b tried retries (responds s m g) = λ p. ground arith

resume-holds : (n : Next) (p : ℕ) → holds p (resume n) ≡ 0
resume-holds (goes_on tried retries) p = refl
resume-holds (ends_with o) p = refl

resume-NoClaims : (n : Next) → NoClaims (resume n)
resume-NoClaims (goes_on tried retries) = tt
resume-NoClaims (ends_with o) = tt

pub turned_away-Sound : Sound turned_away
turned_away-Sound = record { no_claims = tt; slot = 0; single = λ p. omega arith }

-- The counters, for a request in front of others that hold `rest`.
pub record Balance (rest : ℕ → ℕ) (k : Work) (pool : List Backend) : Type 0 where
  pub sound : Sound k
  pub distinct : Distinct (addrs pool)
  pub accounts : All (λ b. Account (rest b.addr + holds b.addr k) b) pool

-- The request goes on and holds what it held.
pub same_Balance :
    {rest : ℕ → ℕ} {pool : List Backend} (k l : Work)
    → Sound l
    → ((p : ℕ) → holds p l ≡ holds p k)
    → Balance rest k pool
    → Balance rest l pool
same_Balance {rest} {pool} k l s e v = record {
  sound = s;
  distinct = v.distinct;
  accounts =
      All-imp _ _ pool (λ b a. Account-subst (ap (λ n. rest b.addr + n) (sym (e b.addr))) a)
        v.accounts;
}

pub try_reserve-addr : (b : Backend) → (try_reserve b).0.addr ≡ b.addr
unfolding try_reserve
try_reserve-addr b = ground arith

module _ (rest : ℕ → ℕ) (pool : List Backend) (small : (p : ℕ) → rest p + 1 < 2 ^ 62) where
  -- A reservation at `p`, entry by entry.
  reserved_at :
      (p : ℕ) {c : Backend}
      → Distinct (addrs pool)
      → deref p pool ≡ some c
      → (try_reserve c).1 ≡ true
      → (x : Backend) → In x pool
      → Account (rest x.addr + 0) x
      → let y = if x.addr == p then (try_reserve x).0 else x in
        Account (rest y.addr + (if p == y.addr then 1 else 0)) y
  reserved_at p {c} d e h x m a = elim (Bool-cases (x.addr == p)) [
    | inl q ↦
        let here_p : x.addr ≡ p = (==_iff x.addr p).0 q in
        let same : some x ≡ some c = sym (deref-In pool d m) ∙ ap (λ z. deref z pool) here_p ∙ e in
        let won : (try_reserve x).1 ≡ true = ap (λ z. (try_reserve z).1) (cc same) ∙ h in
        rw (q, try_reserve-addr x)
          (Account-subst (ground (arith, q, ==_comm x.addr p)) (
            Account-try_reserve (rest x.addr) x (omega (arith, small x.addr)) won
              (Account-subst (omega arith) a)))
    | inr q ↦ rw q (Account-subst (ground (arith, q, ==_comm x.addr p)) a)
  ]

  reserved_Balance :
      {b c : Backend} {tried : List (Str × Bool)} {retries : ℕ}
      → deref b.addr pool ≡ some c
      → (try_reserve c).1 ≡ true
      → Balance rest (chosen b tried retries) pool
      → Balance rest (forwarding b tried retries) (modify b.addr (λ x. (try_reserve x).0) pool)
  reserved_Balance {b} {c} e h v = record {
    sound = record { no_claims = tt; slot = b.addr; single = λ p. omega arith };
    distinct =
        subst Distinct (sym (addrs-modify b.addr (λ x. (try_reserve x).0) try_reserve-addr pool))
          v.distinct;
    accounts =
        All-modify _ b.addr (λ x. (try_reserve x).0) pool (reserved_at b.addr v.distinct e h)
          v.accounts;
  }

  -- An effect of a request that claims nothing, entry by entry.
  done_at :
      (e : Effect) (es : List Effect) (n : Next) (b : Backend)
      → NoClaims (doing (e ∷ es) n)
      → ((p : ℕ) → total (returns p) es ≤ 1)
      → Account (rest b.addr + holds b.addr (doing (e ∷ es) n)) b
      → Account
          (rest (effect_on b e).addr + holds (effect_on b e).addr (doing es n))
          (effect_on b e)
  done_at e es n b z one a =
      Account-subst (ap (λ p. rest p + total (returns p) es) (sym (effect_on-addr b e))) (
        Account-effect_on (rest b.addr + total (returns b.addr) es) b e
          (omega (arith, small b.addr, one b.addr)) (omega (arith, z b.addr))
          (Account-subst (omega arith) a))

pub addrs_effect : (e : Effect) (bs : List Backend) → addrs (map (λ b. effect_on b e) bs) ≡ addrs bs
addrs_effect e [] = refl
addrs_effect e (b ∷ bs) = rw (effect_on-addr b e, addrs_effect e bs) refl

All-map {ℓ κ} :
    {P : Backend → Type ℓ} (Q : Backend → Type κ) (g : Backend → Backend) (bs : List Backend)
    → ((b : Backend) → P b → Q (g b))
    → All P bs
    → All Q (map g bs)
All-map Q g [] h a = tt
All-map Q g (b ∷ bs) h a = (h b a.0, All-map Q g bs h a.1)

Sound-rest :
    (e : Effect) (es : List Effect) (n : Next) → Sound (doing (e ∷ es) n) → Sound (doing es n)
Sound-rest e es n v = record {
  no_claims = λ p. omega (arith, v.no_claims p);
  slot = v.slot;
  single = λ p. omega (arith, v.single p);
}

done_Balance :
    (rest : ℕ → ℕ) (w : Shared)
    → ((p : ℕ) → rest p + 1 < 2 ^ 62)
    → (now : ℕ) (e : Effect) (es : List Effect) (n : Next) → Balance rest (doing (e ∷ es) n) w.pool
    → Balance rest (doing es n) (apply_effect now w e).pool
done_Balance rest w small now e es n v =
    let s = Sound-rest e es n v.sound in
    subst (Balance rest (doing es n)) (sym (apply_effect-pool now w e)) (record {
      sound = s;
      distinct = subst Distinct (sym (addrs_effect e w.pool)) v.distinct;
      accounts =
          All-map _ (λ b. effect_on b e) w.pool
            (λ b a.
              done_at rest w.pool small e es n b v.sound.no_claims (λ p. ground (arith, s.single p))
                a)
            v.accounts;
    })

module _ {f : Float64} (t : FloatText f) (u : Unicode) (plugins : List SchedulerPlugin) where
  -- A step in the loop keeps the counters right.
  pub Works-Balance :
      (rest : ℕ → ℕ)
      → ((p : ℕ) → rest p + 1 < 2 ^ 62)
      → {store : StateStore f.Carrier} {w v : Shared} {req : ClientRequest} {k l : Work}
      → Works t u plugins store w req k v l
      → Balance rest k w.pool
      → Balance rest l v.pool
  Works-Balance rest small (picks {tried} {retries} {b} now e) v =
      same_Balance (picking tried retries) _
        (record { no_claims = tt; slot = 0; single = λ p. omega arith }) (λ p. refl) v
  Works-Balance rest small (finds_none {tried} {retries} now e) v =
      same_Balance (picking tried retries) _
        (record { no_claims = tt; slot = 0; single = λ p. omega arith }) (λ p. refl) v
  Works-Balance rest small {w} (reserves_slot e h) v = reserved_Balance rest w.pool small e h v
  Works-Balance rest small (loses_race {b} {c} {tried} {retries} e h) v =
      same_Balance (chosen b tried retries) _
        (record { no_claims = tt; slot = 0; single = λ p. omega arith }) (λ p. refl) v
  Works-Balance rest small {req} (comes_back {b} {tried} {retries} end) v =
      let held = after_forward-holds req b tried retries end in
      same_Balance (forwarding b tried retries) _
        (record {
          no_claims = after_forward-NoClaims req b tried retries end;
          slot = b.addr;
          single = λ p. omega (arith, held p);
        })
        held v
  Works-Balance rest small {w} (does {e} {es} {n} now) v = done_Balance rest w small now e es n v
  Works-Balance rest small (resumes {n}) v =
      same_Balance (doing [] n) _
        (record {
          no_claims = resume-NoClaims n;
          slot = 0;
          single = λ p. omega (arith, resume-holds n p);
        })
        (resume-holds n) v
