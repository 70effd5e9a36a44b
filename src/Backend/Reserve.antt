-- ===== src/Backend/Reserve.antt =====
-- The loads and swaps of `tryReserve`, `decInflight` and the scraper's `SetAutoConcurrent`, by any
-- number of goroutines that share one backend.
use loxy_router.Base.{
  ap, ◌∙◌, sym, subst, ℕ, zero, suc, ◌+◌, ◌≤◌, ◌<◌, ◌^◌, ◌≡◌, ◌≢◌, List, [], ◌∷◌, ◌++◌, arith, ℤ,
  pos, ◌<ℤ◌, ◌≤ℤ◌, add64, add64_pos, add64_pred, All, All-middle, All-at, total, total-append,
}
use loxy_router.Backend.{
  Backend, effective_concurrent, set_auto_concurrent, inc_inflight, dec_inflight,
}

-- Where a goroutine stands: outside, behind the read of the limit, behind the load of the
-- counter, or in possession of a slot.
pub data Pc : Type 0 where
  outside : Pc
  limited : ℤ → Pc
  loaded : ℤ → ℤ → Pc
  holding : Pc

-- One atomic action of a goroutine.
pub data Move (b : Backend) : Pc → Backend → Pc → Type 0 where
  read_limit : Move b outside b (limited (effective_concurrent b))
  add : {l : ℤ} → l ≤ℤ pos 0 → Move b (limited l) (inc_inflight b) holding
  load : {l : ℤ} → pos 0 <ℤ l → Move b (limited l) b (loaded l b.inflight)
  refuse : {l cur : ℤ} → l ≤ℤ cur → Move b (loaded l cur) b outside
  swap :
      {l cur : ℤ}
      → cur <ℤ l
      → b.inflight ≡ cur
      → Move b (loaded l cur) (record b { inflight = add64 cur (pos 1) }) holding
  retry : {l cur : ℤ} → cur <ℤ l → b.inflight ≢ cur → Move b (loaded l cur) b (limited l)
  give_back : Move b holding (dec_inflight b) outside

pub record System : Type 0 where
  pub backend : Backend
  pub threads : List Pc

-- Some goroutine moves, or the scraper stores a new estimate.
pub data Step (s : System) (t : System) : Type 0 where
  moves :
      (xs ys : List Pc) (p q : Pc)
      → s.threads ≡ xs ++ p ∷ ys
      → t.threads ≡ xs ++ q ∷ ys
      → Move s.backend p t.backend q
      → Step s t
  retune : (n : ℤ) → t ≡ record s { backend = set_auto_concurrent s.backend n } → Step s t

pub data Reach (s : System) : System → Type 0 where
  here : Reach s s
  later : {t u : System} → Reach s t → Step t u → Reach s u

abbrev pub holds : Pc → ℕ
holds holding = 1
holds _ = 0

-- The limit that a goroutine has read is the configured one.
abbrev KnowsLimit : ℕ → Pc → Type 0
KnowsLimit m (limited l) = l ≡ pos m
KnowsLimit m (loaded l cur) = l ≡ pos m
KnowsLimit m _ = Unit {0}

-- The counter is the number of slots held, and within the configured limit.
pub record Capped (m : ℕ) (s : System) : Type 0 where
  pub limit : s.backend.max_concurrent ≡ pos m
  pub counted : s.backend.inflight ≡ pos (total holds s.threads)
  pub within : total holds s.threads ≤ m
  pub known : All (KnowsLimit m) s.threads

effective_of_max :
    (b : Backend) (m : ℕ) → 0 < m → b.max_concurrent ≡ pos m → effective_concurrent b ≡ pos m
unfolding effective_concurrent
effective_of_max b m h e = rw e (ground arith)

-- A move in terms of the moving goroutine alone, `k` slots being held by the others.
record Moved (m k : ℕ) (b : Backend) (q : Pc) : Type 0 where
  limit : b.max_concurrent ≡ pos m
  counted : b.inflight ≡ pos (k + holds q)
  within : k + holds q ≤ m
  known : KnowsLimit m q

Move-Moved :
    {m k : ℕ} {b c : Backend} {p q : Pc}
    → 0 < m
    → m < 2 ^ 63
    → Move b p c q
    → Moved m k b p
    → Moved m k c q
unfolding inc_inflight dec_inflight
Move-Moved {m} {b} h w read_limit v = record {
  limit = v.limit;
  counted = v.counted;
  within = v.within;
  known = effective_of_max b m h v.limit;
}
Move-Moved h w (add l) v = ground (arith, v.known)
Move-Moved h w (load l) v = ground arith
Move-Moved h w (refuse l) v = ground arith
Move-Moved {m} {k} h w (swap l e) v = ground (arith, add64_pos k 1, v.known)
Move-Moved h w (retry l n) v = ground arith
Move-Moved {m} {k} h w give_back v = ground (arith, add64_pred k)

total-middle :
    (xs ys : List Pc) (p : Pc)
    → total holds (xs ++ p ∷ ys) ≡ total holds xs + total holds ys + holds p
total-middle xs ys p = omega (arith, total-append holds xs (p ∷ ys))

Step-Capped : {m : ℕ} {s t : System} → 0 < m → m < 2 ^ 63 → Step s t → Capped m s → Capped m t
unfolding set_auto_concurrent
Step-Capped {m} {s} {t} h w (moves xs ys p q e f mv) c =
    let before : total holds s.threads ≡ total holds xs + total holds ys + holds p =
      rw e (total-middle xs ys p) in
    let after : total holds t.threads ≡ total holds xs + total holds ys + holds q =
      rw f (total-middle xs ys q) in
    let moved : Moved m (total holds xs + total holds ys) t.backend q = Move-Moved h w mv (record {
      limit = c.limit;
      counted = c.counted ∙ ap pos before;
      within = omega (arith, c.within);
      known = All-at (KnowsLimit m) xs ys p (subst (All (KnowsLimit m)) e c.known);
    }) in
    record {
      limit = moved.limit;
      counted = moved.counted ∙ ap pos (sym after);
      within = omega (arith, moved.within);
      known =
          subst (All (KnowsLimit m)) (sym f) (
            All-middle (KnowsLimit m) xs ys p q (subst (All (KnowsLimit m)) e c.known) moved.known);
    }
Step-Capped {m} h w (retune n e) c =
    subst (Capped m) (sym e)
      (record { limit = c.limit; counted = c.counted; within = c.within; known = c.known })

Reach-Capped : {m : ℕ} {s t : System} → 0 < m → m < 2 ^ 63 → Capped m s → Reach s t → Capped m t
Reach-Capped h w c here = c
Reach-Capped h w c (later r st) = Step-Capped h w st (Reach-Capped h w c r)

-- `n` goroutines, none of them in `tryReserve` yet.
unfoldable pub outsiders : ℕ → List Pc
outsiders zero = []
outsiders (suc n) = outside ∷ outsiders n

outsiders-Capped :
    (b : Backend) (m : ℕ)
    → b.max_concurrent ≡ pos m
    → b.inflight ≡ pos 0
    → (n : ℕ) → Capped m (record { backend = b; threads = outsiders n })
unfolding outsiders
outsiders-Capped b m e z zero = record { limit = e; counted = z; within = omega arith; known = tt }
outsiders-Capped b m e z (suc n) =
    let c = outsiders-Capped b m e z n in
    record {
      limit = e;
      counted = c.counted ∙ ap pos (omega arith);
      within = omega (arith, c.within);
      known = (tt, c.known);
    }

-- A configured `max_concurrent` is a hard cap. Start any number of goroutines outside of
-- `tryReserve`, on a backend with nothing in flight and a positive limit that an `int` holds. After
-- any interleaving of their reads, swaps, failed swaps and releases, and of the scraper's writes of
-- `autoConcurrent`, the counter is the number of goroutines with a slot, and at most the limit.
pub try_reserve_hard_cap :
    (b : Backend) (m n : ℕ) {t : System}
    → 0 < m
    → m < 2 ^ 63
    → b.max_concurrent ≡ pos m
    → b.inflight ≡ pos 0
    → Reach (record { backend = b; threads = outsiders n }) t
    → (t.backend.inflight ≡ pos (total holds t.threads)) × (total holds t.threads ≤ m)
try_reserve_hard_cap b m n h w e z r =
    let c = Reach-Capped h w (outsiders-Capped b m e z n) r in (c.counted, c.within)
