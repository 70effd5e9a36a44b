-- ===== src/Router/Accounts.antt =====
-- The counter of one backend against the slots that are held of it.
use loxy_router.Base.{
  ℕ, ◌+◌, ◌-◌, ◌≤◌, ◌<◌, ◌^◌, ◌≡◌, refl, ap, ◌∙◌, subst, ◌⊎◌, inl, inr, Bool, true, false, List, [],
  ◌∷◌, Option, none, some, ◌==◌, ==_comm, if◌then◌else◌, ℤ, pos, negsuc, pos_part, ◌≤ℤ◌, add64,
  add64_pos, add64_pred, arith, Bool-cases, codes, str_eq, eqb_ℤ,
}
use loxy_router.Text.{Unicode}
use loxy_router.Float.{Float64, FloatText}
use loxy_router.Backend.{
  Backend, BackendStatus, effective_concurrent, try_reserve, dec_inflight, set_status,
  set_auto_concurrent, record_per_token_ms,
}
use loxy_router.Scraper.{PsModel, tuned, scrape_ollama}
use loxy_router.Scraper.Poll.{Answers, vllm_tuned, scrape_vllm, scrape_typ}
use loxy_router.Proxy.{Effect, tries, reserves, releases, learns, pins, counts}
use loxy_router.Proxy.Loop.{claims, returns}
use loxy_router.Proxy.Effects.Single.{effect_on}

-- The counter is the number of slots held, and within a configured limit.
pub record Account (held : ℕ) (b : Backend) : Type 0 where
  pub counted : b.inflight ≡ pos held
  pub capped : (b.max_concurrent ≤ℤ pos 0) ⊎ (held ≤ pos_part b.max_concurrent)

pub Account-try_reserve :
    (n : ℕ) (b : Backend)
    → n < 2 ^ 63 - 1
    → (try_reserve b).1 ≡ true
    → Account n b
    → Account (n + 1) (try_reserve b).0
unfolding try_reserve effective_concurrent
Account-try_reserve n b h e v = record {
  counted = ground (arith, v.counted, add64_pos n 1);
  capped = ground (arith, v.counted, v.capped);
}

pub Account-dec_inflight :
    (n : ℕ) (b : Backend) → n < 2 ^ 63 → Account (n + 1) b → Account n (dec_inflight b)
unfolding dec_inflight
Account-dec_inflight n b h v = record {
  counted = ap (λ z. add64 z (negsuc 0)) v.counted ∙ ground (arith, add64_pred n);
  capped = ground (arith, v.capped);
}

-- The scraper only changes the estimate.
abbrev pub Retuned : Backend → Backend → Type 0
Retuned b c = (n : ℤ) × (c ≡ record b { auto_concurrent = n })

if-Retuned : (x : Bool) (b : Backend) (n : ℤ) → Retuned b (if x then set_auto_concurrent b n else b)
unfolding set_auto_concurrent
if-Retuned true b n = (n, refl)
if-Retuned false b n = (b.auto_concurrent, refl)

module _ {f : Float64} (t : FloatText f) (u : Unicode) where
  tuned-Retuned : (b : Backend) (ms : List PsModel) → Retuned b (tuned f u b ms)
  unfolding tuned
  tuned-Retuned b [] = if-Retuned _ b _
  tuned-Retuned b (m ∷ ms) = if-Retuned _ b _

  scrape_ollama-Retuned :
      (b : Backend) (now : ℕ) (ps : Option (List PsModel))
      → Retuned b (scrape_ollama f u b now ps).0
  unfolding scrape_ollama
  scrape_ollama-Retuned b now none = (b.auto_concurrent, refl)
  scrape_ollama-Retuned b now (some []) = tuned-Retuned b []
  scrape_ollama-Retuned b now (some (m ∷ ms)) = tuned-Retuned b (m ∷ ms)

  pub scrape_typ-Retuned :
      (b : Backend) (now : ℕ) (a : Answers) → Retuned b (scrape_typ t u b now a).0
  unfolding scrape_typ scrape_vllm vllm_tuned
  scrape_typ-Retuned b now a = elim (Bool-cases (str_eq b.typ (codes "vllm"))) [
    | inl e ↦ rw e (if-Retuned (eqb_ℤ b.max_concurrent (pos 0)) b (pos 20))
    | inr e ↦ rw e (scrape_ollama-Retuned b now a.ps)
  ]

  pub Account-scrape_typ :
      (n : ℕ) (b : Backend) (now : ℕ) (a : Answers)
      → Account n b
      → Account n (scrape_typ t u b now a).0
  Account-scrape_typ n b now a v =
      let (m, e) = scrape_typ-Retuned b now a in
      rw e (record { counted = v.counted; capped = v.capped })

pub Account-set_status :
    (n : ℕ) (b : Backend) (s : BackendStatus) → Account n b → Account n (set_status b s)
unfolding set_status
Account-set_status n b s v = record { counted = v.counted; capped = v.capped }

pub Account-subst : {m n : ℕ} {b : Backend} → m ≡ n → Account m b → Account n b
Account-subst {m} {n} {b} e v = subst (λ k. Account k b) e v

-- An effect that claims nothing, on a backend of which `k` slots are held by others.
pub Account-effect_on :
    (k : ℕ) (b : Backend) (e : Effect)
    → k + 1 < 2 ^ 63
    → claims b.addr e ≡ 0
    → Account (k + returns b.addr e) b
    → Account k (effect_on b e)
unfolding effect_on record_per_token_ms
Account-effect_on k b (tries n) h z v = Account-subst (omega arith) v
Account-effect_on k b (pins c n) h z v = Account-subst (omega arith) v
Account-effect_on k b (counts n s) h z v = Account-subst (omega arith) v
Account-effect_on k b (learns p ms) h z v =
    let same : Account k b = Account-subst (omega arith) v in
    elim (Bool-cases (b.addr == p)) [
      | inl e ↦ rw e (record { counted = same.counted; capped = same.capped })
      | inr e ↦ rw e same
    ]
Account-effect_on k b (reserves p) h z v = elim (Bool-cases (b.addr == p)) [
  | inl e ↦ absurd (ground (arith, z, e, ==_comm b.addr p))
  | inr e ↦ rw e (Account-subst (omega arith) v)
]
Account-effect_on k b (releases p) h z v = elim (Bool-cases (b.addr == p)) [
  | inl e ↦ rw e (
      Account-dec_inflight k b (omega arith)
        (Account-subst (ground (arith, e, ==_comm b.addr p)) v))
  | inr e ↦ rw e (Account-subst (ground (arith, e, ==_comm b.addr p)) v)
]
