-- ===== src/Scraper/Poll/Limits.antt =====
-- The limits of the backends after a round of polls, and of the gate above them.
use loxy_router.Base.{
  ℕ, ◌<◌, ◌^◌, ◌≡◌, ap, ◌∙◌, ◌⊎◌, inl, inr, true, List, [], ◌∷◌, some, codes, str_eq, ℤ, pos, ◌≤ℤ◌,
  ◌<ℤ◌, All, In, here, there, All-In, total, arith, Bool-cases,
}
use loxy_router.Text.{Unicode}
use loxy_router.Float.{Float64, FloatText}
use loxy_router.Config.{Limits}
use loxy_router.Backend.{Backend, effective_concurrent, set_auto_concurrent}
use loxy_router.Pool.{is_up, total_concurrency}
use loxy_router.Pool.Capacity.{up_limit, total_concurrency_lem}
use loxy_router.Gate.{limit, new_gate, set_limit_func}
use loxy_router.Gate.Safety.{main_gate}
use loxy_router.State.{StateStore}
use loxy_router.Scraper.{PsModel, scrape_ollama}
use loxy_router.Scraper.Tuning.{Computed, scrape_ollama_limited, scrape_ollama-max_concurrent}
use loxy_router.Scraper.Poll.{Answers, vllm_tuned, scrape_vllm, scrape_typ, scrape, poll_round}

-- The poll of a backend succeeds: a vLLM engine's always does, and Ollama has to answer.
abbrev pub Answered : (Backend → Answers) → Backend → Type 0
Answered answers b =
    (str_eq b.typ (codes "vllm") ≡ true) ⊎ ((ms : List PsModel) × ((answers b).ps ≡ some ms))

-- The configured limit is not negative, and the estimate is one that a poll stores, or none.
abbrev pub Tunable : Backend → Type 0
Tunable b = (pos 0 ≤ℤ b.max_concurrent) × Computed b

module _ {f : Float64} (t : FloatText f) (u : Unicode) (now : ℕ) where
  open f use {Carrier}

  vllm_limited :
      (b : Backend) (a : Answers)
      → pos 0 ≤ℤ b.max_concurrent
      → pos 0 <ℤ effective_concurrent (scrape_vllm t u b now a).0
  unfolding scrape_vllm vllm_tuned effective_concurrent set_auto_concurrent
  vllm_limited b a h = ground arith

  capped_limit : (b : Backend) → pos 0 <ℤ b.max_concurrent → pos 0 <ℤ effective_concurrent b
  unfolding effective_concurrent
  capped_limit b h = ground arith

  zero_or_pos : (z : ℤ) → pos 0 ≤ℤ z → (z ≡ pos 0) ⊎ (pos 0 <ℤ z)
  zero_or_pos z h = ground arith

  ollama_limited :
      (b : Backend) (ms : List PsModel)
      → Tunable b
      → pos 0 <ℤ effective_concurrent (scrape_ollama f u b now (some ms)).0
  ollama_limited b ms (h, c) = elim (zero_or_pos b.max_concurrent h) [
    | inl e ↦ omega (arith, (scrape_ollama_limited f u b now ms e c).0)
    | inr e ↦
        let same = scrape_ollama-max_concurrent f u b now (some ms) in
        capped_limit _ (ground (arith, same, e))
  ]

  scrape_typ_limited :
      (answers : Backend → Answers) (b : Backend)
      → Tunable b
      → Answered answers b
      → pos 0 <ℤ effective_concurrent (scrape_typ t u b now (answers b)).0
  unfolding scrape_typ
  scrape_typ_limited answers b h a = elim (Bool-cases (str_eq b.typ (codes "vllm"))) [
    | inl e ↦ rw e (vllm_limited b (answers b) h.0)
    | inr e ↦ elim a [ inl v ↦ absurd (cc) | inr (ms, q) ↦ rw (e, q) (ollama_limited b ms h) ]
  ]

  poll_round_limited :
      (answers : Backend → Answers) (bs : List Backend) (store : StateStore Carrier)
      → All Tunable bs
      → All (Answered answers) bs
      → All (λ b. pos 0 <ℤ effective_concurrent b) (poll_round t u answers now bs store).0
  unfolding poll_round scrape
  poll_round_limited answers [] store h a = tt
  poll_round_limited answers (b ∷ bs) store h a =
      (scrape_typ_limited answers b h.0 a.0, poll_round_limited answers bs _ h.1 a.1)

  up-le-total :
      (bs : List Backend) {b : Backend}
      → In b bs
      → is_up b ≡ true
      → pos 0 <ℤ effective_concurrent b
      → 0 < total up_limit bs
  unfolding up_limit
  up-le-total [] m e h = elim m [ ]
  up-le-total (b ∷ bs) here e h = ground (arith, e)
  up-le-total (c ∷ bs) (there m) e h = ground (arith, up-le-total bs m e h)

  pool_total :
      (pool : List Backend)
      → All (λ b. pos 0 <ℤ effective_concurrent b) pool
      → total up_limit pool < 2 ^ 63
      → total_concurrency pool ≡ pos (total up_limit pool)
  pool_total pool v w = elim (total_concurrency_lem pool w) [
    | inl (_, e) ↦ e
    | inr ((b, m, (_, z)), _) ↦
        let some_limit : pos 0 <ℤ effective_concurrent b =
          All-In (λ c. pos 0 <ℤ effective_concurrent c) pool v m in
        absurd (ground (arith, z, some_limit))
  ]

  gate_limit : (l : Limits) (n : ℕ) → 0 < n → limit (main_gate l) (pos n) ≡ pos n
  unfolding limit new_gate set_limit_func
  gate_limit l n h = ground arith

  -- After a round of polls the gate is in force. If every backend's poll succeeds, none has a
  -- negative `max_concurrent`, and the estimates from before are the scraper's, then no backend of
  -- the pool is unlimited; TotalConcurrency is the sum of the limits of those that are up; and if
  -- one is up, the limit of the dynamic gate of `main` is that sum, which is positive. The sum fits
  -- an `int`.
  pub poll_round-limit :
      (answers : Backend → Answers) (bs : List Backend) (store : StateStore Carrier) (l : Limits)
      → All Tunable bs
      → All (Answered answers) bs
      → total up_limit (poll_round t u answers now bs store).0 < 2 ^ 63
      → All (λ b. pos 0 <ℤ effective_concurrent b) (poll_round t u answers now bs store).0
        × (total_concurrency (poll_round t u answers now bs store).0
            ≡ pos (total up_limit (poll_round t u answers now bs store).0))
        × ((b : Backend)
            → In b (poll_round t u answers now bs store).0
            → is_up b ≡ true
            → (0 < total up_limit (poll_round t u answers now bs store).0)
              × (limit (main_gate l) (total_concurrency (poll_round t u answers now bs store).0)
                  ≡ pos (total up_limit (poll_round t u answers now bs store).0)))
  poll_round-limit answers bs store l h a w =
      let pool = (poll_round t u answers now bs store).0 in
      let limited = poll_round_limited answers bs store h a in
      let sum = pool_total pool limited w in
      (
        limited,
        sum,
        λ b m e.
            let open_gate : 0 < total up_limit pool =
              up-le-total pool m e (All-In (λ c. pos 0 <ℤ effective_concurrent c) pool limited m) in
            (open_gate, ap (limit (main_gate l)) sum ∙ gate_limit l _ open_gate),
      )
