-- ===== src/Proxy/Effects/Single.antt =====
-- What one effect of the retry loop does to each backend of the pool.
use loxy_router.Base.{
  ℕ, ◌≡◌, refl, ap, sym, List, [], ◌∷◌, map, ℤ, ◌==◌, if◌then◌else◌, Bool-cases, inl, inr,
}
use loxy_router.Backend.{Backend, inc_inflight, dec_inflight, record_per_token_ms}
use loxy_router.Pool.{modify}
use loxy_router.Proxy.{Effect, tries, reserves, releases, learns, pins, counts}
use loxy_router.Proxy.Effects.{Shared, apply_effect}

unfoldable pub effect_on : Backend → Effect → Backend
effect_on b (reserves p) = if b.addr == p then inc_inflight b else b
effect_on b (releases p) = if b.addr == p then dec_inflight b else b
effect_on b (learns p ms) = if b.addr == p then record_per_token_ms b ms else b
effect_on b (tries n) = b
effect_on b (pins c n) = b
effect_on b (counts n s) = b

modify-map :
    (p : ℕ) (g : Backend → Backend) (bs : List Backend)
    → modify p g bs ≡ map (λ b. if b.addr == p then g b else b) bs
unfolding modify
modify-map p g [] = refl
modify-map p g (b ∷ bs) = ap ((if b.addr == p then g b else b) ∷◌) (modify-map p g bs)

map_same : (bs : List Backend) → map (λ b. b) bs ≡ bs
map_same [] = refl
map_same (b ∷ bs) = ap (b ∷◌) (map_same bs)

pub apply_effect-pool :
    (now : ℕ) (w : Shared) (e : Effect)
    → (apply_effect now w e).pool ≡ map (λ b. effect_on b e) w.pool
unfolding apply_effect effect_on
apply_effect-pool now w (tries n) = sym (map_same w.pool)
apply_effect-pool now w (reserves p) = modify-map p inc_inflight w.pool
apply_effect-pool now w (releases p) = modify-map p dec_inflight w.pool
apply_effect-pool now w (learns p ms) = modify-map p (λ b. record_per_token_ms b ms) w.pool
apply_effect-pool now w (pins c n) = sym (map_same w.pool)
apply_effect-pool now w (counts n s) = sym (map_same w.pool)

-- A field that no effect writes.
pub effect_on-field {ℓ} :
    {A : Type ℓ} (h : Backend → A)
    → ((b : Backend) → h (inc_inflight b) ≡ h b)
    → ((b : Backend) → h (dec_inflight b) ≡ h b)
    → ((b : Backend) (ms : ℤ) → h (record_per_token_ms b ms) ≡ h b)
    → (b : Backend) (e : Effect) → h (effect_on b e) ≡ h b
unfolding effect_on
effect_on-field h i d l b (tries n) = refl
effect_on-field h i d l b (pins c n) = refl
effect_on-field h i d l b (counts n s) = refl
effect_on-field h i d l b (learns p ms) = elim (Bool-cases (b.addr == p)) [
  | inl e ↦ rw e (l b ms)
  | inr e ↦ rw e refl
]
effect_on-field h i d l b (reserves p) = elim (Bool-cases (b.addr == p)) [
  | inl e ↦ rw e (i b)
  | inr e ↦ rw e refl
]
effect_on-field h i d l b (releases p) = elim (Bool-cases (b.addr == p)) [
  | inl e ↦ rw e (d b)
  | inr e ↦ rw e refl
]

pub effect_on-addr : (b : Backend) (e : Effect) → (effect_on b e).addr ≡ b.addr
unfolding inc_inflight dec_inflight record_per_token_ms
effect_on-addr = effect_on-field (λ b. b.addr) (λ b. refl) (λ b. refl) (λ b ms. refl)
