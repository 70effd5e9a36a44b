-- ===== src/Scraper/Tuning.antt =====
-- The computed concurrency is always a small positive number.
use loxy_router.Base.{
  ◌∙◌, ℕ, ◌≡◌, refl, ◌≤◌, ◌/◌, ◌⊎◌, inl, inr, Bool, true, false, List, [], ◌∷◌, Option, none, some,
  arith, ℤ, pos, negsuc, ◌≤ℤ◌, ◌<ℤ◌, if◌then◌else◌, quot64, wrap64_id,
}
use loxy_router.Text.{Unicode}
use loxy_router.Float.{Float64}
use loxy_router.Backend.{Backend, effective_concurrent, set_auto_concurrent}
use loxy_router.Scraper.{PsModel, clamp_concurrent, auto_concurrent_of, tuned, scrape_ollama}

abbrev pub InRange : ℤ → Type 0
InRange n = (pos 1 ≤ℤ n) × (n ≤ℤ pos 32)

halved : (n : ℕ) → n ≤ 32 → quot64 (pos n) (pos 2) ≡ pos (n / 2)
halved n h = wrap64_id (pos (n / 2)) (omega arith)

clamp_concurrent-InRange : (n : ℤ) (is_cpu : Bool) → InRange (clamp_concurrent n is_cpu)
unfolding clamp_concurrent
clamp_concurrent-InRange (pos n) is_cpu = ground (arith, halved n, halved 1, halved 32)
clamp_concurrent-InRange (negsuc n) is_cpu = ground (arith, halved 1)

branches-InRange :
    (unknown no_room is_cpu : Bool) (n : ℤ)
    → InRange (
        if unknown
        then (if is_cpu then pos 2 else pos 4)
        else if no_room
        then pos 1
        else clamp_concurrent n is_cpu)
branches-InRange true no_room true n = omega arith
branches-InRange true no_room false n = omega arith
branches-InRange false true c n = omega arith
branches-InRange false false c n = clamp_concurrent-InRange n c

-- The estimate lies between 1 and 32 for every total, use and model size, those included whose
-- byte counts overflow an `int64`, and those that are negative.
pub auto_concurrent_of-InRange :
    (vram_total_mb used_bytes model_bytes : ℤ) (is_cpu : Bool)
    → InRange (auto_concurrent_of vram_total_mb used_bytes model_bytes is_cpu)
unfolding auto_concurrent_of
auto_concurrent_of-InRange t m k c = branches-InRange _ _ c _

-- A cap is known: configured, or computed by an earlier poll.
abbrev pub Computed : Backend → Type 0
Computed b = (b.auto_concurrent ≡ pos 0) ⊎ InRange b.auto_concurrent

tuned_auto :
    (f : Float64) (u : Unicode) (b : Backend) (ms : List PsModel)
    → b.max_concurrent ≡ pos 0
    → Computed b
    → InRange (tuned f u b ms).auto_concurrent
unfolding tuned set_auto_concurrent
tuned_auto f u b [] e (inl z) = ground arith
tuned_auto f u b [] e (inr r) = ground arith
tuned_auto f u b (m ∷ ms) e c = rw e (auto_concurrent_of-InRange _ _ _ _)

tuned_max :
    (f : Float64) (u : Unicode) (b : Backend) (ms : List PsModel)
    → (tuned f u b ms).max_concurrent ≡ b.max_concurrent
unfolding tuned set_auto_concurrent
tuned_max f u b [] = ground arith
tuned_max f u b (m ∷ ms) = ground arith

effective-InRange :
    (b : Backend)
    → b.max_concurrent ≡ pos 0
    → InRange b.auto_concurrent
    → effective_concurrent b ≡ b.auto_concurrent
unfolding effective_concurrent
effective-InRange b e r = ground arith

scrape_ollama-tuned :
    (f : Float64) (u : Unicode) (b : Backend) (now : ℕ) (ms : List PsModel)
    → (scrape_ollama f u b now (some ms)).0 ≡ tuned f u b ms
unfolding scrape_ollama
scrape_ollama-tuned f u b now [] = refl
scrape_ollama-tuned f u b now (m ∷ ms) = refl

pub scrape_ollama-max_concurrent :
    (f : Float64) (u : Unicode) (b : Backend) (now : ℕ) (ps : Option (List PsModel))
    → (scrape_ollama f u b now ps).0.max_concurrent ≡ b.max_concurrent
unfolding scrape_ollama
scrape_ollama-max_concurrent f u b now none = refl
scrape_ollama-max_concurrent f u b now (some []) = tuned_max f u b []
scrape_ollama-max_concurrent f u b now (some (m ∷ ms)) = tuned_max f u b (m ∷ ms)

-- A backend with no configured cap is not left unlimited: after any poll that the backend answers,
-- whatever is resident and however large, its effective limit lies between 1 and 32. Before the
-- poll no estimate was stored, or one between 1 and 32.
pub scrape_ollama_limited :
    (f : Float64) (u : Unicode) (b : Backend) (now : ℕ) (ms : List PsModel)
    → b.max_concurrent ≡ pos 0
    → Computed b
    → InRange (effective_concurrent (scrape_ollama f u b now (some ms)).0)
scrape_ollama_limited f u b now ms e c =
    let t = tuned f u b ms in
    let r : InRange t.auto_concurrent = tuned_auto f u b ms e c in
    rw (scrape_ollama-tuned f u b now ms) (rw (effective-InRange t (tuned_max f u b ms ∙ e) r) r)

-- Only a cap of exactly 0 is tuned: a negative `max_concurrent` leaves a backend that no poll has
-- tuned before without any limit, after every poll.
pub scrape_ollama_negative_cap :
    (f : Float64) (u : Unicode) (b : Backend) (now : ℕ) (ps : Option (List PsModel))
    → b.max_concurrent <ℤ pos 0
    → b.auto_concurrent ≡ pos 0
    → effective_concurrent (scrape_ollama f u b now ps).0 ≡ pos 0
unfolding scrape_ollama tuned effective_concurrent
scrape_ollama_negative_cap f u b now none h e = ground arith
scrape_ollama_negative_cap f u b now (some []) h e = ground arith
scrape_ollama_negative_cap f u b now (some (m ∷ ms)) h e = ground arith
