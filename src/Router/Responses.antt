-- ===== src/Router/Responses.antt =====
-- The responses that come back in a run of the router, and what an effect does to the collector.
use loxy_router.Base.{
  ℕ, ◌+◌, ◌≤◌, ◌≡◌, refl, ap, Bool, true, false, List, [], ◌∷◌, ◌++◌, length, Str, ℤ, if◌then◌else◌,
  arith, total, total-append,
}
use loxy_router.Text.{Unicode}
use loxy_router.Float.{Float64, FloatText}
use loxy_router.Backend.{Backend}
use loxy_router.State.{StateStore}
use loxy_router.Scheduler.{ClientRequest, SchedulerPlugin}
use loxy_router.Metrics.{RequestKey, same_key, inc_request}
use loxy_router.Metrics.Counts.{recorded, times}
use loxy_router.Gate.{Gate}
use loxy_router.Proxy.{
  Forward, fails, responds, after_stream, Effect, tries, reserves, releases, learns, pins, counts,
}
use loxy_router.Proxy.Effects.{Shared, apply_effect}
use loxy_router.Router.{
  Next, goes_on, ends_with, Work, doing, resume, after_forward, Client, Router,
}
use loxy_router.Router.Steps.{
  Works, picks, finds_none, reserves_slot, loses_race, comes_back, does, resumes, ClientMoves,
  at_gate, in_loop, leaves_gate, turns_back, Step, moves, pings, polls, reaps, Reach, here, later,
}

-- 1 if a response of the backend `n` with the status `s` is one for the key `k`, or 0.
abbrev pub hit : RequestKey → Str → ℤ → ℕ
hit k n s = if same_key (record { backend = n; status = s }) k then 1 else 0

abbrev pub hits : RequestKey → Effect → ℕ
hits k (counts n s) = hit k n s
hits k _ = 0

-- Responses that came back and are not counted yet.
abbrev pub pending : RequestKey → Work → ℕ
pending k (doing es n) = total (hits k) es
pending k _ = 0

-- What a forward to `b` that ended in a way adds to a key.
abbrev pub response : RequestKey → Backend → Forward → ℕ
response k b (fails gone) = 0
response k b (responds s ms gone) = hit k b.name s

pub after_forward-pending :
    (k : RequestKey) (req : ClientRequest) (b : Backend) (tried : List (Str × Bool)) (retries : ℕ)
    (end : Forward)
    → pending k (after_forward req b tried retries end) ≡ response k b end
unfolding after_forward after_stream
after_forward-pending k req b tried retries (fails true) = omega arith
after_forward-pending k req b tried retries (fails false) = omega arith
after_forward-pending k req b tried retries (responds s m g) = ground arith

pub resume-pending : (k : RequestKey) (n : Next) → pending k (resume n) ≡ 0
resume-pending k (goes_on tried retries) = refl
resume-pending k (ends_with o) = refl

-- The collector after an effect.
pub keys_of : Effect → List RequestKey
keys_of (counts n s) = record { backend = n; status = s } ∷ []
keys_of _ = []

pub apply_effect-metrics :
    (now : ℕ) (w : Shared) (ks : List RequestKey) (e : Effect)
    → w.metrics ≡ recorded ks
    → (apply_effect now w e).metrics ≡ recorded (keys_of e ++ ks)
unfolding apply_effect recorded keys_of
apply_effect-metrics now w ks (counts n s) h = ap (inc_request n s) h
apply_effect-metrics now w ks (tries n) h = h
apply_effect-metrics now w ks (reserves p) h = h
apply_effect-metrics now w ks (releases p) h = h
apply_effect-metrics now w ks (learns p t) h = h
apply_effect-metrics now w ks (pins c n) h = h

pub times-keys_of :
    (k : RequestKey) (ks : List RequestKey) (e : Effect)
    → times k (keys_of e ++ ks) ≡ hits k e + times k ks
unfolding times keys_of
times-keys_of k ks (counts n s) = omega arith
times-keys_of k ks (tries n) = omega arith
times-keys_of k ks (reserves p) = omega arith
times-keys_of k ks (releases p) = omega arith
times-keys_of k ks (learns p t) = omega arith
times-keys_of k ks (pins c n) = omega arith

pub length-keys_of : (ks : List RequestKey) (e : Effect) → length (keys_of e ++ ks) ≤ length ks + 1
unfolding keys_of
length-keys_of ks (counts n s) = omega arith
length-keys_of ks (tries n) = omega arith
length-keys_of ks (reserves p) = omega arith
length-keys_of ks (releases p) = omega arith
length-keys_of ks (learns p t) = omega arith
length-keys_of ks (pins c n) = omega arith

abbrev pub owed : RequestKey → List Client → ℕ
owed k cs = total (λ c. pending k c.work) cs

pub owed-middle :
    (k : RequestKey) (xs ys : List Client) (c : Client)
    → owed k (xs ++ c ∷ ys) ≡ pending k c.work + owed k (xs ++ ys)
owed-middle k xs ys c =
    let w : Client → ℕ = λ d. pending k d.work in
    omega (arith, total-append w xs (c ∷ ys), total-append w xs ys)

module _ {f : Float64} (t : FloatText f) (u : Unicode) (plugins : List SchedulerPlugin) where
  abbrev pub loop_answers :
      RequestKey
      → {store : StateStore f.Carrier} {w v : Shared} {req : ClientRequest} {k l : Work}
      → Works t u plugins store w req k v l
      → ℕ
  loop_answers k (comes_back {b} end) = response k b end
  loop_answers k (picks now e) = 0
  loop_answers k (finds_none now n) = 0
  loop_answers k (reserves_slot e h) = 0
  loop_answers k (loses_race e h) = 0
  loop_answers k (does now) = 0
  loop_answers k resumes = 0

  -- Responses for a key that come back in a step, and in a run.
  abbrev pub client_answers :
      RequestKey
      → {g h : Gate} {store : StateStore f.Carrier} {w v : Shared} {c d : Client}
      → ClientMoves t u plugins g store w c h v d
      → ℕ
  client_answers k (in_loop s) = loop_answers k s
  client_answers k (at_gate n m) = 0
  client_answers k (leaves_gate live) = 0
  client_answers k (turns_back live) = 0

  abbrev pub step_answers : RequestKey → {s r : Router f} → Step t u plugins s r → ℕ
  step_answers k (moves xs ys c d e m) = client_answers k m
  step_answers k (pings p get_status) = 0
  step_answers k (polls now a m) = 0
  step_answers k (reaps now) = 0

  abbrev pub answers : RequestKey → {s r : Router f} → Reach t u plugins s r → ℕ
  answers k here = 0
  answers k (later h st) = answers k h + step_answers k st
