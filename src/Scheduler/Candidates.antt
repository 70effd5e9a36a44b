-- ===== src/Scheduler/Candidates.antt =====
-- The candidates of a pick.
use loxy_router.Base.{
  ◌≡◌, refl, ap, Bool, true, false, not, ◌&&◌, List, [], ◌∷◌, Str, arith, In, keep-In, In-keep,
  lookup, str_Eq,
}
use loxy_router.Float.{Float64}
use loxy_router.Backend.{Backend, supports_model, has_capacity}
use loxy_router.Pool.{is_up, is_available, available}
use loxy_router.Scheduler.{excluded, candidates_of}

-- A backend of the pool that may serve a model now, and is not excluded.
pub record Eligible (pool : List Backend) (model : Str) (exclude : List (Str × Bool)) (b : Backend)
    : Type 0 where
  pub member : In b pool
  pub up : is_up b ≡ true
  pub supports : supports_model b model ≡ true
  pub free : has_capacity b ≡ true
  pub allowed : excluded exclude b.name ≡ false

is_available_parts :
    (model : Str) (b : Backend)
    → is_available model b ≡ true
    → (is_up b ≡ true) × (supports_model b model ≡ true) × (has_capacity b ≡ true)
unfolding is_available
is_available_parts model b h = ground arith

available-In :
    (pool : List Backend) (model : Str) {b : Backend}
    → In b (available pool model)
    → In b pool × (is_available model b ≡ true)
unfolding available
available-In pool model m = keep-In (is_available model) pool m

pub three_tests : (a b c : Bool) → (a && b && c) ≡ true → (a ≡ true) × (b ≡ true) × (c ≡ true)
three_tests a b c h = ground arith

module _ (f : Float64) where
  open f use {Carrier, lt}

  pub candidates-Eligible :
      (pool : List Backend) (model : Str) (exclude : List (Str × Bool)) {b : Backend}
      → In b (candidates_of f pool model exclude)
      → Eligible pool model exclude b
  unfolding candidates_of excluded lookup
  candidates-Eligible pool model [] {b} m =
      let (i, a) = available-In pool model m in
      let (u, s, c) = is_available_parts model b a in
      record { member = i; up = u; supports = s; free = c; allowed = refl }
  candidates-Eligible pool model (e ∷ es) {b} m =
      let (j, n) = keep-In (λ c. not (excluded (e ∷ es) c.name)) (available pool model) m in
      let (i, a) = available-In pool model j in
      let (u, s, c) = is_available_parts model b a in
      record { member = i; up = u; supports = s; free = c; allowed = ground arith }

  pub Eligible-candidates :
      (pool : List Backend) (model : Str) (exclude : List (Str × Bool)) {b : Backend}
      → Eligible pool model exclude b
      → In b (candidates_of f pool model exclude)
  unfolding candidates_of available is_available
  Eligible-candidates pool model [] {b} v =
      In-keep (is_available model) pool v.member (ground (arith, v.up, v.supports, v.free))
  Eligible-candidates pool model (e ∷ es) {b} v =
      In-keep _ _
        (In-keep (is_available model) pool v.member (ground (arith, v.up, v.supports, v.free)))
        (ap not v.allowed)
