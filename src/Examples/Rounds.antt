-- ===== src/Examples/Rounds.antt =====
-- A request that a failing backend hands on to a working one.
use loxy_router.Base.{
  ℕ, ◌≡◌, ◌≢◌, refl, ap, true, false, List, [], ◌∷◌, none, Str, codes, arith, pos, In, here, there,
  In-cons, In-head, inl, inr, str_eq, lookup, str_Eq, if◌then◌else◌, Bool-cases,
}
use loxy_router.Text.{
  is_empty, lower_text, to_lower, trim_space, trim_left, trim_right, is_space, has_code,
}
use loxy_router.Model.{normalize_model}
use loxy_router.Backend.{Backend, effective_concurrent, has_capacity, supports_model, contains_text}
use loxy_router.Pool.{is_up}
use loxy_router.State
use loxy_router.Scheduler.{excluded, is_safe}
use loxy_router.Scheduler.Candidates.{Eligible}
use loxy_router.Proxy.{Forward, fails, responds, Round, loop}
use loxy_router.Proxy.Reliable.{Works, IsServed, loop-IsServed}
use loxy_router.Examples.Instances.{ascii, fixed}
use loxy_router.Examples.Picks.{gpu, request}

abbrev spare : Backend
spare = record gpu { addr = 1; name = codes "spare" }

abbrev two : List Backend
two = gpu ∷ spare ∷ []

abbrev answer_of : Str → Forward
answer_of name =
    if str_eq name (codes "spare") then responds (pos 200) (pos 20) false else fails false

abbrev rounds : ℕ → Round fixed
rounds i = record {
  sched = record { pool = two; store = []; conv = none; plugin = none };
  now = i;
  current = λ b. b;
  forward = λ b. answer_of b.name;
}

spare-Eligible : Eligible two (normalize_model ascii (codes "phi3")) [] spare
unfolding is_up has_capacity effective_concurrent excluded lookup supports_model contains_text
    normalize_model lower_text to_lower trim_space trim_left trim_right is_space has_code is_empty
    str_eq
spare-Eligible = record {
  member = there here;
  up = refl;
  supports = refl;
  free = refl;
  allowed = refl;
}

all_free : (b : Backend) → In b two → has_capacity b ≡ true
unfolding has_capacity effective_concurrent
all_free b m = elim (In-cons m) [
  | inl e ↦ ap has_capacity e
  | inr n ↦ elim (In-cons n) [ inl e ↦ ap has_capacity e | inr z ↦ elim z [ ] ]
]

patient : (name : Str) → answer_of name ≢ fails true
patient name q = elim (Bool-cases (str_eq name (codes "spare"))) [
  | inl e ↦ cc (rw e at q)
  | inr e ↦ cc (rw e at q)
]

spare-Works : (i : ℕ) → Works fixed ascii request (codes "spare") (rounds i)
unfolding str_eq is_safe State.get lookup
spare-Works i = record {
  backend = spare;
  named = refl;
  eligible = spare-Eligible;
  safe = refl;
  unplugged = refl;
  free = λ b m e. all_free b m;
  answers = λ b m e. (pos 200, pos 20, false, ap answer_of e);
  waits = λ b. patient b.name;
}

abbrev two_names : List Str
two_names = codes "gpu" ∷ codes "spare" ∷ []

two_known : (i : ℕ) (b : Backend) → In b (rounds i).sched.pool → In b.name two_names
two_known i b m = elim (In-cons m) [
  | inl e ↦ In-head (ap (λ z. z.name) e)
  | inr n ↦ elim (In-cons n) [ inl e ↦ there (In-head (ap (λ z. z.name) e)) | inr z ↦ elim z [ ] ]
]

loop-IsServed_example : IsServed (loop fixed 3 ascii rounds 0 request [] 0)
loop-IsServed_example =
    loop-IsServed fixed ascii two_names request (codes "spare") rounds spare-Works two_known 3
      (omega arith)
