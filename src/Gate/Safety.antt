-- ===== src/Gate/Safety.antt =====
-- What holds of the gate in every state that requests can reach.
use loxy_router.Base.{
  ℕ, suc, ◌≤◌, ◌<◌, ◌^◌, ◌≡◌, refl, sym, ap, ◌∙◌, subst, inl, inr, List, [], ◌∷◌, ◌++◌, arith,
  length, pos, total, total-append, Bool-cases, length-append, All,
}
use loxy_router.Config.{Limits}
use loxy_router.Model.{Priority, interactive, batch, background}
use loxy_router.Gate.{Gate, queue_of, is_closed, new_gate, set_limit_func}
use loxy_router.Gate.System.{
  Request, arriving, queued, serving, finished, Move, enters, bounces, waits, wakes, gives_up,
  gives_up_woken, leaves, System, Step, moves, Reach, InForce, limit_pos, same, queue_of-set_queue,
  count, waits_on, owns,
}
use loxy_router.Gate.System
use loxy_router.Gate.Accounting.{Inv}
use loxy_router.Gate.Moves.{Move-Inv}

-- The accounts depend on the requests only through sums over them.
Inv-total :
    (g : Gate) (rs ss : List Request)
    → ((w : Request → ℕ) → total w rs ≡ total w ss)
    → Inv g rs
    → Inv g ss
Inv-total g rs ss e v = record {
  in_force = v.in_force;
  counted = v.counted ∙ ap pos (e (owns g.closed));
  linked = λ p c o. sym (e (waits_on p c)) ∙ v.linked p c o;
  shut = v.shut;
  unique = λ c. omega (
    arith,
    v.unique c,
    e (waits_on interactive c),
    e (waits_on batch c),
    e (waits_on background c),
  );
  fresh = λ p c l. (sym (e (waits_on p c)) ∙ (v.fresh p c l).0, (v.fresh p c l).1);
}

pub total-middle :
    (xs ys : List Request) (p : Request) (w : Request → ℕ)
    → total w (xs ++ p ∷ ys) ≡ total w (p ∷ (xs ++ ys))
total-middle xs ys p w = omega (arith, total-append w xs (p ∷ ys), total-append w xs ys)

length-middle :
    (xs ys : List Request) (p : Request) → length (xs ++ p ∷ ys) ≡ suc (length (xs ++ ys))
length-middle xs ys p = omega (arith, length-append xs (p ∷ ys), length-append xs ys)

-- The number of requests fits the counter, with room to spare.
abbrev pub Fits : System → Type 0
Fits s = length s.requests ≤ 2 ^ 62

pub Step-Inv :
    {s t : System} → Step s t → Inv s.gate s.requests × Fits s → Inv t.gate t.requests × Fits t
Step-Inv {s} {t} (moves xs ys p q e f mv) (v, w) =
    let before : Inv s.gate (p ∷ (xs ++ ys)) =
      Inv-total s.gate _ _ (total-middle xs ys p) (subst (Inv s.gate) e v) in
    let room : length (xs ++ ys) < 2 ^ 62 = omega (arith, ap length e, length-middle xs ys p) in
    let after : Inv t.gate (q ∷ (xs ++ ys)) = Move-Inv s.gate (xs ++ ys) room mv before in
    (
      subst (Inv t.gate) (sym f) (Inv-total t.gate _ _ (λ o. sym (total-middle xs ys q o)) after),
      omega (arith, ap length f, length-middle xs ys q),
    )

pub Reach-Inv :
    {s t : System} → Inv s.gate s.requests × Fits s → Reach s t → Inv t.gate t.requests × Fits t
Reach-Inv v System.here = v
Reach-Inv v (System.later r st) = Step-Inv st (Reach-Inv v r)

-- Requests that arrive, each with its priority.
unfoldable pub arrivals : List Priority → List Request
arrivals [] = []
arrivals (p ∷ ps) = arriving p ∷ arrivals ps

arrivals_idle :
    (ps : List Priority) (w : Request → ℕ)
    → ((p : Priority) → w (arriving p) ≡ 0)
    → total w (arrivals ps) ≡ 0
unfolding arrivals
arrivals_idle [] w h = refl
arrivals_idle (p ∷ ps) w h = omega (arith, h p, arrivals_idle ps w h)

-- The gate of `main`: dynamic, and nobody behind it.
abbrev pub main_gate : Limits → Gate
main_gate l = set_limit_func (new_gate (pos 0) l)

pub length-arrivals : (ps : List Priority) → length (arrivals ps) ≡ length ps
unfolding arrivals
length-arrivals [] = refl
length-arrivals (p ∷ ps) = ap suc (length-arrivals ps)

-- The gate as it starts, with a dynamic or a positive static limit.
pub start-Inv :
    (g : Gate) (ps : List Priority)
    → InForce g
    → g.inflight ≡ pos 0
    → g.queues ≡ record { interactive = []; batch = []; background = [] }
    → g.closed ≡ []
    → Inv g (arrivals ps)
unfolding is_closed
start-Inv g ps f i q k = record {
  in_force = f;
  counted = i ∙ ap pos (sym (arrivals_idle ps _ (λ p. refl)));
  linked = λ p c o. arrivals_idle ps _ (λ r. refl) ∙ rw q (ground arith);
  shut = λ p c o. rw q (ground arith);
  unique = λ c. omega (
    arith,
    arrivals_idle ps (waits_on interactive c) (λ r. refl),
    arrivals_idle ps (waits_on batch c) (λ r. refl),
    arrivals_idle ps (waits_on background c) (λ r. refl),
  );
  fresh = λ p c l. (arrivals_idle ps _ (λ r. refl), rw k refl);
}

-- Slots are neither lost nor doubled. Let any number of requests, up to 2 ^ 62, come to the
-- dynamic gate of `main`. After any interleaving of admissions, waits, wake-ups, cancellations
-- (also of a request that was woken just then) and releases, with any live limit at each step, the
-- counter is the number of requests that own a slot: those that are served, and those in a queue
-- whose channel is closed.
pub gate_accounting :
    (l : Limits) (ps : List Priority) {t : System}
    → length ps ≤ 2 ^ 62
    → Reach (record { gate = main_gate l; requests = arrivals ps }) t
    → t.gate.inflight ≡ pos (total (owns t.gate.closed) t.requests)
unfolding new_gate set_limit_func
gate_accounting l ps h r =
    let v = start-Inv (main_gate l) ps (inl refl) refl refl refl in
    (Reach-Inv (v, omega (arith, length-arrivals ps)) r).0.counted

-- The requests of a system that has come to rest.
abbrev pub AllFinished : List Request → Type 0
AllFinished [] = Unit {0}
AllFinished (r ∷ rs) = (r ≡ finished) × AllFinished rs

-- A request that has not come yet, or is through.
abbrev pub Idle : Request → Type 0
Idle (arriving p) = Unit {0}
Idle finished = Unit {0}
Idle (queued p c) = ⊥
Idle serving = ⊥

total-Idle :
    (rs : List Request) (w : Request → ℕ)
    → All Idle rs
    → w finished ≡ 0
    → ((p : Priority) → w (arriving p) ≡ 0)
    → total w rs ≡ 0
total-Idle [] w a e f = refl
total-Idle (arriving p ∷ rs) w a e f = omega (arith, f p, total-Idle rs w a.1 e f)
total-Idle (finished ∷ rs) w a e f = omega (arith, e, total-Idle rs w a.1 e f)
total-Idle (queued p c ∷ rs) w a e f = elim a.0 [ ]
total-Idle (serving ∷ rs) w a e f = elim a.0 [ ]

count_none : (q : List ℕ) → ((c : ℕ) → count c q ≡ 0) → q ≡ []
count_none [] h = refl
count_none (c ∷ q) h = absurd (ground (arith, h c))

queue_at_rest :
    (g : Gate) (rs : List Request)
    → Inv g rs
    → All Idle rs
    → (p : Priority) → queue_of g.queues p ≡ []
queue_at_rest g rs v a p = count_none _ λ c. elim (Bool-cases (is_closed c g.closed)) [
  | inl e ↦ v.shut p c e
  | inr e ↦ sym (v.linked p c e) ∙ total-Idle rs (waits_on p c) a refl (λ q. refl)
]

-- Once every request of such a run has not come yet or is finished, whichever way it went, the gate
-- is as free as it began: the counter is 0 and every queue is empty.
pub gate_at_rest :
    (l : Limits) (ps : List Priority) {t : System}
    → length ps ≤ 2 ^ 62
    → Reach (record { gate = main_gate l; requests = arrivals ps }) t
    → All Idle t.requests
    → (t.gate.inflight ≡ pos 0) × ((p : Priority) → queue_of t.gate.queues p ≡ [])
unfolding new_gate set_limit_func
gate_at_rest l ps {t} h r a =
    let v = start-Inv (main_gate l) ps (inl refl) refl refl refl in
    let u = (Reach-Inv (v, omega (arith, length-arrivals ps)) r).0 in
    (
      u.counted ∙ ap pos (total-Idle t.requests (owns t.gate.closed) a refl (λ q. refl)),
      queue_at_rest t.gate t.requests u a,
    )
