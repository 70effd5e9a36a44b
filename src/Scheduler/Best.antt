-- ===== src/Scheduler/Best.antt =====
-- The score orders backends as documented, and bestScore finds a best one.
use mathlib.Core.Path.{ap₂}
use loxy_router.Base.{
  ◌≡◌, refl, sym, ap, ◌∙◌, subst, inl, inr, true, false, List, [], ◌∷◌, some, Str, arith, ℤ, pos,
  negsuc, pos_part, ◌≤ℤ◌, ◌<ℤ◌, ◌+◌, ◌^◌, add64, add64_pos, All, In, here, there, In-cons, In-head,
  Bool-cases,
}
use loxy_router.Float.{Float64}
use loxy_router.Backend.{Backend}
use loxy_router.State.{StateStore}
use loxy_router.Scheduler.{score, best_from, best_score, is_warm, req_ms, load_of, expected_ms}

module _ (f : Float64) where
  open f use {Carrier, of_int, lt, le, mul, div}

  -- No backend of the list scores above `x`.
  abbrev pub Tops : StateStore Carrier → Str → Carrier → List Backend → Type 0
  Tops store model x = All (λ c. lt x (score f store c model) ≡ false)

  lt_mono : (x y z : Carrier) → lt x y ≡ true → lt x z ≡ false → lt y z ≡ false
  lt_mono x y z p q = elim (Bool-cases (lt y z)) [
    | inl e ↦ absurd (cc (f.lt_trans x y z p e))
    | inr e ↦ e
  ]

  lt_irrefl : (x : Carrier) → lt x x ≡ false
  lt_irrefl x = elim (Bool-cases (lt x x)) [ inl e ↦ f.lt_asymm x x e | inr e ↦ e ]

  -- What the loop returns: a backend of the list, or the one it began with; it tops the list, and
  -- whatever the first one topped.
  record Best (store : StateStore Carrier) (model : Str) (b : Backend) (bs : List Backend)
      (r : Backend) : Type 0 where
    found : In r (b ∷ bs)
    above :
        (x : Carrier) → lt (score f store b model) x ≡ false → lt (score f store r model) x ≡ false
    tops : Tops store model (score f store r model) bs

  best_from-Best :
      (store : StateStore Carrier) (model : Str) (b : Backend) (bs : List Backend)
      → Best store model b bs (best_from f store model b (score f store b model) bs)
  unfolding best_from
  best_from-Best store model b [] = record { found = here; above = λ x h. h; tops = tt }
  best_from-Best store model b (c ∷ bs) =
      elim (Bool-cases (lt (score f store b model) (score f store c model))) [
        | inl e ↦
            let r = best_from-Best store model c bs in
            rw e (record {
              found = there r.found;
              above = λ x h. r.above x (lt_mono (score f store b model) _ x e h);
              tops = (r.above _ (lt_irrefl (score f store c model)), r.tops);
            })
        | inr e ↦
            let r = best_from-Best store model b bs in
            rw e
              (record { found = found_past r.found; above = r.above; tops = (r.above _ e, r.tops) })
      ]
    where
      found_past : {r : Backend} → In r (b ∷ bs) → In r (b ∷ c ∷ bs)
      found_past m = elim (In-cons m) [ inl e ↦ In-head e | inr i ↦ there (there i) ]

  -- bestScore returns a backend of its list, which none of the list outscores, unless the list is
  -- empty.
  pub best_score-Tops :
      (store : StateStore Carrier) (model : Str) (bs : List Backend) {r : Backend}
      → best_score f store model bs ≡ some r
      → In r bs × Tops store model (score f store r model) bs
  unfolding best_score
  best_score-Tops store model [] e = cc
  best_score-Tops store model (b ∷ bs) {r} e =
      let v = best_from-Best store model b bs in
      subst (λ z. In z (b ∷ bs) × Tops store model (score f store z model) (b ∷ bs)) (cc e)
        (v.found, (v.above _ (lt_irrefl (score f store b model)), v.tops))

  pub best_score-some :
      (store : StateStore Carrier) (model : Str) {b : Backend} (bs : List Backend)
      → In b bs
      → (r : Backend) × (best_score f store model bs ≡ some r)
  unfolding best_score
  best_score-some store model [] m = elim m [ ]
  best_score-some store model (c ∷ bs) m = (_, refl)

  -- The time of one full request is at least a millisecond.
  req_ms_ge_one : (b : Backend) → pos 0 ≤ℤ b.per_token_ms → le (of_int (pos 1)) (req_ms f b) ≡ true
  unfolding req_ms
  req_ms_ge_one b h =
      f.mul_ge_one _ _ (f.of_int_ge_one _ (omega arith)) (f.of_int_ge_one _ (ground arith))

  expected_ms_warm :
      (store : StateStore Carrier) (b : Backend) (model : Str)
      → is_warm f store b model ≡ true
      → expected_ms f store b model ≡ mul (of_int (add64 (load_of f store b) (pos 1))) (req_ms f b)
  unfolding expected_ms
  expected_ms_warm store b model e = rw e

  req_ms_cong : (a b : Backend) → a.per_token_ms ≡ b.per_token_ms → req_ms f a ≡ req_ms f b
  unfolding req_ms
  req_ms_cong a b e = rw e

  loads_order : (x y : ℤ) → pos 0 ≤ℤ x → x ≤ℤ y → pos (pos_part x + 1) ≤ℤ pos (pos_part y + 1)
  loads_order (pos m) (pos n) h k = omega arith
  loads_order (pos m) (negsuc n) h k = absurd (omega arith)
  loads_order (negsuc m) y h k = absurd (omega arith)

  add64_one : (z : ℤ) → pos 0 ≤ℤ z → z <ℤ pos (2 ^ 62) → add64 z (pos 1) ≡ pos (pos_part z + 1)
  add64_one (pos n) h k = add64_pos n 1 (omega arith)
  add64_one (negsuc n) h k = absurd (omega arith)

  -- Between two backends that have the model loaded and the same latency per token, the one with
  -- the smaller load is never outscored by the other. Loads are counts, below 2 ^ 62.
  pub score_warm_load :
      (store : StateStore Carrier) (a b : Backend) (model : Str)
      → is_warm f store a model ≡ true
      → is_warm f store b model ≡ true
      → a.per_token_ms ≡ b.per_token_ms
      → pos 0 ≤ℤ a.per_token_ms
      → pos 0 ≤ℤ load_of f store a
      → load_of f store a ≤ℤ load_of f store b
      → load_of f store b <ℤ pos (2 ^ 62)
      → lt (score f store a model) (score f store b model) ≡ false
  unfolding score
  score_warm_load store a b model wa wb same h la order lb =
      let req : le (of_int (pos 1)) (req_ms f a) ≡ true = req_ms_ge_one a h in
      let next_a : add64 (load_of f store a) (pos 1) ≡ pos (pos_part (load_of f store a) + 1) =
        add64_one (load_of f store a) la (omega arith) in
      let next_b : add64 (load_of f store b) (pos 1) ≡ pos (pos_part (load_of f store b) + 1) =
        add64_one (load_of f store b) (omega arith) lb in
      let time_a : expected_ms f store a model
          ≡ mul (of_int (pos (pos_part (load_of f store a) + 1))) (req_ms f a) =
        expected_ms_warm store a model wa ∙ ap (λ z. mul (of_int z) (req_ms f a)) next_a in
      let time_b : expected_ms f store b model
          ≡ mul (of_int (pos (pos_part (load_of f store b) + 1))) (req_ms f a) =
        expected_ms_warm store b model wb
        ∙ ap₂ (λ z r. mul (of_int z) r) next_b (sym (req_ms_cong a b same)) in
      ap₂ (λ x y. lt (div (of_int (pos 1)) x) (div (of_int (pos 1)) y)) time_a time_b
      ∙ f.recip_anti _ _
          (f.pos_of_ge_one _ (f.mul_ge_one _ _ (f.of_int_ge_one _ (omega arith)) req))
          (f.mul_mono _ _ _ (f.of_int_mono _ _ (loads_order _ _ la order))
            (f.lt_asymm _ _ (f.pos_of_ge_one _ req)))
