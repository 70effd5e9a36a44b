-- ===== src/Metrics/Output/Order.antt =====
-- The order of the counters in the output does not depend on the order of the map.
use mathlib.Core.List.{Perm, foldr}
use mathlib.Core.List.Perm
use loxy_router.Base.{
  ◌≡◌, refl, ap, sym, ◌∙◌, inl, inr, true, false, List, [], ◌∷◌, Str, str_eq_iff, str_eq_comm, ℤ,
  arith, Bool-cases,
}
use loxy_router.Float.{Float64}
use loxy_router.Backend.{Backend}
use loxy_router.State.{StateStore}
use loxy_router.Gate.{Gate}
use loxy_router.Metrics.{RequestKey, RequestTotals}
use loxy_router.Metrics.Output.{str_lt, key_lt, insert_key, sort_keys, total_lines, metrics_handler}

str_lt_irrefl : (s : Str) → str_lt s s ≡ false
unfolding str_lt
str_lt_irrefl [] = refl
str_lt_irrefl (x ∷ s) = ground (arith, str_lt_irrefl s)

-- Two texts, neither of which is below the other, are equal.
str_lt_connected : (s t : Str) → str_lt s t ≡ false → str_lt t s ≡ false → s ≡ t
unfolding str_lt
str_lt_connected [] [] h k = refl
str_lt_connected [] (y ∷ t) h k = cc
str_lt_connected (x ∷ s) [] h k = cc
str_lt_connected (x ∷ s) (y ∷ t) h k = ground (arith, str_lt_connected s t)

str_lt_asymm : (s t : Str) → str_lt s t ≡ true → str_lt t s ≡ false
unfolding str_lt
str_lt_asymm [] [] h = cc
str_lt_asymm [] (y ∷ t) h = refl
str_lt_asymm (x ∷ s) [] h = cc
str_lt_asymm (x ∷ s) (y ∷ t) h = ground (arith, str_lt_asymm s t)

-- Whatever lies between two texts in order is above the first or below the second.
str_lt_between : (s r t : Str) → str_lt s t ≡ true → str_lt s r ≡ false → str_lt r t ≡ true
unfolding str_lt
str_lt_between s r [] h k = absurd (cc)
str_lt_between [] [] (z ∷ t) h k = refl
str_lt_between [] (y ∷ r) (z ∷ t) h k = absurd (cc)
str_lt_between (x ∷ s) [] (z ∷ t) h k = refl
str_lt_between (x ∷ s) (y ∷ r) (z ∷ t) h k = ground (arith, str_lt_between s r t)

key_lt_asymm : (a b : RequestKey) → key_lt a b ≡ true → key_lt b a ≡ false
unfolding key_lt
key_lt_asymm a b h =
    ground (arith, str_lt_asymm a.backend b.backend, str_eq_comm a.backend b.backend)

key_lt_connected : (a b : RequestKey) → key_lt a b ≡ false → key_lt b a ≡ false → a ≡ b
unfolding key_lt
key_lt_connected a b h k = ground (
  arith,
  str_lt_connected a.backend b.backend,
  str_eq_comm a.backend b.backend,
  str_eq_iff a.backend b.backend,
)

key_lt_between : (a b c : RequestKey) → key_lt a c ≡ true → key_lt a b ≡ false → key_lt b c ≡ true
unfolding key_lt
key_lt_between a b c h k = ground (
  arith,
  str_lt_between a.backend b.backend c.backend,
  str_lt_asymm a.backend b.backend,
  str_lt_irrefl b.backend,
  str_lt_connected a.backend b.backend,
  str_eq_iff a.backend b.backend,
  str_eq_iff b.backend c.backend,
  str_eq_iff a.backend c.backend,
)

insert_key_comm :
    (a b : RequestKey) (js : List RequestKey)
    → insert_key a (insert_key b js) ≡ insert_key b (insert_key a js)
unfolding insert_key
insert_key_comm a b [] = ground (arith, key_lt_asymm a b, key_lt_connected a b)
insert_key_comm a b (j ∷ js) = ground (
  arith,
  key_lt_asymm a b,
  key_lt_connected a b,
  key_lt_between j a b,
  key_lt_between j b a,
  key_lt_asymm j a,
  key_lt_asymm j b,
  insert_key_comm a b js,
)

key_set : IsSet (List RequestKey)
key_set = hlevel

sort_keys-foldr : (ks : List RequestKey) → sort_keys ks ≡ foldr insert_key [] ks
unfolding sort_keys
sort_keys-foldr [] = refl
sort_keys-foldr (k ∷ ks) = ap (insert_key k) (sort_keys-foldr ks)

-- In ascending order: each key is not below the one before it.
abbrev pub IsAscending : List RequestKey → Type 0
IsAscending [] = Unit {0}
IsAscending (k ∷ []) = Unit {0}
IsAscending (k ∷ j ∷ js) = (key_lt j k ≡ false) × IsAscending (j ∷ js)

pub sort_keys-eq_of_perm : {ks js : List RequestKey} → Perm ks js → sort_keys ks ≡ sort_keys js
sort_keys-eq_of_perm {ks} {js} p =
    sort_keys-foldr ks
    ∙ Perm.foldr-eq key_set insert_key insert_key_comm p []
    ∙ sym (sort_keys-foldr js)

insert_key-perm : (k : RequestKey) (js : List RequestKey) → Perm (insert_key k js) (k ∷ js)
unfolding insert_key
insert_key-perm k [] = Perm.rfl
insert_key-perm k (j ∷ js) = elim (Bool-cases (key_lt j k)) [
  | inl e ↦ rw e (Perm.trans (Perm.cons j (insert_key-perm k js)) (Perm.swap k j js))
  | inr e ↦ rw e Perm.rfl
]

pub sort_keys-perm : (ks : List RequestKey) → Perm (sort_keys ks) ks
unfolding sort_keys
sort_keys-perm [] = Perm.rfl
sort_keys-perm (k ∷ ks) =
    Perm.trans (insert_key-perm k (sort_keys ks)) (Perm.cons k (sort_keys-perm ks))

insert_key-IsAscending :
    (k : RequestKey) (js : List RequestKey) → IsAscending js → IsAscending (insert_key k js)
unfolding insert_key
insert_key-IsAscending k [] h = tt
insert_key-IsAscending k (j ∷ []) h = ground (arith, key_lt_asymm j k)
insert_key-IsAscending k (j ∷ i ∷ js) h =
    ground (arith, key_lt_asymm j k, insert_key-IsAscending k (i ∷ js))

pub sort_keys-IsAscending : (ks : List RequestKey) → IsAscending (sort_keys ks)
unfolding sort_keys
sort_keys-IsAscending [] = tt
sort_keys-IsAscending (k ∷ ks) = insert_key-IsAscending k (sort_keys ks) (sort_keys-IsAscending ks)

-- The output of the metrics handler does not depend on the order in which the loop over the snapshot
-- visits its keys: any two orders of the same keys give the same lines, in which the counters stand
-- in ascending order of their keys, each key once for each time it is visited.
pub metrics_handler_deterministic :
    (f : Float64) (pool : List Backend) (store : StateStore (f.Carrier)) (gate : Gate) (live : ℤ)
    (snap : RequestTotals) (ks js : List RequestKey)
    → Perm ks js
    → (metrics_handler f pool store gate live snap ks
        ≡ metrics_handler f pool store gate live snap js)
      × (IsAscending (sort_keys ks) × Perm (sort_keys ks) ks)
unfolding metrics_handler total_lines
metrics_handler_deterministic f pool store gate live snap ks js p =
    (rw (sort_keys-eq_of_perm p) refl, (sort_keys-IsAscending ks, sort_keys-perm ks))
