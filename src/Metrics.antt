-- ===== src/Metrics.antt =====
-- metrics.go: the counters of finished requests. A nil collector is `none`. A map entry that is
-- missing counts as 0.
pub mod Counts
pub mod Output
use loxy_router.Base.{
  ◌+◌, ◌≡◌, Bool, true, ◌&&◌, ◌↔◌, List, [], ◌∷◌, Option, none, some, Str, str_eq, str_eq_iff, refl,
  ap, ℤ, pos, eqb_ℤ, eqb_ℤ→eq, add64, lookup, insert, Eq, arith,
}

pub record RequestKey : Type 0 where
  pub backend : Str
  pub status : ℤ

abbrev pub same_key : RequestKey → RequestKey → Bool
same_key a b = str_eq a.backend b.backend && eqb_ℤ a.status b.status

pub same_key_iff : (a b : RequestKey) → (same_key a b ≡ true) ↔ (a ≡ b)
same_key_iff a b = ground (arith, str_eq_iff a.backend b.backend, eqb_ℤ→eq a.status b.status)

instance abbrev pub key_Eq : Eq RequestKey
key_Eq = record { beq = same_key; beq_iff = same_key_iff }

abbrev pub RequestTotals : Type 0
RequestTotals = List (RequestKey × ℤ)

-- m.requests[key]
unfoldable pub total_of : RequestKey → RequestTotals → ℤ
total_of k m = elim (lookup k m) [ none ↦ pos 0 | some n ↦ n ]

-- IncRequest
unfoldable pub inc_request : Str → ℤ → Option RequestTotals → Option RequestTotals
inc_request backend status none = none
inc_request backend status (some m) =
    let k : RequestKey = record { backend = backend; status = status } in
    some (insert k (add64 (total_of k m) (pos 1)) m)
