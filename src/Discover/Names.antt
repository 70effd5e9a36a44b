-- ===== src/Discover/Names.antt =====
-- The backends that autoDiscover finds have different names.
use loxy_router.Base.{
  ℕ, suc, ◌<◌, ◌≡◌, refl, ap, subst, ◌∙◌, false, List, [], ◌∷◌, ◌++◌, Option, some, Str, codes, All,
  arith, str_eq, str_eq_iff, Bool-cases, inl, inr, ℤ, pos,
}
use loxy_router.Text.{Unicode, is_empty}
use loxy_router.Text.Decimal.{itoa, itoa_inj}
use loxy_router.Config.{Config, BackendConfig}
use loxy_router.Backend.{is_ok}
use loxy_router.Pool.{new_backend, new_backends, new_backend_pool}
use loxy_router.Pool.Names.{Absent, NamesDistinct}
use loxy_router.Discover.{
  Outside, default_ports, named_backend, discovered, numbered, probed, found_any, auto_discover,
  split_trim,
}

str_eq-append : (p s t : Str) → str_eq (p ++ s) (p ++ t) ≡ str_eq s t
unfolding str_eq
str_eq-append [] s t = refl
str_eq-append (x ∷ p) s t = ground (arith, str_eq-append p s t)

itoa_other : (m n : ℕ) → m < n → str_eq (itoa (pos n)) (itoa (pos m)) ≡ false
itoa_other m n h = elim (Bool-cases (str_eq (itoa (pos n)) (itoa (pos m)))) [
  | inl e ↦ absurd (omega (arith, itoa_inj n m ((str_eq_iff _ _).0 e)))
  | inr e ↦ e
]

-- No two of the ports are the same.
abbrev PortsDistinct : List Str → Type 0
PortsDistinct [] = Unit {0}
PortsDistinct (p ∷ ps) = All (λ q. str_eq q p ≡ false) ps × PortsDistinct ps

default_ports-PortsDistinct : PortsDistinct default_ports
unfolding str_eq
default_ports-PortsDistinct =
    ((refl, (refl, (refl, tt))), ((refl, (refl, tt)), ((refl, tt), (tt, tt))))

module _ (u : Unicode) (key : Str) where
  numbered-Absent :
      (k i a : ℕ) (urls : List Str)
      → k < i
      → Absent (codes "backend-" ++ itoa (pos (suc k))) (new_backends u key a (numbered i urls))
  unfolding numbered new_backends new_backend named_backend
  numbered-Absent k i a [] h = tt
  numbered-Absent k i a (url ∷ urls) h = (
    str_eq-append (codes "backend-") _ _ ∙ itoa_other (suc k) (suc i) (omega arith),
    numbered-Absent k (suc i) (suc a) urls (omega arith),
  )

  numbered-NamesDistinct :
      (i a : ℕ) (urls : List Str) → NamesDistinct (new_backends u key a (numbered i urls))
  unfolding numbered new_backends new_backend named_backend
  numbered-NamesDistinct i a [] = tt
  numbered-NamesDistinct i a (url ∷ urls) = (
    numbered-Absent i (suc i) (suc a) urls (omega arith),
    numbered-NamesDistinct (suc i) (suc a) urls,
  )

  module _ (get_status : Str → Option ℤ) where
    probed-Absent :
        (port : Str) (a : ℕ) (ports : List Str)
        → All (λ q. str_eq q port ≡ false) ports
        → Absent (codes "ollama-" ++ port) (new_backends u key a (probed get_status ports))
    unfolding probed new_backends new_backend named_backend
    probed-Absent port a [] h = tt
    probed-Absent port a (q ∷ ports) h =
        elim (Bool-cases
          (is_ok (get_status (codes "http://localhost:" ++ q ++ codes "/api/version")))) [
            | inl e ↦
                rw e (
                  str_eq-append (codes "ollama-") q port ∙ h.0,
                  probed-Absent port (suc a) ports h.1,
                )
            | inr e ↦ rw e (probed-Absent port a ports h.1)
          ]

    probed-NamesDistinct :
        (a : ℕ) (ports : List Str)
        → PortsDistinct ports
        → NamesDistinct (new_backends u key a (probed get_status ports))
    unfolding probed new_backends new_backend named_backend
    probed-NamesDistinct a [] h = tt
    probed-NamesDistinct a (q ∷ ports) h =
        elim (Bool-cases
          (is_ok (get_status (codes "http://localhost:" ++ q ++ codes "/api/version")))) [
            | inl e ↦
                rw e (probed-Absent q (suc a) ports h.0, probed-NamesDistinct (suc a) ports h.1)
            | inr e ↦ rw e (probed-NamesDistinct a ports h.1)
          ]

some_inj : {a b : Config} → some a ≡ some b → a ≡ b
some_inj e = cc

discovered-backends :
    (bs : List BackendConfig) {c : Config} → some (discovered bs) ≡ some c → bs ≡ c.backends
unfolding discovered
discovered-backends bs {c} e = ap (λ z. z.backends) (some_inj e)

found_any-backends :
    (bs : List BackendConfig) {c : Config} → found_any bs ≡ some c → bs ≡ c.backends
unfolding found_any
found_any-backends [] e = cc
found_any-backends (b ∷ bs) e = discovered-backends (b ∷ bs) e

-- The pool that is made of a configuration that autoDiscover finds has no two backends of one name,
-- whatever the environment variable holds and whichever ports answer.
pub auto_discover-NamesDistinct :
    (u : Unicode) (o : Outside) {c : Config}
    → auto_discover o ≡ some c
    → NamesDistinct (new_backend_pool u c.backends c.backend_api_key)
unfolding auto_discover new_backend_pool
auto_discover-NamesDistinct u o {c} e =
    elim (Bool-cases (is_empty (o.getenv (codes "SCHEDULER_BACKENDS")))) [
      | inl t ↦
          subst (λ bs. NamesDistinct (new_backends u c.backend_api_key 0 bs))
            (found_any-backends _ (rw t at e))
            (probed-NamesDistinct u c.backend_api_key o.get_status 0 default_ports
              default_ports-PortsDistinct)
      | inr t ↦
          subst (λ bs. NamesDistinct (new_backends u c.backend_api_key 0 bs))
            (discovered-backends _ (rw t at e))
            (numbered-NamesDistinct u c.backend_api_key 0 0
              (split_trim (o.getenv (codes "SCHEDULER_BACKENDS")) b','))
    ]
