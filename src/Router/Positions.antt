-- ===== src/Router/Positions.antt =====
-- Predicates on the requests of a router and their positions.
use loxy_router.Base.{
  ℕ, suc, ◌+◌, ◌<◌, ◌==◌, false, length, arith, ◌≡◌, sym, subst, List, [], ◌∷◌, ◌++◌,
}
use loxy_router.Router.{Client}

-- A predicate on the entries of a list and their positions, from the first one's on.
abbrev pub AllFrom : (ℕ → Client → Type 0) → ℕ → List Client → Type 0
AllFrom P i [] = Unit {0}
AllFrom P i (c ∷ cs) = P i c × AllFrom P (suc i) cs

pub AllFrom-imp :
    (P Q : ℕ → Client → Type 0) (i : ℕ) (cs : List Client)
    → ((j : ℕ) (c : Client) → P j c → Q j c)
    → AllFrom P i cs
    → AllFrom Q i cs
AllFrom-imp P Q i [] x h = tt
AllFrom-imp P Q i (c ∷ cs) x h = (x i c h.0, AllFrom-imp P Q (suc i) cs x h.1)

module _ (P Q : ℕ → Client → Type 0) (k : ℕ)
    (others : (j : ℕ) (c : Client) → k == j ≡ false → P j c → Q j c) where
  AllFrom-above : (i : ℕ) (cs : List Client) → k < i → AllFrom P i cs → AllFrom Q i cs
  AllFrom-above i [] x h = tt
  AllFrom-above i (c ∷ cs) x h =
      (others i c (ground (arith, x)) h.0, AllFrom-above (suc i) cs (omega (arith, x)) h.1)

  -- One entry changes, at position `k`.
  pub AllFrom-middle :
      (i : ℕ) (xs ys : List Client) (c d : Client)
      → i + length xs ≡ k
      → (P k c → Q k d)
      → AllFrom P i (xs ++ c ∷ ys)
      → AllFrom Q i (xs ++ d ∷ ys)
  AllFrom-middle i [] ys c d e x h =
      let q : i ≡ k = omega (arith, e) in
      (
        subst (λ z. Q z d) (sym q) (x (subst (λ z. P z c) q h.0)),
        AllFrom-above (suc i) ys (omega (arith, q)) h.1,
      )
  AllFrom-middle i (z ∷ xs) ys c d e x h = (
    others i z (ground (arith, e)) h.0,
    AllFrom-middle (suc i) xs ys c d (omega (arith, e)) x h.1,
  )

AllFrom-behind :
    (P : ℕ → Client → Type 0) (i : ℕ) (xs ys : List Client) (c : Client)
    → AllFrom P i (xs ++ c ∷ ys)
    → P (i + length xs) c
AllFrom-behind P i [] ys c h = subst (λ z. P z c) (omega arith) h.0
AllFrom-behind P i (x ∷ xs) ys c h =
    subst (λ z. P z c) (omega arith) (AllFrom-behind P (suc i) xs ys c h.1)

pub AllFrom-at :
    (P : ℕ → Client → Type 0) (xs ys : List Client) (c : Client)
    → AllFrom P 0 (xs ++ c ∷ ys)
    → P (length xs) c
AllFrom-at P xs ys c h = subst (λ z. P z c) (omega arith) (AllFrom-behind P 0 xs ys c h)
