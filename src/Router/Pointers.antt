-- ===== src/Router/Pointers.antt =====
-- Backends by their addresses.
use loxy_router.Base.{
  ℕ, ◌≡◌, refl, ◌∙◌, false, List, [], ◌∷◌, map, some, ◌==◌, ==_iff, ==_comm, if◌then◌else◌, All, In,
  here, there, Bool-cases, inl, inr,
}
use loxy_router.Backend.{Backend}
use loxy_router.Pool.{modify}
use loxy_router.Router.{deref}

-- No number stands in the list twice.
abbrev pub Distinct : List ℕ → Type 0
Distinct [] = Unit {0}
Distinct (p ∷ ps) = All (λ q. q == p ≡ false) ps × Distinct ps

abbrev pub addrs : List Backend → List ℕ
addrs bs = map (λ b. b.addr) bs

-- A write that keeps a field.
pub map-modify {ℓ} :
    {A : Type ℓ} (h : Backend → A) (p : ℕ) (g : Backend → Backend)
    → ((b : Backend) → h (g b) ≡ h b)
    → (bs : List Backend) → map h (modify p g bs) ≡ map h bs
unfolding modify
map-modify h p g k [] = refl
map-modify h p g k (b ∷ bs) = elim (Bool-cases (b.addr == p)) [
  | inl e ↦ rw (e, k b, map-modify h p g k bs) refl
  | inr e ↦ rw (e, map-modify h p g k bs) refl
]

pub addrs-modify :
    (p : ℕ) (g : Backend → Backend)
    → ((b : Backend) → (g b).addr ≡ b.addr)
    → (bs : List Backend) → addrs (modify p g bs) ≡ addrs bs
addrs-modify p g = map-modify (λ b. b.addr) p g

-- A write through a pointer, entry by entry.
pub All-modify {ℓ κ} :
    {P : Backend → Type ℓ} (Q : Backend → Type κ) (p : ℕ) (g : Backend → Backend)
    (bs : List Backend)
    → ((b : Backend) → In b bs → P b → Q (if b.addr == p then g b else b))
    → All P bs
    → All Q (modify p g bs)
unfolding modify
All-modify Q p g [] f h = tt
All-modify Q p g (b ∷ bs) f h = (f b here h.0, All-modify Q p g bs (λ c m. f c (there m)) h.1)

other_addr :
    (p : ℕ) (bs : List Backend) {c : Backend}
    → All (λ q. q == p ≡ false) (addrs bs)
    → In c bs
    → c.addr == p ≡ false
other_addr p [] h m = elim m [ ]
other_addr p (b ∷ bs) h here = h.0
other_addr p (b ∷ bs) h (there m) = other_addr p bs h.1 m

-- Each backend is found at its address.
pub deref-In :
    (bs : List Backend) {c : Backend} → Distinct (addrs bs) → In c bs → deref c.addr bs ≡ some c
unfolding deref
deref-In [] d m = elim m [ ]
deref-In (b ∷ bs) d here = rw ((==_iff b.addr b.addr).1 refl) refl
deref-In (b ∷ bs) {c} d (there m) =
    rw (==_comm b.addr c.addr ∙ other_addr b.addr bs d.0 m) (deref-In bs d.1 m)
