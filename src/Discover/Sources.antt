-- ===== src/Discover/Sources.antt =====
-- The backends that the environment variable lists.
use loxy_router.Base.{◌≡◌, refl, ap, false, List, [], ◌∷◌, some, ℕ, suc, Str, codes, All, map}
use loxy_router.Text.{is_empty}
use loxy_router.Discover.{Outside, named_backend, discovered, numbered, auto_discover, load_config}
use loxy_router.Discover.Fields.{Field, join, split_trim-join}

join_filled :
    (sep : ℕ) (t : Str) (ts : List Str) → is_empty t ≡ false → is_empty (join sep (t ∷ ts)) ≡ false
unfolding join is_empty
join_filled sep t [] h = h
join_filled sep [] (r ∷ ts) h = cc
join_filled sep (x ∷ t) (r ∷ ts) h = refl

numbered-url : (i : ℕ) (ts : List Str) → map (λ c. c.url) (numbered i ts) ≡ ts
unfolding numbered named_backend
numbered-url i [] = refl
numbered-url i (t ∷ ts) = ap (t ∷◌) (numbered-url (suc i) ts)

-- With no configuration file the addresses in SCHEDULER_BACKENDS are the backends, in order: if the
-- variable holds one address or more, none blank, none with space around it or a comma in it, with
-- commas between them, the program starts with just these, numbered from 1, whatever answers on the
-- local ports.
pub load_config-join :
    (o : Outside) (t : Str) (ts : List Str)
    → All (Field b',') (t ∷ ts)
    → o.getenv (codes "SCHEDULER_BACKENDS") ≡ join b',' (t ∷ ts)
    → (load_config o [] ≡ some (discovered (numbered 0 (t ∷ ts))))
      × (map (λ c. c.url) (numbered 0 (t ∷ ts)) ≡ t ∷ ts)
unfolding load_config auto_discover is_empty
load_config-join o t ts h e = (
  rw (e, join_filled b',' t ts h.0.filled)
      (ap (λ us. some (discovered (numbered 0 us))) (split_trim-join b',' (t ∷ ts) h)),
  numbered-url 0 (t ∷ ts),
)
