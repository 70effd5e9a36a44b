-- ===== src/Proxy/Stream/Chunks.antt =====
-- The chunks of a body, and how far a client takes them.
use mathlib.Core.List.{append-nil}
use loxy_router.Base.{
  map, All, ◌≡◌, refl, ap, sym, ◌∙◌, true, false, ◌||◌, not, List, [], ◌∷◌, ◌++◌, Str,
  if◌then◌else◌, Bool-cases, inl, inr, ◌⊎◌,
}
use loxy_router.Text.{is_empty}
use loxy_router.Tokens.Counting.{body}
use loxy_router.Proxy.Stream.{Read, Reads, last, next}

-- The chunks of a body, without the empty reads, up to the first that the client does not take.
unfoldable pub offered : Reads → List Str
offered (last r) = if is_empty r.bytes then [] else r.bytes ∷ []
offered (next r rs) =
    let rest = offered rs in
    if is_empty r.bytes then rest else if r.written then r.bytes ∷ rest else r.bytes ∷ []

-- Those among them that the client takes.
unfoldable pub taken : Reads → List Str
taken (last r) = if is_empty r.bytes || not r.written then [] else r.bytes ∷ []
taken (next r rs) =
    let rest = taken rs in
    if is_empty r.bytes then rest else if r.written then r.bytes ∷ rest else []

-- All bytes of the body.
unfoldable pub whole : Reads → Str
whole (last r) = r.bytes
whole (next r rs) = r.bytes ++ whole rs

-- The reads that have bytes, in order.
unfoldable pub chunks : Reads → List Read
chunks (last r) = if is_empty r.bytes then [] else r ∷ []
chunks (next r rs) = let rest = chunks rs in if is_empty r.bytes then rest else r ∷ rest

abbrev pub texts : List Read → List Str
texts rs = map (λ r. r.bytes) rs

abbrev pub AllWritten : List Read → Type 0
AllWritten rs = All (λ r. r.written ≡ true) rs

-- A client that takes every chunk.
pub record Whole (cs : List Read) (sent seen : List Str) : Type 0 where
  pub all_written : AllWritten cs
  pub sent_all : sent ≡ texts cs
  pub seen_all : seen ≡ texts cs

-- A client that breaks off: it takes the chunks before the first write that fails, and no more, and
-- is offered that one too.
pub record Broken (cs : List Read) (sent seen : List Str) : Type 0 where
  pub before : List Read
  pub refused : Read
  pub rest : List Read
  pub split : cs ≡ before ++ refused ∷ rest
  pub written : AllWritten before
  pub unwritten : refused.written ≡ false
  pub sent_before : sent ≡ texts before
  pub seen_refused : seen ≡ texts before ++ refused.bytes ∷ []

Whole-cons :
    (r : Read) (cs : List Read) (sent seen : List Str)
    → r.written ≡ true
    → Whole cs sent seen
    → Whole (r ∷ cs) (r.bytes ∷ sent) (r.bytes ∷ seen)
Whole-cons r cs sent seen w h = record {
  all_written = (w, h.all_written);
  sent_all = ap (r.bytes ∷◌) h.sent_all;
  seen_all = ap (r.bytes ∷◌) h.seen_all;
}

Broken-cons :
    (r : Read) (cs : List Read) (sent seen : List Str)
    → r.written ≡ true
    → Broken cs sent seen
    → Broken (r ∷ cs) (r.bytes ∷ sent) (r.bytes ∷ seen)
Broken-cons r cs sent seen w b = record {
  before = r ∷ b.before;
  refused = b.refused;
  rest = b.rest;
  split = ap (r ∷◌) b.split;
  written = (w, b.written);
  unwritten = b.unwritten;
  sent_before = ap (r.bytes ∷◌) b.sent_before;
  seen_refused = ap (r.bytes ∷◌) b.seen_refused;
}

Broken-here : (r : Read) (cs : List Read) → r.written ≡ false → Broken (r ∷ cs) [] (r.bytes ∷ [])
Broken-here r cs w = record {
  before = [];
  refused = r;
  rest = cs;
  split = refl;
  written = tt;
  unwritten = w;
  sent_before = refl;
  seen_refused = refl;
}

pub Whole-or-Broken :
    (rs : Reads)
    → Whole (chunks rs) (taken rs) (offered rs) ⊎ Broken (chunks rs) (taken rs) (offered rs)
unfolding offered taken chunks
Whole-or-Broken (last r) = elim (Bool-cases (is_empty r.bytes)) [
  | inl e ↦ rw e (inl (record { all_written = tt; sent_all = refl; seen_all = refl }))
  | inr e ↦ elim (Bool-cases r.written) [
    | inl w ↦
        rw (e, w) (inl (record { all_written = (refl, tt); sent_all = refl; seen_all = refl }))
    | inr w ↦ rw (e, w) (inr (Broken-here (record r { written = false }) [] refl))
  ]
]
Whole-or-Broken (next r rs) = elim (Bool-cases (is_empty r.bytes)) [
  | inl e ↦ rw e (Whole-or-Broken rs)
  | inr e ↦ elim (Bool-cases r.written) [
    | inl w ↦
        rw (e, w)
          (elim (Whole-or-Broken rs) [
            | inl h ↦ inl (
                Whole-cons (record r { written = true }) (chunks rs) (taken rs) (offered rs) refl h)
            | inr b ↦ inr (
                Broken-cons (record r { written = true }) (chunks rs) (taken rs) (offered rs) refl
                  b)
          ])
    | inr w ↦ rw (e, w) (inr (Broken-here (record r { written = false }) (chunks rs) refl))
  ]
]

empty-eq-nil : (t : Str) → is_empty t ≡ true → t ≡ []
unfolding is_empty
empty-eq-nil [] e = refl
empty-eq-nil (x ∷ t) e = cc

-- The chunks are the body.
pub body-chunks : (rs : Reads) → body (texts (chunks rs)) ≡ whole rs
unfolding chunks whole body
body-chunks (last r) = elim (Bool-cases (is_empty r.bytes)) [
  | inl e ↦ rw e (sym (empty-eq-nil r.bytes e))
  | inr e ↦ rw e (append-nil r.bytes)
]
body-chunks (next r rs) = elim (Bool-cases (is_empty r.bytes)) [
  | inl e ↦ rw e (body-chunks rs ∙ ap (◌++ whole rs) (sym (empty-eq-nil r.bytes e)))
  | inr e ↦ rw e (ap (r.bytes ++◌) (body-chunks rs))
]
