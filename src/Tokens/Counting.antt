-- ===== src/Tokens/Counting.antt =====
-- What the counter knows after any sequence of chunks, and what it reports.
use loxy_router.Base.{
  ℕ, zero, suc, ◌+◌, ◌-◌, ◌≤◌, ◌<◌, ◌≡◌, refl, sym, ap, ◌∙◌, ◌⊎◌, inl, inr, List, [], ◌∷◌, ◌++◌,
  Option, none, some, Str, codes, ltb, arith, length, length-append, Bool-cases,
}
use mathlib.Core.List.{append_assoc, append-nil}
use loxy_router.Tokens.{
  drop, positive_field, TokenCounter, token_tail_max, new_counter, count_newlines, last_bytes,
  observe, count, window_ms, denominator, result,
}

positive_field_pos : (b key : Str) {n : ℕ} → positive_field b key ≡ some n → 0 < n
unfolding positive_field
positive_field_pos b key h = ground arith

-- The token count is at least 1.
pub count_pos : (t : TokenCounter) → 1 ≤ count t
unfolding count positive_field
count_pos t = ground arith

denominator_pos : (t : TokenCounter) → 1 ≤ denominator t
unfolding denominator positive_field
denominator_pos t = ground (arith, count_pos t)

-- The latency is missing only where nothing was measured: a reported 0 means that the response
-- has no positive eval_duration, and that it came in at most one chunk, or empty.
pub result_unmeasured :
    (t : TokenCounter) (first : Option ℕ) (now : ℕ)
    → (result t first now).per_token_ms ≡ 0
    → (positive_field t.tail (codes "eval_duration") ≡ none) × ((t.chunks ≤ 1) ⊎ (first ≡ none))
unfolding result window_ms
result_unmeasured t none now h = ground arith
result_unmeasured t (some x) now h = ground (arith, count_pos t)

length-drop : (n : ℕ) (s : Str) → length (drop n s) ≡ length s - n
length-drop zero s = omega arith
length-drop (suc n) [] = omega arith
length-drop (suc n) (x ∷ s) = omega (arith, length-drop n s)

drop-append : (n : ℕ) (s t : Str) → n ≤ length s → drop n (s ++ t) ≡ drop n s ++ t
drop-append zero s t h = refl
drop-append (suc n) [] t h = absurd (omega arith)
drop-append (suc n) (x ∷ s) t h = drop-append n s t (omega arith)

drop_nil : (n : ℕ) → drop n [] ≡ []
drop_nil zero = refl
drop_nil (suc n) = refl

drop-drop : (m n k : ℕ) (s : Str) → n + m ≡ k → drop m (drop n s) ≡ drop k s
drop-drop m zero k s e = ap (λ i. drop i s) (omega arith)
drop-drop m (suc n) zero s e = absurd (omega arith)
drop-drop m (suc n) (suc k) [] e = drop_nil m
drop-drop m (suc n) (suc k) (x ∷ s) e = drop-drop m n k s (omega arith)

-- The last bytes by truncated subtraction.
last_bytes-drop : (n : ℕ) (s : Str) → last_bytes n s ≡ drop (length s - n) s
unfolding last_bytes
last_bytes-drop n s = elim (Bool-cases (ltb n (length s))) [
  | inl e ↦ rw e refl
  | inr e ↦ let z : 0 ≡ length s - n = ground (arith, e) in rw e (ap (λ i. drop i s) z)
]

last_bytes-append : (n : ℕ) (s t : Str) → last_bytes n (last_bytes n s ++ t) ≡ last_bytes n (s ++ t)
last_bytes-append n s t =
    let k : ℕ = length s - n in
    let kept : length (drop k s ++ t) ≡ length s - k + length t =
      omega (arith, length-append (drop k s) t, length-drop k s) in
    let all : length (s ++ t) ≡ length s + length t = length-append s t in
    last_bytes-drop n (last_bytes n s ++ t)
    ∙ ap (λ r. drop (length (r ++ t) - n) (r ++ t)) (last_bytes-drop n s)
    ∙ ap (drop (length (drop k s ++ t) - n)) (sym (drop-append k s t (omega arith)))
    ∙ drop-drop (length (drop k s ++ t) - n) k (length (s ++ t) - n) (s ++ t) (omega arith)
    ∙ sym (last_bytes-drop n (s ++ t))

-- The whole body that a sequence of chunks makes, oldest first.
unfoldable pub body : List Str → Str
body [] = []
body (b ∷ bs) = b ++ body bs

unfoldable pub observe_all : TokenCounter → List Str → TokenCounter
observe_all t [] = t
observe_all t (b ∷ bs) = observe_all (observe t b) bs

count_newlines-append : (s t : Str) → count_newlines (s ++ t) ≡ count_newlines s + count_newlines t
unfolding count_newlines
count_newlines-append [] t = omega arith
count_newlines-append (c ∷ s) t = omega (arith, count_newlines-append s t)

observe_all-tail :
    (t : TokenCounter) (bs : List Str) (seen : Str)
    → t.tail ≡ last_bytes token_tail_max seen
    → (observe_all t bs).tail ≡ last_bytes token_tail_max (seen ++ body bs)
unfolding observe_all observe body
observe_all-tail t [] seen e = e ∙ ap (last_bytes token_tail_max) (sym (append-nil seen))
observe_all-tail t (b ∷ bs) seen e =
    observe_all-tail (observe t b) bs (seen ++ b)
      (ap (λ r. last_bytes token_tail_max (r ++ b)) e ∙ last_bytes-append token_tail_max seen b)
    ∙ ap (last_bytes token_tail_max) (append_assoc seen b (body bs))

observe_all-newlines :
    (t : TokenCounter) (bs : List Str)
    → ((observe_all t bs).newlines ≡ t.newlines + count_newlines (body bs))
      × ((observe_all t bs).chunks ≡ t.chunks + length bs)
unfolding observe_all observe body count_newlines
observe_all-newlines t [] = (omega arith, omega arith)
observe_all-newlines t (b ∷ bs) =
    let (n, c) = observe_all-newlines (observe t b) bs in
    (omega (arith, n, count_newlines-append b (body bs)), omega (arith, c))

-- However a body is cut into chunks, the counter that has seen them all holds its last 2048 bytes,
-- the number of its newlines, and the number of the chunks.
pub observe_all_new :
    (bs : List Str)
    → ((observe_all new_counter bs).tail ≡ last_bytes token_tail_max (body bs))
      × ((observe_all new_counter bs).newlines ≡ count_newlines (body bs))
      × ((observe_all new_counter bs).chunks ≡ length bs)
unfolding new_counter last_bytes
observe_all_new bs =
    let (n, c) = observe_all-newlines new_counter bs in
    (observe_all-tail new_counter bs [] refl, n ∙ omega arith, c ∙ omega arith)
