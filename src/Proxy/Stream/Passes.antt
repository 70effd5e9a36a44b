-- ===== src/Proxy/Stream/Passes.antt =====
-- What the client receives and what the token counter sees.
use mathlib.Core.List.{append_assoc, append-nil}
use loxy_router.Base.{
  ℕ, ◌≡◌, refl, ap, sym, subst, ◌∙◌, Bool, true, false, List, [], ◌∷◌, ◌++◌, Option, none, some,
  Str, if◌then◌else◌, inl, inr, arith, ◌⊎◌,
}
use loxy_router.Text.{is_empty}
use loxy_router.Tokens.{new_counter, observe, last_bytes, token_tail_max, count_newlines}
use loxy_router.Tokens.Counting.{body, observe_all, observe_all_new}
use loxy_router.Proxy.Stream.{Read, Reads, last, next, Streamed, take_read, stream_loop, streamed}
use loxy_router.Proxy.Stream.Chunks.{
  offered, taken, whole, chunks, texts, Whole, Broken, Whole-or-Broken, body-chunks,
}

-- The time of the first read that has bytes.
unfoldable pub first_time : Reads → Option ℕ
first_time (last r) = if is_empty r.bytes then none else some r.time
first_time (next r rs) = if is_empty r.bytes then first_time rs else some r.time

-- The earlier of two times, the second of which may be a later one.
abbrev pub first_or : Option ℕ → Option ℕ → Option ℕ
first_or none o = o
first_or (some t) o = some t

first_or-none : (o : Option ℕ) → first_or o none ≡ o
first_or-none none = refl
first_or-none (some t) = refl

first_or_assoc : (o p q : Option ℕ) → first_or (first_or o p) q ≡ first_or o (first_or p q)
first_or_assoc none p q = refl
first_or_assoc (some t) p q = refl

-- What a read adds to the state of the loop.
unfoldable noted : Streamed → Read → Streamed
noted s r = record s {
  counter = observe s.counter r.bytes;
  first_byte_at = first_or s.first_byte_at (some r.time);
}

take_read_cases :
    (s : Streamed) (r : Read)
    → ((is_empty r.bytes ≡ true) × (take_read s r ≡ (s, false)))
      ⊎ (((is_empty r.bytes ≡ false)
            × (r.written ≡ true)
            × (take_read s r ≡ (record (noted s r) { sent = s.sent ++ r.bytes ∷ [] }, false)))
          ⊎ ((is_empty r.bytes ≡ false)
              × (r.written ≡ false)
              × (take_read s r ≡ (noted s r, true))))
unfolding take_read noted
take_read_cases s r = ground arith

-- The loop from a state, part by part.
record Looped (s : Streamed) (rs : Reads) (r : Streamed) : Type 0 where
  counted : r.counter ≡ observe_all s.counter (offered rs)
  sent : r.sent ≡ s.sent ++ taken rs
  started : r.first_byte_at ≡ first_or s.first_byte_at (first_time rs)

Looped-last :
    (s : Streamed) (r : Read) {t : Streamed} {gone : Bool}
    → take_read s r ≡ (t, gone)
    → Looped s (last r) t
    → Looped s (last r) (stream_loop s (last r))
unfolding stream_loop
Looped-last s r q l = subst (Looped s (last r)) (sym (ap (λ z. z.0) q)) l

Looped-next :
    (s : Streamed) (r : Read) (rs : Reads) {t : Streamed}
    → take_read s r ≡ (t, false)
    → Looped s (next r rs) (stream_loop t rs)
    → Looped s (next r rs) (stream_loop s (next r rs))
unfolding stream_loop
Looped-next s r rs q l =
    subst (λ z. Looped s (next r rs) (if z.1 then z.0 else stream_loop z.0 rs)) (sym q) l

Looped-gone :
    (s : Streamed) (r : Read) (rs : Reads) {t : Streamed}
    → take_read s r ≡ (t, true)
    → Looped s (next r rs) t
    → Looped s (next r rs) (stream_loop s (next r rs))
unfolding stream_loop
Looped-gone s r rs q l =
    subst (λ z. Looped s (next r rs) (if z.1 then z.0 else stream_loop z.0 rs)) (sym q) l

stream_loop-Looped : (s : Streamed) (rs : Reads) → Looped s rs (stream_loop s rs)
unfolding offered taken first_time observe_all noted
stream_loop-Looped s (last r) = elim (take_read_cases s r) [
  | inl (e, q) ↦ Looped-last s r q (record {
    counted = rw e refl;
    sent = rw e (sym (append-nil s.sent));
    started = rw e (sym (first_or-none _));
  })
  | inr (inl (e, w, q)) ↦
      Looped-last s r q (record { counted = rw e refl; sent = rw (e, w) refl; started = rw e refl })
  | inr (inr (e, w, q)) ↦ Looped-last s r q (record {
    counted = rw e refl;
    sent = rw (e, w) (sym (append-nil s.sent));
    started = rw e refl;
  })
]
stream_loop-Looped s (next r rs) = elim (take_read_cases s r) [
  | inl (e, q) ↦
      let l = stream_loop-Looped s rs in
      Looped-next s r rs q
        (record { counted = rw e l.counted; sent = rw e l.sent; started = rw e l.started })
  | inr (inl (e, w, q)) ↦
      let l = stream_loop-Looped (record (noted s r) { sent = s.sent ++ r.bytes ∷ [] }) rs in
      Looped-next s r rs q (record {
        counted = rw (e, w) l.counted;
        sent = rw (e, w) (l.sent ∙ append_assoc s.sent (r.bytes ∷ []) (taken rs));
        started = rw e (l.started ∙ first_or_assoc s.first_byte_at (some r.time) (first_time rs));
      })
  | inr (inr (e, w, q)) ↦ Looped-gone s r rs q (record {
    counted = rw (e, w) refl;
    sent = rw (e, w) (sym (append-nil s.sent));
    started = rw e refl;
  })
]

-- The client receives the body of the response, in order and unchanged, chunk by chunk, up to the
-- first chunk that it does not take. If it takes every chunk, it receives the whole body, and the
-- counter holds the last 2048 bytes of the body and the number of its newlines. If not, it has
-- received just the chunks before the first write that failed, and the counter has observed those
-- and the one that was not taken. The streaming window begins with the first bytes.
pub streamed_lem :
    (rs : Reads)
    → (body (texts (chunks rs)) ≡ whole rs)
      × ((streamed rs).first_byte_at ≡ first_time rs)
      × (seen : List Str) × ((streamed rs).counter ≡ observe_all new_counter seen)
      × (Broken (chunks rs) (streamed rs).sent seen
          ⊎ (Whole (chunks rs) (streamed rs).sent seen
              × (body (streamed rs).sent ≡ whole rs)
              × ((streamed rs).counter.tail ≡ last_bytes token_tail_max (whole rs))
              × ((streamed rs).counter.newlines ≡ count_newlines (whole rs))))
unfolding streamed
streamed_lem rs =
    let start : Streamed = record { counter = new_counter; first_byte_at = none; sent = [] } in
    let l = stream_loop-Looped start rs in
    (
      body-chunks rs,
      l.started,
      offered rs,
      l.counted,
      elim (Whole-or-Broken rs) [
        | inr b ↦ inl (subst (λ z. Broken (chunks rs) z (offered rs)) (sym l.sent) b)
        | inl h ↦
            let all : body (offered rs) ≡ whole rs = ap body h.seen_all ∙ body-chunks rs in
            let (tail, lines, _) = observe_all_new (offered rs) in
            inr (
              subst (λ z. Whole (chunks rs) z (offered rs)) (sym l.sent) h,
              ap body l.sent ∙ ap body h.sent_all ∙ body-chunks rs,
              ap (λ c. c.tail) l.counted ∙ tail ∙ ap (last_bytes token_tail_max) all,
              ap (λ c. c.newlines) l.counted ∙ lines ∙ ap count_newlines all,
            )
      ],
    )
