-- ===== src/Examples/Scrapes.antt =====
-- The polls of the scraper.
use loxy_router.Base.{
  ◌<◌, ◌≡◌, refl, inl, inr, true, false, List, [], ◌∷◌, ◌++◌, none, some, arith, pos, ◌<ℤ◌, total,
  In, codes, Str, All, ℕ, Bool, not, ◌&&◌, ◌==◌, str_eq,
}
use loxy_router.Text.{is_empty, is_space}
use loxy_router.Text.Split.Pieces.{Free}
use loxy_router.Text.Decimal.{value_from}
use loxy_router.Config.{Limits}
use loxy_router.Backend.{Backend, effective_concurrent}
use loxy_router.Pool.{is_up, total_concurrency}
use loxy_router.Pool.Names.{Absent}
use loxy_router.Pool.Capacity.{up_limit}
use loxy_router.Gate.{limit}
use loxy_router.Gate.Safety.{main_gate}
use loxy_router.State.{get}
use loxy_router.Scraper.Prom.{parse_prom_line}
use loxy_router.Scraper.Prom.Line.{IsWord, parse_prom_line-sample, parse_prom_line-timestamp}
use loxy_router.Scraper.Poll.{Answers, scrape_typ, scrape, scrape_vllm, vllm_tuned, poll_round}
use loxy_router.Scraper.Poll.Store.{polled, poll_round-get}
use loxy_router.Scraper.Poll.Limits.{poll_round-limit}
use loxy_router.Examples.Instances.{ascii, fixed, whole_text, parse_whole}
use loxy_router.Examples.Picks.{gpu}

abbrev depth : Str
depth = codes "vllm:num_requests_waiting"

abbrev depth_labels : Str
depth_labels = codes "{model_name=\"phi3 mini\"}"

abbrev is_free : (ℕ → Bool) → Str → Bool
is_free p [] = true
is_free p (x ∷ t) = not (p x) && is_free p t

is_free-Free : (p : ℕ → Bool) (t : Str) → is_free p t ≡ true → Free p t
is_free-Free p [] h = tt
is_free-Free p (x ∷ t) h = ground (arith, is_free-Free p t)

word : (w : Str) → is_free is_space w ≡ true → is_empty w ≡ false → IsWord w
word w h n = record { solid = is_free-Free is_space w h; filled = n }

depth_word : IsWord depth
unfolding is_space is_empty
depth_word = word depth refl refl

three_word : IsWord (codes "3")
unfolding is_space is_empty
three_word = word (codes "3") refl refl

stamp_word : IsWord (codes "1395066363000")
unfolding is_space is_empty
stamp_word = word (codes "1395066363000") refl refl

parse_prom_line-sample_example :
    parse_prom_line whole_text ((depth ++ depth_labels) ++ b' ' ∷ codes "3")
    ≡ some (depth, fixed.of_int (pos 3))
parse_prom_line-sample_example =
    parse_prom_line-sample whole_text depth depth_labels b' ' (codes "3") depth_word
      (is_free-Free (λ c. c == b'{') depth refl) (inr refl) (unfold is_space in refl) three_word
      (unfold parse_whole value_from in refl)

parse_prom_line-timestamp_example :
    parse_prom_line whole_text
      (((depth ++ depth_labels) ++ b' ' ∷ codes "3") ++ b' ' ∷ codes "1395066363000")
    ≡ some (
      depth,
      elim (parse_whole (codes "1395066363000")) [ some τ ↦ τ | none ↦ fixed.of_int (pos 3) ],
    )
parse_prom_line-timestamp_example =
    parse_prom_line-timestamp whole_text depth depth_labels b' ' b' ' (codes "3")
      (codes "1395066363000") depth_word (is_free-Free (λ c. c == b'{') depth refl) (inr refl)
      (unfold is_space in refl) (unfold is_space in refl) three_word stamp_word
      (unfold parse_whole value_from in refl)

abbrev answers : Backend → Answers
answers b = record {
  ps = none;
  metrics = some (codes "vllm:num_requests_waiting 3");
  models = none;
}

poll_round-get_example :
    ((b : Backend)
      → In b (gpu ∷ [])
      → get (poll_round whole_text ascii answers 9 (gpu ∷ []) []).1 b.name
        ≡ polled whole_text ascii (get [] b.name) (scrape_typ whole_text ascii b 9 (answers b)).1)
    × ((name : Str)
        → Absent name (gpu ∷ [])
        → get (poll_round whole_text ascii answers 9 (gpu ∷ []) []).1 name ≡ get [] name)
poll_round-get_example = poll_round-get whole_text ascii answers 9 (gpu ∷ []) [] (tt, tt)

abbrev tiers : Limits
tiers = record { interactive = pos 50; batch = pos 200; background = pos 100 }

abbrev polled_pool : List Backend
polled_pool = (poll_round whole_text ascii answers 9 (gpu ∷ []) []).0

poll_round-limit_example :
    All (λ b. pos 0 <ℤ effective_concurrent b) polled_pool
    × (total_concurrency polled_pool ≡ pos (total up_limit polled_pool))
    × ((b : Backend)
        → In b polled_pool
        → is_up b ≡ true
        → (0 < total up_limit polled_pool)
          × (limit (main_gate tiers) (total_concurrency polled_pool)
              ≡ pos (total up_limit polled_pool)))
poll_round-limit_example =
    poll_round-limit whole_text ascii 9 answers (gpu ∷ []) [] tiers ((omega arith, inl refl), tt)
      (inl (unfold str_eq in refl), tt)
      (unfold poll_round scrape scrape_typ scrape_vllm vllm_tuned up_limit is_up
          effective_concurrent str_eq in
        omega arith)
