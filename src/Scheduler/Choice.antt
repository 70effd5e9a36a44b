-- ===== src/Scheduler/Choice.antt =====
-- What PickExcluding returns: which backends, when none, and in which order of preference.
use loxy_router.Base.{
  ℕ, ◌≡◌, refl, sym, ap, ◌∙◌, subst, inl, inr, Bool, true, false, ◌&&◌, List, [], ◌∷◌, Option, none,
  some, keep, Str, arith, In, here, there, In-cons, In-head, keep-In, Bool-cases, str_Eq, str_eq,
  str_eq_iff,
}
use loxy_router.Text.{Unicode, is_empty}
use loxy_router.Model.{normalize_model}
use loxy_router.Float.{Float64}
use loxy_router.Backend.{Backend}
use loxy_router.State.{StateStore}
use loxy_router.Conversation.{ConversationStore}
use loxy_router.Conversation
use loxy_router.Scheduler.{
  ClientRequest, SchedulerPlugin, PluginAnswer, refuses, names, ok, find_name, is_warm, is_safe,
  score, best_score, apply_vram_guard, pick, Scheduler, find_sticky, affinity_pick, pick_built_in,
  pick_plugin, candidates_of, pick_among, pick_excluding,
}
use loxy_router.Scheduler.Best.{Tops, best_score-Tops}
use loxy_router.Scheduler.Candidates.{Eligible, candidates-Eligible, three_tests}

module _ (f : Float64) where
  open f use {Carrier, lt}

  pub find_sticky-In :
      (store : StateStore Carrier) (name model : Str) (bs : List Backend) {r : Backend}
      → find_sticky f store name model bs ≡ some r
      → In r bs × (r.name ≡ name) × (is_warm f store r model ≡ true) × (is_safe f store r ≡ true)
  unfolding find_sticky
  find_sticky-In store name model [] e = cc
  find_sticky-In store name model (b ∷ bs) {r} e =
      elim (Bool-cases (str_eq b.name name && is_warm f store b model && is_safe f store b)) [
        | inl t ↦
            let q : b ≡ r = cc (rw t at e) in
            let (n, w, v) = three_tests _ _ _ t in
            subst
              (λ z.
                In z (b ∷ bs)
                × (z.name ≡ name)
                × (is_warm f store z model ≡ true)
                × (is_safe f store z ≡ true))
              q (here, (str_eq_iff b.name name).0 n, w, v)
        | inr t ↦
            let (m, n, w, v) = find_sticky-In store name model bs (rw t at e) in (there m, n, w, v)
      ]

  pub find_sticky-some :
      (store : StateStore Carrier) (name model : Str) (bs : List Backend) {b : Backend}
      → In b bs
      → b.name ≡ name
      → is_warm f store b model ≡ true
      → is_safe f store b ≡ true
      → (r : Backend) × (find_sticky f store name model bs ≡ some r)
  unfolding find_sticky
  find_sticky-some store name model [] m n w v = elim m [ ]
  find_sticky-some store name model (c ∷ bs) {b} m n w v =
      elim (Bool-cases (str_eq c.name name && is_warm f store c model && is_safe f store c)) [
        | inl t ↦ (c, rw t refl)
        | inr t ↦ elim (In-cons m) [
          | inl q ↦ absurd (
              cc (
                sym t
                ∙ sticky_test c (subst (λ z. z.name ≡ name) q n)
                    (subst (λ z. is_warm f store z model ≡ true) q w)
                    (subst (λ z. is_safe f store z ≡ true) q v)))
          | inr i ↦ rw t (find_sticky-some store name model bs i n w v)
        ]
      ]
    where
      sticky_test :
          (z : Backend)
          → z.name ≡ name
          → is_warm f store z model ≡ true
          → is_safe f store z ≡ true
          → (str_eq z.name name && is_warm f store z model && is_safe f store z) ≡ true
      sticky_test z n w v = ground (arith, (str_eq_iff z.name name).1 n)

  pub affinity_pick-In :
      (s : Scheduler f) (now : ℕ) (req : ClientRequest) (model : Str) (bs : List Backend)
      {r : Backend}
      → affinity_pick f s now req model bs ≡ some r
      → In r bs × (is_safe f s.store r ≡ true)
  unfolding affinity_pick
  affinity_pick-In s now req model bs {r} e = by_conv s.conv refl
    where
      by_name :
          (c : ConversationStore)
          → s.conv ≡ some c
          → (o : Option Str) → is_empty req.conversation_id ≡ false
          → Conversation.get c now req.conversation_id ≡ o
          → In r bs × (is_safe f s.store r ≡ true)
      by_name c q none n g = absurd (cc (rw (q, n, g) at e))
      by_name c q (some name) n g =
          let (m, _, _, v) = find_sticky-In s.store name model bs (rw (q, n, g) at e) in (m, v)

      by_conv : (o : Option ConversationStore) → s.conv ≡ o → In r bs × (is_safe f s.store r ≡ true)
      by_conv none q = absurd (cc (rw q at e))
      by_conv (some c) q = elim (Bool-cases (is_empty req.conversation_id)) [
        | inl n ↦ absurd (cc (rw (q, n) at e))
        | inr n ↦ by_name c q (Conversation.get c now req.conversation_id) n refl
      ]

  pub pick-Tops :
      (store : StateStore Carrier) (model : Str) (bs : List Backend) {r : Backend}
      → pick f store model bs ≡ ok r
      → In r bs
        × (is_safe f store r ≡ true)
        × Tops f store model (score f store r model) (apply_vram_guard f store bs)
  unfolding pick apply_vram_guard
  pick-Tops store model bs {r} e = go (best_score f store model (keep (is_safe f store) bs)) refl
    where
      go :
          (o : Option Backend)
          → best_score f store model (keep (is_safe f store) bs) ≡ o
          → In r bs
            × (is_safe f store r ≡ true)
            × Tops f store model (score f store r model) (keep (is_safe f store) bs)
      go none q = absurd (cc (rw (q, pick) at e))
      go (some b) q =
          let same : b ≡ r = cc (rw (q, pick) at e) in
          let (m, t) = best_score-Tops f store model _ (q ∙ ap some same) in
          let (i, v) = keep-In (is_safe f store) bs m in (i, v, t)

  pick_built_in-In :
      (s : Scheduler f) (now : ℕ) (req : ClientRequest) (model : Str) (bs : List Backend)
      {r : Backend}
      → pick_built_in f s now req model bs ≡ ok r
      → In r bs × (is_safe f s.store r ≡ true)
  unfolding pick_built_in
  pick_built_in-In s now req model bs {r} e = go (affinity_pick f s now req model bs) refl
    where
      go :
          (o : Option Backend)
          → affinity_pick f s now req model bs ≡ o
          → In r bs × (is_safe f s.store r ≡ true)
      go none q = let (m, v, _) = pick-Tops s.store model bs (rw (q, pick_built_in) at e) in (m, v)
      go (some b) q =
          let same : b ≡ r = cc (rw (q, pick_built_in) at e) in
          affinity_pick-In s now req model bs (q ∙ ap some same)

  find_name-In :
      (name : Str) (bs : List Backend) {r : Backend} → find_name name bs ≡ some r → In r bs
  unfolding find_name
  find_name-In name [] e = cc
  find_name-In name (b ∷ bs) e = elim (Bool-cases (str_eq b.name name)) [
    | inl t ↦ In-head (cc (rw t at e))
    | inr t ↦ there (find_name-In name bs (rw t at e))
  ]

  pick_plugin-In :
      (s : Scheduler f) (now : ℕ) (req : ClientRequest) (model : Str) (bs : List Backend)
      (p : SchedulerPlugin) {r : Backend}
      → pick_plugin f s now req model bs p ≡ ok r
      → In r bs
  unfolding pick_plugin
  pick_plugin-In s now req model bs p {r} e = by_answer (p model bs) refl
    where
      by_name :
          (name : Str)
          → p model bs ≡ names name
          → is_empty name ≡ false
          → (o : Option Backend) → find_name name bs ≡ o
          → In r bs
      by_name name q n none g =
          (pick_built_in-In s now req model bs (rw (q, n, g, pick_plugin) at e)).0
      by_name name q n (some b) g =
          let same : b ≡ r = cc (rw (q, n, g, pick_plugin) at e) in
          find_name-In name bs (g ∙ ap some same)

      by_answer : (a : PluginAnswer) → p model bs ≡ a → In r bs
      by_answer (refuses x) q = absurd (cc (rw (q, pick_plugin) at e))
      by_answer (names name) q = elim (Bool-cases (is_empty name)) [
        | inl n ↦ (pick_built_in-In s now req model bs (rw (q, n, pick_plugin) at e)).0
        | inr n ↦ by_name name q n (find_name name bs) refl
      ]

  pick_among-In :
      (s : Scheduler f) (now : ℕ) (req : ClientRequest) (model : Str) (bs : List Backend)
      {r : Backend}
      → pick_among f s now req model bs ≡ ok r
      → In r bs × (s.plugin ≡ none → is_safe f s.store r ≡ true)
  unfolding pick_among
  pick_among-In s now req model [] e = cc
  pick_among-In s now req model (b ∷ bs) {r} e = go s.plugin refl
    where
      go :
          (o : Option SchedulerPlugin)
          → s.plugin ≡ o
          → In r (b ∷ bs) × (s.plugin ≡ none → is_safe f s.store r ≡ true)
      go none q =
          let (m, v) = pick_built_in-In s now req model (b ∷ bs) (rw (q, pick_among) at e) in
          (m, λ _. v)
      go (some p) q = (
        pick_plugin-In s now req model (b ∷ bs) p (rw (q, pick_among) at e),
        λ n. absurd (cc (sym n ∙ q)),
      )

  -- A pick is sound: the backend returned is one of the pool, it is up, it serves the normalised
  -- model, it has capacity, and it is not excluded, with a plugin too, whatever that answers.
  pub pick_excluding-Eligible :
      (u : Unicode) (s : Scheduler f) (now : ℕ) (req : ClientRequest) (exclude : List (Str × Bool))
      {r : Backend}
      → pick_excluding f u s now req exclude ≡ ok r
      → Eligible s.pool (normalize_model u req.model) exclude r
  unfolding pick_excluding
  pick_excluding-Eligible u s now req exclude e =
      let model = normalize_model u req.model in
      let (m, _) = pick_among-In s now req model (candidates_of f s.pool model exclude) e in
      candidates-Eligible f s.pool model exclude m

  -- With no plugin the backend returned is below the VRAM limit, as far as the last scrape of it
  -- says.
  pub pick_excluding-is_safe :
      (u : Unicode) (s : Scheduler f) (now : ℕ) (req : ClientRequest) (exclude : List (Str × Bool))
      {r : Backend}
      → s.plugin ≡ none
      → pick_excluding f u s now req exclude ≡ ok r
      → is_safe f s.store r ≡ true
  unfolding pick_excluding
  pick_excluding-is_safe u s now req exclude n e =
      let model = normalize_model u req.model in
      (pick_among-In s now req model (candidates_of f s.pool model exclude) e).1 n
