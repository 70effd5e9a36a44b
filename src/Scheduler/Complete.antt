-- ===== src/Scheduler/Complete.antt =====
-- PickExcluding finds a backend where there is one, and prefers as documented.
use loxy_router.Base.{
  ℕ, ◌≡◌, refl, sym, ◌∙◌, Bool, true, false, List, [], ◌∷◌, Option, none, some, keep, Str, In,
  In-keep, All-In, str_Eq,
}
use loxy_router.Text.{Unicode, is_empty}
use loxy_router.Model.{normalize_model}
use loxy_router.Float.{Float64}
use loxy_router.Backend.{Backend}
use loxy_router.State.{StateStore}
use loxy_router.Conversation.{ConversationStore}
use loxy_router.Conversation
use loxy_router.Scheduler.{
  ClientRequest, ok, is_warm, is_safe, score, apply_vram_guard, pick, Scheduler, affinity_pick,
  pick_built_in, candidates_of, pick_among, pick_excluding,
}
use loxy_router.Scheduler.Best.{best_score-some}
use loxy_router.Scheduler.Candidates.{Eligible, Eligible-candidates}
use loxy_router.Scheduler.Choice.{find_sticky-In, find_sticky-some, pick-Tops}

module _ (f : Float64) where
  open f use {Carrier, lt}

  pick_some :
      (store : StateStore Carrier) (model : Str) (bs : List Backend) {b : Backend}
      → In b bs
      → is_safe f store b ≡ true
      → (r : Backend) × (pick f store model bs ≡ ok r)
  unfolding pick apply_vram_guard
  pick_some store model bs m v =
      let (r, e) =
        best_score-some f store model (keep (is_safe f store) bs)
          (In-keep (is_safe f store) bs m v) in
      (r, rw (e, pick) refl)

  pick_built_in_some :
      (s : Scheduler f) (now : ℕ) (req : ClientRequest) (model : Str) (bs : List Backend)
      {b : Backend}
      → In b bs
      → is_safe f s.store b ≡ true
      → (r : Backend) × (pick_built_in f s now req model bs ≡ ok r)
  unfolding pick_built_in
  pick_built_in_some s now req model bs m v = go (affinity_pick f s now req model bs) refl
    where
      go :
          (o : Option Backend)
          → affinity_pick f s now req model bs ≡ o
          → (r : Backend) × (pick_built_in f s now req model bs ≡ ok r)
      go (some b) q = (b, rw (q, pick_built_in) refl)
      go none q = let (r, e) = pick_some s.store model bs m v in (r, rw (q, pick_built_in) e)

  -- Without a plugin, and with a candidate at hand, the choice is the built-in one.
  pick_among_default :
      (s : Scheduler f) (now : ℕ) (req : ClientRequest) (model : Str) (bs : List Backend)
      {b : Backend}
      → In b bs
      → s.plugin ≡ none
      → pick_among f s now req model bs ≡ pick_built_in f s now req model bs
  unfolding pick_among pick_built_in affinity_pick
  pick_among_default s now req model [] m n = elim m [ ]
  pick_among_default s now req model (c ∷ bs) m n = rw (n, pick_among) refl

  module _ (u : Unicode) (s : Scheduler f) (now : ℕ) (req : ClientRequest)
      (exclude : List (Str × Bool)) where
    -- A pick is complete: with no plugin, if some backend of the pool is up, serves the normalised
    -- model, has capacity, is not excluded and is below the VRAM limit, a backend is returned.
    pub pick_excluding_some :
        {b : Backend}
        → s.plugin ≡ none
        → Eligible s.pool (normalize_model u req.model) exclude b
        → is_safe f s.store b ≡ true
        → (r : Backend) × (pick_excluding f u s now req exclude ≡ ok r)
    unfolding pick_excluding
    pick_excluding_some n v safe =
        let model = normalize_model u req.model in
        let m = Eligible-candidates f s.pool model exclude v in
        let (r, e) =
          pick_built_in_some s now req model (candidates_of f s.pool model exclude) m safe in
        (r, pick_among_default s now req model (candidates_of f s.pool model exclude) m n ∙ e)

    -- Session affinity: with no plugin, if a live entry of the conversation names an eligible
    -- backend that has the model loaded and is below the VRAM limit, a backend of that name is
    -- returned, with the model loaded, whatever the scores are.
    pub pick_excluding_sticky :
        {b : Backend} (c : ConversationStore)
        → s.plugin ≡ none
        → s.conv ≡ some c
        → is_empty req.conversation_id ≡ false
        → Conversation.get c now req.conversation_id ≡ some b.name
        → Eligible s.pool (normalize_model u req.model) exclude b
        → is_warm f s.store b (normalize_model u req.model) ≡ true
        → is_safe f s.store b ≡ true
        → (r : Backend) × (pick_excluding f u s now req exclude ≡ ok r)
          × (r.name ≡ b.name)
          × (is_warm f s.store r (normalize_model u req.model) ≡ true)
    unfolding pick_excluding pick_built_in affinity_pick
    pick_excluding_sticky {b} c n k i g v w safe =
        let model = normalize_model u req.model in
        let cands = candidates_of f s.pool model exclude in
        let m = Eligible-candidates f s.pool model exclude v in
        let (r, e) = find_sticky-some f s.store b.name model cands m refl w safe in
        let (_, same, warm, _) = find_sticky-In f s.store b.name model cands e in
        let found : affinity_pick f s now req model cands ≡ some r =
          rw (k, i, g, affinity_pick) e in
        (
          r,
          pick_among_default s now req model cands m n ∙ rw (found, pick_built_in) refl,
          same,
          warm,
        )

    -- Otherwise the score decides: with no plugin and no sticky backend, no eligible backend below
    -- the VRAM limit outscores the one that is returned.
    pub pick_excluding_best :
        {r b : Backend}
        → s.plugin ≡ none
        → affinity_pick f s now req
            (normalize_model u req.model)
            (candidates_of f s.pool (normalize_model u req.model) exclude)
          ≡ none
        → pick_excluding f u s now req exclude ≡ ok r
        → Eligible s.pool (normalize_model u req.model) exclude b
        → is_safe f s.store b ≡ true
        → lt
            (score f s.store r (normalize_model u req.model))
            (score f s.store b (normalize_model u req.model))
          ≡ false
    unfolding pick_excluding pick_built_in apply_vram_guard
    pick_excluding_best {r} {b} n a e v safe =
        let model = normalize_model u req.model in
        let cands = candidates_of f s.pool model exclude in
        let m = Eligible-candidates f s.pool model exclude v in
        let built_in : pick_built_in f s now req model cands ≡ ok r =
          sym (pick_among_default s now req model cands m n) ∙ e in
        let scored : pick f s.store model cands ≡ ok r = rw (a, pick_built_in) at built_in in
        let (_, _, t) = pick-Tops f s.store model cands scored in
        All-In _ _ t (In-keep (is_safe f s.store) cands m safe)
