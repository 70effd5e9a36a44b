-- ===== src/Scraper/Poll/Store.antt =====
-- What a round of polls leaves in the state store.
use loxy_router.Base.{
  ℕ, ◌≡◌, refl, ap, ◌∙◌, false, List, [], ◌∷◌, Option, none, some, Str, str_eq, str_eq_refl,
  str_eq_comm, In, here, there, All-In,
}
use loxy_router.Text.{Unicode}
use loxy_router.Float.{Float64, FloatText}
use loxy_router.Backend.{Backend}
use loxy_router.Pool.Names.{Absent, NamesDistinct}
use loxy_router.State.{BackendState, StateStore, get, get-set}
use loxy_router.Scraper.Poll.{Answers, scrape_typ, stored, scrape, poll_round}

module _ {f : Float64} (t : FloatText f) (u : Unicode) where
  open f use {Carrier}

  -- What a poll makes of an entry: a new state, or the old one if the poll failed.
  abbrev pub polled :
      Option (BackendState Carrier) → Option (BackendState Carrier) → Option (BackendState Carrier)
  polled old none = old
  polled old (some st) = some st

  get-stored :
      (store : StateStore Carrier) (name : Str) (o : Option (BackendState Carrier))
      → get (stored t u store name o) name ≡ polled (get store name) o
  unfolding stored
  get-stored store name none = refl
  get-stored store name (some st) = get-set store name name st ∙ rw (str_eq_refl name) refl

  get-stored_other :
      (store : StateStore Carrier) (name other : Str) (o : Option (BackendState Carrier))
      → str_eq name other ≡ false
      → get (stored t u store name o) other ≡ get store other
  unfolding stored
  get-stored_other store name other none e = refl
  get-stored_other store name other (some st) e = get-set store name other st ∙ rw e refl

  module _ (answers : Backend → Answers) (now : ℕ) where
    poll_round-Absent :
        (bs : List Backend) (store : StateStore Carrier) (name : Str)
        → Absent name bs
        → get (poll_round t u answers now bs store).1 name ≡ get store name
    unfolding poll_round scrape
    poll_round-Absent [] store name h = refl
    poll_round-Absent (b ∷ bs) store name h =
        poll_round-Absent bs _ name h.1 ∙ get-stored_other store b.name name _ h.0

    poll_round-In :
        (bs : List Backend) (store : StateStore Carrier) {b : Backend}
        → NamesDistinct bs
        → In b bs
        → get (poll_round t u answers now bs store).1 b.name
          ≡ polled (get store b.name) (scrape_typ t u b now (answers b)).1
    unfolding poll_round scrape
    poll_round-In [] store d m = elim m [ ]
    poll_round-In (b ∷ bs) store d here =
        poll_round-Absent bs _ b.name d.0 ∙ get-stored store b.name _
    poll_round-In (c ∷ bs) store {b} d (there m) =
        let other : str_eq c.name b.name ≡ false =
          str_eq_comm c.name b.name ∙ All-In (λ x. str_eq x.name c.name ≡ false) bs d.0 m in
        poll_round-In bs _ d.1 m
        ∙ ap (λ z. polled z (scrape_typ t u b now (answers b)).1)
            (get-stored_other store c.name b.name _ other)

    -- A round of polls, the names of the pool being distinct: each backend whose poll succeeds has
    -- the polled state in the store; where a poll fails the state from before stays; and the
    -- entries of all other names stay too.
    pub poll_round-get :
        (bs : List Backend) (store : StateStore Carrier)
        → NamesDistinct bs
        → ((b : Backend)
            → In b bs
            → get (poll_round t u answers now bs store).1 b.name
              ≡ polled (get store b.name) (scrape_typ t u b now (answers b)).1)
          × ((name : Str)
              → Absent name bs
              → get (poll_round t u answers now bs store).1 name ≡ get store name)
    poll_round-get bs store d = (λ b m. poll_round-In bs store d m, poll_round-Absent bs store)
