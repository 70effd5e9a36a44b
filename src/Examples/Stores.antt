-- ===== src/Examples/Stores.antt =====
-- The conversation store.
use loxy_router.Base.{◌≡◌, refl, List, [], ◌∷◌, codes, arith, pos, str_Eq}
use loxy_router.Text.{is_empty}
use loxy_router.Conversation.{get}
use loxy_router.Conversation.History.{Op, sets, reaps, after, last_set, live, get-after}

abbrev history : List Op
history = reaps 50 ∷ sets 10 (codes "c") (codes "gpu") ∷ []

get-after_example :
    get (after (pos 100) history) 60 (codes "c") ≡ live (pos 100) 60 (last_set (codes "c") history)
get-after_example =
    get-after (pos 100) 60 (codes "c") history (unfold is_empty in refl)
      (omega arith, (omega arith, tt))
