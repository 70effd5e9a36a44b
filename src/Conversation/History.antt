-- ===== src/Conversation/History.antt =====
-- The store against the history of its calls.
use loxy_router.Base.{
  ℕ, ◌≤◌, ◌≡◌, refl, sym, ap, ◌∙◌, ◌⊎◌, inl, inr, Bool, true, false, not, List, [], ◌∷◌, Option,
  none, some, Str, str_eq, str_eq_iff, arith, if◌then◌else◌, ℤ, lookup, keep_values, lookup-insert,
  KeysDistinct, insert-KeysDistinct, filtered, lookup-keep_values, str_Eq, Bool-cases,
}
use loxy_router.Text.{is_empty}
use loxy_router.Conversation.{
  ConversationEntry, ConversationStore, new_conversation_store, expired, get, set, reap,
}

-- A call that changes the store, with its time.
pub data Op : Type 0 where
  sets : ℕ → Str → Str → Op
  reaps : ℕ → Op

abbrev pub time_of : Op → ℕ
time_of (sets t id b) = t
time_of (reaps t) = t

unfoldable pub apply : ConversationStore → Op → ConversationStore
apply c (sets t id b) = set c t id b
apply c (reaps t) = reap c t

-- The store after a history, the newest call first.
unfoldable pub after : ℤ → List Op → ConversationStore
after ttl [] = new_conversation_store ttl
after ttl (o ∷ h) = apply (after ttl h) o

-- No call is later than `now`, and none is later than one that came behind it.
abbrev pub Ordered : ℕ → List Op → Type 0
Ordered now [] = Unit
Ordered now (o ∷ h) = (time_of o ≤ now) × Ordered (time_of o) h

-- The specification: the entry of the newest `Set` for a conversation.
unfoldable pub last_set : Str → List Op → Option ConversationEntry
last_set id [] = none
last_set id (sets t j b ∷ h) =
    if str_eq j id then some (record { backend = b; seen = t }) else last_set id h
last_set id (reaps t ∷ h) = last_set id h

after_ttl : (ttl : ℤ) (h : List Op) → (after ttl h).ttl ≡ ttl
unfolding after apply set reap new_conversation_store
after_ttl ttl [] = refl
after_ttl ttl (sets t id b ∷ h) = ground (arith, after_ttl ttl h)
after_ttl ttl (reaps t ∷ h) = after_ttl ttl h

keep_values-KeysDistinct :
    (p : ConversationEntry → Bool) (m : List (Str × ConversationEntry))
    → KeysDistinct m
    → KeysDistinct (keep_values p m)
keep_values-KeysDistinct p [] h = tt
keep_values-KeysDistinct p ((k, v) ∷ m) h =
    ground (arith, lookup-keep_values p k m h.1, keep_values-KeysDistinct p m h.1)

after-KeysDistinct : (ttl : ℤ) (h : List Op) → KeysDistinct (after ttl h).entries
unfolding after apply set reap new_conversation_store
after-KeysDistinct ttl [] = tt
after-KeysDistinct ttl (sets t id b ∷ h) = ground (
  arith,
  after-KeysDistinct ttl h,
  insert-KeysDistinct id (record { backend = b; seen = t }) (after ttl h).entries,
)
after-KeysDistinct ttl (reaps t ∷ h) = keep_values-KeysDistinct _ _ (after-KeysDistinct ttl h)

expired_mono :
    (ttl : ℤ) (now later : ℕ) (e : ConversationEntry)
    → now ≤ later
    → expired ttl now e ≡ true
    → expired ttl later e ≡ true
unfolding expired
expired_mono ttl now later e h x = ground arith

-- The store has the specified entry, or has dropped it after it expired.
abbrev Agrees : ℤ → ℕ → Option ConversationEntry → Option ConversationEntry → Type 0
Agrees ttl now found spec =
    (found ≡ spec)
    ⊎ ((found ≡ none) × ((e : ConversationEntry) × (spec ≡ some e) × (expired ttl now e ≡ true)))

Agrees-later :
    (ttl : ℤ) (now later : ℕ) (f s : Option ConversationEntry)
    → now ≤ later
    → Agrees ttl now f s
    → Agrees ttl later f s
Agrees-later ttl now later f s h (inl e) = inl e
Agrees-later ttl now later f s h (inr (e, (x, p, q))) =
    inr (e, (x, p, expired_mono ttl now later x h q))

Agrees-reap :
    (ttl : ℤ) (now : ℕ) (f s : Option ConversationEntry)
    → Agrees ttl now f s
    → Agrees ttl now (filtered (λ e. not (expired ttl now e)) f) s
Agrees-reap ttl now none s (inl e) = inl e
Agrees-reap ttl now (some x) s (inl e) = elim (Bool-cases (expired ttl now x)) [
  | inl t ↦ inr (rw t refl, (x, sym e, t))
  | inr t ↦ inl (rw t e)
]
Agrees-reap ttl now f s (inr (e, w)) = inr (rw e refl, w)

lookup-set_self :
    (c : ConversationStore) (t : ℕ) (id b : Str)
    → is_empty id ≡ false
    → lookup id (set c t id b).entries ≡ some (record { backend = b; seen = t })
unfolding set
lookup-set_self c t id b n = rw n (
    ground
      (arith, lookup-insert id id (record { backend = b; seen = t }) c.entries, str_eq_iff id id))

lookup-set_ne :
    (c : ConversationStore) (t : ℕ) (j id b : Str)
    → str_eq j id ≡ false
    → lookup id (set c t j b).entries ≡ lookup id c.entries
unfolding set
lookup-set_ne c t j id b n =
    ground (arith, lookup-insert j id (record { backend = b; seen = t }) c.entries)

lookup-reap :
    (c : ConversationStore) (t : ℕ) (id : Str)
    → KeysDistinct c.entries
    → lookup id (reap c t).entries ≡ filtered (λ e. not (expired c.ttl t e)) (lookup id c.entries)
unfolding reap
lookup-reap c t id d = lookup-keep_values (λ e. not (expired c.ttl t e)) id c.entries d

after-Agrees :
    (ttl : ℤ) (now : ℕ) (id : Str) (h : List Op)
    → is_empty id ≡ false
    → Ordered now h
    → Agrees ttl now (lookup id (after ttl h).entries) (last_set id h)
unfolding after apply last_set new_conversation_store lookup
after-Agrees ttl now id [] n o = inl refl
after-Agrees ttl now id (sets t j b ∷ h) n o = elim (Bool-cases (str_eq j id)) [
  | inl e ↦
      let q : j ≡ id = (str_eq_iff j id).0 e in
      rw e (inl (rw q (lookup-set_self (after ttl h) t id b n)))
  | inr e ↦
      rw (e, lookup-set_ne (after ttl h) t j id b e)
        (Agrees-later ttl t now _ _ o.0 (after-Agrees ttl t id h n o.1))
]
after-Agrees ttl now id (reaps t ∷ h) n o =
    rw (lookup-reap (after ttl h) t id (after-KeysDistinct ttl h), after_ttl ttl h)
      (Agrees-later ttl t now _ _ o.0 (Agrees-reap ttl t _ _ (after-Agrees ttl t id h n o.1)))

-- The backend of an entry that is still live.
abbrev pub live : ℤ → ℕ → Option ConversationEntry → Option Str
live ttl now none = none
live ttl now (some e) = if expired ttl now e then none else some e.backend

live-Agrees :
    (ttl : ℤ) (now : ℕ) (f s : Option ConversationEntry)
    → Agrees ttl now f s
    → live ttl now f ≡ live ttl now s
live-Agrees ttl now f s (inl e) = ap (live ttl now) e
live-Agrees ttl now f s (inr (e, (x, p, q))) = rw (e, p, q) refl

get-live :
    (c : ConversationStore) (now : ℕ) (id : Str) (o : Option ConversationEntry)
    → is_empty id ≡ false
    → lookup id c.entries ≡ o
    → get c now id ≡ live c.ttl now o
unfolding get
get-live c now id none n e = rw (n, e)
get-live c now id (some x) n e = rw (n, e)

-- A conversation sticks to the backend of its newest `Set`, until that is older than the TTL; and
-- no `Reap` in between makes a difference. This holds after any history of calls in the order of
-- time, for an id that is not empty.
pub get-after :
    (ttl : ℤ) (now : ℕ) (id : Str) (h : List Op)
    → is_empty id ≡ false
    → Ordered now h
    → get (after ttl h) now id ≡ live ttl now (last_set id h)
get-after ttl now id h n o =
    get-live (after ttl h) now id _ n refl
    ∙ ap (λ z. live z now (lookup id (after ttl h).entries)) (after_ttl ttl h)
    ∙ live-Agrees ttl now _ _ (after-Agrees ttl now id h n o)
