-- ===== src/Conversation.antt =====
-- conversation.go: which backend served a conversation last. A time is a number of nanoseconds on
-- the monotonic clock, and the time of the call is an argument.
pub mod History
use loxy_router.Base.{
  ℕ, ◌≡◌, Bool, true, false, not, List, [], ◌∷◌, Option, none, some, Str, if◌then◌else◌, ℤ, pos,
  ltb_ℤ, ◌-ℤ◌, lookup, insert, keep_values, str_Eq,
}
use loxy_router.Text.{is_empty}

pub record ConversationEntry : Type 0 where
  pub backend : Str
  pub seen : ℕ

pub record ConversationStore : Type 0 where
  pub ttl : ℤ
  pub entries : List (Str × ConversationEntry)

-- NewConversationStore
unfoldable pub new_conversation_store : ℤ → ConversationStore
new_conversation_store ttl = record { ttl = ttl; entries = [] }

-- time.Since(e.seen) > c.ttl
unfoldable pub expired : ℤ → ℕ → ConversationEntry → Bool
expired ttl now e = ltb_ℤ ttl (pos now -ℤ pos e.seen)

-- ConversationStore.Get
unfoldable pub get : ConversationStore → ℕ → Str → Option Str
get c now id = if is_empty id then none else elim (lookup id c.entries) [
  | none ↦ none
  | some e ↦ if expired c.ttl now e then none else some e.backend
]

-- ConversationStore.Set
unfoldable pub set : ConversationStore → ℕ → Str → Str → ConversationStore
set c now id backend =
    if is_empty id
    then c
    else record c { entries = insert id (record { backend = backend; seen = now }) c.entries }

-- ConversationStore.Reap
unfoldable pub reap : ConversationStore → ℕ → ConversationStore
reap c now = record c { entries = keep_values (λ e. not (expired c.ttl now e)) c.entries }
