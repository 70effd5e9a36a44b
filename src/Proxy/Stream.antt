-- ===== src/Proxy/Stream.antt =====
-- proxy.go: `stream`, which copies a response to the client chunk by chunk and watches the tokens
-- go by. A body is the list of its reads, the last of which came with io.EOF or another error.
pub mod Chunks
pub mod Passes
use loxy_router.Base.{
  ℕ, ◌≡◌, Bool, true, false, List, [], ◌∷◌, ◌++◌, Option, none, some, Str, if◌then◌else◌,
}
use loxy_router.Text.{is_empty}
use loxy_router.Tokens.{TokenCounter, new_counter, observe, StreamResult, result}
use loxy_router.Proxy.Upstream.{Header, copy_headers}

-- buf[:n] of a read, the time behind it, and whether the client takes the bytes.
pub record Read : Type 0 where
  pub bytes : Str
  pub time : ℕ
  pub written : Bool

pub data Reads : Type 0 where
  last : Read → Reads
  next : Read → Reads → Reads

-- The variables of the loop, and the chunks that were written so far.
pub record Streamed : Type 0 where
  pub counter : TokenCounter
  pub first_byte_at : Option ℕ
  pub sent : List Str

-- if n > 0; the flag says that the client is gone
unfoldable pub take_read : Streamed → Read → Streamed × Bool
take_read s r =
    let seen = record s {
      counter = observe s.counter r.bytes;
      first_byte_at = elim s.first_byte_at [ none ↦ some r.time | some t ↦ some t ];
    } in
    if is_empty r.bytes
    then (s, false)
    else if r.written
    then (record seen { sent = s.sent ++ r.bytes ∷ [] }, false)
    else (seen, true)

-- The loop of `stream`.
unfoldable pub stream_loop : Streamed → Reads → Streamed
stream_loop s (last r) = (take_read s r).0
stream_loop s (next r rs) =
    let rest = stream_loop (take_read s r).0 rs in
    if (take_read s r).1 then (take_read s r).0 else rest

unfoldable pub streamed : Reads → Streamed
streamed = stream_loop (record { counter = new_counter; first_byte_at = none; sent = [] })

-- stream, which returns at the time `now`
unfoldable pub stream : Reads → ℕ → StreamResult
stream rs now = result (streamed rs).counter (streamed rs).first_byte_at now

-- The headers that the client gets, all those of the response.
unfoldable pub response_headers : Header → Header
response_headers h = copy_headers [] h []
