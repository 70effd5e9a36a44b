-- ===== src/Proxy/Upstream.antt =====
-- proxy.go: the request that `forward` sends to a backend, its URL and its headers. Texts are bytes.
-- A header is a map from canonical keys to values; the client's is a list, in the order in which
-- the loop over it happens to run.
pub mod Headers
use loxy_router.Base.{
  ℕ, ◌+◌, ◌-◌, ◌≡◌, Bool, true, false, not, ◌&&◌, ◌||◌, List, [], ◌∷◌, ◌++◌, Option, none, some,
  Str, codes, leb, ◌==◌, str_eq, if◌then◌else◌, lookup, insert, str_Eq,
}
use loxy_router.Text.{is_empty, has_code}

-- The characters of a header key: letters, digits and a few others.
unfoldable pub is_token_byte : ℕ → Bool
is_token_byte c =
    leb b'a' c && leb c b'z'
    || leb b'A' c && leb c b'Z'
    || leb b'0' c && leb c b'9'
    || has_code c (codes "!#$%&'*+-.^_`|~")

abbrev pub all_tokens : Str → Bool
all_tokens [] = true
all_tokens (c ∷ s) = is_token_byte c && all_tokens s

-- Upper case at the start and behind a dash, lower case elsewhere.
unfoldable pub title : Bool → Str → Str
title upper [] = []
title upper (c ∷ s) =
    (if upper && leb b'a' c && leb c b'z'
      then c - 32
      else if not upper && leb b'A' c && leb c b'Z'
      then c + 32
      else c)
    ∷ title (c == b'-') s

-- http.CanonicalHeaderKey; a key with other characters stays as it is.
unfoldable pub canonical_header_key : Str → Str
canonical_header_key s = if all_tokens s then title true s else s

abbrev pub Header : Type 0
Header = List (Str × List Str)

unfoldable pub values : Str → Header → List Str
values n h = elim (lookup n h) [ none ↦ [] | some vs ↦ vs ]

-- Header.Add
unfoldable pub header_add : Str → Str → Header → Header
header_add key v h = let k = canonical_header_key key in insert k (values k h ++ v ∷ []) h

-- for _, v := range vals
unfoldable pub add_values : Str → List Str → Header → Header
add_values key [] h = h
add_values key (v ∷ vs) h = add_values key vs (header_add key v h)

abbrev pub authorization : Str
authorization = codes "Authorization"

-- The loop over r.Header.
unfoldable pub copy_headers : Str → Header → Header → Header
copy_headers api_key [] h = h
copy_headers api_key ((key, vals) ∷ rest) h =
    let skipped = copy_headers api_key rest h in
    let copied = copy_headers api_key rest (add_values key vals h) in
    if not (is_empty api_key) && str_eq (canonical_header_key key) authorization
    then skipped
    else copied

-- The headers of `forward`; "Authorization" is its own canonical form.
unfoldable pub forward_headers : Str → Header → Header
forward_headers api_key client =
    let h = copy_headers api_key client [] in
    if is_empty api_key then h else insert authorization ((codes "Bearer " ++ api_key) ∷ []) h

-- targetURL
unfoldable pub target_url : Str → Str → Str → Str
target_url url path raw_query =
    if is_empty raw_query then url ++ path else url ++ path ++ codes "?" ++ raw_query
