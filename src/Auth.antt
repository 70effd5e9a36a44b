-- ===== src/Auth.antt =====
-- auth.go: the guard with static bearer tokens. Texts are bytes here.
pub mod Access
use loxy_router.Base.{
  ℕ, zero, suc, ◌+◌, ◌≡◌, Bool, true, false, not, ◌&&◌, List, [], ◌∷◌, Str, codes, map, leb, ltb,
  length, str_eq, if◌then◌else◌,
}
use loxy_router.Text.{is_empty}

abbrev pub take : ℕ → Str → Str
take zero s = []
take (suc n) [] = []
take (suc n) (x ∷ s) = x ∷ take n s

abbrev pub drop : ℕ → Str → Str
drop zero s = s
drop (suc n) [] = []
drop (suc n) (x ∷ s) = drop n s

-- strings.EqualFold against the letters of "Bearer ", none of which folds beyond ASCII.
unfoldable pub fold : ℕ → ℕ
fold c = if leb 65 c && leb c 90 then c + 32 else c

unfoldable pub equal_fold : Str → Str → Bool
unfolding fold
equal_fold s t = str_eq (map fold s) (map fold t)

abbrev pub prefix : Str
prefix = codes "Bearer "

-- bearerToken, on the value of the Authorization header, which is "" if there is none.
unfoldable pub bearer_token : Str → Str
bearer_token h =
    if ltb (length prefix) (length h) && equal_fold (take (length prefix) h) prefix
    then drop (length prefix) h
    else []

-- The loop of validKey; the comparison in constant time compares the bytes.
unfoldable pub valid_from : List Str → Str → Bool → Bool
valid_from [] token ok = ok
valid_from (k ∷ ks) token ok = valid_from ks token (if str_eq k token then true else ok)

-- validKey
unfoldable pub valid_key : List Str → Str → Bool
valid_key keys token = if is_empty token then false else valid_from keys token false

-- What the guard does with a request: 401, or the handler behind it.
pub data Verdict : Type 0 where
  unauthorized passes : Verdict

-- authMiddleware
unfoldable pub auth_middleware : List Str → Str → Verdict
auth_middleware [] authorization = passes
auth_middleware (k ∷ ks) authorization =
    if not (valid_key (k ∷ ks) (bearer_token authorization)) then unauthorized else passes
