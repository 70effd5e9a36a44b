-- ===== src/Tokens.antt =====
-- proxy.go: tokenCounter and jsonIntField, which estimate the tokens and the decode time of a
-- response from the bytes that flow past. Bytes are numbers, and a time is a number of nanoseconds.
-- Counters of bytes and chunks stay far below 2 ^ 63 and are plain numbers.
pub mod Counting
pub mod Field
use loxy_router.Base.{
  ℕ, zero, suc, ◌+◌, ◌-◌, ◌*◌, ◌/◌, ◌^◌, ◌≡◌, Bool, true, false, not, ◌&&◌, ◌||◌, List, [], ◌∷◌,
  ◌++◌, Option, none, some, Str, codes, leb, ltb, ◌==◌, if◌then◌else◌, length,
}
use loxy_router.Text.{is_empty}
use loxy_router.Text.Split.{has_prefix}
use loxy_router.Text.Decimal.{value_from}

-- bytes.Contains
unfoldable pub contains : Str → Str → Bool
unfolding has_prefix
contains p [] = has_prefix p []
contains p (x ∷ s) = has_prefix p (x ∷ s) || contains p s

abbrev pub drop : ℕ → Str → Str
drop zero s = s
drop (suc n) [] = []
drop (suc n) (x ∷ s) = drop n s

-- What stands behind the last occurrence of a text: b[i+len(needle):] for bytes.LastIndex.
unfoldable pub after_last : Str → Str → Option Str
unfolding has_prefix
after_last p [] = none
after_last p (x ∷ s) = elim (after_last p s) [
  | some r ↦ some r
  | none ↦ if has_prefix p (x ∷ s) then some (drop (length p) (x ∷ s)) else none
]

-- The first loop of jsonIntField.
unfoldable pub skip_separators : Str → Str
skip_separators [] = []
skip_separators (x ∷ s) = if x == 32 || x == b':' then skip_separators s else x ∷ s

abbrev pub is_digit : ℕ → Bool
is_digit c = leb b'0' c && leb c b'9'

-- The second loop of jsonIntField.
unfoldable pub take_digits : Str → Str
take_digits [] = []
take_digits (x ∷ s) = if is_digit x then x ∷ take_digits s else []

-- strconv.Atoi on a text of digits: out of the range of `int` is an error.
unfoldable pub atoi : Str → Option ℕ
unfolding value_from
atoi ds = if ltb (value_from 0 ds) (2 ^ 63) then some (value_from 0 ds) else none

unfoldable pub needle : Str → Str
needle key = b'"' ∷ key ++ b'"' ∷ []

-- jsonIntField
unfoldable pub json_int_field : Str → Str → Option ℕ
json_int_field b key = elim (after_last (needle key) b) [
  | none ↦ none
  | some rest ↦ let ds = take_digits (skip_separators rest) in if is_empty ds then none else atoi ds
]

-- The field, if it is there and positive.
unfoldable pub positive_field : Str → Str → Option ℕ
positive_field b key = elim (json_int_field b key) [
  | none ↦ none
  | some n ↦ if ltb 0 n then some n else none
]

pub record TokenCounter : Type 0 where
  pub newlines : ℕ
  pub chunks : ℕ
  pub sse : Bool
  pub tail : Str

abbrev pub token_tail_max : ℕ
token_tail_max = 2048

-- &tokenCounter{}
unfoldable pub new_counter : TokenCounter
new_counter = record { newlines = 0; chunks = 0; sse = false; tail = [] }

unfoldable pub count_newlines : Str → ℕ
count_newlines [] = 0
count_newlines (c ∷ s) = (if c == 10 then 1 else 0) + count_newlines s

-- The last `n` bytes: t[len(t)-n:] where the text is longer.
unfoldable pub last_bytes : ℕ → Str → Str
last_bytes n s = if ltb n (length s) then drop (length s - n) s else s

-- tokenCounter.observe
unfoldable pub observe : TokenCounter → Str → TokenCounter
observe t b = record {
  newlines = t.newlines + count_newlines b;
  chunks = t.chunks + 1;
  sse = t.sse || contains (codes "data:") b;
  tail = last_bytes token_tail_max (t.tail ++ b);
}

-- tokenCounter.count
unfoldable pub count : TokenCounter → ℕ
count t = elim (positive_field t.tail (codes "eval_count")) [
  | some n ↦ n
  | none ↦ elim (positive_field t.tail (codes "completion_tokens")) [
    | some n ↦ n
    | none ↦
        if t.sse && ltb 1 t.newlines
        then t.newlines / 2
        else if ltb 0 t.newlines
        then t.newlines
        else 1
  ]
]

pub record StreamResult : Type 0 where
  pub tokens : ℕ
  pub per_token_ms : ℕ

abbrev pub at_least_one : ℕ → ℕ
at_least_one n = if ltb n 1 then 1 else n

-- The streaming window in milliseconds per token.
unfoldable pub window_ms : TokenCounter → Option ℕ → ℕ → ℕ
window_ms t none now = 0
window_ms t (some first) now =
    if ltb 1 t.chunks && ltb 0 (count t)
    then at_least_one ((now - first) / 1_000_000 / count t)
    else 0

-- The tokens that eval_duration is divided by.
unfoldable pub denominator : TokenCounter → ℕ
denominator t = elim (positive_field t.tail (codes "eval_count")) [ some n ↦ n | none ↦ count t ]

-- tokenCounter.result; `first_byte_at` is none while it IsZero.
unfoldable pub result : TokenCounter → Option ℕ → ℕ → StreamResult
result t first_byte_at now = record {
  tokens = count t;
  per_token_ms = elim (positive_field t.tail (codes "eval_duration")) [
    | some eval_ns ↦ at_least_one (eval_ns / denominator t / 1_000_000)
    | none ↦ window_ms t first_byte_at now
  ];
}
