-- ===== src/Model.antt =====
-- Model names, request priorities and header constants (scheduler.go, gate.go, request.go).
pub mod Normal
use loxy_router.Base.{
  ◌≡◌, Bool, true, false, ◌&&◌, not, List, [], ◌∷◌, ◌++◌, Str, codes, str_eq, if◌then◌else◌,
}
use loxy_router.Text.{Unicode, lower_text, trim_space, is_empty, has_code}

-- normalizeModel
unfoldable pub normalize_model : Unicode → Str → Str
normalize_model u name =
    let n = lower_text u (trim_space name) in
    if not (is_empty n) && not (has_code b':' n) then n ++ codes ":latest" else n

pub data Priority : Type 0 where
  interactive batch background : Priority

-- parsePriority
unfoldable pub parse_priority : Unicode → Str → Priority
parse_priority u s =
    let t = lower_text u (trim_space s) in
    if str_eq t (codes "batch")
    then batch
    else if str_eq t (codes "background")
    then background
    else interactive

-- Priority.String
unfoldable pub priority_string : Priority → Str
priority_string interactive = codes "interactive"
priority_string batch = codes "batch"
priority_string background = codes "background"
