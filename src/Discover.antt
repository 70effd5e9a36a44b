-- ===== src/Discover.antt =====
-- main.go: where the configuration comes from: loadConfig, autoDiscover and splitTrim, which reads
-- the list of backends from the environment. splitTrim's separator is one code point, a comma where
-- it is called. A call of os.Exit is `none`.
pub mod Fields
pub mod Names
pub mod Sources
use loxy_router.Base.{
  ℕ, suc, ◌≡◌, Bool, not, List, [], ◌∷◌, ◌++◌, Option, none, some, Str, codes, if◌then◌else◌, ℤ,
  pos,
}
use loxy_router.Text.{is_empty, trim_space}
use loxy_router.Text.Split.{split}
use loxy_router.Text.Decimal.{itoa}
use loxy_router.Config.{Config, BackendConfig}
use loxy_router.Backend.{is_ok}

-- The loop of splitTrim.
unfoldable pub trimmed : List Str → List Str
trimmed [] = []
trimmed (part ∷ parts) =
    let t = trim_space part in let rest = trimmed parts in if is_empty t then rest else t ∷ rest

-- splitTrim
unfoldable pub split_trim : Str → ℕ → List Str
split_trim s sep = trimmed (split sep s)

-- What the program reads from outside: an environment variable, which is "" if it is not set, a
-- file, a configuration in YAML, and the status of a GET request, unless it fails.
pub record Outside : Type 0 where
  pub getenv : Str → Str
  pub read_file : Str → Option Str
  pub unmarshal : Str → Option Config
  pub get_status : Str → Option ℤ

abbrev pub default_listen : Str
default_listen = codes ":8080"

abbrev pub default_ports : List Str
default_ports = codes "11434" ∷ codes "11435" ∷ codes "11436" ∷ codes "11437" ∷ []

-- A backend of which only the name and the address are given.
unfoldable pub named_backend : Str → Str → BackendConfig
named_backend name url = record {
  name = name;
  url = url;
  models = [];
  typ = [];
  vram_total_mb = pos 0;
  max_concurrent = pos 0;
  api_key = [];
}

-- The configuration that autoDiscover makes of its backends.
unfoldable pub discovered : List BackendConfig → Config
discovered backends = record {
  listen = default_listen;
  backends = backends;
  api_keys = [];
  backend_api_key = [];
  queue = record { interactive = pos 0; batch = pos 0; background = pos 0 };
  timeouts = record { response_header_secs = pos 0; shutdown_secs = pos 0 };
}

-- The loop over the addresses in the environment, from an index.
unfoldable pub numbered : ℕ → List Str → List BackendConfig
unfolding named_backend
numbered i [] = []
numbered i (url ∷ urls) =
    named_backend (codes "backend-" ++ itoa (pos (suc i))) url ∷ numbered (suc i) urls

-- The loop over the ports.
unfoldable pub probed : (Str → Option ℤ) → List Str → List BackendConfig
unfolding named_backend
probed get_status [] = []
probed get_status (port ∷ ports) =
    let url = codes "http://localhost:" ++ port in
    let rest = probed get_status ports in
    if is_ok (get_status (url ++ codes "/api/version"))
    then named_backend (codes "ollama-" ++ port) url ∷ rest
    else rest

-- len(cfg.Backends) == 0
unfoldable pub found_any : List BackendConfig → Option Config
found_any [] = none
found_any (b ∷ bs) = some (discovered (b ∷ bs))

-- autoDiscover
unfoldable pub auto_discover : Outside → Option Config
unfolding split_trim numbered probed found_any
auto_discover o =
    let env = o.getenv (codes "SCHEDULER_BACKENDS") in
    if not (is_empty env)
    then some (discovered (numbered 0 (split_trim env b',')))
    else found_any (probed o.get_status default_ports)

-- loadConfig
unfoldable pub load_config : Outside → Str → Option Config
load_config o path = if is_empty path then auto_discover o else elim (o.read_file path) [
  | none ↦ none
  | some text ↦ elim (o.unmarshal text) [
    | none ↦ none
    | some cfg ↦ some (if is_empty cfg.listen then record cfg { listen = default_listen } else cfg)
  ]
]
