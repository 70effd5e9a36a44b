-- ===== src/Examples/Starts.antt =====
-- The start of the program: where the backends come from, which paths it serves, and the first
-- round of health checks.
use loxy_router.Base.{
  ◌==◌, ◌&&◌, ◌≡◌, refl, ap, ◌∙◌, ◌↔◌, List, [], ◌∷◌, Option, none, some, pos, codes, Str, str_eq,
  if◌then◌else◌, map, All, ℤ,
}
use loxy_router.Text.{is_empty, trim_space, trim_left, trim_right, is_space, has_code}
use loxy_router.Config.{Config}
use loxy_router.Backend.{set_status, ping}
use loxy_router.Pool.{new_backend_pool, health_round}
use loxy_router.Pool.Names.{NamesDistinct}
use loxy_router.Discover.{
  Outside, discovered, numbered, probed, found_any, named_backend, auto_discover, load_config,
}
use loxy_router.Discover.Fields.{Field, join}
use loxy_router.Discover.Names.{auto_discover-NamesDistinct}
use loxy_router.Discover.Sources.{load_config-join}
use loxy_router.Routes.{proxy, handled, route_request}
use loxy_router.Routes.Guarded.{Leads, Open, route_request_iff}
use loxy_router.Scheduler.{new_scheduler, pick_excluding}
use loxy_router.Scheduler.Health.{Pinged, pick_excluding-ping}
use loxy_router.Examples.Instances.{ascii, fixed}
use loxy_router.Examples.Picks.{gpu, request, sched, gpu_found}

abbrev urls : List Str
urls = codes "http://a:1" ∷ codes "http://b:2" ∷ []

urls_fields : All (Field b',') urls
unfolding is_empty has_code trim_space trim_left trim_right is_space
urls_fields = (
  record { filled = refl; firm = refl; whole = refl },
  (record { filled = refl; firm = refl; whole = refl }, tt),
)

-- The variable is set, or one port answers.
abbrev listed : Outside
listed = record {
  getenv = λ name. join b',' urls;
  read_file = λ path. none;
  unmarshal = λ text. none;
  get_status = λ url. none;
}

abbrev answering : Outside
answering = record listed {
  getenv = λ name. [];
  get_status = λ url.
      if str_eq url (codes "http://localhost:11435/api/version") then some (pos 200) else none;
}

load_config-join_example :
    (load_config listed [] ≡ some (discovered (numbered 0 urls)))
    × (map (λ c. c.url) (numbered 0 urls) ≡ urls)
load_config-join_example =
    load_config-join listed (codes "http://a:1") (codes "http://b:2" ∷ []) urls_fields refl

abbrev local_config : Config
local_config =
    discovered (named_backend (codes "ollama-11435") (codes "http://localhost:11435") ∷ [])

local_found : auto_discover answering ≡ some local_config
unfolding auto_discover probed found_any is_empty str_eq
local_found = refl

auto_discover-NamesDistinct_example :
    NamesDistinct (new_backend_pool ascii local_config.backends local_config.backend_api_key)
auto_discover-NamesDistinct_example = auto_discover-NamesDistinct ascii answering local_found

-- A path with its repeated slashes removed.
abbrev squeeze : Str → Str
squeeze [] = []
squeeze (x ∷ []) = x ∷ []
squeeze (x ∷ y ∷ s) =
    let rest = squeeze (y ∷ s) in if x == b'/' && y == b'/' then rest else x ∷ rest

route_request_iff_example :
    (route_request squeeze (codes "sk-1" ∷ []) (codes "Bearer sk-1") (codes "/v1/models")
      ≡ handled proxy)
    ↔ ((squeeze (codes "/v1/models") ≡ codes "/v1/models")
        × Leads (codes "/v1/models") proxy
        × Open (codes "sk-1" ∷ []) (codes "Bearer sk-1") proxy)
route_request_iff_example =
    route_request_iff squeeze (codes "sk-1" ∷ []) (codes "Bearer sk-1") (codes "/v1/models") proxy

abbrev all_answer : Str → Option ℤ
all_answer url = some (pos 200)

started : new_scheduler fixed (health_round all_answer (gpu ∷ [])) [] none [] ≡ sched
unfolding new_scheduler health_round ping set_status
started = refl

pick_excluding-ping_example : Pinged all_answer (gpu ∷ []) gpu
pick_excluding-ping_example =
    pick_excluding-ping fixed ascii all_answer (gpu ∷ []) [] none [] 7 request []
      (ap (λ s. pick_excluding fixed ascii s 7 request []) started ∙ gpu_found)
