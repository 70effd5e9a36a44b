-- ===== src/Config.antt =====
-- config.go: the configuration and its defaults.
pub mod Defaults
use loxy_router.Base.{
  ℕ, ◌^◌, ◌≡◌, Bool, true, false, List, Str, ℤ, pos, leb_ℤ, eqb_ℤ, mul64, if◌then◌else◌,
}

pub record TimeoutConfig : Type 0 where
  pub response_header_secs : ℤ
  pub shutdown_secs : ℤ

pub record QueueConfig : Type 0 where
  pub interactive : ℤ
  pub batch : ℤ
  pub background : ℤ

pub record BackendConfig : Type 0 where
  pub name : Str
  pub url : Str
  pub models : List Str
  pub typ : Str
  pub vram_total_mb : ℤ
  pub max_concurrent : ℤ
  pub api_key : Str

pub record Config : Type 0 where
  pub listen : Str
  pub backends : List BackendConfig
  pub api_keys : List Str
  pub backend_api_key : Str
  pub queue : QueueConfig
  pub timeouts : TimeoutConfig

abbrev pub default_response_header_secs : ℤ
default_response_header_secs = pos 120

abbrev pub default_shutdown_secs : ℤ
default_shutdown_secs = pos 30

-- time.Second, in the nanoseconds of a time.Duration.
abbrev pub second : ℤ
second = pos 1_000_000_000

-- responseHeaderTimeout
unfoldable pub response_header_timeout : Config → ℤ
response_header_timeout c =
    let s = c.timeouts.response_header_secs in
    mul64 (if leb_ℤ s (pos 0) then default_response_header_secs else s) second

-- shutdownTimeout
unfoldable pub shutdown_timeout : Config → ℤ
shutdown_timeout c =
    let s = c.timeouts.shutdown_secs in
    mul64 (if leb_ℤ s (pos 0) then default_shutdown_secs else s) second

-- The array [numPriorities]int, a field for each tier.
pub record Limits : Type 0 where
  pub interactive : ℤ
  pub batch : ℤ
  pub background : ℤ

-- queueLimits
unfoldable pub queue_limits : Config → Limits
queue_limits c =
    let q = c.queue in
    record {
      interactive = if eqb_ℤ q.interactive (pos 0) then pos 50 else q.interactive;
      batch = if eqb_ℤ q.batch (pos 0) then pos 200 else q.batch;
      background = if eqb_ℤ q.background (pos 0) then pos 100 else q.background;
    }
