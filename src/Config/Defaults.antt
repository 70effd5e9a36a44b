-- ===== src/Config/Defaults.antt =====
-- What the defaults of config.go promise.
use loxy_router.Base.{
  inl, inr, false, true, leb_ℤ, zero, suc, ℕ, ◌*◌, ◌≤◌, ◌≡◌, ◌⊎◌, arith, ℤ, pos, negsuc, ◌≤ℤ◌, ◌<ℤ◌,
  pos_part, wrap64_id, if◌then◌else◌, mul64,
}
use loxy_router.Config.{Config, response_header_timeout, shutdown_timeout, second}

mul64-second : (n : ℕ) → n ≤ 9_223_372_036 → mul64 (pos n) second ≡ pos (n * 1_000_000_000)
mul64-second n h = ground (arith, wrap64_id (pos (n * 1_000_000_000)))

-- A deadline of `s` seconds with the default `d`, in nanoseconds.
abbrev pub Deadline : ℤ → ℕ → ℤ → Type 0
Deadline s d t =
    ((s ≤ℤ pos 0) × (t ≡ pos (d * 1_000_000_000)))
    ⊎ ((pos 0 <ℤ s) × (t ≡ pos (pos_part s * 1_000_000_000)))

not_below : (n : ℕ) → leb_ℤ (pos (suc n)) (pos 0) ≡ false
not_below n = ground arith

below : (n : ℕ) → leb_ℤ (negsuc n) (pos 0) ≡ true
below n = ground arith

Deadline_lem :
    (d : ℕ) (s : ℤ)
    → d ≤ 9_223_372_036
    → s ≤ℤ pos 9_223_372_036
    → Deadline s d (mul64 (if leb_ℤ s (pos 0) then pos d else s) second)
Deadline_lem d (pos zero) e h = inl (omega arith, mul64-second d e)
Deadline_lem d (pos (suc n)) e h =
    inr (omega arith, rw (not_below n) (mul64-second (suc n) (omega arith)))
Deadline_lem d (negsuc n) e h = inl (omega arith, rw (below n) (mul64-second d e))

-- A configured number of seconds that is not positive selects the default (120 for response
-- headers, 30 for shutdown), and a positive one counts as it is, as long as both numbers are at
-- most the 9,223,372,036 whole seconds that a time.Duration holds.
pub timeouts_Deadline :
    (c : Config)
    → c.timeouts.response_header_secs ≤ℤ pos 9_223_372_036
    → c.timeouts.shutdown_secs ≤ℤ pos 9_223_372_036
    → Deadline c.timeouts.response_header_secs 120 (response_header_timeout c)
      × Deadline c.timeouts.shutdown_secs 30 (shutdown_timeout c)
unfolding response_header_timeout shutdown_timeout
timeouts_Deadline c h k = (Deadline_lem 120 _ (omega arith) h, Deadline_lem 30 _ (omega arith) k)
