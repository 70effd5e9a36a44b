-- ===== src/Examples.antt =====
-- The theorems at concrete inputs, and instances of the two interfaces.
mod Instances
mod Gates
mod Backends
mod Texts
mod Stores
mod Picks
mod Requests
mod Scrapes
mod Outputs
mod Starts
mod Rounds
mod Routers
