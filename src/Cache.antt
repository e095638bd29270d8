-- ===== src/Cache.antt =====
-- The LRU block cache of cubeboot/source/emu/ffs/dvm_cache.c.
pub mod Links
pub mod Device
pub mod State
pub mod Round
pub mod Access
pub mod Held
pub mod Sound
pub mod Contract
pub mod RoundTrip
