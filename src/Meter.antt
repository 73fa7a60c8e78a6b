-- ===== src/Meter.antt =====
-- flashlight/fl/meter: counters of what a model gets wrong.
pub mod EditDistance
mod Tests
