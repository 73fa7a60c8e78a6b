-- ===== src/Memory.antt =====
-- flashlight/fl/memory: managers of device memory.
pub mod Caching
mod Tests
