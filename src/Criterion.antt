-- ===== src/Criterion.antt =====
-- flashlight/lib/sequence/criterion: the search for the best path through a sequence of scores.
pub mod ViterbiPath
mod Tests
