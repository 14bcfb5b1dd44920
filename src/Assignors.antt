-- ===== src/Assignors.antt =====
-- kafka/coordinator/assignors: which member of a group reads which partitions.
pub mod Sort
pub mod Range
pub mod RoundRobin
mod Tests
