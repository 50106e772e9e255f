-- ===== src/Tests.antt =====
-- Concrete instances of what the model takes from crates, test data, and the theorems at concrete
-- inputs.
mod Crates
mod WalRuns
mod LookupRuns
mod KeyRuns
mod ExprRuns
mod ColumnRuns
mod SegmentRuns
mod QueryRuns
mod ServerRuns
mod TableRuns
mod SnapshotRuns
mod IndexRuns
