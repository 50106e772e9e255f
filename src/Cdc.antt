-- ===== src/Cdc.antt =====
-- Change data capture (src/core/cdc/mod.rs): the names and positions that it works with. Gtid holds the
-- sets of executed transactions, Merged what merging them keeps, and Quoting the texts of SQL.
pub mod Gtid
pub mod Merged
pub mod Quoting
pub mod Names
pub mod Found
