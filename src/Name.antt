-- ===== src/Name.antt =====
-- `TableName` and `ColumnName` of questdb-rs/src/ingress/mod.rs.
pub mod TableName
pub mod ColumnName
