-- ===== src/Knowledge.antt =====
-- services/api/app/modules/knowledge: its tables, its repository, and the modules over them.
pub mod Rows
pub mod Tx
pub mod Repository
pub mod Quota
pub mod Cleanup
pub mod Service
pub mod Examples
