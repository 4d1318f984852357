-- ===== src/Cluster.antt =====
-- internal/group_types/cluster.
pub mod Types
pub mod Store
pub mod Queue
pub mod Dispatcher
pub mod Worker
pub mod Manager
