-- ===== src/Resolver.antt =====
-- EntityResolver (src/ere/services/entity_resolution_service.py).
pub mod Ranking
pub mod Assignment
pub mod Earlier
pub mod Visit
pub mod Bite
pub mod Consistency
pub mod Others
pub mod Batch
pub mod Snapshot
