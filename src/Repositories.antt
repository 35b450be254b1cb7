-- ===== src/Repositories.antt =====
-- The repositories over DuckDB (src/ere/adapters/duckdb_repositories.py, the ports in
-- src/ere/models/ports/repositories.py) and the unit of work (duckdb_unit_of_work.py).
-- A SELECT without ORDER BY returns rows in the order of their insertion.
pub mod Rows
pub mod Transactions
pub mod Mentions
pub mod Reading
pub mod Similarities
pub mod Clusters
