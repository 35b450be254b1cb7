-- ===== src/Model.antt =====
-- The domain values: src/ere/models/resolver/*.py and src/ere/models/exceptions.py.
-- A float score or threshold is a non-negative finite double, given by its bit pattern read as a
-- number, which is ordered as the doubles are; 0.0 is 0. Scores are compared, never added.
pub mod Errors
pub mod Links
pub mod Mentions
pub mod Clusters
pub mod Yaml
