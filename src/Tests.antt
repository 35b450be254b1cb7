-- ===== src/Tests.antt =====
-- Runs of the model on concrete data, and an application of each result to such data.
mod Data
mod Runs
mod Ranks
mod Serves
mod Takes
mod Trains
mod Blocks
mod Works
mod Maps
mod Opens
mod Rereads
mod Snapshots
