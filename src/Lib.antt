-- ===== src/Lib.antt =====
-- A model of the entity resolution engine (ERE): requests that each carry an entity mention are taken
-- in bites, each mention is mapped to attributes, scored against the stored ones, and assigned to a
-- cluster, greedily and in order of arrival.
--
-- The parts, and the files that model them:
--   Base        - tests, lists, Python's dict and its sorting functions
--   Model       - ere/models/resolver (identifiers, mentions, links, clusters) and ere/models/exceptions.py
--   Tracing     - ere/services/tracing.py, which stages are recorded
--   World       - the state that requests share: tables, recorded stages, trainings started. An action
--                 is a function of the world that returns or raises (Exec)
--   Repositories - ere/adapters/duckdb_repositories.py and duckdb_unit_of_work.py: Rows has the reading and
--                 writing of rows, Mentions, Similarities and Clusters the three classes, Transactions
--                 the unit of work
--   Config      - the values of ere/services/resolver_config.py that the algorithm reads
--   Resolver    - class EntityResolver of ere/services/entity_resolution_service.py. Ranking has
--                 _find_best_match, _rank_candidates and _best_links; Assignment has _assign_cluster;
--                 Earlier has _links_to_earlier; Visit the loop over a bite; Bite has _resolve_bite;
--                 Batch the public operations and Snapshot `state`, with the ORDER BY of the
--                 database as a parameter. Consistency is about the tables after a bite
--   Service     - prepare_mention and class EntityResolutionService of the same file
--   Queue       - take and _within_byte_cap of ere/adapters/redis_request_queue.py; what push_responses
--                 leaves in the response queue is in Worker/Messages
--   Worker      - ere/entrypoints/queue_worker.py and ere/services/bite_sizer.py: Messages has what is made
--                 of one message or response, Bites the size of bites and process_bite
--   Blocking    - ere/models/resolver/blocking.py
--   Training    - the training of ere/adapters/splink_linker_impl.py, ere/models/resolver/model_state.py and
--                 ere/services/model_lifecycle.py. Threads has the steps of calls of train that run at the
--                 same time
--   Rdf         - ere/adapters/rdf_mapper.py and rdf_mapper_impl.py; the mapping file in Rdf/Mappings
--   Settings    - the settings that ere/entrypoints/bootstrap.py resolves, and ere/adapters/duckdb_connection.py
--   Schema      - ere/adapters/duckdb_schema.py
--   Tests       - runs on concrete data
--
-- How code and model correspond: a method is a function of the same name, without its leading
-- underscore; a method that reads or writes the database is an action. A value that a loop updates is an
-- argument of a recursive function; an exception is a value. Loops recurse on the list that they go
-- through. The loop of take alone runs on fuel: its limit, the rounds before the deadline, and one.
--
-- What the model takes as a parameter (World.Platform): whether the n-th call of the database or
-- the linker raises, and what the linker finds at its n-th call, which may depend on the turn, as
-- a model that is trained in the background may replace the old one; whether a thread starts; and
-- the rounding of a score that is stored as a REAL. The service takes the mapping of a mention and
-- the text of exceptions; the worker what JSON and LinkML make of bytes, which pushes a pipeline
-- that fails has run, and the arithmetic on the rate of mentions; the training what Splink and the
-- database do in each of its steps; the mapper the graph of rdflib and the digest of hashlib; the
-- settings what int and float read. ROLLBACK is taken to succeed, and a COMMIT that fails to leave
-- the tables as they were at BEGIN. Rows are read in the order of their insertion.
--
-- Scores are natural numbers: the code compares them, takes the larger one and uses 0.0, and a scale
-- that keeps the order keeps all of these. Left out: the times of stages and responses, log lines, the
-- normalised columns of the table of mentions, which only the linker reads, and the linker's SQL.
-- Not modelled: the reading of resolver.yaml by ResolverConfig, the SQL and the arithmetic of Splink,
-- cold-start probabilities, the ports, which have no code, the start of the process, its sockets
-- and its logging, and the demo.
mod Base
mod Tests
pub mod Model
pub mod Tracing
pub mod World
pub mod Repositories
pub mod Config
pub mod Resolver
pub mod Service
pub mod Queue
pub mod Blocking
pub mod Training
pub mod Worker
pub mod Rdf
pub mod Settings
pub mod Schema
