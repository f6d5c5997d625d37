-- ===== src/Lib.antt =====
-- A model of raggio, a retrieval service: an HTTP API over named collections, each a SQLite file
-- `meta.db` (records, vectors, a job journal) beside a vector index file, all in src/raggio.
--
-- Parts and how they interact. A request passes the key checks of app.py, and
-- `CollectionManager.touch` gives it a resident collection, evicting another if the cap is reached.
-- An ingest request is journalled as a job; the collection's one worker claims jobs in id order,
-- writes their records and vectors in one transaction, updates the index in memory, and finishes a
-- batch of jobs once one sync has written the index file. Searches read through connections of their
-- thread and share `_RWLock` with the writers. A restart reads the last index file, evicts ids that no
-- record has, and replays the jobs that are still open.
--
-- Files, each with the code it models:
-- - Prelude: numbers, lists measured by native numbers, keys and dictionaries, results.
-- - RwLock: `_RWLock` of src/raggio/store.py. The lock is its three fields; the tasks are counted by
--   what they do (reading, asleep, woken, writing), and a step is one section between two awaits, so
--   every interleaving and every cancellation is a sequence of steps.
-- - ReadConn: `_ReadConn`. The owner's and the sweep's lock operations are atomic steps that interleave.
-- - Json, Filter: `_filter_sql`. SQL text is a list of pieces in which a placeholder is a piece.
-- - Rows, Slices: `_payload_rows` on the request models of src/raggio/app.py, and the slicing of
--   `_rows_by_id` and of the index adds.
-- - Fts: `_validate_fts_keys` and `_fts_metadata`.
-- - Collection: the tables, `_upsert_rows`, `_unindex`, `_sync_index`; Collection.Writes: the write
--   section of `_process_job`, and `delete_document`; Collection.Replay: `_reconcile_ghosts` and the
--   replay of jobs after a restart. The vector index is the interface `VectorIndex`: its contents as a
--   set of ids is all that these operations need of it.
--   Collection.Patch: `patch_metadata`.
-- - Embedding: `Embedder.embed` of src/raggio/embeddings.py and the batches in which `_process_job`
--   fetches missing vectors.
-- - Journal: `_enqueue_row`, `_claim_next`, `_finish_job`, `_vacuum_after_finish`.
-- - Worker: `_run_worker` and `_flush_unsynced` as a step relation over the journal; a step is what
--   happens between two awaits. `applied` and `synced` are the jobs whose effect the index in memory
--   and the index file hold. Worker.Stop: the flush of `stop`.
-- - Ivf: `_IvfIndex`, an index cut into shards: the writes, `sync` with its dirty set, and the cache of
--   shard ids under a write and a reader that interleave.
-- - Codec: `_encode_payload` and `_decode_payload`, down to the bytes of the header and the matrix.
-- - Ranking: the order `(-score, id)` of search results, over any scores with a total order.
-- - Search: `_rescore_rows`, `_search_rescored`, `_search_allowed`, the route of `_vector_ids`; Search.Allow:
--   the cache of allowlists under writes and threads that interleave.
-- - Scans: `_scan_batched`, `_drain_scans`, `_scan_scoped`, `_drain_scoped`: queues of futures, as a step
--   relation over drains with the interface `Drain`.
-- - TextSearch: `_df`, `_prune_common`; TextSearch.Stages: `_bm25_topn`, `_bm25_rescore`, `_text_ids`.
-- - Fusion: `_rrf`, `_relative`, `search` over its legs, `_hydrate`.
-- - Build: `_iter_vec_blocks`, `_backfill_vecs`, `_attach_index`, `_detach_index`; Build.Disk: the files of a
--   swap and what is loaded from them after a crash.
-- - Manager: `touch`, `_evict`, `housekeeping` and `delete_collection` of `CollectionManager`.
-- - Access: the key checks of src/raggio/app.py.
-- - Listing: `get_document` and `list_records`, over the snapshots that they read.
-- - Settings: `Settings` of src/raggio/config.py.
-- - Examples, in each part: concrete states at which the theorems are applied.
--
-- Bounds and fuel. `make_space` of Manager runs on fuel, the number of residents, and each round
-- evicts one; a drain of Scans takes two turns for each queued search; `next_group` skips at
-- least one waiter of its queue each time; `embed` of Embedding makes the code's three attempts; all other loops are
-- structural. Numbers are exact: the code's integers are Python's, and SQLite's 64-bit ids are not
-- reached.
--
-- Parameters. The vector index with its laws, JSON texts, rounding to float32, the searches of
-- the index and the dot products of numpy, `str()` of a JSON value, SHA-256, the embedding
-- endpoint's answers, `json_patch`, the folding of Unicode text, what FTS5 answers, the
-- arithmetic of scores, the environment with `int` and `float` of a text, what SQLite and `index.sync` do (a commit or a rollback, a sync or an
-- exception), and the text of JSON numbers.
--
-- Not modelled: the numerics (k-means, quantised and IVF search, calibration, the floating point
-- of BM25 scores), the expansion of hits, the statistics, SQL schema migration, HTTP routing, benchmarks, the
-- native scorer. Timestamps, log lines and the text of error messages are left out.
pub mod Prelude
pub mod RwLock
pub mod ReadConn
pub mod Json
pub mod Filter
pub mod Rows
pub mod Slices
pub mod Fts
pub mod Collection
pub mod Journal
pub mod Worker
pub mod Manager
pub mod Access
pub mod Ivf
pub mod Embedding
pub mod Codec
pub mod Ranking
pub mod Search
pub mod Scans
pub mod TextSearch
pub mod Fusion
pub mod Build
pub mod Settings
pub mod Listing
