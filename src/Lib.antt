-- ===== src/Lib.antt =====
-- vector_db: an in-memory vector database behind a gRPC server (src/core, src/grpc_server). This library
-- models its core: what is stored, how it is changed, searched and written to disk.
--
-- The program's parts, and the files that model them:
--   * Prelude: tests on numbers, lists over the native numbers, byte strings as keys, and `Outcome`, the
--     result of code that may return, throw a C++ exception or have undefined behaviour (`undefined`:
--     an array read out of range, an enumerator that no case covers).
--   * Status: src/include/core/status.h, the status codes and `result<T>`. Name: the check of collection
--     names (src/impl/core/utils/utils.cpp).
--   * Assoc: std::unordered_map as an association list; an entry that `emplace` adds is appended. Where the
--     order of a map shows (the bytes of `serialize`, the order of ids), it is that of insertion.
--   * Stream: what `os.write` and `is.read` do with fixed-width little-endian numbers and strings; a
--     read past the end is `undefined`, since the code goes on with variables it never filled.
--   * FloatVector: src/impl/core/float_vector.cpp. A float and an int are their 32 bits, a data pointer is
--     the list of the floats it points to, a metadata pointer an option.
--   * Distance: src/include/core/distance.h, over any type of doubles: the interface `Double` has the
--     operations the code uses, and the laws are hypotheses (`IsSymmetric`, `IsOrdered`) of the theorems
--     that need them. Distance/Whole.antt shows that they can hold.
--   * Index: the parameter records of src/include/core/indices/{hnsw,ivfflat}.h and what reads and writes
--     them. Index/Interface.antt is the virtual interface `index_t` as a record `IndexClass`, which the
--     collection takes as a parameter; an index sees the vectors of its collection as an argument,
--     in place of the weak pointer.
--   * Sort: std::sort. Scan: the exhaustive search, src/impl/core/indices/euclidean.cpp.
--   * KMeans: src/include/core/utils/k_means.h. IvfFlat: the inverted-file index,
--     src/impl/core/indices/ivfflat.cpp, with its build, its two hooks and its search.
--   * Ids: sets of ids. Hnsw: the layered graph index, src/impl/core/indices/hnsw.cpp. Hnsw/Graph.antt has the
--     links of its layers, Hnsw/Candidates.antt the ordered sets of candidates, Hnsw/LayerSearch.antt the search
--     of a layer, Hnsw/Insert.antt the insertion of a node, Hnsw/Pending.antt the changes that wait and the
--     build, Hnsw/Knn.antt the search. The node levels come from a sequence in place of the random draws.
--   * Indices: the two implementations of `index_t` as one `IndexClass`.
--   * Vectors, Collection: src/impl/core/collection.cpp, the map of vectors with its indices.
--     Collection/Persist.antt is its serialised form.
--   * Database: src/impl/core/database.cpp, the map of collections with the checks of each call.
--     Database/Store.antt has the abstract view, a partial map of tables, and the calls as steps.
--     Database/Files.antt has `save` and `load` over a list of files, in the order of the directory iterator, a
--     new file last; which files open is a function of their names, and a read or a write does not fail.
--   * Configuration: src/impl/configuration/provider.cpp, over a TOML library given by `Toml`.
--   * WorkerPool: src/include/grpc_server/worker_pool.h as a step relation. Wire:
--     src/include/grpc_server/util.h.
--   * Server: src/impl/grpc_server/server.cpp. Server.antt has the state machine and the checks of the handlers,
--     Server/Messages.antt the messages, Server/Work.antt the callbacks, and Server/Lives.antt the life of a call,
--     whose steps are the reports of the completion queue and the runs of the callbacks, each to its end. Server/Running.antt has
--     the constructor, `start` and `shutdown`, with the configuration, the files and the worker pool.
--   * Tests: fixtures, and the theorems at concrete inputs.
--
-- How they interact: a call of the database checks the name, finds the collection and calls the method of
-- the same name; the collection changes its map of vectors and then calls the hooks of every index, which
-- read the vectors back through it; a search asks the index of the given name, or scans.
--
-- Bounds: a `uint32_t` is written as 4 bytes and a `uint64_t` as 8, with the bounds on what fits as
-- hypotheses of the round trips. Almost every loop of the code is over a container, so it is structural
-- recursion; the rounds of k-means are bounded by the `max_iterations` of the code, 100. The search of an
-- HNSW layer runs on as much fuel as there are entry points and links in the layer, since each id becomes a
-- candidate at most once; without fuel it would be `undefined`, which the theorems on it exclude.
--
-- Not modelled: the locks (each call runs alone, so that two locks of one mutex by one thread do not show), what
-- threads do to one server object at the same time, the logger, gRPC and its completion queue, the listening
-- address and the joining of threads. The random levels of the HNSW graph are a given sequence of numbers:
-- with `M_` equal to 1 the code converts an infinite value to int instead.
mod Prelude
pub mod Status
pub mod Name
pub mod Assoc
pub mod Stream
pub mod FloatVector
pub mod Distance
pub mod Index
pub mod Ids
pub mod Vectors
pub mod Hnsw
pub mod Sort
pub mod Scan
pub mod KMeans
pub mod IvfFlat
pub mod Collection
pub mod Indices
pub mod Database
pub mod Configuration
pub mod WorkerPool
pub mod Wire
pub mod Server
mod Tests
