-- ===== src/Lib.antt =====
-- LumenVec, a vector database in Go: the core of its server.
--
-- The program. A service (internal/core/service.go) keeps every vector three times: in an index
-- that exact search scans (internal/index/index.go), in an approximate (ANN) index that knows
-- vectors by number (internal/index/ann/ann_index.go, with the numbers of
-- internal/core/id_resolver.go), and in a vector store (internal/core/vector_store.go,
-- internal/core/file_vector_store.go). A store that is not persistent is backed by a snapshot file
-- and a write-ahead log (internal/core/persistence.go). The server configures the service from a
-- file and the environment (internal/config/config.go).
--
-- The files.
--   Base             strings as bytes, maps as association lists, errors as results, int as ℤ
--   Distance         the float32 distances of internal/vector/distance.go; Blocks on the unrolled
--                    loops and the distance to four queries
--   TopK             topKAccumulator of internal/core/service.go: the heap (Up, Down, Order), what it
--                    keeps (Nearest) and returns (Results)
--   Numeric          float64 and float32 as a parameter; index.Vector; the conversions of
--                    internal/vector/distance.go
--   Index            internal/index/index.go: AddVector is add_vector, and so on
--   Resolver         internal/core/id_resolver.go: Assign, Lookup (resolve) and Remove
--   OrderedIds       internal/core/ordered_id_index.go over the parameter BTree
--   VectorStore      the interface of a store, as the service uses it
--   MemoryStore      memoryVectorStore of internal/core/vector_store.go, which fills the interface
--   CachedStore      internal/core/cached_vector_store.go over any VectorStore: the cache itself, its
--                    counts (Counting), eviction (Eviction), entries put and read (Putting, Reading,
--                    Found); Store has the operations over a store, Coherence and Refinement what
--                    they promise, Readers the read-only variants, Stale a race
--   Listing          ListVectorsPage of internal/core/list_vectors.go over the memory store
--   FileStore        internal/core/file_vector_store.go: the record format (Codec), the rebuild of
--                    the offsets when a data file is opened (Rebuild), reading a record by its
--                    offset (Read), the hot cache (HotCache), UpsertVectors and DeleteVector on an
--                    open file (Write, upsert_records and delete_record), maybeCompactLocked, which
--                    both end with (Compact), and openLocked (Open)
--   Persistence      snapshotWALBackend of internal/core/persistence.go
--   AnnInterface     what the service uses of the ANN index
--   Ann              internal/index/ann/ann_index.go: the heaps (Heaps), selectNearest (Select; Sorted
--                    and Nearest on its order), the marks of visited slots (Workspace), the search
--                    (Search), AddVector and DeleteVector (Insert), Search, SearchWithDistances and
--                    Stats (Query); Graph and Valid hold the proofs, Interface gives the index to
--                    the service
--   Service          the service: Operations has AddVectors, GetVector and DeleteVector, Restore
--                    has what NewServiceWithDeps reads back; Search has Search in both modes,
--                    Searching and Panic what exact search returns, Batch has SearchBatch
--                    (Equivalence on exact mode, Approximate on ANN mode);
--                    Consistency, Adding, Atomic, Deleting, Admission and Removal hold the proofs
--   RateLimit        the token buckets of internal/api/middleware.go
--   Config           the record, the variables of the environment, and the defaults
--   Tests            concrete instances of the parameters, and the theorems at concrete inputs
--
-- The modelling. An operation takes the state and gives the result with the state after it. The
-- answers of the file system are arguments of the operations, so that a failing call is a branch; a
-- read of GetVector fails only where the bytes are not there. Each operation runs under its lock,
-- so an operation is one step. Go's int is ℕ for sizes and counts and ℤ in the configuration;
-- neither overflows below 2 ^ 63. The 32-bit lengths of the record format wrap around. maxVectorDim
-- and snapshotEvery are positive, as the server passes them. The iteration order of a Go map is
-- that of the list that stands for it.
--
-- Fuel. The loop that reads a data file takes at least four bytes in each round; its fuel is the
-- length of the file. The eviction loops of the hot cache and of the cached store remove one entry
-- in each round; their fuel is the number of entries. In the heap of the search results an index
-- falls to 0 or grows to the length; its fuel is one more than the length. Each round of the ANN
-- search takes a slot off a heap that each slot enters once; its fuel is one more than the nodes.
--
-- The tokens of the rate limiter are exact numbers, where the code computes in float64. The service
-- works with a store that obeys the laws of VectorStore; that the store's read, upsert or delete
-- fails in an operation is an answer of Io, after which the store is as before. The store's calls
-- in a rollback, and in putting a vector back after a failed log, succeed. The cached store is over
-- a store whose calls do not fail.
--
-- Parameters. package math's float patterns and conversions (Floats), float arithmetic (Arithmetic),
-- sort.Slice (Sorting), math/rand (Random), github.com/google/btree (BTree), encoding/json (Json)
-- and the answers of the file system. The service takes its ANN index as the record AnnIndex, and
-- Search its search as an argument.
--
-- Not modelled. Buffer pools, the HTTP and gRPC transports, the client library, the benchmarks and
-- the tools. Of the file store, closing and the count of compactions; of the service, its
-- goroutines and the statistics.
pub mod Base
pub mod Numeric
pub mod OrderedIds
pub mod Index
pub mod Resolver
pub mod VectorStore
pub mod MemoryStore
pub mod Persistence
pub mod AnnInterface
pub mod Ann
pub mod Distance
pub mod TopK
pub mod Service
pub mod CachedStore
pub mod Config
pub mod FileStore
pub mod Listing
pub mod RateLimit
mod Tests
