-- ===== src/Lib.antt =====
-- A model of gocodemunch-mcp, a server that indexes source code, watches the indexed folders and
-- answers tool calls over the Model Context Protocol.
--
-- The parts and how they interact. `src/internal/transport/mcp` reads framed JSON-RPC requests and
-- hands tool calls to the service in `src/internal/orchestration`. The service indexes files in
-- chunks, stores their vectors with retries, fans batches of calls out to workers, and runs each
-- reindex of a repository under the watcher's marks. The watcher in `src/internal/watcher` polls the
-- watched folders, merges the changes of a debounce window, hands the batches back to the service
-- through the batch processor, and keeps the freshness that the tools ask for; a lock file for each
-- folder keeps other processes from watching it too. `src/internal/evals` measures retrieval.
--
-- Where to find what:
--   Watcher: the shared types of src/internal/watcher/contracts.go.
--   Watcher/Changes: mergePendingChange, collapseChangeTypes and sortedPendingChanges of
--     src/internal/watcher/embedded_worker.go. Changes/Net and Changes/Sorted have the proofs.
--   Watcher/Snapshots: diffFolderSnapshots and the polling of src/internal/watcher/polling_source.go.
--   Watcher/Paths: normalizeWatcherChange, hasHiddenPathSegment and normalizeEmbeddedFolders.
--   Watcher/Controller: StateController of src/internal/watcher/state_controller.go, one function
--     for each method, on a record of its maps and of its channels. Controller/Query has the
--     answers; WaitForFresh is wait_begin, up to its select, and wait_end. Controller/Steps has
--     histories of calls in any order, with what Start and Stop do to these maps as calls of them.
--   Watcher/Lock: folderLockManager of src/internal/watcher/folder_lock.go, with the directory of
--     lock files as a map and what the system may refuse as an argument of each call.
--   Watcher/Ownership: StateController.Start and Stop over the lock manager; Ownership/Calls relates
--     them to the calls of Controller/Steps.
--   Watcher/Worker: runFolderLoop as a step for what one select receives; Worker/Lifecycle has Start,
--     Stop and Run of EmbeddedWorker over any controller, and Lifecycle/Watches puts the state
--     controller of Watcher/Ownership there.
--   Orchestration/Chunking: chunks of src/internal/orchestration/chunking.go.
--   Orchestration/Resilience: retries and batches of src/internal/orchestration/vector_resilience.go.
--   Orchestration/Fanout: src/internal/orchestration/batch_fanout.go and batch_error_contract.go;
--     Fanout/Parallel has the worker pool as a machine whose events may come in any order.
--   Orchestration/Dependencies: bfsDependencyGraph of
--     src/internal/orchestration/handlers_retrieval.go; Dependencies/Rows has
--     buildDependencyAdjacency, invertDependencyAdjacency and the filters of edges and neighbors.
--   Orchestration/Indexing: what src/internal/orchestration/handlers_indexing.go computes on the
--     files of a repository. FileDiff has diffFileHashes; Remote the fetch plan and the merged state
--     of an incremental index; Tables, Screening and Priority the tests on paths; Discovery
--     discoverRemoteSourceFiles and discoverRemoteSourceMetadata; VectorIds
--     syncVectorIndexMetadata and the ids that it keeps.
--   Orchestration/Validation: CoerceArguments and ValidateArguments of
--     src/internal/orchestration/validation.go; Validation/Types has the specification of the types.
--   Orchestration/Reindex: src/internal/orchestration/watcher_lifecycle.go and
--     watcher_batch_processor.go.
--   Mcp/Codec and Mcp/Server: src/internal/transport/mcp/codec.go and server.go.
--   Config: src/internal/config/config.go. Jsonc has stripJSONCComments and
--     stripJSONCTrailingCommas; Parsing the values of variables; Vectors
--     applyVectorEnvOverrides, block by block; Trusted the normalization of trusted folders; Settings
--     withSnapshot and the part of Load behind the overrides, and Settings/Files the snapshots of
--     configuration files and ForProjectRoot.
--   Evals: RecallAtK and MRRAtK of src/internal/evals/metrics.go.
--   Base: what the parts share: texts as lists of bytes, with TrimSpace for UTF-8, Split and Join,
--     decimal numbers, maps as association lists, integers, sort.Strings, and path.Match.
--
-- Choices. A text is a list of bytes. A map is an association list whose order stands for the order
-- in which `range` visits it. A method that runs under a mutex is one step. Times are natural
-- numbers, in the unit that the code uses. Loops that are not structural run on fuel: the lines of
-- a file for chunks, the records for batches, three for the attempts of a retry, the bytes that are
-- left for headers, one more than the edges of a dependency graph, one more than the messages for
-- Serve; the theorems say that it is enough.
-- The contract of the controller for one repository is in Watcher/Controller/Refinement, on a state
-- without channels; Config/Jsonc/Pieces has the texts of configuration files as they are written.
--
-- The timeout of WaitForFresh wraps as a time.Duration does. The sync of vector ids takes paths that
-- are clean already, as its callers pass them: the cleaning of writeVectorChunkIDsByPath is left out
-- there.
--
-- Arguments of the model. SHA-256 and what the context says before each file in Indexing/Discovery,
-- the answers of the vector backend in Indexing/VectorIds, floats in Orchestration/Validation and
-- Config, JSON, URLs, files and symbolic links in Config, JSON and the tools in Mcp/Server, absolute
-- paths with symbolic links evaluated, the name of a lock file and whether a process is alive in Watcher/Lock, the working
-- directory and os.Stat in Watcher/Paths, the runner and the context in Orchestration/Resilience, and
-- what an item of a batch returns in Orchestration/Fanout.
--
-- Not modelled: the handlers of the tools but for what is named above, the stores and vector backends,
-- embeddings, GitHub acquisition, the savings part of the configuration, telemetry, savings reports
-- and the command-line programs; the walk over a folder's files; the normalization and the order of the files in front of chunking and the
-- hashes of chunk ids; the log lines of retries beyond their order; percentiles of latencies; counters
-- near the limits of int; Windows paths.
mod Base
pub mod Watcher
pub mod Orchestration
pub mod Mcp
pub mod Evals
pub mod Config
