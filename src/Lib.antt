-- ===== src/Lib.antt =====
-- IOC: a hierarchical store of conclusions for language models (Go).
--
-- The program keeps scopes in a tree, artifacts in scopes and typed edges between artifacts. The
-- engine (internal/engine) is the API; under it stand the metadata store (internal/storage/meta.go,
-- one JSON value per record in bbolt, sealed under its key when encryption is on), a
-- content-addressed store (cas.go), a vector store (embstore.go) and an embedder (internal/embed).
-- A daemon (internal/runtime), a CLI (cmd/ioc) and an MCP server (cmd/ioc-mcp) call the engine.
--
-- Files, with what they model:
-- - Base, Base/*: names that all modules share: Boolean tests, lists, texts as lists of bytes, results
--   and state passing (`Exec`: what was written before an error stays written).
-- - Core/Types, Core/Ulid, Core/Floats, Core/Maps: internal/core/types.go and id.go. An enumeration is
--   a number with named values, an identifier a number with 0 for NilID, a Go map an association list.
--   The ULID text and float64 are parameters.
-- - Core/Utf8: which of these values are in UTF-8, the texts that encoding/json keeps as they are.
-- - Core/Confidence: Decide, ResolveConfidence and the floors of types.go.
-- - Storage/Box: Seal and Open of crypto.go, with the AEAD and the random source as parameters.
-- - Storage/Bolt, Storage/Interfaces: bbolt's buckets, and what the engine asks of the content store,
--   of the vector store and of the embedder, as records of operations and laws.
-- - Storage/Embeddings: embstore.go. The state is the file's bytes, the copy in memory and the count; a
--   `Put` takes how far its writes came as an `Outcome` (the write of the 16 bytes of the header is whole
--   or not made), and a restart opens the file that was left.
--   Storage/Words has the little-endian words. Storage/Cas: cas.go, an object for each hash.
-- - Storage/Meta: every operation of meta.go. encoding/json is a pair of functions with the law that
--   what is written reads back as `decoded` gives it: the same value where its texts are UTF-8, with the
--   same identifiers in any case, since json.Marshal writes U+FFFD for what is not UTF-8. A write is one
--   transaction. Meta/Values, Scans, Tables, Records,
--   Frames hold what one write or one scan does.
-- - Engine/State, Push, Relations, Branch, Admin: engine.go, relations.go, branch.go, store_admin.go,
--   with Publish of query.go and RollupScope of rollup.go. Each operation takes the identifiers that
--   it draws from NewID, and the time, as arguments. Engine/Api collects them as calls. Engine/Open: Open,
--   from the opened metadata store on, with checkEncryptionSentinel (Modes).
-- - Engine/Visibility: visibleArtifacts, ancestorsOf and siblingsOf of visibility.go, with the walk's
--   end (Ancestors) and the visible set (Sets, Views).
-- - Engine/Reading: buildHit, scopePath, Drill and SiblingOverview of query.go, Related of relations.go.
-- - Engine/Rollup: descendantScopes and coarseToFineCandidates of rollup.go, collapsedCandidates of
--   visibility.go. A Go map that the code walks is taken in the order of its insertions.
-- - Engine/Ranking: the tie-breakers and the graph boost of query.go, and rerank.go. Engine/Query: Query,
--   from its filters to the trace, Neighbors, RecentTraces; `answer` is Query between the embedding of
--   the text and the trace. Query/Pipeline follows a candidate through the index, the orders and the
--   loop over them. Query/Effects is about what a query writes, Query/Traces about its trace. A Go time is a number of nanoseconds.
-- - Engine/Integrity, Engine/Supersession, Engine/Provenance: theorems about the engine's writes.
-- - Runtime/Frames, Runtime/Methods: frames and the tiers of the methods, of internal/runtime/proto.go.
-- - Runtime/Server: tokens, one request and one connection, of internal/runtime/server.go and
--   dispatch.go. The engine behind the method table, the random tokens, runtime.json and the JSON of a
--   request are a parameter, and a panic is an error that the engine's call returns. Runtime/Access is
--   about what a client without the full token can do.
-- - Runtime/Wire, Runtime/Calls: the methods of proto.go with their parameters and results, and `call` of
--   dispatch.go over the engine of the Engine modules, which makes the server's parameter; encoding/json,
--   the identifiers and the time of a call are parameters. Calls/Reads, Intact and Readers say what a
--   method and a connection leave of the store, by Runtime/Keeps. Runtime/Json: the depth of a request's
--   parameters, over the tokens of a json.Decoder.
-- - Runtime/Client: the client's call over one connection to that server, frame by frame; `Link` is the
--   client with the daemon at the other end. Each method of the client is this call at its constants;
--   Client/Transparent compares it with the engine's own. A call is compared while no other client calls.
-- - Search: internal/search, with the sort (Sorting) and the first results (Top).
-- - Ingest/Chunk, Ingest/Lang: chunk.go and lang.go, with the windows of Split (Windows).
--   Ingest/Complete: chunksComplete and chunksForPath of reconcile.go. Ingest/Reconcile: the run's
--   state and reconcileFile (Files), over what it asks of the engine and of the file system, with what a
--   second pass over a file does (Index, Pushes, Again, Second); Ingest/Engines: the engine as what a run
--   asks of it. Ingest/Sync: sync.go, buildIndex and the run as Ingest composes it, with what the walk
--   down reaches (Levels), what removeVanished leaves (Vanished) and what pruneEmpty leaves (Pruned).
--   Ingest/Contain:
--   contain.go and RootScope of resolve.go, on the engine; path/filepath and the environment are a
--   parameter, and the files are taken as they are during the call (Roots).
-- - Eval: abstention.go, and the loop of CalibrateRun of calibrate.go over the hits of its queries, with the
--   verdict that both share (Agreement).
-- - Formats: internal/iocfmt, what the commands parse and print.
-- - Examples: a concrete instance of every parameter, and the theorems applied to it.
--
-- The identifiers that a call draws are arbitrary: no theorem here asks that they are fresh. Loops run
-- over lists, but for these: `itoa`, whose fuel is the number plus one; `runes`, whose fuel is the length;
-- Split, whose fuel is the number of lines, and it is shown that every line is reached; the walk up the
-- ancestors (also under scopePath), whose fuel is the number of stored scopes plus two; out of fuel the
-- walk would fail, and it is shown that it never does; and the walk over the descendants, whose fuel is
-- the number of stored scopes plus one, enough in an intact store. A run's walk over the descendants has
-- the number of scopes plus two levels, enough in a forest (Sync/Levels; on a cycle of parents the code's own walk does not end), and the pruning as many passes
-- as there are scopes and one more, since a pass that is not the last takes a scope away.
--
-- Not modelled: of Open the directory, the file and the key; of ingestion the directory walk; of the
-- daemon its accept loop, its deadlines and the text of each JSON; of the evaluation all but the
-- abstention report; the commands and the model servers, which are input and output.
pub mod Base
pub mod Core
pub mod Storage
pub mod Search
pub mod Ingest
pub mod Engine
pub mod Runtime
pub mod Eval
pub mod Formats
pub mod Examples
