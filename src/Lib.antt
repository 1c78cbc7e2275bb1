-- ===== src/Lib.antt =====
-- nixstr-cache serves a Nix binary cache whose entries are published on Nostr and stored as Hashtree
-- blobs on Blossom servers. This library models the core of the program, translated from its
-- TypeScript sources, with theorems about it.
--
-- How the parts interact: a publication is validated (src/protocol/publication.ts, whose root is a
-- plaintext nhash of src/protocol/nhash.ts) and offered to the selection state
-- (src/persistence/state_repository.ts). A request for a narinfo gets a budget and walks the selected
-- publications (src/nix/merged_cache.ts), parses what each serves (src/protocol/narinfo.ts) and
-- remembers in a registry which publication or overlay serves the archive. The path resolver
-- (src/hashtree/reader.ts) walks the Hashtree manifests (src/protocol/hashtree.ts) from the root of a
-- publication, and the writer (src/hashtree/writer.ts) builds such trees. Blobs are fetched from the
-- servers of a source plan (src/blossom/source_plan.ts) and kept in the blob store
-- (src/persistence/blob_store.ts). Uploaded store paths are committed when they are closed
-- (src/write/eligibility.ts).
--
-- Files, by the part that they model:
--   Prelude: texts as lists of code units, keyed tables as JavaScript maps, lists and results.
--   BlobStore: `BlobStore`. State has the SQLite tables and the monad with transactions, Rows the
--     single statements, BlobStore `reserve` and `#makeSpace`, Ops the admissions, promotion and
--     leases, Owners the owners and routes. Usage, Capacity, Quiet, Eviction, Admission and System
--     have the proofs; System has the step relation of calls that run between the parts of an admission.
--   NarInfo: `parseNarInfo`; NarInfo/Ops `differingNarInfoFields`, `appendNarInfoSignatures`
--     and `classifyEndorsements`; Lines, Merge, Fields and Endorsements the proofs. `serializeNarInfo` is the
--     field raw_text.
--   MergedCache: `resolveMergedNarInfo`. Registry: `normalizedNarPath`, and in Registry/Winner and
--     Registry/Signer the two registries of routes; Winner/Held and Winner/Served prove how long a
--     winner is served.
--   Nhash: `encodePlaintextNhash` and `decodePlaintextNhash`.
--   Budget: `RequestBudget` of src/hashtree/reader.ts.
--   Manifest: the types of src/protocol/hashtree.ts and `encodeManifest`; Manifest/Value the values of
--     MessagePack, Decode the fields and links, Rules the checks by kind and
--     `decodeValidatedManifest`. Shape, Links, Checks, Sound, Encoded and RoundTrip have the proofs.
--   Resolver: `PathResolver`. Step has the state of a request and its monad, Fetch `#fetch` and
--     `#manifest`, Plan `#filePlan`, Walk `resolve`, Stream the streams. Trees has what a path and a file mean in a tree of
--     manifests; Runs, Fetches, Loads, Files, Paths, Integrity, Streams, Answers and Listings the proofs.
--   Writer: `persist` and `collapse` of `HashtreeWriter`; Writer/Chunks `buildFile` of a file on disk,
--     Writer/Routes the checks of the routes.
--     Spelling, Laws, Levels, Files, Fuel, Roots, Pieces and ReadBack have the proofs.
--   SourcePlan: `buildSourcePlan`; Laws what the plan has for a base URL.
--   Publication: `validatePublication` and `cacheIdentity`; Laws, Accepted and CacheName the proofs.
--   StateRepository: `accept`, the loading, the policy and the quarantine; Ranks, Newest and Downgrade the
--     proofs.
--   Eligibility: `#recompute` up to its commit; Sets, Sweeps and Closure the proofs.
--   Examples: concrete runs.
--
-- Numbers are natural numbers with the source's checks against the largest safe integer written out;
-- timestamps, kinds and sizes are taken to be natural numbers. Texts are lists of code units. Some
-- loops of the source run on fuel: the loop over the TLV records of an nhash gets one more than the payload has
-- bytes, and each round takes two bytes at the least; the fixed-point loop of the eligibility gets one
-- more than there are candidates, and each round but the last admits one at the least. The digits of a
-- number are written on fuel too, one more than the number, which has no more digits than that. The
-- walk and the visit of nested file manifests get one more than the depth limit, above which
-- `checkDepth` throws; the loop over the chunks of a file gets one more than its bytes, of which each
-- round takes one at the least, and `collapse` as much as there are links, of which every level leaves
-- fewer. All other loops are structural.
--
-- Parameters, since their code is not in the repository: the platform's `URL`, `TextEncoder`,
-- `TextDecoder`, `atob`, `btoa`, `toLowerCase` and JSON functions, SHA-256, Ed25519, the Bech32 code and
-- the verification of Nostr events, and MessagePack. What a call of the path resolver in the
-- resolution of a narinfo, of the blob fetcher and the manifest cache in the path resolver, of the staged blobs or of a lower
-- cache answers is a parameter too. The file system is a record of the removals and links that it
-- refuses; a rollback restores the tables and not the files.
--
-- Not modelled: the start-up scan of the blob store (`reconcile`), the test of the shape of stored JSON,
-- error messages, subscriptions and network access, cancelled streams and the `materialize` of
-- the path resolver, abort signals, the table of nodes, the route components and the base of the Hashtree writer, its ownership
-- rows, the write repository, the schedulers, the HTTP handler, the configuration and the daemon.
pub mod Prelude
pub mod BlobStore
pub mod NarInfo
pub mod MergedCache
pub mod Registry
pub mod Nhash
pub mod Budget
pub mod SourcePlan
pub mod Publication
pub mod Eligibility
pub mod StateRepository
pub mod Manifest
pub mod Resolver
pub mod Writer
pub mod Examples
