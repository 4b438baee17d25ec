-- ===== src/Lib.antt =====
-- olareg, an OCI registry that serves images from memory or from OCI Layout directories.
--
-- The program's parts, and the files that model them:
--
-- - Types/Layout (types/layout.go): the index of a repository. LayoutIndex holds the manifests
--   with their annotations, the children that an entry of the index only reaches through
--   another, and the history. `add_desc`, `rm_desc` and `get_desc` of Types/Layout/Operations
--   are AddDesc, RmDesc and GetDesc; Types/Layout has the steps of AddDesc (the moves of
--   children, the loop that takes a tag from other entries, the entry that is reused),
--   Types/Layout/History the history. The other files under Types/Layout are proofs: Lemmas,
--   Steps, Place, Untag and Removal on the steps, WellFormed, Invariant and Preservation on the
--   invariant, Tags, Digests and Deletes on what the lookups return, Log on the history.
-- - Types/Descriptor, Types/MediaType, Types/Referrer, Types/Tag, Types/Error, Types/Digest,
--   Types/Json (types/descriptor.go, types/manifest.go, types/platform.go, types/annotations.go,
--   types/mediatype.go, types/ref.go, types/errors.go): the data that the index and the stores
--   hold, with what a request accepts, and the descriptor of a manifest for the referrers of its
--   subject. Types/Digest is the interface to the package oci-digest, and Types/Json to
--   encoding/json.
-- - Cache (internal/cache/cache.go): values with limits on their age and number, which hold the
--   upload sessions of a repository. Cache/Access, Cache/Prune and Cache/Count are proofs on the
--   accesses, on the pruning by age, and on the pruning by number.
-- - Config (config/config.go): the settings, their defaults, and the texts of the store types.
-- - Store (internal/store/store.go, internal/store/mem.go): Store/Mem is a repository in memory,
--   with its index (Types/Layout), its blobs and its sessions (Cache), under a configuration
--   (Config). Store/Upload is an upload into it. Store/System has the operations on a repository
--   and its uploads as data, and `run` for a sequence of them; Store/Content and Store/Reads are
--   proofs on what a read of a blob returns.
-- - Store/Collect (repoGarbageCollect of internal/store/store.go): the garbage collection over the
--   operations of a store (Repo). Store/Collect has the choice of the manifests to keep,
--   Store/Collect/Walk the walk over them, Store/Collect/Sweep the removal of what was not seen and
--   `collect`, the whole. Store/Collect/Kept is a proof on the blobs that are kept, for any store
--   whose operations change no other read (IsStore, which a repository in memory is),
--   Store/Collect/Entries on the index, and Store/Collect/Fuel on the end of the walk.
-- - Store/Ingest (indexIngest, indexValidReferrer and referrerListDedup of internal/store/store.go):
--   the ingest of an index, over the same operations and one that stores a document. Store/Ingest
--   has the check of a list of referrers, Store/Ingest/Entries what is found in the index, and
--   Store/Ingest/Index the conversion of fallback tags, the scan of the children and
--   `index_ingest`, the whole. Store/Ingest/Fuel is a proof on the scan, Store/Dedup on the
--   deduplication.
-- - Auth (config/auth.go): the access list and its decision (`check_access` is checkAccess), the
--   passwords, and the texts of the accesses. Auth/Groups has the groups of groups,
--   Auth/Handlers the controller, its file and the basic authentication, Auth/Tokens the tokens,
--   Auth/Static the static configuration. Auth/Rules, Auth/Membership and Auth/Guards are proofs
--   on the decision, on the groups, and on who reaches the next handler.
-- - RequestPath, Routes (olareg.go): `route` is the choice of the handler in ServeHTTP, over
--   `path_el`, the cleaned path, and `match_v2`, which is matchV2; Routes/Serve has ServeHTTP
--   itself, with the limit on the rate, up to the handler that runs. Routes/Access, Routes/Names
--   and Routes/Checks are proofs. The check of the access is an argument of `serve`, which a
--   handler of Auth fills.
-- - Blobs (blob.go): the handlers of blobs and uploads, over Store/System. Blobs/Handlers has
--   those of one repository (`serve_blob` is blobGet, `patch_upload` blobUploadPatch,
--   `put_upload` blobUploadPut), Blobs/Posts the start of an upload and the mount, over the
--   repositories by their names. Blobs/Uploads, Blobs/Put, Blobs/Created and Blobs/Mounts are
--   proofs on what is stored, Blobs/Sessions, Blobs/Live and Blobs/Protocol on the upload of a
--   client, Blobs/Client, from its start to its end.
-- - Documents: how the handlers store a document that they have whole (manifest.go,
--   referrer.go), with Documents/Stored on what reads then return.
-- - Manifests (manifest.go): what a request asks for; Manifests/Check has the check of a manifest,
--   Manifests/Put `manifest_put`, and Manifests/Serve `manifest_get` and `manifest_delete`, over
--   the index and the blobs of Store/Mem, Documents and Referrers. Manifests/Stored,
--   Manifests/Listed, Manifests/Complete, Manifests/Passed, Manifests/Refused and
--   Manifests/Removed are proofs.
-- - Referrers (referrer.go): the list of the referrers of a subject, a blob that the index names:
--   `referrer_add`, `referrer_delete`, `referrer_filter`, `referrer_split`; Referrers/Serve has
--   `referrer_get` with its cache of pages (Cache). Referrers/Written says what package json keeps
--   of a list; Referrers/Entries and Referrers/Lists are
--   proofs on the first two as operations of a map from subjects to lists, Referrers/Parts and
--   Referrers/Pages on the split.
-- - Tags (tag.go, types/taglist.go): the list of tags; Tags/Lists and Tags/Pages have the proofs.
-- - Response: the statuses and codes of failures that the handlers share.
-- - Shared: slices as lists (Shared/Slices), maps as association lists (Shared/GoMap), signed
--   integers and their texts (Shared/Int, Shared/Numerals), the order of texts, their sorting
--   and their parts (Shared/Texts, Shared/Sorting, Shared/Cutting), sets of keys
--   (Shared/Members), and lemmas on them.
--
-- How the program is modelled:
--
-- - An operation that changes an object takes it and returns it with its result. One operation runs
--   after the other, as the mutexes of the program have it; a sequence of operations is a list.
--   Values are not shared, so that the Copy methods are the identity and are left out.
-- - Error texts are left out: an error is its sentinel, or `other` with a word for it.
-- - A digest is of any type with a decided equality, and the operations of oci-digest on digests
--   and on writers are parameters (DigestLib, WriterLib); where a theorem relies on what they
--   return, it says so by a hypothesis (Verifies, SumsName).
-- - An operation takes one time for all its calls of the clock. Times and durations are
--   nanoseconds. A duration or a number that is not positive disables a limit of the cache, and is
--   0 there.
-- - The order in which Go ranges over a map is an argument, a list of keys. sort.Sort is a
--   hypothesis on such a list (SortedKeys).
-- - The limits on the cache are exact for counts below 2 ^ 50, where nine tenths of a float64
--   has the same whole part. Nothing else overflows. Every loop is a recursion on a list or on
--   the number of indices that are left, but for the walk of the garbage collection, which has
--   fuel: one unit for each descriptor that it starts with, and for each blob of the repository
--   as many as an index may list manifests, and one more for a referrers response; and the
--   groups that hold groups, whose fuel is one more than the number of groups, as a chain of
--   groups has none twice. The scan of an ingest has one unit for each index that it starts
--   with, and for each digest that the indexes of the store list. A client that follows the
--   links of the list of tags has one unit more than there are entries.
-- - A handler takes what RepoGet returns: its error, or the repository. The times of its calls
--   are arguments, and a body is the list of the parts that io.Copy writes, with the error that
--   ends it.
-- - What runs beside the operations of a repository in memory, the timer of its sessions and the
--   goroutines that Set of the cache starts, is an operation as the others are (`prune` of
--   Store/Mem); none runs within a request, but between the requests of a client they do
--   (Blobs/Client).
-- - What encoding/json reads and writes is a parameter (Json). Theorems say by hypotheses that
--   the entries of an index without zero digests that was written are read back into an empty
--   response as they were written, which leaves out empty values of the fields with `omitempty`
--   (ReadsBack of Referrers/Written), and that a page is no shorter than one with less on it
--   (Grows). Where a document is stored, what its digest reads as before, if anything, is the
--   document (NoClash, Free): digests of different contents differ.
-- - The directory under a repository in memory is a function from digests to files, since that
--   store only reads it.
--
-- Not modelled: the store on disk (internal/store/dir.go, and layoutVerify) and the set of
-- repositories with its goroutines, which stand beside what is modelled here; the start and
-- stop of the server (olareg.go), the bodies of responses as JSON, the headers that do not
-- vary, and the bytes that http.ServeContent picks; the command line, logs, templates and
-- version data, which hold no state of the registry.
pub mod Shared
pub mod Response
pub mod Documents
pub mod Manifests
pub mod Referrers
pub mod Tags
pub mod Types
pub mod Cache
pub mod Config
pub mod Auth
pub mod Blobs
pub mod Store
pub mod RequestPath
pub mod Routes
