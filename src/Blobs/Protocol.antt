-- ===== src/Blobs/Protocol.antt =====
-- The upload of a client that sends its parts in order succeeds (blob.go).
use olareg.Shared.{ℕ, String, List, ◌++◌, some, ◌≡◌, Comparable, string_comparable}
use olareg.Shared.GoMap
use olareg.Config.{Config}
use olareg.Cache
use olareg.Store.Mem.{Prune}
use olareg.Store.Upload.{MemRepoUpload}
use olareg.Store.System.{System}
use olareg.Blobs.{BlobLib}
use olareg.Blobs.Live.{Live, Fits}
use olareg.Blobs.Client.{Parts, all_bytes, pruned, send}

module _ {D A : Type 0} ⦃e : Comparable D⦄ ⦃f : Comparable A⦄ (lib : BlobLib D A) where
  -- The parts are all taken, and the upload is live with their bytes, also after `gap`.
  record Sent (id state : String) (parts : Parts) (gap : List Prune) (ref age : ℕ)
      (u : MemRepoUpload D A) (s : System D A) : Type 0 where
    next : String
    after : System D A
    upload : MemRepoUpload D A
    used : ℕ
    sent : send lib id state parts s ≡ some (next, after)
    live : Live lib id ref used age upload (pruned gap after)
    fits : Fits lib next upload
    buffer : upload.buffer ≡ u.buffer ++ all_bytes parts
