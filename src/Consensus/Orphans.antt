-- ===== src/Consensus/Orphans.antt =====
-- The blocks that wait for their parent: `AddOrphanBlock`, `removeOrphanBlock` and
-- `OrphanBlockIsExist` of pkg/consensus. The field oldestOrphan, which is only written, is left
-- out, and the clock is read once in a call.
use korthochain.Common.{
  ℕ, ◌+◌, List, [], ◌∷◌, ◌++◌, Bool, true, false, Option, none, some, ltb, ◌==◌, if◌then◌else◌,
  length,
}
use korthochain.Common.Bytes.{Bytes, bytes_eq}
use korthochain.Common.Dict.{lookup_key, put_key, delete_key}
use korthochain.Common.Digits.{replicate}
use korthochain.Wire.Blocks.{Block}

-- `OrphanBlock`
pub record OrphanBlock : Type 0 where
  pub block : Block
  pub expiration : ℕ

-- `Oranphs` and `PrevOrphans`
pub record Orphans : Type 0 where
  pub by_hash : List (Bytes × OrphanBlock)
  pub by_prev : List (Bytes × List OrphanBlock)

-- `BytesToHash`: what has not 32 bytes becomes the hash of zeros.
unfoldable pub bytes_to_hash : Bytes → Bytes
unfolding replicate
bytes_to_hash b = if length b == 32 then b else replicate 32 0

abbrev pub or_nil : Option (List OrphanBlock) → List OrphanBlock
or_nil none = []
or_nil (some os) = os

-- The orphans under a hash of a parent; a missing key has none.
unfoldable pub waiting_for : Bytes → Orphans → List OrphanBlock
unfolding lookup_key
waiting_for prev o = or_nil (lookup_key prev o.by_prev)

-- The loop of `removeOrphanBlock`: the orphans of the hash go.
unfoldable pub without : Bytes → List OrphanBlock → List OrphanBlock
unfolding bytes_to_hash
without hash [] = []
without hash (x ∷ xs) =
    let rest = without hash xs in
    if bytes_eq hash (bytes_to_hash x.block.hash) then rest else x ∷ rest

-- A list that became empty goes from the map.
abbrev pub keep_waiting :
    Bytes → List OrphanBlock → List (Bytes × List OrphanBlock) → List (Bytes × List OrphanBlock)
keep_waiting prev [] d = d
keep_waiting prev (x ∷ xs) d = put_key prev (x ∷ xs) d

-- `removeOrphanBlock`
unfoldable pub remove_orphan_block : OrphanBlock → Orphans → Orphans
unfolding bytes_to_hash waiting_for without delete_key
remove_orphan_block x o =
    let hash = bytes_to_hash x.block.hash in
    let prev = bytes_to_hash x.block.prev_hash in
    record {
      by_hash = delete_key hash o.by_hash;
      by_prev = keep_waiting prev (without hash (waiting_for prev o)) (delete_key prev o.by_prev);
    }

-- The loop of `AddOrphanBlock`: the orphans whose time is over go.
unfoldable pub expire : ℕ → List (Bytes × OrphanBlock) → Orphans → Orphans
unfolding remove_orphan_block
expire now [] o = o
expire now ((k, x) ∷ rest) o =
    expire now rest (if ltb x.expiration now then remove_orphan_block x o else o)

abbrev pub insert_orphan : OrphanBlock → Option OrphanBlock → Orphans → Orphans
insert_orphan x (some y) o = o
insert_orphan x none o =
    let prev = bytes_to_hash x.block.prev_hash in
    record {
      by_hash = put_key (bytes_to_hash x.block.hash) x o.by_hash;
      by_prev = put_key prev (waiting_for prev o ++ x ∷ []) (delete_key prev o.by_prev);
    }

-- `AddOrphanBlock`, in seconds: an orphan is kept for an hour.
unfoldable pub add_orphan_block : ℕ → Block → Orphans → Orphans
unfolding expire lookup_key
add_orphan_block now b o =
    let o' = expire now o.by_hash o in
    insert_orphan (record { block = b; expiration = now + 3600 })
      (lookup_key (bytes_to_hash b.hash) o'.by_hash) o'

abbrev pub held : {A : Type 0} → Option A → Bool
held none = false
held (some a) = true

-- `OrphanBlockIsExist`
unfoldable pub orphan_block : Bytes → Orphans → Option OrphanBlock
unfolding lookup_key bytes_to_hash
orphan_block hash o = lookup_key (bytes_to_hash hash) o.by_hash
