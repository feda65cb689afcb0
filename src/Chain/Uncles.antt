-- ===== src/Chain/Uncles.antt =====
-- `AddUncleBlock` and `DeleteUncleBlock` of pkg/blockchain/blockchain.go: blocks of a branch, kept
-- under their hashes beside the main chain.
use korthochain.Common.{ℕ, ◌≡◌, refl, [], ◌∙◌, false, some, append-nil}
use korthochain.Common.Bytes.{Bytes, bytes_eq, bytes_eq_self}
use korthochain.Common.Outcome.{Result, ok, err}
use korthochain.Common.Action.{Action}
use korthochain.Store.{IsKv, IsKey, StoreError, not_exist, get-set_self, get-set_other}
use korthochain.Wire.{IsCbor, WireError}
use korthochain.Wire.Blocks.{Block, serialize, deserialize, big_bytes}
use korthochain.Wire.BlockRoundTrip.{IsBlock, Fits, deserialize-serialize}
use korthochain.Chain.{ChainError, of_store, of_wire, Machine, get_block_by_hash}
use korthochain.Chain.AddBlock.{Node}
use korthochain.Chain.Laws.{IsCommit}

-- The store after `Commit`, whose error is only logged.
abbrev committed_or : {T : Type 0} → T → Result StoreError T → T
committed_or old (ok db) = db
committed_or old (err e) = old

module _ {T S : Type 0} (m : Machine T S) where
  -- The end of both calls, by how the write to the transaction went.
  unfoldable pub commit_uncle :
      Node T S → Result StoreError (Unit {0}) → T → Result ChainError (Unit {0}) × Node T S
  commit_uncle n (ok u) txn = (ok tt, record n { db = committed_or n.db (m.commit txn) })
  commit_uncle n (err e) txn = (err (of_store e), n)

  -- `AddUncleBlock`, by how the block was serialized.
  unfoldable pub add_serialized :
      Block → Node T S → Result WireError Bytes → Result ChainError (Unit {0}) × Node T S
  unfolding commit_uncle
  add_serialized b n (err e) = (err (of_wire e), n)
  add_serialized b n (ok data_) = let (r, txn) = m.kv.set b.hash data_ n.db in commit_uncle n r txn

  -- `AddUncleBlock`: the block goes under its hash, unchecked.
  unfoldable pub add_uncle_block : Block → Action (Node T S) ChainError (Unit {0})
  unfolding add_serialized
  add_uncle_block b n = add_serialized b n (serialize m.cbor b)

  -- `DeleteUncleBlock`
  unfoldable pub delete_uncle_block : Block → Action (Node T S) ChainError (Unit {0})
  unfolding commit_uncle
  delete_uncle_block b n = let (r, txn) = m.kv.delete b.hash n.db in commit_uncle n r txn

  module _ (laws : IsKv m.kv) (commits : IsCommit m) (b : Block) (n : Node T S) (key : IsKey b.hash)
      (done : (t : T) → (d : T) × (m.commit t ≡ ok d)) where
    -- Where badger commits and takes the hash as a key, `AddUncleBlock` reports success for a well
    -- formed block with difficulties, which is then what is read for its hash; every other key of the
    -- store reads as before, and the state of the accounts is the same.
    pub add_uncle_block-get_block_by_hash :
        IsCbor m.cbor
        → (d g : ℕ) → IsBlock m.cbor b
        → Fits m.cbor (big_bytes d)
        → Fits m.cbor (big_bytes g)
        → b.difficulty ≡ some d
        → b.global_difficulty ≡ some g
        → ((add_uncle_block b n).0 ≡ ok tt)
          × (get_block_by_hash m b.hash (add_uncle_block b n).1.db ≡ ok b)
          × ((j : Bytes)
              → bytes_eq b.hash j ≡ false
              → m.kv.get j (add_uncle_block b n).1.db ≡ m.kv.get j n.db)
          × ((add_uncle_block b n).1.sdb ≡ n.sdb)
    unfolding add_uncle_block add_serialized commit_uncle get_block_by_hash
    add_uncle_block-get_block_by_hash cbor d g well hd hg ed eg =
        let (bytes, wrote, back) = deserialize-serialize m.cbor cbor b d g [] well hd hg ed eg in
        let decoded : deserialize m.cbor bytes ≡ ok b = rw (← append-nil bytes) back in
        let t = (m.kv.set b.hash bytes n.db).1 in
        let (db, fine) = done t in
        let reads = commits t db fine in
        let at_hash : m.kv.get b.hash db ≡ ok bytes =
          reads b.hash ∙ get-set_self m.kv laws b.hash bytes n.db key in
        rw (wrote, add_serialized, laws.set-accepts b.hash bytes n.db key, commit_uncle, fine)
          (
            refl,
            rw at_hash (rw decoded refl),
            λ j other. reads j ∙ get-set_other m.kv laws b.hash bytes n.db j other,
            refl,
          )

    -- Where badger commits and takes the hash as a key, after `DeleteUncleBlock` nothing is read for
    -- the hash, and every other key of the store reads as before.
    delete_uncle_block-get_block_by_hash :
        ((delete_uncle_block b n).0 ≡ ok tt)
        × (get_block_by_hash m b.hash (delete_uncle_block b n).1.db ≡ err (of_store not_exist))
        × ((j : Bytes)
            → bytes_eq b.hash j ≡ false
            → m.kv.get j (delete_uncle_block b n).1.db ≡ m.kv.get j n.db)
    unfolding delete_uncle_block commit_uncle get_block_by_hash
    delete_uncle_block-get_block_by_hash =
        let t = (m.kv.delete b.hash n.db).1 in
        let (db, fine) = done t in
        let reads = commits t db fine in
        let gone = laws.get-delete b.hash n.db in
        let accepted = laws.delete-accepts b.hash n.db key in
        let at_hash : m.kv.get b.hash db ≡ err not_exist =
          reads b.hash ∙ gone b.hash accepted ∙ rw (bytes_eq_self b.hash) refl in
        rw (accepted, commit_uncle, fine)
          (refl, rw at_hash refl, λ j other. reads j ∙ gone j accepted ∙ rw other refl)
