-- ===== src/Chain/TempBlock.antt =====
-- `AddTempBlock` of pkg/blockchain/addAndDel.go: the blocks of another branch, added within one
-- transaction of the store while the chain is reorganized.
use korthochain.Common.{ℕ, Bool, true, false, Option, none, some, not, ◌==◌, if◌then◌else◌}
use korthochain.Common.Word.{◌+64◌}
use korthochain.Common.Bytes.{Bytes, bytes_eq}
use korthochain.Common.Action.{pure, query, raise_if, ◌>>=◌, ◌>>◌}
use korthochain.Codec.{e64func}
use korthochain.Wire.Blocks.{Block, serialize}
use korthochain.Chain.{
  snap_root_differs, wrong_height, Machine, snap_root_key, height_key, hash_key, root_key,
  store_result, wire_result, get_max_block_height,
}
use korthochain.Chain.Apply.{ChainAction, on_txn, on_txn_ignored, apply_all}
use korthochain.Chain.AddBlock.{fact_commit}

module _ {T S : Type 0} (m : Machine T S) where
  -- Whether the state is still the one whose root the store holds. The first block has none.
  unfoldable pub root_unchanged : Block → ChainAction T S Bool
  unfolding fact_commit
  root_unchanged b = if b.height == 1 then pure true else (do
    snap_root_hash ← query (λ w. store_result (m.kv.get snap_root_key w.txn))
    start_hash ← fact_commit m
    pure (bytes_eq snap_root_hash start_hash))

  -- The root of the block: as in `AddBlock`, with the first block for its own case.
  unfoldable pub temp_root : Block → Bytes → ChainAction T S Bytes
  temp_root b com_hash = if b.height == 1 then pure com_hash else (do
    old ← query (λ w. store_result (m.kv.get snap_root_key w.txn))
    (if bytes_eq old b.snap_root
        then pure com_hash
        else (raise_if (not (bytes_eq com_hash b.snap_root)) snap_root_differs
            >> pure b.snap_root)))

  -- The writes of a block's height. The errors of the second key's calls are dropped.
  unfoldable pub put_temp_height : ℕ → Bytes → ChainAction T S (Unit {0})
  put_temp_height height hash = do
    on_txn (m.kv.set (hash_key height) hash)
    on_txn_ignored (m.kv.delete height_key)
    on_txn_ignored (m.kv.set height_key (e64func height))

  -- The writes of the block, after which the state is committed once more for its root.
  unfoldable pub put_temp_block : ℕ → Block → ChainAction T S (Unit {0})
  unfolding fact_commit
  put_temp_block height b = do
    data_ ← query (λ w. wire_result (serialize m.cbor b))
    on_txn (m.kv.set b.hash data_)
    com_hash_write ← fact_commit m
    on_txn (m.kv.set (root_key height) com_hash_write)
    on_txn_ignored (m.kv.delete snap_root_key)
    on_txn_ignored (m.kv.set snap_root_key com_hash_write)

  -- The part of `AddTempBlock` that adds the block. The height is read in the transaction.
  unfoldable pub put_temp : T → Block → ChainAction T S (Option Block)
  unfolding get_max_block_height fact_commit put_temp_height temp_root put_temp_block
  put_temp db b = do
    prev_height ← query (λ w. get_max_block_height m w.txn)
    let height = prev_height +64 1
    raise_if (not (b.height == height)) wrong_height
    put_temp_height height b.hash
    done ← apply_all m false db b height 0 0 b.transactions
    com_hash ← fact_commit m
    snap_root ← temp_root b com_hash
    let stored = record b { transactions = done.0; snap_root = snap_root; gas_used = done.1 }
    put_temp_block height stored
    pure (some stored)

  -- `AddTempBlock`: the block as it was stored. Where the state has changed since the last block,
  -- the call returns the error of an earlier call that succeeded, which is nil, and adds nothing.
  unfoldable pub add_temp_block : T → Block → ChainAction T S (Option Block)
  unfolding root_unchanged put_temp
  add_temp_block db b = do
    unchanged ← root_unchanged b
    (if unchanged then put_temp db b else pure none)
