-- ===== src/Chain/AddBlock.antt =====
-- `AddBlock` of pkg/blockchain/blockchain.go: the tests on a block, its writes, the commit, and the
-- return to the old state after an error.
use korthochain.Common.{ℕ, ◌+◌, Bool, true, false, none, some, ltb, not, ◌==◌, if◌then◌else◌}
use korthochain.Common.Word.{◌+64◌}
use korthochain.Common.Bytes.{Bytes, bytes_eq}
use korthochain.Common.Outcome.{Result, ok, err}
use korthochain.Common.Action.{Action, pure, raise, query, raise_if, ◌>>=◌, ◌>>◌}
use korthochain.Codec.{e64func}
use korthochain.Store.{StoreError}
use korthochain.Ledger.State.{panicked}
use korthochain.Wire.Blocks.{Block, serialize}
use korthochain.Chain.{
  ChainError, of_ledger, of_store, snap_root_changed, snap_root_differs, wrong_height,
  below_init_height, Machine, init_height, snap_root_key, height_key, hash_key, root_key,
  store_result, wire_result, get_max_block_height, get_snap_root,
}
use korthochain.Chain.Apply.{Work, ChainAction, on_txn, on_txn_ignored, on_state, apply_all}

-- `Blockchain`: the store as it was last committed, and the StateDB.
pub record Node (T S : Type 0) : Type 0 where
  pub db : T
  pub sdb : S

module _ {T S : Type 0} (m : Machine T S) where
  -- `factCommit`
  unfoldable pub fact_commit : ChainAction T S Bytes
  fact_commit = do ha ← on_state m.commit_state; on_state (m.commit_trie ha); pure ha

  -- Above the first block, the state must be the one whose root the store holds.
  unfoldable pub check_old_root : Block → ChainAction T S (Unit {0})
  unfolding fact_commit
  check_old_root b =
      if ltb (init_height + 1) b.height
      then (do
        snap_root_hash ← query (λ w. store_result (m.kv.get snap_root_key w.txn))
        start_hash ← fact_commit
        raise_if (not (bytes_eq snap_root_hash start_hash)) snap_root_changed)
      else pure tt

  -- The root of a block: a block that still carries the old root gets the new one, any other must
  -- carry the new one.
  unfoldable pub new_root : Block → Bytes → ChainAction T S Bytes
  new_root b com_hash =
      if ltb (init_height + 1) b.height
      then (do
        old ← query (λ w. store_result (m.kv.get snap_root_key w.txn))
        (if bytes_eq old b.snap_root
            then pure com_hash
            else (raise_if (not (bytes_eq com_hash b.snap_root)) snap_root_differs
                >> pure b.snap_root)))
      else (if b.height == init_height + 1 then pure com_hash else raise below_init_height)

  -- The height leads to the block's hash, and becomes the height of the chain. The error of the
  -- second write is dropped.
  unfoldable pub put_height : ℕ → Bytes → ChainAction T S (Unit {0})
  put_height height hash = do
    on_txn (m.kv.set (hash_key height) hash)
    on_txn_ignored (m.kv.set height_key (e64func height))

  -- The hash leads to the block, and the height to the root, which becomes the root of the chain.
  -- The error of the last write is dropped.
  unfoldable pub put_block : ℕ → Block → Bytes → ChainAction T S (Unit {0})
  put_block height b com_hash = do
    data_ ← query (λ w. wire_result (serialize m.cbor b))
    on_txn (m.kv.set b.hash data_)
    on_txn (m.kv.set (root_key height) com_hash)
    on_txn_ignored (m.kv.set snap_root_key com_hash)

  -- `AddBlock` from the loop over the transactions to the commit.
  unfoldable pub store_block : T → Block → ℕ → ChainAction T S Block
  unfolding fact_commit new_root put_block
  store_block db b height = do
    done ← apply_all m true db b height 0 0 b.transactions
    com_hash ← fact_commit
    snap_root ← new_root b com_hash
    let stored = record b { transactions = done.0; snap_root = snap_root; gas_used = done.1 }
    put_block height stored com_hash
    pure stored

  -- `AddBlock` up to the commit: the block as it was stored.
  unfoldable pub build : T → Block → ChainAction T S Block
  unfolding get_max_block_height check_old_root put_height store_block
  build db b = do
    prev_height ← query (λ w. get_max_block_height m db)
    check_old_root b
    let height = prev_height +64 1
    raise_if (not (b.height == height)) wrong_height
    put_height height b.hash
    store_block db b height

  -- `rollState`; where the state cannot be opened, the changed one stays.
  unfoldable pub roll_state : Bytes → T → S → Node T S
  roll_state root db sdb = elim (m.open_state db root) [
    | ok old ↦ record { db = db; sdb = old }
    | err _ ↦ record { db = db; sdb = sdb }
  ]

  -- The deferred function rolls the state back after an error. A panic in the loop leaves it as it
  -- is, and so does a nil difficulty, on which the function itself panics.
  unfoldable pub reverts : Block → ChainError → Bool
  reverts b (of_ledger panicked) = false
  reverts b e = elim b.difficulty [
    | none ↦ false
    | some _ ↦ elim b.global_difficulty [ none ↦ false | some _ ↦ true ]
  ]

  unfoldable pub after_error :
      Block → Bytes → T → S → ChainError → Result ChainError Block × Node T S
  unfolding reverts roll_state
  after_error b root db sdb e =
      (err e, if reverts b e then roll_state root db sdb else record { db = db; sdb = sdb })

  -- The end of `AddBlock`, by how `Commit` of the store's transaction went.
  unfoldable pub committed :
      Block → Bytes → T → S → Block → Result StoreError T → Result ChainError Block × Node T S
  unfolding after_error
  committed b root db sdb stored (ok new_db) = (ok stored, record { db = new_db; sdb = sdb })
  committed b root db sdb stored (err e) = after_error b root db sdb (of_store e)

  -- The same, by how the rest of `AddBlock` went.
  unfoldable pub commit_block :
      Block → Bytes → T → Result ChainError Block × Work T S → Result ChainError Block × Node T S
  unfolding after_error committed
  commit_block b root db (err e, w) = after_error b root db w.sdb e
  commit_block b root db (ok stored, w) = committed b root db w.sdb stored (m.commit w.txn)

  -- `AddBlock`, by how the root was read.
  unfoldable pub add_from_root :
      Block → Node T S → Result ChainError Bytes → Result ChainError Block × Node T S
  unfolding build commit_block
  add_from_root b n (err e) = (err e, n)
  add_from_root b n (ok root) =
      commit_block b root n.db (build n.db b (record { txn = n.db; sdb = n.sdb }))

  -- `AddBlock`: the block as it was stored, and the node after it.
  unfoldable pub add_block : Block → Action (Node T S) ChainError Block
  unfolding get_snap_root add_from_root
  add_block b n = add_from_root b n (get_snap_root m n.db)
