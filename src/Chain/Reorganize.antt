-- ===== src/Chain/Reorganize.antt =====
-- `ReorganizeChain` of pkg/blockchain/blockchain.go: the blocks above a fork are taken off and
-- those of the other branch added, within one transaction of the store.
use korthochain.Common.{ℕ, List, [], ◌∷◌, Bool, true, false, if◌then◌else◌}
use korthochain.Common.Bytes.{Bytes}
use korthochain.Common.Outcome.{Result, ok, err}
use korthochain.Common.Action.{Action, pure, query, ◌>>=◌, ◌>>◌}
use korthochain.Store.{StoreError}
use korthochain.Ledger.State.{panicked}
use korthochain.Wire.Blocks.{Block}
use korthochain.Chain.{ChainError, of_store, of_ledger, Machine, get_block_by_hash, get_snap_root}
use korthochain.Chain.Apply.{Work, ChainAction}
use korthochain.Chain.AddBlock.{Node, roll_state}
use korthochain.Chain.CheckBlock.{check_block_regular}
use korthochain.Chain.Delete.{delete_temp_blocks}
use korthochain.Chain.TempBlock.{add_temp_block}
use mathlib.Core.List.{reverse}

-- A panic passes by the code after the call.
abbrev pub is_panic : ChainError → Bool
is_panic (of_ledger panicked) = true
is_panic e = false

-- `detect` is what `difficultDetection` finds.
module _ {T S : Type 0} (m : Machine T S)
    (detect : Block → T → T → Result ChainError (Unit {0})) where
  -- The loop over the hashes of the branch, from the last to the first.
  unfoldable pub connect : T → List Bytes → ChainAction T S (Unit {0})
  unfolding get_block_by_hash check_block_regular add_temp_block
  connect db [] = pure tt
  connect db (hash ∷ hashs) = do
    b ← query (λ w. get_block_by_hash m hash db)
    query (λ w. check_block_regular detect b db w.txn)
    added ← add_temp_block m db b
    connect db hashs

  -- The state after an error: the deferred function opens the one at the root from before the call.
  unfoldable pub undone : Bytes → Node T S → S → ChainError → Node T S
  unfolding roll_state
  undone root n sdb e =
      if is_panic e then record { db = n.db; sdb = sdb } else roll_state m root n.db sdb

  -- The end, by how `Commit` of the store's transaction went.
  unfoldable pub reorganized :
      Bytes → Node T S → S → Result StoreError T → Result ChainError (Unit {0}) × Node T S
  unfolding undone
  reorganized root n sdb (ok db) = (ok tt, record { db = db; sdb = sdb })
  reorganized root n sdb (err e) = (err (of_store e), undone root n sdb (of_store e))

  -- The same, by how the blocks were taken off and added.
  unfoldable pub commit_branch :
      Bytes
      → Node T S
      → Result ChainError (Unit {0}) × Work T S
      → Result ChainError (Unit {0}) × Node T S
  unfolding undone reorganized
  commit_branch root n (ok u, w) = reorganized root n w.sdb (m.commit w.txn)
  commit_branch root n (err e, w) = (err e, undone root n w.sdb e)

  -- What is done in the transaction of the store.
  unfoldable pub switch : T → List Bytes → ℕ → ChainAction T S (Unit {0})
  unfolding delete_temp_blocks connect
  switch db hashs del_height = delete_temp_blocks m db del_height >> connect db (reverse hashs)

  -- `ReorganizeChain`, by how the root was read.
  unfoldable pub reorganize_from :
      List Bytes → ℕ → Node T S → Result ChainError Bytes → Result ChainError (Unit {0}) × Node T S
  unfolding commit_branch switch
  reorganize_from hashs del_height n (err e) = (err e, n)
  reorganize_from hashs del_height n (ok root) =
      commit_branch root n (switch n.db hashs del_height (record { txn = n.db; sdb = n.sdb }))

  -- `ReorganizeChain`
  unfoldable pub reorganize_chain : List Bytes → ℕ → Action (Node T S) ChainError (Unit {0})
  unfolding get_snap_root reorganize_from
  reorganize_chain hashs del_height n = reorganize_from hashs del_height n (get_snap_root m n.db)
