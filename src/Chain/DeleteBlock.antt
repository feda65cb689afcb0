-- ===== src/Chain/DeleteBlock.antt =====
-- `DeleteBlock` of pkg/blockchain/blockchain.go: the blocks from a height on are taken off, each in
-- a transaction of the store of its own.
use korthochain.Common.{ℕ, zero, suc, ◌-◌, ltb, if◌then◌else◌}
use korthochain.Common.Word.{◌-64◌}
use korthochain.Common.Outcome.{Result, ok, err}
use korthochain.Common.Action.{Action, pure, query, ◌>>=◌, ◌>>◌}
use korthochain.Codec.{e64func}
use korthochain.Store.{StoreError}
use korthochain.Chain.{
  ChainError, of_store, Machine, snap_root_key, height_key, hash_key, root_key, store_result,
  get_max_block_height, get_block_by_height, get_snap_root,
}
use korthochain.Chain.Apply.{Work, ChainAction, on_txn, on_txn_ignored}
use korthochain.Chain.AddBlock.{Node}
use korthochain.Chain.Delete.{delete_transactions}

module _ {T S : Type 0} (m : Machine T S) where
  -- What one turn writes. The block itself is taken off too, and the errors of the last two writes
  -- are dropped. Blocks are read from the store as it was committed, the previous one for the
  -- virtual machine.
  unfoldable pub take_off : T → ℕ → ChainAction T S (Unit {0})
  unfolding get_block_by_height delete_transactions
  take_off db height = do
    b ← query (λ w. get_block_by_height m height db)
    delete_transactions m b.transactions
    sn ← query (λ w. store_result (m.kv.get (root_key (b.height -64 1)) w.txn))
    on_txn (m.kv.delete (root_key b.height))
    on_txn (m.kv.delete (hash_key b.height))
    on_txn (m.kv.delete b.hash)
    previous ← query (λ w. get_block_by_height m (height -64 1) db)
    on_txn_ignored (m.kv.set snap_root_key sn)
    on_txn_ignored (m.kv.set height_key (e64func (height -64 1)))

  -- The end of a turn, by how `Commit` went.
  abbrev turned : Node T S → Result StoreError T → Result ChainError (Unit {0}) × Node T S
  turned n (ok db) = (ok tt, record n { db = db })
  turned n (err e) = (err (of_store e), n)

  -- The same, by how the writes went.
  abbrev pub commit_turn :
      Node T S → Result ChainError (Unit {0}) × Work T S → Result ChainError (Unit {0}) × Node T S
  commit_turn n (ok u, w) = turned n (m.commit w.txn)
  commit_turn n (err e, w) = (err e, n)

  -- One turn of the loop over the heights.
  unfoldable pub take_off_turn : ℕ → Action (Node T S) ChainError (Unit {0})
  unfolding take_off
  take_off_turn height n = commit_turn n (take_off n.db height (record { txn = n.db; sdb = n.sdb }))

  -- The loop over so many heights, downwards.
  unfoldable pub take_off_down : ℕ → ℕ → Action (Node T S) ChainError (Unit {0})
  unfolding take_off_turn
  take_off_down zero height = pure tt
  take_off_down (suc n) height = take_off_turn height >> take_off_down n (height -64 1)

  abbrev state_opened : Node T S → Result ChainError S → Result ChainError (Unit {0}) × Node T S
  state_opened n (ok s) = (ok tt, record n { sdb = s })
  state_opened n (err e) = (err e, n)

  -- The state is opened at the root that the store holds.
  unfoldable pub open_again : Action (Node T S) ChainError (Unit {0})
  unfolding get_snap_root
  open_again = do
    root ← query (λ (n : Node T S). get_snap_root m n.db)
    (λ n. state_opened n (m.open_state n.db root))

  -- `DeleteBlock`. A height above the chain's is no error. At the height 0 the loop ends with an
  -- error, since there is no such block.
  unfoldable pub delete_block : ℕ → Action (Node T S) ChainError (Unit {0})
  unfolding get_max_block_height take_off_down open_again
  delete_block height = do
    db_height ← query (λ (n : Node T S). get_max_block_height m n.db)
    (if ltb db_height height
        then pure tt
        else (take_off_down (suc (db_height - height)) db_height >> open_again))
