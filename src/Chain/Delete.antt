-- ===== src/Chain/Delete.antt =====
-- `DeleteTempBlockTest` of pkg/blockchain/addAndDel.go: the blocks from a height on are taken off
-- within one transaction of the store.
use korthochain.Common.{
  ℕ, zero, suc, ◌-◌, List, [], ◌∷◌, ◌++◌, ◌||◌, ◌&&◌, Option, none, some, ltb, ◌==◌, if◌then◌else◌,
}
use korthochain.Common.Word.{◌-64◌}
use korthochain.Common.Bytes.{Bytes, ascii, bytes_eq}
use korthochain.Common.Outcome.{Result, ok, err}
use korthochain.Common.Action.{pure, raise, query, raise_if, ◌>>=◌, ◌>>◌}
use korthochain.Codec.{e64func}
use korthochain.Store.{mdel}
use korthochain.Ledger.State.{LedgerError, panicked}
use korthochain.Ledger.{common_addr}
use korthochain.Transaction.{
  Transaction, FinishedTransaction, is_coin_base, is_pledge, is_pledge_break, is_evm_contract,
}
use korthochain.Wire.Blocks.{Block}
use korthochain.Chain.{
  ChainError, of_ledger, wrong_height, Machine, snap_root_key, height_key, hash_key, root_key,
  store_result, get_max_block_height, get_block_by_height,
}
use korthochain.Chain.Apply.{
  ChainAction, on_txn, on_txn_ignored, on_state, logging, shows, transaction_hash, ledger_env,
}

-- `strings.Split(s, "\"")[0]`
unfoldable pub before_quote : Bytes → Bytes
before_quote [] = []
before_quote (x ∷ s) = let rest = before_quote s in if x == 34 then [] else x ∷ rest

-- `strings.Split(s, "\"")[1]`, which is out of range where there is no quote.
unfoldable pub after_quote : Bytes → Option Bytes
unfolding before_quote
after_quote [] = none
after_quote (x ∷ s) = let rest = after_quote s in if x == 34 then some (before_quote s) else rest

abbrev pub ledger_result : {A : Type 0} → Result LedgerError A → Result ChainError A
ledger_result (ok a) = ok a
ledger_result (err e) = err (of_ledger e)

module _ {T S : Type 0} (m : Machine T S) where
  -- `delTokenKey`
  unfoldable pub del_token_key : Bytes → ChainAction T S (Unit {0})
  del_token_key token_id = do
    on_txn (m.kv.delete token_id)
    on_txn (m.kv.delete (ascii "p/" ++ token_id))

  -- `deleteTxbyaddrKV`
  unfoldable pub delete_tx_by_addr_kv : Bytes → Bytes → ChainAction T S (Unit {0})
  delete_tx_by_addr_kv addr hash = do on_txn (mdel m.kv addr hash); on_txn (m.kv.delete hash)

  -- An input that makes a token names the key that is deleted.
  unfoldable pub delete_token : Bytes → ChainAction T S (Unit {0})
  unfolding del_token_key before_quote after_quote
  delete_token input =
      if bytes_eq (before_quote input) (ascii "new ")
      then elim (after_quote input) [
        | none ↦ raise (of_ledger panicked)
        | some token_id ↦ del_token_key token_id
      ]
      else pure tt

  -- What the loop over the transactions does with one of them.
  unfoldable pub delete_transaction : Transaction → ChainAction T S (Unit {0})
  unfolding delete_tx_by_addr_kv delete_token
  delete_transaction t =
      let hash = transaction_hash m.sha256 t in
      let has = shows m t.from && shows m t.to in
      if is_coin_base t
      then logging has (delete_tx_by_addr_kv t.to.payload hash)
      else (if is_pledge t || is_pledge_break t || is_evm_contract t
          then logging has (delete_tx_by_addr_kv t.from.payload hash)
          else (do
            delete_token t.input
            logging has (delete_tx_by_addr_kv t.from.payload hash)
            logging has (delete_tx_by_addr_kv t.to.payload hash)))

  unfoldable pub delete_transactions : List FinishedTransaction → ChainAction T S (Unit {0})
  unfolding delete_transaction
  delete_transactions [] = pure tt
  delete_transactions (tx ∷ txs) =
      delete_transaction tx.signed.transaction >> delete_transactions txs

  -- The root and the height step back; the errors of the last two writes are dropped.
  unfoldable pub step_back : ℕ → Block → ChainAction T S (Unit {0})
  step_back height b = do
    sn ← query (λ w. store_result (m.kv.get (root_key (b.height -64 1)) w.txn))
    on_txn (m.kv.delete (root_key b.height))
    on_txn (m.kv.delete (hash_key b.height))
    on_txn_ignored (m.kv.set snap_root_key sn)
    on_txn_ignored (m.kv.set height_key (e64func (height -64 1)))

  -- One turn of the loop over the heights. Blocks are read from the store as it was committed, the
  -- previous one for the virtual machine.
  unfoldable pub delete_at : T → ℕ → ChainAction T S (Unit {0})
  unfolding get_block_by_height delete_transactions step_back
  delete_at db height = do
    b ← query (λ w. get_block_by_height m height db)
    delete_transactions b.transactions
    step_back height b
    previous ← query (λ w. get_block_by_height m (height -64 1) db)
    miner ← query (λ w. ledger_result (common_addr (ledger_env m db) previous.miner))
    pure tt

  -- The loop over so many heights, downwards.
  unfoldable pub delete_down : T → ℕ → ℕ → ChainAction T S (Unit {0})
  unfolding delete_at
  delete_down db zero height = pure tt
  delete_down db (suc n) height = delete_at db height >> delete_down db n (height -64 1)

  abbrev opened : S → Result ChainError S → Result ChainError (Unit {0}) × S
  opened s (ok old) = (ok tt, old)
  opened s (err e) = (err e, s)

  -- The state is opened at the root that is held now.
  unfoldable pub reopen : T → ChainAction T S (Unit {0})
  reopen db = do
    root ← query (λ w. store_result (m.kv.get snap_root_key w.txn))
    on_state (λ s. opened s (m.open_state db (m.bytes_to_hash root)))

  -- `DeleteTempBlockTest`. At the height 0 the loop ends with an error, since there is no such
  -- block.
  unfoldable pub delete_temp_blocks : T → ℕ → ChainAction T S (Unit {0})
  unfolding get_max_block_height delete_down reopen
  delete_temp_blocks db height = do
    db_height ← query (λ w. get_max_block_height m db)
    raise_if (ltb db_height height) wrong_height
    delete_down db (suc (db_height - height)) db_height
    reopen db
