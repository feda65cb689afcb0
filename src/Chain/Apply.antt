-- ===== src/Chain/Apply.antt =====
-- The loop of `AddBlock` over a block's transactions: what each kind of transaction writes into the
-- store and does to the accounts.
use korthochain.Common.{
  ℕ, ◌+◌, List, [], ◌∷◌, ◌++◌, ◌||◌, Bool, ◌&&◌, not, Option, none, some, ltb, if◌then◌else◌,
}
use korthochain.Common.Word.{◌+64◌, ◌-64◌}
use korthochain.Common.Bytes.{Bytes}
use korthochain.Common.Outcome.{Result, ok, err}
use korthochain.Common.Action.{Action, pure, query, raise_if, ◌>>=◌, ◌>>◌}
use korthochain.Codec.{e64func}
use korthochain.Store.{StoreError, mset}
use korthochain.Address.{Address, has_text}
use korthochain.Ledger.State.{Env, LedgerAction, panicked}
use korthochain.Ledger.{set_nonce, set_account, set_to_account, set_miner_fee}
use korthochain.Ledger.Freeze.{set_freeze_account}
use korthochain.Transaction.{
  Transaction, FinishedTransaction, gas_cap, is_coin_base, is_lock, is_unlock, is_evm_contract,
}
use korthochain.Wire.Blocks.{Block}
use korthochain.Chain.{ChainError, of_ledger, of_store, too_much_gas, Machine}

-- The state that `AddBlock` works on: its transaction of the store, and the StateDB.
pub record Work (T S : Type 0) : Type 0 where
  pub txn : T
  pub sdb : S

abbrev pub ChainAction : Type 0 → Type 0 → Type 0 → Type 0
ChainAction T S A = Action (Work T S) ChainError A

abbrev result_of : {E A : Type 0} → (E → ChainError) → Result E A → Result ChainError A
result_of f (ok a) = ok a
result_of f (err e) = err (f e)

abbrev logged : {A : Type 0} → Bool → Result ChainError A → Result ChainError A
logged has (ok a) = ok a
logged has (err e) = if has then err e else err (of_ledger panicked)

module _ {T S : Type 0} where
  -- A call on the store's transaction, whose error is handled.
  abbrev pub on_txn : {A : Type 0} → Action T StoreError A → ChainAction T S A
  on_txn f w = let (r, t) = f w.txn in (result_of of_store r, record w { txn = t })

  -- A call on the store's transaction, whose error is dropped.
  abbrev pub on_txn_ignored : {A : Type 0} → Action T StoreError A → ChainAction T S (Unit {0})
  on_txn_ignored f w = (ok tt, record w { txn = (f w.txn).1 })

  -- A call on the accounts.
  abbrev pub on_ledger : {A : Type 0} → LedgerAction S A → ChainAction T S A
  on_ledger f w = let (r, s) = f w.sdb in (result_of of_ledger r, record w { sdb = s })

  -- A step whose error is logged with the text of addresses: without one, the error is a panic.
  abbrev pub logging : {A : Type 0} → Bool → ChainAction T S A → ChainAction T S A
  logging has f w = let (r, w') = f w in (logged has r, w')

  -- A call on the state as a whole.
  abbrev pub on_state : {A : Type 0} → Action S ChainError A → ChainAction T S A
  on_state f w = let (r, s) = f w.sdb in (r, record w { sdb = s })

-- `Transaction.Hash`: the kind and the input are not part of it.
unfoldable pub transaction_hash : (Bytes → Bytes) → Transaction → Bytes
transaction_hash sha256 t = sha256 (
    t.from.payload
    ++ (t.to.payload
        ++ (e64func t.version
            ++ (e64func t.amount
                ++ (e64func t.nonce
                    ++ (e64func t.gas_limit ++ (e64func t.gas_price ++ e64func t.gas_fee_cap)))))))

abbrev option_of : {E A : Type 0} → Result E A → Option A
option_of (ok a) = some a
option_of (err e) = none

module _ {T S : Type 0} (m : Machine T S) where
  -- The ledger reads bindings from the store as it was before the block.
  abbrev pub ledger_env : T → Env S
  ledger_env db = record m.env { lookup = λ key. option_of (m.kv.get key db) }

  -- The text of an address can be logged.
  abbrev pub shows : Address → Bool
  shows addr = has_text m.env.network addr

  -- `setTxbyaddrKV`: an account lists the transaction, and its hash leads to its place. The errors
  -- of both writes are dropped.
  unfoldable pub set_tx_by_addr_kv : Bytes → Bytes → ℕ → ℕ → ChainAction T S (Unit {0})
  set_tx_by_addr_kv addr hash height index = do
    on_txn_ignored (mset m.kv addr hash [])
    on_txn_ignored (m.kv.set hash (m.marshal_index height index))

  -- A coinbase transaction pays its gas to the miner, and its amount to the receiver.
  unfoldable pub apply_coin_base :
      T → Block → ℕ → ℕ → FinishedTransaction → ChainAction T S FinishedTransaction
  apply_coin_base db b height index tx =
      let t = tx.signed.transaction in
      let hash = transaction_hash m.sha256 t in
      let gas_used = gas_cap t in
      (do
        set_tx_by_addr_kv t.to.payload hash height index
        logging (shows b.miner) (on_ledger (set_miner_fee (ledger_env db) b.miner gas_used))
        logging (shows t.from) (on_ledger (set_to_account (ledger_env db) t))
        pure (record tx { gas_used = gas_used }))

  -- A lock or an unlock: the nonce, the miner's fee, then the frozen amounts.
  unfoldable pub apply_freeze :
      T → Block → ℕ → ℕ → FinishedTransaction → ChainAction T S FinishedTransaction
  apply_freeze db b height index tx =
      let t = tx.signed.transaction in
      let hash = transaction_hash m.sha256 t in
      let gas_used = gas_cap t in
      (do
        set_tx_by_addr_kv t.from.payload hash height index
        set_tx_by_addr_kv t.to.payload hash height index
        logging (shows t.from && shows t.to)
            (on_ledger (set_nonce (ledger_env db) t.from (t.nonce +64 1)))
        logging (shows b.miner) (on_ledger (set_miner_fee (ledger_env db) b.miner gas_used))
        logging (shows t.from) (
            on_ledger (
              set_freeze_account (ledger_env db) t.from t.to t.amount gas_used
                (if is_lock t then 1 else 0)))
        pure (record tx { gas_used = gas_used }))

  -- A contract: the gas that the virtual machine used is what is paid.
  unfoldable pub apply_contract :
      T → Block → ℕ → ℕ → FinishedTransaction → ChainAction T S FinishedTransaction
  apply_contract db b height index tx =
      let t = tx.signed.transaction in
      let hash = transaction_hash m.sha256 t in
      (do
        set_tx_by_addr_kv t.from.payload hash height index
        txn ← query (λ w. ok w.txn)
        ran ← on_state (m.run_contract b txn tx index)
        gas_limit ← query (λ w. ok (m.evm_gas_limit w.sdb))
        raise_if (ltb gas_limit ran.0) too_much_gas
        let gas_used = gas_limit -64 ran.0
        on_ledger (set_miner_fee (ledger_env db) b.miner gas_used)
        logging (shows ran.1.signed.transaction.from && shows ran.1.signed.transaction.to)
            (on_ledger (set_account (ledger_env db) (record (ran.1) { gas_used = gas_used }) []))
        pure (record (ran.1) { gas_used = gas_used }))

  -- Every other transaction: the nonce, the miner's fee, then the accounts.
  unfoldable pub apply_account :
      T → Block → ℕ → ℕ → FinishedTransaction → ChainAction T S FinishedTransaction
  apply_account db b height index tx =
      let t = tx.signed.transaction in
      let hash = transaction_hash m.sha256 t in
      let gas_used = gas_cap t in
      (do
        set_tx_by_addr_kv t.from.payload hash height index
        set_tx_by_addr_kv t.to.payload hash height index
        logging (shows t.from && shows t.to)
            (on_ledger (set_nonce (ledger_env db) t.from (t.nonce +64 1)))
        logging (shows b.miner) (on_ledger (set_miner_fee (ledger_env db) b.miner gas_used))
        logging (shows t.from && shows t.to)
            (on_ledger (set_account (ledger_env db) (record tx { gas_used = gas_used }) []))
        pure (record tx { gas_used = gas_used }))

  -- The branches on the kind of a transaction. `AddBlock` logs the sender of each, `AddTempBlock`
  -- does not.
  unfoldable pub apply_transaction :
      Bool → T → Block → ℕ → ℕ → FinishedTransaction → ChainAction T S FinishedTransaction
  apply_transaction told db b height index tx =
      let t = tx.signed.transaction in
      raise_if (told && not (shows t.from)) (of_ledger panicked)
      >> (if is_coin_base t
          then apply_coin_base db b height index tx
          else (if is_lock t || is_unlock t
              then apply_freeze db b height index tx
              else (if is_evm_contract t
                  then apply_contract db b height index tx
                  else apply_account db b height index tx)))

  -- The loop: the transactions with the gas that they used, and the gas of the block.
  unfoldable pub apply_all :
      Bool
      → T
      → Block
      → ℕ
      → ℕ
      → ℕ
      → List FinishedTransaction
      → ChainAction T S (List FinishedTransaction × ℕ)
  apply_all told db b height index gas [] = pure ([], gas)
  apply_all told db b height index gas (tx ∷ txs) = do
    done ← apply_transaction told db b height index tx
    rest ← apply_all told db b height (index + 1) (gas +64 done.gas_used) txs
    pure (done ∷ rest.0, rest.1)
