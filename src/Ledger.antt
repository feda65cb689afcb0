-- ===== src/Ledger.antt =====
-- pkg/blockchain/state.go: balances, nonces and the effect of a transaction on the accounts.
pub mod State
mod Query
mod Balance
pub mod Laws
pub mod Freeze
pub mod Supply
pub mod Fees
pub mod Branches
pub mod Tests
unfoldable pub use Query.*
unfoldable pub use Balance.{set_balance}
use korthochain.Common.{
  ℕ, ◌+◌, ◌%◌, ◌^◌, List, [], ◌∷◌, Bool, true, false, ◌&&◌, ◌||◌, not, Option, none, some, ltb,
  ◌==◌, if◌then◌else◌,
}
use korthochain.Common.Word.{max_u64, ◌+64◌, ◌-64◌}
use korthochain.Common.Bytes.{Bytes, bytes_eq}
use korthochain.Common.Outcome.{Result, ok, err}
use korthochain.Common.Action.{Action, pure, raise, query, ◌>>=◌, ◌>>◌, raise_if, modify}
use korthochain.Address.{Address, has_text}
use korthochain.Transaction.{
  FinishedTransaction, Transaction, pledge_transaction, withdraw_to_eth_transaction, is_pledge,
  is_pledge_break, is_evm_contract,
}
use korthochain.Ledger.State.{
  Env, LedgerError, bad_address, wrong_nonce, insufficient, too_large, nonzero_amount, panicked,
  LedgerAction,
}

-- An error that is logged with the text of an address is a panic where the address has none.
abbrev logged : {A : Type 0} → Bool → Result LedgerError A → Result LedgerError A
logged has (ok a) = ok a
logged has (err e) = if has then err e else err panicked

module _ {S : Type 0} (env : Env S) where
  -- `setNonce`: an account's nonce goes up by one at a time. A nonce that was never set counts as 1.
  unfoldable pub set_nonce : Address → ℕ → LedgerAction S (Unit {0})
  set_nonce addr nonce = do
    co_addr ← query (λ _. logged (has_text env.network addr) (common_addr env addr))
    sdb_nonce ← query (λ s. ok (default_nonce (env.nonce_of s co_addr)))
    raise_if (not ((sdb_nonce +64 1) == nonce)) wrong_nonce
    modify (λ s. env.put_nonce s co_addr nonce)

  -- The end of `setAccount` that moves the amount and charges the gas, between two balances that
  -- have been read. It stands twice in the source.
  unfoldable pub move_amount : Address → Address → ℕ → ℕ → ℕ → ℕ → LedgerAction S (Unit {0})
  unfolding set_balance
  move_amount from to amount gas from_balance to_balance = do
    raise_if (ltb from_balance (amount +64 gas)) insufficient
    raise_if (ltb (max_u64 -64 to_balance -64 gas) amount) too_large
    set_balance env from (from_balance -64 (amount +64 gas))
    set_balance env to (to_balance +64 amount)

  -- `setAccount` on a withdrawal: the account that pays is the one bound to the sender's.
  unfoldable pub set_account_withdraw : FinishedTransaction → LedgerAction S (Unit {0})
  set_account_withdraw tx = do
    cmaddr ← query (λ _. common_addr env tx.signed.transaction.from)
    kaddr ← query (λ _. binding_kto_address env cmaddr)
    from_balance ← query (available_balance env kaddr)
    raise_if (ltb from_balance (tx.signed.transaction.amount +64 tx.gas_used)) insufficient
    to_balance ← query (get_balance env tx.signed.transaction.to)
    move_amount kaddr tx.signed.transaction.to tx.signed.transaction.amount tx.gas_used from_balance
        to_balance

  -- `setAccount` where only the gas is paid.
  unfoldable pub charge_gas : FinishedTransaction → LedgerAction S (Unit {0})
  unfolding set_balance
  charge_gas tx = do
    from_balance ← query (get_balance env tx.signed.transaction.from)
    raise_if (ltb from_balance tx.gas_used) insufficient
    raise_if (ltb (max_u64 -64 from_balance) tx.gas_used) too_large
    set_balance env tx.signed.transaction.from (from_balance -64 tx.gas_used)

  -- `setAccount` on a pledge that is broken: `defaultAmount[0]` is taken off. Without a default
  -- amount the index is out of range.
  unfoldable pub break_pledge : FinishedTransaction → List ℕ → LedgerAction S (Unit {0})
  unfolding set_balance
  break_pledge tx [] = do
    fr_balance ← query (get_balance env tx.signed.transaction.from)
    raise_if (not (tx.signed.transaction.amount == 0)) nonzero_amount
    raise panicked
  break_pledge tx (default_amount ∷ _) = do
    fr_balance ← query (get_balance env tx.signed.transaction.from)
    raise_if (not (tx.signed.transaction.amount == 0)) nonzero_amount
    raise_if (ltb fr_balance (default_amount +64 tx.gas_used)) insufficient
    set_balance env tx.signed.transaction.from (fr_balance -64 default_amount -64 tx.gas_used)

  -- `setAccount` on two accounts.
  unfoldable pub transfer : FinishedTransaction → LedgerAction S (Unit {0})
  transfer tx = do
    from_balance ← query (get_balance env tx.signed.transaction.from)
    to_balance ← query (get_balance env tx.signed.transaction.to)
    move_amount tx.signed.transaction.from tx.signed.transaction.to tx.signed.transaction.amount
        tx.gas_used from_balance to_balance

  -- Every transaction but a pledge is covered by the balance that is not frozen.
  unfoldable pub check_available : FinishedTransaction → LedgerAction S (Unit {0})
  check_available tx = if tx.signed.transaction.kind == pledge_transaction then pure tt else (do
    available ← query (available_balance env tx.signed.transaction.from)
    raise_if (ltb available (tx.signed.transaction.amount +64 tx.gas_used)) insufficient)

  -- `setAccount`
  unfoldable pub set_account : FinishedTransaction → List ℕ → LedgerAction S (Unit {0})
  set_account tx default_amount =
      if tx.signed.transaction.kind == withdraw_to_eth_transaction
      then set_account_withdraw tx
      else (do
        check_available tx
        (if bytes_eq tx.signed.transaction.from.payload tx.signed.transaction.to.payload
              || (is_pledge tx.signed.transaction || is_evm_contract tx.signed.transaction)
            then charge_gas tx
            else (if is_pledge_break tx.signed.transaction
                then break_pledge tx default_amount
                else transfer tx)))

  -- `setToAccount`: the reward of a coinbase transaction.
  unfoldable pub set_to_account : Transaction → LedgerAction S (Unit {0})
  unfolding set_balance
  set_to_account tx = do
    to_balance ← query (get_balance env tx.to)
    raise_if (ltb (max_u64 -64 tx.amount) to_balance) insufficient
    set_balance env tx.to (to_balance +64 tx.amount)

  -- `setMinerFee`
  unfoldable pub set_miner_fee : Address → ℕ → LedgerAction S (Unit {0})
  unfolding set_balance
  set_miner_fee to gas_amount = do
    to_balance ← query (get_balance env to)
    raise_if (ltb (max_u64 -64 to_balance) gas_amount) too_large
    set_balance env to (to_balance +64 gas_amount)
