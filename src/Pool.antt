-- ===== src/Pool.antt =====
-- pkg/txpool/pool.go: the figures of each trader while transactions are picked for a block, and
-- pkg/util/math/overflow.go, the checked arithmetic under them.
pub mod Overflow
pub mod Figures
pub mod Laws
pub mod Accounts
pub mod Settles
pub mod Queue
pub mod Selection
pub mod Eviction
mod Tests
mod SelectionTests
use korthochain.Common.{
  ℕ, zero, suc, ◌+◌, ◌-◌, List, [], ◌∷◌, ◌++◌, Bool, true, false, not, ◌&&◌, ◌||◌, Option, none,
  some, ltb, ◌==◌, if◌then◌else◌,
}
use korthochain.Common.Word.{◌+64◌}
use korthochain.Common.Bytes.{Bytes, bytes_eq}
use korthochain.Common.Outcome.{Result, ok, err}
use korthochain.Common.Action.{Action, pure, raise, query, ◌>>=◌, ◌>>◌, raise_if, modify}
use korthochain.Address.{Address, Network, AddressError, encode}
use korthochain.Transaction.{
  Transaction, gas_cap, transfer_transaction, lock_transaction, unlock_transaction,
  pledge_transaction, evm_contract_transaction, evm_kto_transaction, pledge_break_transaction,
}
use Overflow.{PoolError, nonzero_amount, unknown_type, panicked}
use Figures.{TraderInfo, after_transfer, after_lock, after_unlock, after_pledge, after_redeem}
use Prim.Native.Nat.{compare, Ordering}

-- What the pool asks the chain: the interface `IBlockchain`.
pub record Chain : Type 0 where
  pub get_available_balance : Address → Result PoolError ℕ
  pub get_all_freeze_balance : Address → Result PoolError ℕ
  pub get_nonce : Address → Result PoolError ℕ
  pub get_single_freeze_balance : Address → Address → Result PoolError ℕ
  pub network : Network

-- `map[string]traderInfo`: the newest entry of a key counts.
abbrev pub TraderBuf : Type 0
TraderBuf = List (Bytes × TraderInfo)

unfoldable pub find_trader : TraderBuf → Bytes → Option TraderInfo
find_trader [] key = none
find_trader ((k, info) ∷ buf) key =
    let rest = find_trader buf key in if bytes_eq k key then some info else rest

abbrev pub Calculation : Type 0 → Type 0
Calculation A = Action TraderBuf PoolError A

-- `traderBuf[key] = info`
abbrev pub put_trader : Bytes → TraderInfo → Calculation (Unit {0})
put_trader key info = modify (λ buf. (key, info) ∷ buf)

abbrev pub string_of : Result AddressError Bytes → Result PoolError Bytes
string_of (ok text) = ok text
string_of (err e) = err panicked

module _ (chain : Chain) where
  -- `Address.String`: it panics on an address without a text.
  unfoldable pub key_of : Address → Result PoolError Bytes
  key_of addr = string_of (encode chain.network addr)

  -- The figures of a trader that the buffer does not hold, from the chain.
  unfoldable pub load_trader : Address → Calculation TraderInfo
  load_trader trader = do
    available ← query (λ _. chain.get_available_balance trader)
    locked ← query (λ _. chain.get_all_freeze_balance trader)
    nonce ← query (λ _. chain.get_nonce trader)
    pure (record {
      available_balance = available;
      lock_balance = locked;
      next_nonce = nonce;
      single_lock_balance = 0;
      single_exist = false;
    })

  -- The amount locked for one notary, unless one has been read before.
  unfoldable pub load_single : Address → Option Address → TraderInfo → Calculation TraderInfo
  load_single trader none info = pure info
  load_single trader (some receiver) info = if info.single_exist then pure info else (do
    single ← query (λ _. chain.get_single_freeze_balance trader receiver)
    pure (record info { single_lock_balance = single; single_exist = true }))

  -- The end of `getTraderInfo`: the figures are completed and kept.
  unfoldable pub complete_trader :
      Bytes → Address → Option Address → TraderInfo → Calculation TraderInfo
  complete_trader key trader receiver info = do
    info ← load_single trader receiver info
    put_trader key info
    pure info

  -- `getTraderInfo`
  unfoldable pub get_trader_info : Address → Option Address → Calculation TraderInfo
  get_trader_info trader receiver = do
    key ← query (λ _. key_of trader)
    found ← query (λ buf. ok (find_trader buf key))
    (elim found [
      | none ↦ (load_trader trader >>= complete_trader key trader receiver)
      | some info ↦ elim receiver [
        | none ↦ pure info
        | some notary ↦ complete_trader key trader (some notary) info
      ]
    ])

  -- `compareNonce`: whether the nonce is below, at or above the trader's next one. Without the
  -- trader's figures, the next nonce counts as 0.
  unfoldable pub compare_nonce : Address → ℕ → TraderBuf → Ordering × TraderBuf
  compare_nonce trader nonce buf =
      let (r, buf') = get_trader_info trader none buf in
      elim r [ ok info ↦ (compare nonce info.next_nonce, buf') | err e ↦ (compare nonce 0, buf') ]

  -- A calculation on the caller alone.
  unfoldable pub calculate :
      Option Address
      → (TraderInfo → Transaction → Result PoolError TraderInfo)
      → Transaction
      → Calculation (Unit {0})
  calculate receiver after tx = do
    caller ← get_trader_info tx.from receiver
    info ← query (λ _. after caller tx)
    key ← query (λ _. key_of tx.from)
    put_trader key info

  -- `transferTransactionPreCalculated`: the receiver is written last.
  unfoldable pub transfer_pre_calculated : Transaction → Calculation (Unit {0})
  transfer_pre_calculated tx = do
    caller ← get_trader_info tx.from none
    receiver ← get_trader_info tx.to none
    infos ← query (λ _. after_transfer caller receiver tx)
    caller_key ← query (λ _. key_of tx.from)
    put_trader caller_key infos.0
    receiver_key ← query (λ _. key_of tx.to)
    put_trader receiver_key infos.1

  -- `lockTransactionPreCalculated`
  unfoldable pub lock_pre_calculated : Transaction → Calculation (Unit {0})
  unfolding calculate
  lock_pre_calculated = calculate none after_lock

  -- `unlockTransactionPreCalculated`
  unfoldable pub unlock_pre_calculated : Transaction → Calculation (Unit {0})
  unfolding calculate
  unlock_pre_calculated tx = calculate (some tx.to) after_unlock tx

  -- `pledgeTrasnactionPreCalculated`
  unfoldable pub pledge_pre_calculated : Transaction → Calculation (Unit {0})
  unfolding calculate
  pledge_pre_calculated = calculate none after_pledge

  -- `redeemTrasnactionPreCalculated`
  unfoldable pub redeem_pre_calculated : Transaction → Calculation (Unit {0})
  unfolding calculate
  redeem_pre_calculated tx = do
    raise_if (not (tx.amount == 0)) nonzero_amount
    calculate none after_redeem tx

  -- `transactionPreCalculated`
  unfoldable pub transaction_pre_calculated : Transaction → Calculation (Unit {0})
  transaction_pre_calculated tx =
      if tx.kind == transfer_transaction
      then transfer_pre_calculated tx
      else if tx.kind == lock_transaction
      then lock_pre_calculated tx
      else if tx.kind == unlock_transaction
      then unlock_pre_calculated tx
      else if (tx.kind == pledge_transaction)
          || ((tx.kind == evm_contract_transaction) || (tx.kind == evm_kto_transaction))
      then pledge_pre_calculated tx
      else if tx.kind == pledge_break_transaction
      then redeem_pre_calculated tx
      else raise unknown_type
