-- ===== src/Transaction.antt =====
-- pkg/transaction: transactions as the ledger and the pool read them.
use korthochain.Common.{ℕ, Bool, ◌==◌}
use korthochain.Common.Bytes.{Bytes}
use korthochain.Common.Word.{◌*64◌}
use korthochain.Address.{Address}

-- `TransactionType`, a uint8, and its constants.
abbrev pub transfer_transaction : ℕ
transfer_transaction = 0

abbrev pub coin_base_transaction : ℕ
coin_base_transaction = 1

abbrev pub lock_transaction : ℕ
lock_transaction = 2

abbrev pub unlock_transaction : ℕ
unlock_transaction = 3

abbrev pub mortgage_transaction : ℕ
mortgage_transaction = 4

abbrev pub binding_address_transaction : ℕ
binding_address_transaction = 5

abbrev pub evm_contract_transaction : ℕ
evm_contract_transaction = 6

abbrev pub pledge_transaction : ℕ
pledge_transaction = 7

abbrev pub evm_kto_transaction : ℕ
evm_kto_transaction = 8

abbrev pub is_token_transaction : ℕ
is_token_transaction = 9

abbrev pub pledge_break_transaction : ℕ
pledge_break_transaction = 10

abbrev pub withdraw_to_eth_transaction : ℕ
withdraw_to_eth_transaction = 11

pub record Transaction : Type 0 where
  pub version : ℕ
  pub kind : ℕ
  pub from : Address
  pub to : Address
  pub amount : ℕ
  pub nonce : ℕ
  pub gas_limit : ℕ
  pub gas_fee_cap : ℕ
  pub gas_price : ℕ
  pub input : Bytes

-- `crypto.Signature`
pub record Signature : Type 0 where
  pub sig_type : ℕ
  pub data_ : Bytes

-- `SignedTransaction`
pub record SignedTransaction : Type 0 where
  pub transaction : Transaction
  pub signature : Signature

-- `FinishedTransaction`
pub record FinishedTransaction : Type 0 where
  pub signed : SignedTransaction
  pub gas_used : ℕ
  pub block_num : ℕ

-- `GasCap`; the product wraps around.
abbrev pub gas_cap : Transaction → ℕ
gas_cap t = t.gas_limit *64 t.gas_price

abbrev pub is_lock : Transaction → Bool
is_lock t = t.kind == lock_transaction

abbrev pub is_unlock : Transaction → Bool
is_unlock t = t.kind == unlock_transaction

abbrev pub is_coin_base : Transaction → Bool
is_coin_base t = t.kind == coin_base_transaction

abbrev pub is_evm_contract : Transaction → Bool
is_evm_contract t = t.kind == evm_contract_transaction

abbrev pub is_pledge : Transaction → Bool
is_pledge t = t.kind == pledge_transaction

abbrev pub is_pledge_break : Transaction → Bool
is_pledge_break t = t.kind == pledge_break_transaction
