-- ===== src/Pool/Tests.antt =====
-- Runs of the pool's calculations at concrete traders.
use korthochain.Common.{ℕ, ◌≡◌, ◌≢◌, refl, [], ◌∷◌, ◌++◌, true, false, some, arith}
use korthochain.Common.Bytes.{Bytes, ascii, bytes_eq, bytes_eq_self}
use korthochain.Common.Digits.{replicate}
use korthochain.Common.Outcome.{ok}
use korthochain.Address.{Address, encode, prefix_set, hex_encode, hex_digit, new_common_addr}
use korthochain.Transaction.{Transaction}
use korthochain.Pool.Overflow.{add_uint64_overflow, sub_uint64_overflow}
use korthochain.Pool.Figures.{TraderInfo, after_transfer}
use korthochain.Pool.Accounts.{IsKnown, self_transfer_mints}
use korthochain.Pool.Settles.{transfer-settles, chain_of}
use korthochain.Pool.{
  get_trader_info, load_trader, complete_trader, load_single, Chain, TraderBuf, find_trader, key_of,
  transfer_pre_calculated,
}
use korthochain.Ledger.{
  set_account, available_balance, common_addr, store_addr, get_nonce, all_freeze_balance,
  default_nonce, get_balance,
}
use korthochain.Ledger.Tests.{plain_env, address, account, start, payment, payment-IsTransfer}

abbrev trader : TraderInfo
trader = record {
  available_balance = 100;
  lock_balance = 40;
  next_nonce = 5;
  single_lock_balance = 30;
  single_exist = true;
}

abbrev pub tx_of : ℕ → Address → Transaction
tx_of amount to = record {
  version = 1;
  kind = 0;
  from = address 1;
  to = to;
  amount = amount;
  nonce = 5;
  gas_limit = 5;
  gas_fee_cap = 10;
  gas_price = 2;
  input = [];
}

abbrev chain : Chain
chain = chain_of plain_env start

-- The text of an account's address.
abbrev pub key : ℕ → Bytes
key n = ascii "Kto0" ++ hex_encode (account n)

abbrev traders : TraderBuf
traders = (key 1, trader) ∷ (key 2, record trader { available_balance = 7 }) ∷ []

caller-IsKnown : IsKnown chain traders (address 1) (key 1) trader
unfolding key_of encode find_trader bytes_eq hex_encode replicate prefix_set hex_digit
caller-IsKnown = (refl, refl)

receiver-IsKnown :
    IsKnown chain traders (address 2) (key 2) (record trader { available_balance = 7 })
unfolding key_of encode find_trader bytes_eq hex_encode replicate prefix_set hex_digit
receiver-IsKnown = (refl, refl)

pub keys_apart : (m n : ℕ) → bytes_eq (key m) (key n) ≡ false → key m ≢ key n
keys_apart m n h e = absurd (cc (h, e, bytes_eq_self (key n)))

self_transfer_mints_example :
    ((transfer_pre_calculated chain (tx_of 50 (address 1)) traders).0 ≡ ok tt)
    × (find_trader (transfer_pre_calculated chain (tx_of 50 (address 1)) traders).1 (key 1)
        ≡ some (record trader { available_balance = 150 }))
self_transfer_mints_example =
    self_transfer_mints chain traders (tx_of 50 (address 1)) (key 1) trader caller-IsKnown refl
      (omega arith, omega arith, omega arith) (omega arith) (omega arith) (omega arith)

abbrev accepted : TraderBuf
accepted = (transfer_pre_calculated chain (payment 80).signed.transaction []).1

is_accepted : transfer_pre_calculated chain (payment 80).signed.transaction [] ≡ (ok tt, accepted)
unfolding transfer_pre_calculated get_trader_info key_of encode bytes_eq replicate find_trader
    load_trader available_balance common_addr new_common_addr store_addr get_nonce complete_trader
    load_single prefix_set hex_encode hex_digit all_freeze_balance default_nonce get_balance
    after_transfer add_uint64_overflow sub_uint64_overflow
is_accepted = refl

key_1 : key_of chain (payment 80).signed.transaction.from ≡ ok (key 1)
unfolding key_of encode bytes_eq hex_encode replicate prefix_set
key_1 = refl

transfer-settles_example : (set_account plain_env (payment 80) [] start).0 ≡ ok tt
unfolding bytes_eq replicate
transfer-settles_example =
    transfer-settles plain_env start (payment 80) (payment-IsTransfer 80 (omega arith)) (key 1)
      key_1 accepted is_accepted (omega arith) (omega arith)
