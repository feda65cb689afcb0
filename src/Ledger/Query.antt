-- ===== src/Ledger/Query.antt =====
-- Reads of the accounts: getBalance, getNonce, getAvailableBalance of pkg/blockchain, and the
-- frozen balances of freeze.go, which are kept as the balances of further accounts.
use korthochain.Common.{ℕ, ◌%◌, ◌^◌, ◌++◌, none, some, ltb, ◌==◌, if◌then◌else◌}
use korthochain.Common.Word.{max_u64, ◌-64◌}
use korthochain.Common.Bytes.{Bytes, ascii}
use korthochain.Common.Outcome.{Result, ok, err, ◌>>=◌, ◌>>◌, fail_if}
use korthochain.Codec.{e_map_key}
use korthochain.Address.{Address, AddressError, new_common_addr, new_from_bytes}
use korthochain.Ledger.State.{Env, LedgerError, bad_address, insufficient, not_exist}

abbrev pub of_address : {A : Type 0} → Result AddressError A → Result LedgerError A
of_address (ok a) = ok a
of_address (err e) = err (bad_address e)

-- A nonce of 0 means that the account has none yet.
unfoldable pub default_nonce : ℕ → ℕ
default_nonce n = if n == 0 then 1 else n

-- `FreezeKey`
abbrev pub freeze_key : Bytes
freeze_key = ascii "freeze"

-- `BindingKey`
abbrev pub binding_key : Bytes
binding_key = ascii "binding"

module _ {S : Type 0} (env : Env S) where
  -- `NewCommonAddr`
  unfoldable pub common_addr : Address → Result LedgerError Bytes
  common_addr addr = of_address (new_common_addr env.sha1 env.network addr)

  -- `commonAddrToStoreAddr`: the account that holds a figure about another account.
  unfoldable pub store_addr : Bytes → Bytes → Bytes
  store_addr caddr prefix = env.sha1 (prefix ++ caddr)

  -- `getBalance`: the low 64 bits of the balance.
  unfoldable pub get_balance : Address → S → Result LedgerError ℕ
  get_balance addr s = do co_addr ← common_addr addr; ok (env.balance_of s co_addr % 2 ^ 64)

  -- `getNonce`
  unfoldable pub get_nonce : Address → S → Result LedgerError ℕ
  unfolding default_nonce
  get_nonce addr s = do co_addr ← common_addr addr; ok (default_nonce (env.nonce_of s co_addr))

  -- `getAllFreezeBalance`
  unfoldable pub all_freeze_balance : Address → S → Result LedgerError ℕ
  all_freeze_balance addr s = do
    co_addr ← common_addr addr
    ok (env.balance_of s (store_addr co_addr freeze_key) % 2 ^ 64)

  -- `getSingleFreezeBalance`
  unfoldable pub single_freeze_balance : Address → Address → S → Result LedgerError ℕ
  single_freeze_balance addr to s = do
    co_addr ← common_addr addr
    ok (env.balance_of s (store_addr (store_addr co_addr freeze_key) to.payload) % 2 ^ 64)

  -- `getAvailableBalance`: the balance less what is frozen of it.
  unfoldable pub available_balance : Address → S → Result LedgerError ℕ
  unfolding get_balance all_freeze_balance
  available_balance addr s = do
    balance ← get_balance addr s
    fee_balance ← all_freeze_balance addr s
    let avi_balance = balance -64 fee_balance
    fail_if (ltb balance fee_balance) insufficient
    fail_if (ltb (max_u64 -64 avi_balance) fee_balance) insufficient
    ok avi_balance

  -- `getBindingKtoAddress`: the store keeps it in the map of bindings.
  unfoldable pub binding_kto_address : Bytes → Result LedgerError Address
  binding_kto_address eth_addr = elim (env.lookup (e_map_key binding_key eth_addr)) [
    | none ↦ err not_exist
    | some found ↦ of_address (new_from_bytes found)
  ]
