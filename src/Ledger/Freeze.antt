-- ===== src/Ledger/Freeze.antt =====
-- pkg/blockchain/freeze.go: an account's frozen amount, in total and for each notary, kept as the
-- balances of two further accounts.
pub mod Laws
mod Tests
use korthochain.Common.{ℕ, Bool, true, false, not, ltb, ◌==◌, if◌then◌else◌}
use korthochain.Common.Word.{max_u64, ◌+64◌, ◌-64◌}
use korthochain.Common.Bytes.{Bytes}
use korthochain.Common.Outcome.{Result, ok, err}
use korthochain.Common.Action.{Action, pure, raise, query, ◌>>=◌, ◌>>◌, raise_if, modify}
use korthochain.Address.{Address}
use korthochain.Ledger.State.{
  Env, LedgerError, insufficient, too_large, too_much_thawed, LedgerAction,
}
use korthochain.Ledger.Balance.{set_balance}
use korthochain.Ledger.Query.{
  common_addr, store_addr, freeze_key, get_balance, all_freeze_balance, single_freeze_balance,
  available_balance,
}

module _ {S : Type 0} (env : Env S) where
  -- `setSingleFreezeBalance`
  unfoldable pub set_single_freeze_balance : Address → Address → ℕ → LedgerAction S (Unit {0})
  set_single_freeze_balance from to freeze_bal = do
    co_addr ← query (λ _. common_addr env from)
    modify (λ s.
        env.put_balance s (store_addr env (store_addr env co_addr freeze_key) to.payload)
          freeze_bal)

  -- `setAllFreezeBalance`
  unfoldable pub set_all_freeze_balance : Address → ℕ → LedgerAction S (Unit {0})
  set_all_freeze_balance from freeze_bal = do
    co_addr ← query (λ _. common_addr env from)
    modify (λ s. env.put_balance s (store_addr env co_addr freeze_key) freeze_bal)

  -- The tests of `setFreezeAccount` before anything is written, when an amount is frozen.
  unfoldable pub check_freeze : Address → ℕ → ℕ → ℕ → ℕ → LedgerAction S (Unit {0})
  check_freeze from freeze_bal gas_used single_free all_free = do
    available_bal ← query (available_balance env from)
    raise_if (ltb (available_bal +64 gas_used) freeze_bal) too_large
    raise_if (ltb (max_u64 -64 single_free -64 gas_used) freeze_bal) too_large
    raise_if (ltb (max_u64 -64 all_free -64 gas_used) freeze_bal) too_large

  -- The same when an amount is thawed.
  unfoldable pub check_thaw : Address → ℕ → ℕ → ℕ → ℕ → LedgerAction S (Unit {0})
  check_thaw from freeze_bal gas_used single_free all_free = do
    available_bal ← query (available_balance env from)
    raise_if (ltb available_bal gas_used) insufficient
    raise_if (ltb single_free freeze_bal) too_much_thawed
    raise_if (ltb all_free freeze_bal) too_much_thawed

  -- The writes at the end of `setFreezeAccount`. The gas leaves the balance by a subtraction that
  -- wraps around.
  unfoldable pub write_freeze : Address → Address → ℕ → ℕ → ℕ → LedgerAction S (Unit {0})
  unfolding set_single_freeze_balance set_all_freeze_balance set_balance
  write_freeze from to gas_used single_free all_free = do
    set_single_freeze_balance from to single_free
    set_all_freeze_balance from all_free
    from_balance ← query (get_balance env from)
    raise_if (ltb (max_u64 -64 gas_used) from_balance) too_large
    set_balance env from (from_balance -64 gas_used)

  -- `setFreezeAccount`: code 1 freezes, any other code thaws.
  unfoldable pub set_freeze_account : Address → Address → ℕ → ℕ → ℕ → LedgerAction S (Unit {0})
  set_freeze_account from to freeze_bal gas_used code = do
    single_free ← query (single_freeze_balance env from to)
    all_free ← query (all_freeze_balance env from)
    (if code == 1
        then (check_freeze from freeze_bal gas_used single_free all_free
            >> write_freeze from to gas_used (single_free +64 freeze_bal) (all_free +64 freeze_bal))
        else (check_thaw from freeze_bal gas_used single_free all_free
            >> write_freeze from to gas_used (single_free -64 freeze_bal)
                (all_free -64 freeze_bal)))
