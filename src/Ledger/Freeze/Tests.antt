-- ===== src/Ledger/Freeze/Tests.antt =====
-- Runs of setFreezeAccount on a concrete StateDB.
use korthochain.Common.{ℕ, ◌+◌, ◌-◌, ◌≤◌, ◌≡◌, refl, ap, [], ◌∷◌, arith, inl}
use korthochain.Common.Bytes.{Bytes, bytes_eq}
use korthochain.Common.Digits.{replicate}
use korthochain.Common.Outcome.{err}
use korthochain.Address.{new_common_addr}
use korthochain.Ledger.State.{LedgerError}
use korthochain.Ledger.Query.{common_addr, store_addr}
use korthochain.Ledger.Freeze.{set_freeze_account}
use korthochain.Ledger.Freeze.Laws.{
  IsSound, single_slot, all_slot, Leaves, freeze_exact, thaw_exact, thaw-refused,
}
use korthochain.Ledger.Tests.{Accounts, plain_env, plain_env-IsStateDb, account, address, start}

first : Bytes → ℕ
first [] = 0
first (x ∷ xs) = x

-- Account 1 with 40 of its 100 frozen for account 2.
abbrev locked : Accounts
locked =
    plain_env.put_balance (plain_env.put_balance start (all_slot plain_env (account 1)) 40)
      (single_slot plain_env (account 1) (address 2)) 40

-- Account 3 has nothing.
start-IsSound : IsSound plain_env start (address 1) (address 2) (account 1)
unfolding first common_addr new_common_addr bytes_eq replicate store_addr
start-IsSound = record {
  addr = refl;
  apart_all = λ e. omega (arith, ap first e);
  apart_single = λ e. omega (arith, ap first e);
  apart_slots = λ e. omega (arith, ap first e);
  balance_fits = omega arith;
  single_fits = omega arith;
  covered = omega arith;
}

poor-IsSound : IsSound plain_env start (address 3) (address 2) (account 3)
unfolding first common_addr new_common_addr bytes_eq replicate store_addr
poor-IsSound = record {
  addr = refl;
  apart_all = λ e. omega (arith, ap first e);
  apart_single = λ e. omega (arith, ap first e);
  apart_slots = λ e. omega (arith, ap first e);
  balance_fits = omega arith;
  single_fits = omega arith;
  covered = omega arith;
}

locked-IsSound : IsSound plain_env locked (address 1) (address 2) (account 1)
unfolding first common_addr new_common_addr bytes_eq replicate store_addr
locked-IsSound = record {
  addr = refl;
  apart_all = λ e. omega (arith, ap first e);
  apart_single = λ e. omega (arith, ap first e);
  apart_slots = λ e. omega (arith, ap first e);
  balance_fits = omega arith;
  single_fits = omega arith;
  covered = omega arith;
}

freeze_exact_example :
    Leaves plain_env start
      (address 1)
      (address 2)
      start-IsSound
      plain_env-IsStateDb
      (set_freeze_account plain_env (address 1) (address 2) 40 10 1 start)
      (100 - 10)
      (0 + 40)
      (0 + 40)
    × (0 + 40 ≤ 100 - 10)
unfolding bytes_eq replicate store_addr
freeze_exact_example =
    freeze_exact plain_env start (address 1) (address 2) start-IsSound plain_env-IsStateDb 40 10
      (omega arith) (omega arith) (omega arith)

thaw_exact_example :
    Leaves plain_env locked
      (address 1)
      (address 2)
      locked-IsSound
      plain_env-IsStateDb
      (set_freeze_account plain_env (address 1) (address 2) 15 10 0 locked)
      (100 - 10)
      (40 - 15)
      (40 - 15)
    × (40 - 15 ≤ 100 - 10)
unfolding bytes_eq replicate store_addr
thaw_exact_example =
    thaw_exact plain_env locked (address 1) (address 2) locked-IsSound plain_env-IsStateDb 15 10
      (omega arith) (omega arith) (omega arith) (omega arith)

thaw-refused_example :
    (e : LedgerError) × (set_freeze_account plain_env (address 1) (address 2) 41 10 0 locked
      ≡ (err e, locked))
unfolding bytes_eq replicate store_addr
thaw-refused_example =
    thaw-refused plain_env locked (address 1) (address 2) locked-IsSound plain_env-IsStateDb 41 10
      (inl (omega arith))
