-- ===== src/Ledger/Branches.antt =====
-- What setAccount does where the transaction is no plain transfer: a pledge, which pays the gas
-- alone, and a pledge that is broken.
use korthochain.Common.{
  ℕ, ◌+◌, ◌-◌, ◌^◌, ◌<◌, ◌≤◌, ◌≡◌, ◌∙◌, List, [], ◌∷◌, false, ltb, if◌then◌else◌, arith,
}
use korthochain.Common.Word.{IsU64}
use korthochain.Common.Bytes.{Bytes, bytes_eq}
use korthochain.Common.Outcome.{ok, err}
use korthochain.Common.Action.{◌>>◌, >>=-ok}
use korthochain.Transaction.{FinishedTransaction, pledge_transaction, pledge_break_transaction}
use korthochain.Ledger.State.{Env, insufficient, too_large, panicked}
use korthochain.Ledger.{common_addr, set_account, charge_gas, break_pledge, check_available}
use korthochain.Ledger.Laws.{frozen, available_balance_lem, get_balance_lem}

-- A sender that names an account whose balance covers what is frozen of it, with its figures in
-- uint64.
pub record IsSender {S : Type 0} (env : Env S) (s : S) (tx : FinishedTransaction) (f : Bytes)
    : Type 0 where
  pub from_addr : common_addr env tx.signed.transaction.from ≡ ok f
  pub from_fits : IsU64 (env.balance_of s f)
  pub covered : frozen env s f ≤ env.balance_of s f
  pub gas_fits : IsU64 tx.gas_used

module _ {S : Type 0} (env : Env S) (s : S) (tx : FinishedTransaction) {f : Bytes}
    (h : IsSender env s tx f) where
  charge_gas_lem : charge_gas env tx s ≡ (
      if ltb (env.balance_of s f) tx.gas_used
      then (err insufficient, s)
      else if ltb (env.balance_of s f + tx.gas_used) (2 ^ 64)
      then (ok tt, env.put_balance s f (env.balance_of s f - tx.gas_used))
      else (err too_large, s))
  unfolding charge_gas
  charge_gas_lem =
      let balance = get_balance_lem env s tx.signed.transaction.from f h.from_addr h.from_fits in
      ground (arith, balance, h.from_addr, h.from_fits, h.gas_fits)

  gas_only :
      (defaults : List ℕ)
      → tx.signed.transaction.kind ≡ pledge_transaction
      → set_account env tx defaults s ≡ charge_gas env tx s
  unfolding set_account check_available
  gas_only defaults kind = ground (arith, kind)

  -- A pledge by a sender that names an account with its figures in uint64, and no more frozen than
  -- it has, takes the gas off its balance whatever the amount, and is refused with the state as it
  -- was where the balance is below the gas or the two together do not fit a uint64.
  pub set_account-pledge :
      (defaults : List ℕ)
      → tx.signed.transaction.kind ≡ pledge_transaction
      → set_account env tx defaults s ≡ (
          if ltb (env.balance_of s f) tx.gas_used
          then (err insufficient, s)
          else if ltb (env.balance_of s f + tx.gas_used) (2 ^ 64)
          then (ok tt, env.put_balance s f (env.balance_of s f - tx.gas_used))
          else (err too_large, s))
  set_account-pledge defaults kind = gas_only defaults kind ∙ charge_gas_lem

  free_lem :
      tx.signed.transaction.kind ≡ pledge_break_transaction
      → tx.signed.transaction.amount ≡ 0
      → tx.gas_used + frozen env s f ≤ env.balance_of s f
      → check_available env tx s ≡ (ok tt, s)
  unfolding check_available
  free_lem kind none cover =
      let free =
        available_balance_lem env s tx.signed.transaction.from f h.from_addr h.from_fits
          (omega (arith, h.covered, h.from_fits)) in
      ground (arith, free, h.covered, h.gas_fits, kind)

  broken_lem :
      (defaults : List ℕ)
      → tx.signed.transaction.kind ≡ pledge_break_transaction
      → bytes_eq tx.signed.transaction.from.payload tx.signed.transaction.to.payload ≡ false
      → set_account env tx defaults s ≡ (check_available env tx >> break_pledge env tx defaults) s
  unfolding set_account
  broken_lem defaults kind parties = ground (arith, kind, parties)

  -- Without a default amount, a pledge break with amount 0 between two different addresses, by a
  -- sender whose figures are in uint64 and whose free balance covers the gas, panics with the state
  -- as it was.
  pledge_break-panics :
      tx.signed.transaction.kind ≡ pledge_break_transaction
      → bytes_eq tx.signed.transaction.from.payload tx.signed.transaction.to.payload ≡ false
      → tx.signed.transaction.amount ≡ 0
      → tx.gas_used + frozen env s f ≤ env.balance_of s f
      → set_account env tx [] s ≡ (err panicked, s)
  unfolding break_pledge
  pledge_break-panics kind parties none cover =
      let balance = get_balance_lem env s tx.signed.transaction.from f h.from_addr h.from_fits in
      broken_lem [] kind parties
      ∙ >>=-ok (check_available env tx) (λ _. break_pledge env tx []) s (free_lem kind none cover)
      ∙ ground (arith, balance, none)

  -- With a default amount, a pledge break with amount 0 between two different addresses, by a
  -- sender whose figures are in uint64 and whose free balance covers the gas, takes the default
  -- amount and the gas off the balance, or is refused with the state as it was where the balance is
  -- below the two, which must fit a uint64 together.
  pub pledge_break_lem :
      (default_amount : ℕ) (more : List ℕ)
      → tx.signed.transaction.kind ≡ pledge_break_transaction
      → bytes_eq tx.signed.transaction.from.payload tx.signed.transaction.to.payload ≡ false
      → tx.signed.transaction.amount ≡ 0
      → tx.gas_used + frozen env s f ≤ env.balance_of s f
      → default_amount + tx.gas_used < 2 ^ 64
      → set_account env tx (default_amount ∷ more) s ≡ (
          if ltb (env.balance_of s f) (default_amount + tx.gas_used)
          then (err insufficient, s)
          else (ok tt, env.put_balance s f (env.balance_of s f - (default_amount + tx.gas_used))))
  unfolding break_pledge
  pledge_break_lem default_amount more kind parties none cover fits =
      let balance = get_balance_lem env s tx.signed.transaction.from f h.from_addr h.from_fits in
      broken_lem (default_amount ∷ more) kind parties
      ∙ >>=-ok (check_available env tx) (λ _. break_pledge env tx (default_amount ∷ more)) s
          (free_lem kind none cover)
      ∙ ground (arith, balance, none, h.from_addr, h.from_fits)
