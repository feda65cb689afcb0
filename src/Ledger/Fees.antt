-- ===== src/Ledger/Fees.antt =====
-- Fees, rewards and nonces: setMinerFee, setToAccount and setNonce, and what a transfer and its
-- fee do together.
use korthochain.Common.{
  ℕ, ◌+◌, ◌-◌, ◌^◌, ◌<◌, ◌≡◌, ◌≢◌, refl, sym, ◌∙◌, List, [], true, false, ltb, ◌==◌, if◌then◌else◌,
  arith,
}
use korthochain.Common.Word.{IsU64}
use korthochain.Common.Bytes.{Bytes, bytes_eq, bytes_eq_ne}
use korthochain.Common.Outcome.{ok, err}
use korthochain.Address.{Address}
use korthochain.Transaction.{FinishedTransaction, Transaction}
use korthochain.Ledger.State.{Env, IsStateDb, wrong_nonce, insufficient, too_large}
use korthochain.Ledger.{
  set_nonce, set_account, set_to_account, set_miner_fee, common_addr, get_nonce, default_nonce,
}
use korthochain.Ledger.Supply.{
  balance-put_self, balance-put_ne, contains, IsDistinct, total, total-put,
}
use korthochain.Ledger.Laws.{get_balance_lem, IsTransfer, IsCovered, set_account-covered}

module _ {S : Type 0} (env : Env S) (s : S) (addr : Address) (a : Bytes)
    (addr_ok : common_addr env addr ≡ ok a) (fits : IsU64 (env.balance_of s a)) where
  -- For an address that names an account with a balance in uint64, and gas in uint64: the miner's
  -- balance goes up by the gas if the sum is below 2 ^ 64, and else the call is refused with the
  -- state as it was.
  pub set_miner_fee_lem :
      (gas : ℕ)
      → IsU64 gas
      → set_miner_fee env addr gas s ≡ (
          if ltb (env.balance_of s a + gas) (2 ^ 64)
          then (ok tt, env.put_balance s a (env.balance_of s a + gas))
          else (err too_large, s))
  unfolding set_miner_fee
  set_miner_fee_lem gas hg = ground (arith, get_balance_lem env s addr a addr_ok fits, addr_ok)

  -- The same for the reward of a coinbase transaction to its receiver.
  pub set_to_account_lem :
      (tx : Transaction)
      → tx.to ≡ addr
      → IsU64 tx.amount
      → set_to_account env tx s ≡ (
          if ltb (env.balance_of s a + tx.amount) (2 ^ 64)
          then (ok tt, env.put_balance s a (env.balance_of s a + tx.amount))
          else (err insufficient, s))
  unfolding set_to_account
  set_to_account_lem tx e ha =
      rw (e, set_to_account) (ground (arith, get_balance_lem env s addr a addr_ok fits, addr_ok))

  -- For an address that names an account whose nonce is at least 2 below 2 ^ 64, `setNonce`
  -- writes exactly the nonce that follows the one that `getNonce` reports, and refuses any other
  -- with the state as it was.
  pub set_nonce_lem :
      (nonce : ℕ)
      → env.nonce_of s a + 2 < 2 ^ 64
      → (set_nonce env addr nonce s ≡ (
          if nonce == default_nonce (env.nonce_of s a) + 1
          then (ok tt, env.put_nonce s a nonce)
          else (err wrong_nonce, s)))
        × (get_nonce env addr s ≡ ok (default_nonce (env.nonce_of s a)))
  unfolding set_nonce get_nonce default_nonce
  set_nonce_lem nonce h = (ground (arith, addr_ok), ground (arith, addr_ok))

module _ {S : Type 0} (env : Env S) (db : IsStateDb env) (s : S) (tx : FinishedTransaction)
    {f t : Bytes} (h : IsTransfer env s tx f t) (distinct : f ≢ t) where
  -- A plain transfer between two different accounts whose figures fit machine words, covered by
  -- the sender's free balance and with room at the receiver, succeeds: the sender has paid the
  -- amount and the gas, the receiver has the amount more, and no third account has changed.
  pub transfer_balances :
      (a : Bytes)
      → a ≢ f
      → a ≢ t
      → IsCovered env s tx f t
      → let (r, s') = set_account env tx [] s in
        (r ≡ ok tt)
        × (env.balance_of s' f + tx.signed.transaction.amount + tx.gas_used ≡ env.balance_of s f)
        × (env.balance_of s' t ≡ env.balance_of s t + tx.signed.transaction.amount)
        × (env.balance_of s' a ≡ env.balance_of s a)
  transfer_balances a nf nt c =
      let u : ℕ = env.balance_of s f - (tx.signed.transaction.amount + tx.gas_used) in
      let v : ℕ = env.balance_of s t + tx.signed.transaction.amount in
      let s1 : S = env.put_balance s f u in
      let not_from : bytes_eq t f ≡ false = bytes_eq_ne t f (λ e. distinct (sym e)) in
      rw (set_account-covered env s tx h c) (
        refl,
        rw (balance-put_ne env db s1 t v f not_from, balance-put_self env db s f u)
            (omega (arith, c.0)),
        balance-put_self env db s1 t v,
        balance-put_ne env db s1 t v a (bytes_eq_ne t a (λ e. nt (sym e)))
            ∙ balance-put_ne env db s f u a (bytes_eq_ne f a (λ e. nf (sym e))),
      )

  -- A plain transfer between two different accounts whose figures fit machine words, covered by the
  -- sender's free balance and with room at the receiver, lowers the sum of the balances, over any
  -- list of different accounts that holds both, by the gas alone.
  pub transfer_total :
      (accounts : List Bytes)
      → IsDistinct accounts
      → contains f accounts ≡ true
      → contains t accounts ≡ true
      → IsCovered env s tx f t
      → total env (set_account env tx [] s).1 accounts + tx.gas_used ≡ total env s accounts
  transfer_total accounts d hf ht c =
      let u : ℕ = env.balance_of s f - (tx.signed.transaction.amount + tx.gas_used) in
      let v : ℕ = env.balance_of s t + tx.signed.transaction.amount in
      let s1 : S = env.put_balance s f u in
      let first = total-put env db s accounts f u d hf in
      let second = total-put env db s1 accounts t v d ht in
      let kept = balance-put_ne env db s f u t (bytes_eq_ne f t distinct) in
      rw (set_account-covered env s tx h c) (omega (arith, c.0))
