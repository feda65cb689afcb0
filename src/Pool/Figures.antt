-- ===== src/Pool/Figures.antt =====
-- The figures of a trader in pkg/txpool/pool.go, and what each kind of transaction makes of them:
-- the calculations in the ...PreCalculated methods between the reads and the writes of the buffer.
use korthochain.Common.{ℕ, [], ◌∷◌, Bool, ltb}
use korthochain.Common.Word.{◌+64◌}
use korthochain.Common.Outcome.{Result, ok, ◌>>=◌, ◌>>◌, fail_if}
use korthochain.Transaction.{Transaction, gas_cap}
use korthochain.Pool.Overflow.{PoolError, insufficient, add_uint64_overflow, sub_uint64_overflow}

-- `traderInfo`
pub record TraderInfo : Type 0 where
  pub available_balance : ℕ
  pub lock_balance : ℕ
  pub next_nonce : ℕ
  pub single_lock_balance : ℕ
  pub single_exist : Bool

-- `transferTransactionPreCalculated`: the caller and the receiver.
unfoldable pub after_transfer :
    TraderInfo → TraderInfo → Transaction → Result PoolError (TraderInfo × TraderInfo)
after_transfer caller receiver tx = do
  amount_and_gas ← add_uint64_overflow tx.amount (gas_cap tx ∷ [])
  caller_bal ← sub_uint64_overflow caller.available_balance (amount_and_gas ∷ [])
  receiver_bal ← add_uint64_overflow receiver.available_balance (tx.amount ∷ [])
  ok (
    record caller { available_balance = caller_bal; next_nonce = caller.next_nonce +64 1 },
    record receiver { available_balance = receiver_bal },
  )

-- `lockTransactionPreCalculated`
unfoldable pub after_lock : TraderInfo → Transaction → Result PoolError TraderInfo
after_lock caller tx = do
  fail_if (ltb caller.available_balance tx.amount) insufficient
  lock_bal ← add_uint64_overflow caller.lock_balance (tx.amount ∷ [])
  avl_bal ← sub_uint64_overflow caller.available_balance (tx.amount ∷ [])
  avl_bal ← sub_uint64_overflow avl_bal (gas_cap tx ∷ [])
  ok (record caller {
    next_nonce = caller.next_nonce +64 1;
    lock_balance = lock_bal;
    available_balance = avl_bal;
  })

-- `unlockTransactionPreCalculated`
unfoldable pub after_unlock : TraderInfo → Transaction → Result PoolError TraderInfo
after_unlock caller tx = do
  fail_if (ltb caller.single_lock_balance tx.amount) insufficient
  lock_bal ← sub_uint64_overflow caller.lock_balance (tx.amount ∷ [])
  single_bal ← sub_uint64_overflow caller.single_lock_balance (tx.amount ∷ [])
  avl_bal ← sub_uint64_overflow caller.available_balance (gas_cap tx ∷ [])
  avl_bal ← add_uint64_overflow avl_bal (tx.amount ∷ [])
  ok (record caller {
    next_nonce = caller.next_nonce +64 1;
    lock_balance = lock_bal;
    available_balance = avl_bal;
    single_lock_balance = single_bal;
  })

-- `pledgeTrasnactionPreCalculated`
unfoldable pub after_pledge : TraderInfo → Transaction → Result PoolError TraderInfo
after_pledge caller tx = do
  fail_if (ltb caller.available_balance tx.amount) insufficient
  avl_balance ← sub_uint64_overflow caller.available_balance (tx.amount ∷ [])
  avl_balance ← sub_uint64_overflow avl_balance (gas_cap tx ∷ [])
  ok (record caller { next_nonce = caller.next_nonce +64 1; available_balance = avl_balance })

-- `redeemTrasnactionPreCalculated` behind the test that the amount is 0.
unfoldable pub after_redeem : TraderInfo → Transaction → Result PoolError TraderInfo
after_redeem caller tx = do
  fail_if (ltb caller.available_balance tx.amount) insufficient
  avl_balance ← sub_uint64_overflow caller.available_balance (gas_cap tx ∷ [])
  ok (record caller { next_nonce = caller.next_nonce +64 1; available_balance = avl_balance })
