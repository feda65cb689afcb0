-- ===== src/Chain/CheckBlock.antt =====
-- `checkBlockRegular` of pkg/blockchain/checkblock.go.
use korthochain.Common.{List, [], ◌∷◌, ltb, length, if◌then◌else◌}
use korthochain.Common.Outcome.{Result, ok, fail_if, ◌>>◌}
use korthochain.Transaction.{FinishedTransaction, is_coin_base}
use korthochain.Rewards.{check_gas}
use korthochain.Wire.Blocks.{Block}
use korthochain.Chain.{ChainError, parameter_error}

-- The loop of `checkBlockRegular` over the transactions.
unfoldable pub check_gases : List FinishedTransaction → Result ChainError (Unit {0})
unfolding check_gas
check_gases [] = ok tt
check_gases (tx ∷ txs) =
    let rest = check_gases txs in
    let t = tx.signed.transaction in
    if is_coin_base t then rest else (check_gas t.gas_limit t.gas_price >> rest)

-- `checkBlockRegular`, with what `difficultDetection` finds of the block, the store as it was
-- committed and the transaction.
unfoldable pub check_block_regular :
    {T : Type 0}
    → (Block → T → T → Result ChainError (Unit {0}))
    → Block
    → T
    → T
    → Result ChainError (Unit {0})
unfolding check_gases
check_block_regular detect b db t =
    fail_if (ltb 101 (length b.transactions)) parameter_error
    >> detect b db t
    >> check_gases b.transactions
