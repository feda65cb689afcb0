-- ===== src/Rewards/Tests.antt =====
-- Runs of the rewards at concrete heights.
use korthochain.Common.{ℕ, ◌+◌, ◌^◌, ◌*◌, ◌≤◌, ◌≡◌, refl, arith}
use korthochain.Common.Outcome.{ok}
use korthochain.Chain.{init_height}
use korthochain.Rewards.{period, new_chain_total, reward_of, get_miner_amount, check_gas}
use korthochain.Rewards.Laws.{
  rest_after, mined, get_miner_amount_lem, get_miner_amount-falls, emitted_total,
}

get_miner_amount_lem_example :
    get_miner_amount (init_height + 2 * period) ≡ ok (reward_of (rest_after 2 new_chain_total))
get_miner_amount_lem_example = get_miner_amount_lem (init_height + 2 * period) (omega arith)

get_miner_amount-falls_example :
    (early : ℕ) × (late : ℕ) × (get_miner_amount init_height ≡ ok early)
    × (get_miner_amount (init_height + 2 * period) ≡ ok late)
    × (late ≤ early)
get_miner_amount-falls_example =
    get_miner_amount-falls init_height (init_height + 2 * period) (omega arith) (omega arith)

emitted_total_example :
    (mined (period * 3) + rest_after 3 new_chain_total ≡ new_chain_total)
    × (mined (period * 3) ≤ new_chain_total)
emitted_total_example = emitted_total 3

-- A product that wraps around passes although it is far above the limit.
check_gas_wrapped : check_gas (2 ^ 32) (2 ^ 32 + 1) ≡ ok tt
unfolding check_gas
check_gas_wrapped = refl
