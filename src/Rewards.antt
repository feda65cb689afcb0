-- ===== src/Rewards.antt =====
-- The amounts that the protocol fixes: `GetMinerAmount` of pkg/blockchain/types.go, and
-- `getWholeNetworkNum`, `getBasePledge`, `distr` and `checkGas` of pkg/blockchain.
pub mod Laws
mod Tests
use korthochain.Common.{
  ℕ, zero, suc, ◌+◌, ◌-◌, ◌*◌, ◌/◌, ◌%◌, ◌^◌, List, [], ◌∷◌, ◌++◌, ◌||◌, ltb, not, ◌==◌,
  if◌then◌else◌,
}
use korthochain.Common.Word.{◌+64◌, ◌-64◌, ◌*64◌}
use korthochain.Common.Bytes.{Bytes}
use korthochain.Common.Outcome.{Result, ok, err, ◌>>=◌, ◌>>◌, fail_if}
use korthochain.Address.{Address}
use korthochain.Ledger.State.{panicked}
use korthochain.Transaction.{SignedTransaction, coin_base_transaction}
use korthochain.Chain.{
  ChainError, of_ledger, parameter_error, Machine, init_height, get_max_block_height,
}

-- The blocks of a period, over which the reward stays the same.
abbrev pub period : ℕ
period = 3153600

-- What is left to be mined when the new chain starts: `ktoTotal` less `newChainBalance`.
abbrev pub new_chain_total : ℕ
new_chain_total =
    8848000000000000000
    - (1000000000000000000
        + 31536000 * 49460000000
        + (init_height - 31536000) * 8 / 10 * 49460000000)

-- The reward of a block while `rest` is left.
abbrev pub reward_of : ℕ → ℕ
reward_of rest = rest / period / 10

-- The loop of `GetMinerAmount` over the periods that have passed.
unfoldable pub miner_loop : ℕ → ℕ → ℕ → ℕ
miner_loop zero rest total = total
miner_loop (suc x) rest total =
    let left = rest -64 (period *64 total) in miner_loop x left (reward_of left)

-- `GetMinerAmount`; below the first height it panics.
unfoldable pub get_miner_amount : ℕ → Result ChainError ℕ
unfolding miner_loop
get_miner_amount height = do
  fail_if (ltb height init_height) (of_ledger panicked)
  ok (miner_loop ((height - init_height) / period) new_chain_total (reward_of new_chain_total))

-- `distr`: the coinbase transaction goes behind the others. It is not signed.
unfoldable pub distr :
    Address → List SignedTransaction → Address → ℕ → Result ChainError (List SignedTransaction)
unfolding get_miner_amount
distr genesis txs minaddr height = do
  total ← get_miner_amount height
  ok (
      txs
      ++ record {
        transaction = record {
          version = 0;
          kind = coin_base_transaction;
          from = genesis;
          to = minaddr;
          amount = total;
          nonce = height;
          gas_limit = 0;
          gas_fee_cap = 0;
          gas_price = 0;
          input = [];
        };
        signature = record { sig_type = 0; data_ = [] };
      }
        ∷ [])

-- `MINGASLIMIT` and `MAXGASLIMIT`
abbrev pub min_gas_limit : ℕ
min_gas_limit = 2100000

abbrev pub max_gas_limit : ℕ
max_gas_limit = 10000000000000

-- `checkGas`; the product wraps around.
unfoldable pub check_gas : ℕ → ℕ → Result ChainError (Unit {0})
check_gas gas_limit gas_price =
    fail_if
      (ltb (gas_limit *64 gas_price) min_gas_limit || ltb max_gas_limit (gas_limit *64 gas_price))
      parameter_error

-- The loop of `getWholeNetworkNum`: the sum so far, and the reward of the period.
unfoldable pub network_loop : ℕ → ℕ → ℕ → ℕ × ℕ
network_loop zero sum total = (sum, total)
network_loop (suc n) sum total = network_loop n (sum +64 (total *64 period)) (total *64 5 / 10)

-- The end of `getBasePledge`: the share of the coins that is pledged, in percent, takes its part off
-- the largest pledge.
unfoldable pub base_pledge_of : ℕ → ℕ → Result ChainError ℕ
base_pledge_of total pledge_total = do
  let rate = if total == 0 then 0 else pledge_total * 100 / total % 2 ^ 64
  fail_if (ltb 100 rate) parameter_error
  ok (1200000000000000 *64 (100 - rate) / 100)

module _ {T S : Type 0} (m : Machine T S) where
  -- `getWholeNetworkNum`
  unfoldable pub get_whole_network_num : T → Result ChainError ℕ
  unfolding network_loop
  get_whole_network_num t = do
    h ← get_max_block_height m t
    let ended = network_loop (h / period) 0 100000000000
    ok (ended.0 +64 (ended.1 *64 (h % period) +64 10000000000000666666))

  -- `getWholeNetworkPledgeAndNum`: the second result is always 0.
  unfoldable pub get_whole_network_pledge_and_num : T → Result ChainError (ℕ × ℕ)
  unfolding get_whole_network_num
  get_whole_network_pledge_and_num t = do num ← get_whole_network_num t; ok (num, 0)

  -- `getBasePledge`
  unfoldable pub get_base_pledge : T → Result ChainError ℕ
  unfolding get_whole_network_pledge_and_num base_pledge_of
  get_base_pledge t = do found ← get_whole_network_pledge_and_num t; base_pledge_of found.0 found.1
