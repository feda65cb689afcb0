-- ===== src/Rewards/Laws.antt =====
-- What the rewards add up to, and what the other amounts come out as.
use korthochain.Common.{
  ℕ, zero, suc, ◌+◌, ◌-◌, ◌*◌, ◌/◌, ◌^◌, ◌<◌, ◌≤◌, ◌≡◌, ◌↔◌, false, refl, ◌∙◌, ap, arith, ltb, ◌==◌,
  ◌%◌, if◌then◌else◌,
}
use korthochain.Common.Word.{◌-64◌, ◌*64◌}
use korthochain.Common.Outcome.{Result, ok, err}
use korthochain.Chain.{ChainError, Machine, init_height, get_max_block_height}
use korthochain.Rewards.{
  period, new_chain_total, reward_of, miner_loop, get_miner_amount, check_gas, min_gas_limit,
  max_gas_limit, get_whole_network_num, get_whole_network_pledge_and_num, get_base_pledge,
  base_pledge_of,
}

-- What is left after `n` periods: a tenth of what was left, rounded down to whole rewards, goes in
-- each period. This is the schedule in unbounded numbers.
unfoldable pub rest_after : ℕ → ℕ → ℕ
rest_after zero rest = rest
rest_after (suc n) rest = rest_after n (rest - period * reward_of rest)

miner_loop_lem :
    (n rest : ℕ)
    → rest < 2 ^ 64
    → miner_loop n rest (reward_of rest) ≡ reward_of (rest_after n rest)
unfolding miner_loop rest_after
miner_loop_lem zero rest h = refl
miner_loop_lem (suc n) rest h =
    let exact : rest -64 (period *64 reward_of rest) ≡ rest - period * reward_of rest =
      omega arith in
    rw exact (miner_loop_lem n (rest - period * reward_of rest) (omega arith))

-- At every height of the new chain, the loop with its wrapping arithmetic gives the reward of the
-- schedule in unbounded numbers.
pub get_miner_amount_lem :
    (height : ℕ)
    → init_height ≤ height
    → get_miner_amount height
      ≡ ok (reward_of (rest_after ((height - init_height) / period) new_chain_total))
unfolding get_miner_amount
get_miner_amount_lem height h =
    let above : ltb height init_height ≡ false = ground arith in
    rw above
      (ap ok (miner_loop_lem ((height - init_height) / period) new_chain_total (omega arith)))

rest_after-suc :
    (n rest : ℕ)
    → rest_after (suc n) rest ≡ rest_after n rest - period * reward_of (rest_after n rest)
unfolding rest_after
rest_after-suc zero rest = refl
rest_after-suc (suc n) rest = rest_after-suc n (rest - period * reward_of rest)

rest_after-add : (n d rest : ℕ) → rest_after (d + n) rest ≤ rest_after n rest
unfolding rest_after
rest_after-add n zero rest = let same : 0 + n ≡ n = omega arith in rw same (omega arith)
rest_after-add n (suc d) rest =
    let next : suc d + n ≡ suc (d + n) = omega arith in
    rw next (omega (arith, rest_after-suc (d + n) rest, rest_after-add n d rest))

-- The reward never goes up: at a later height of the new chain it is at most what it was.
pub get_miner_amount-falls :
    (height later : ℕ)
    → init_height ≤ height
    → height ≤ later
    → (early : ℕ) × (late : ℕ) × (get_miner_amount height ≡ ok early)
      × (get_miner_amount later ≡ ok late)
      × (late ≤ early)
get_miner_amount-falls height later h le =
    let n : ℕ = (height - init_height) / period in
    let d : ℕ = (later - init_height) / period - n in
    let sum : d + n ≡ (later - init_height) / period = omega arith in
    let less = rest_after-add n d new_chain_total in
    (
      reward_of (rest_after n new_chain_total),
      reward_of (rest_after (d + n) new_chain_total),
      get_miner_amount_lem height h,
      rw sum (get_miner_amount_lem later (omega arith)),
      omega (arith, less),
    )

abbrev or_nothing : Result ChainError ℕ → ℕ
or_nothing (ok n) = n
or_nothing (err e) = 0

-- The rewards of the first blocks of the new chain, each with the reward of its own height.
unfoldable pub mined : ℕ → ℕ
mined zero = 0
mined (suc k) = mined k + or_nothing (get_miner_amount (init_height + k))

-- All blocks of a period have the reward of the schedule for that period.
mined-within :
    (n d : ℕ)
    → d ≤ period
    → mined (period * n + d) ≡ mined (period * n) + d * reward_of (rest_after n new_chain_total)
unfolding mined
mined-within n zero h =
    let none_more : period * n + 0 ≡ period * n = omega arith in rw none_more (omega arith)
mined-within n (suc d) h =
    let next : period * n + suc d ≡ suc (period * n + d) = omega arith in
    let blocks : (init_height + (period * n + d) - init_height) / period ≡ n = omega (arith, h) in
    let amount : or_nothing (get_miner_amount (init_height + (period * n + d)))
        ≡ reward_of (rest_after n new_chain_total) =
      ap or_nothing (get_miner_amount_lem (init_height + (period * n + d)) (omega arith))
      ∙ ap (λ k. reward_of (rest_after k new_chain_total)) blocks in
    let before = mined-within n d (omega (arith, h)) in
    let one_more : suc d * reward_of (rest_after n new_chain_total)
        ≡ d * reward_of (rest_after n new_chain_total) + reward_of (rest_after n new_chain_total) =
      grind arith in
    rw next (omega (arith, before, amount, one_more))

nothing_mined : mined (period * 0) + rest_after 0 new_chain_total ≡ new_chain_total
unfolding mined rest_after
nothing_mined = refl

-- However many periods pass, the rewards of all blocks in them, each with the reward of its own
-- height, and what the schedule leaves add up to what was left to be mined at the start; so the
-- rewards never exceed it.
pub emitted_total :
    (n : ℕ)
    → (mined (period * n) + rest_after n new_chain_total ≡ new_chain_total)
      × (mined (period * n) ≤ new_chain_total)
emitted_total zero = (nothing_mined, omega (arith, nothing_mined))
emitted_total (suc n) =
    let shape : period * suc n ≡ period * n + period = omega arith in
    let blocks = mined-within n period (omega arith) in
    let total = (emitted_total n).0 in
    let next = rest_after-suc n new_chain_total in
    let sum : mined (period * suc n) + rest_after (suc n) new_chain_total ≡ new_chain_total =
      rw shape (omega (arith, blocks, total, next)) in
    (sum, omega (arith, sum))

base_pledge_of-zero : (total : ℕ) → base_pledge_of total 0 ≡ ok 1200000000000000
unfolding base_pledge_of
base_pledge_of-zero total =
    let rate : (if total == 0 then 0 else 0 * 100 / total % 2 ^ 64) ≡ 0 = ground arith in
    rw rate refl

-- Whatever the store holds, where its height can be read, the base pledge is the largest one: the
-- amount pledged in the network counts as 0.
pub get_base_pledge_lem :
    {T S : Type 0} (m : Machine T S) (t : T) (h : ℕ)
    → get_max_block_height m t ≡ ok h
    → get_base_pledge m t ≡ ok 1200000000000000
unfolding get_base_pledge get_whole_network_pledge_and_num get_whole_network_num
get_base_pledge_lem m t h e = rw e (base_pledge_of-zero _)

-- A gas limit and a price whose product is below 2 ^ 64 pass exactly where the product is within
-- the limits.
pub check_gas_lem :
    (gas_limit gas_price : ℕ)
    → gas_limit * gas_price < 2 ^ 64
    → (check_gas gas_limit gas_price ≡ ok tt)
      ↔ ((min_gas_limit ≤ gas_limit * gas_price) × (gas_limit * gas_price ≤ max_gas_limit))
unfolding check_gas
check_gas_lem gas_limit gas_price h =
    let exact : gas_limit *64 gas_price ≡ gas_limit * gas_price = omega arith in
    rw exact (ground arith, ground arith)
