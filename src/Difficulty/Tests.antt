-- ===== src/Difficulty/Tests.antt =====
-- Difficulties, and the next one after the eleventh block of a chain whose blocks all look alike.
use korthochain.Common.{
  ℕ, ◌*◌, ◌^◌, ◌≤◌, ◌≡◌, refl, [], false, some, arith, append-nil, if◌then◌else◌,
}
use korthochain.Common.Bytes.{Bytes, bytes_eq}
use korthochain.Common.Digits.{replicate, fixed_digits, digits, digits_value}
use korthochain.Common.Outcome.{ok}
use korthochain.Codec.{e64func, d64func}
use korthochain.Store.Tests.{Contents}
use korthochain.Wire.Blocks.{
  Block, big_bytes, marshal_fields, deserialize, serialize, marshal_block,
}
use korthochain.Wire.BlockRoundTrip.{IsBlock, deserialize-serialize}
use korthochain.Wire.Tests.{coding, coding-IsCbor, block, block-IsBlock, big_size}
use korthochain.Chain.{height_key, get_max_block_height, get_block_by_height}
use korthochain.Chain.Tests.{machine}
use korthochain.Difficulty.{big, compact_to_big, big_to_compact, pow_limit}
use korthochain.Difficulty.Bits.{Near, compact_to_big-big_to_compact}
use korthochain.Difficulty.Retarget.{next_target}
use korthochain.Difficulty.Update.{used_times, update_difficulty, update_difficulty-Near}

-- 0x1e7fffff
packed : big_to_compact (big false (0x7fffff * 2 ^ 216)) ≡ 511705087
unfolding big_to_compact digits
packed = refl

abbrev eleventh : Block
eleventh = record block { height = 11 }

eleventh-IsBlock : IsBlock coding eleventh
eleventh-IsBlock =
    let b = block-IsBlock in
    record {
      height = omega arith;
      prev_hash = b.prev_hash;
      hash = b.hash;
      transactions = b.transactions;
      count = b.count;
      root = b.root;
      snap_root = b.snap_root;
      version = b.version;
      timestamp = b.timestamp;
      used_time = b.used_time;
      miner = b.miner;
      nonce = b.nonce;
      gas_limit = b.gas_limit;
      gas_used = b.gas_used;
    }

abbrev top : Bytes
top = replicate 32 4

abbrev alike : Contents
alike = λ j.
    if bytes_eq j top
    then ok (marshal_fields coding eleventh 70000 300)
    else (if bytes_eq j height_key then ok (e64func 11) else ok top)

decoded : deserialize coding (marshal_fields coding eleventh 70000 300) ≡ ok eleventh
unfolding big_bytes coding serialize marshal_block
decoded =
    let (bytes, wrote, back) =
      deserialize-serialize coding coding-IsCbor eleventh 70000 300 [] eleventh-IsBlock
        (omega (arith, big_size.0), omega (arith, big_size.0))
        (omega (arith, big_size.1), omega (arith, big_size.1)) refl refl in
    let same : marshal_fields coding eleventh 70000 300 ≡ bytes = cc wrote in
    rw same (rw (← append-nil bytes) back)

at_top : get_max_block_height machine alike ≡ ok 11
unfolding get_max_block_height bytes_eq e64func d64func fixed_digits digits_value replicate
at_top = refl

at_eleven : get_block_by_height machine 11 alike ≡ ok eleventh
unfolding get_block_by_height bytes_eq e64func fixed_digits replicate
at_eleven = rw decoded refl

ten_times : used_times machine 10 11 0 alike ≡ ok 120
unfolding used_times get_block_by_height bytes_eq e64func fixed_digits replicate
ten_times = rw decoded refl

update_difficulty-Near_example :
    (old : ℕ) × (next : ℕ) × Near 300 old
    × (update_difficulty machine 11 alike ≡ ok (some (big false next)))
    × Near (next_target old 120) next
    × (next ≤ pow_limit)
update_difficulty-Near_example =
    update_difficulty-Near machine 11 300 120 eleventh alike at_top at_eleven refl refl
      (omega arith) refl (omega arith) (omega arith) ten_times (omega arith)

compact_to_big-big_to_compact_example :
    (m : ℕ) × (compact_to_big (big_to_compact (big false 16777217)) ≡ big false m) × Near 16777217 m
compact_to_big-big_to_compact_example =
    compact_to_big-big_to_compact 16777217 (omega arith) (omega arith)
