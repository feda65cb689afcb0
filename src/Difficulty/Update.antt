-- ===== src/Difficulty/Update.antt =====
-- `updateDifficulty` of pkg/blockchain/blockchain.go: the difficulty that the next block has to have.
use korthochain.Common.{
  ℕ, zero, suc, ◌*◌, ◌%◌, ◌^◌, ◌≤◌, ◌<◌, ◌≡◌, ◌≢◌, refl, subst, ◌∙◌, ==_self, ap, true, false, not,
  ◌&&◌, Option, none, some, ◌==◌, arith, if◌then◌else◌,
}
use korthochain.Common.Word.{◌+64◌, ◌-64◌}
use korthochain.Common.Outcome.{Result, ok, err, fail_if, ◌>>=◌, ◌>>◌}
use korthochain.Ledger.State.{panicked}
use korthochain.Wire.Blocks.{Block}
use korthochain.Chain.{
  ChainError, of_ledger, wrong_height, Machine, get_max_block_height, get_block_by_height,
}
use korthochain.Difficulty.{
  Big, big, compact_to_big, big_to_compact, int64_of, pow_limit, calc_next,
}
use korthochain.Difficulty.Bits.{Near, compact_to_big-big_to_compact}
use korthochain.Difficulty.Retarget.{next_target, calc_next-Near}

-- A difficulty of a block, which is not below 0; BigToCompact of a nil one panics.
abbrev pub present : Option ℕ → Result ChainError ℕ
present none = err (of_ledger panicked)
present (some g) = ok g

abbrev pub known : Option ℕ → Option Big
known none = none
known (some g) = some (big false g)

cycle_ends :
    (height : ℕ) → height % 10 ≡ 1 → height ≢ 1 → not (height == 1) && (height % 10 == 1) ≡ true
cycle_ends height tenth not_first =
    let other : (height == 1) ≡ false = ground arith in rw (other, tenth) refl

module _ {T S : Type 0} (m : Machine T S) where
  -- The loop over so many blocks, from the height down.
  unfoldable pub used_times : ℕ → ℕ → ℕ → T → Result ChainError ℕ
  unfolding get_block_by_height
  used_times zero height time t = ok time
  used_times (suc turns) height time t = do
    b ← get_block_by_height m height t
    used_times turns (height -64 1) (time +64 b.used_time) t

  -- The branch for a block after which the difficulty changes.
  unfoldable pub retargeted : ℕ → Block → T → Result ChainError (Option Big)
  unfolding used_times calc_next compact_to_big big_to_compact
  retargeted height b t = do
    time ← used_times 10 height 0 t
    old ← present b.global_difficulty
    ok (some (compact_to_big (calc_next (int64_of time) (big_to_compact (big false old)))))

  -- `updateDifficulty`
  unfoldable pub update_difficulty : ℕ → T → Result ChainError (Option Big)
  unfolding get_max_block_height get_block_by_height retargeted
  update_difficulty height t = do
    h ← get_max_block_height m t
    b ← get_block_by_height m h t
    fail_if (not (b.height == height)) wrong_height
    (if not (height == 1) && (height % 10 == 1)
        then retargeted height b t
        else ok (known b.global_difficulty))

  retargeted-read :
      (height g time : ℕ) (b : Block) (t : T)
      → used_times 10 height 0 t ≡ ok time
      → b.global_difficulty ≡ some g
      → retargeted height b t
        ≡ ok (some (compact_to_big (calc_next (int64_of time) (big_to_compact (big false g)))))
  unfolding retargeted
  retargeted-read height g time b t times given =
      ap
        (λ r. r >>= λ used. present b.global_difficulty >>= λ old.
          ok (some (compact_to_big (calc_next (int64_of used) (big_to_compact (big false old))))))
        times
      ∙ ap
          (λ o. present o >>= λ old.
            ok (some (compact_to_big (calc_next (int64_of time) (big_to_compact (big false old))))))
          given

  update_difficulty-retargeted :
      (height : ℕ) (b : Block) (t : T)
      → get_max_block_height m t ≡ ok height
      → get_block_by_height m height t ≡ ok b
      → b.height ≡ height
      → height % 10 ≡ 1
      → height ≢ 1
      → update_difficulty height t ≡ retargeted height b t
  unfolding update_difficulty
  update_difficulty-retargeted height b t top read right tenth not_first =
      rw (top, read, right, ==_self height, cycle_ends height tenth not_first) refl

  -- After the last block of a cycle, where the ten blocks of it took together a time that an int64
  -- holds, the next difficulty is that of exact arithmetic and within the limit, but for what the
  -- compact forms of the old one and of the new one lose: less than one part in 2 ^ 15 each. The old
  -- difficulty is above 0 and has at most 254 bytes.
  pub update_difficulty-Near :
      (height g time : ℕ) (b : Block) (t : T)
      → get_max_block_height m t ≡ ok height
      → get_block_by_height m height t ≡ ok b
      → b.height ≡ height
      → height % 10 ≡ 1
      → height ≢ 1
      → b.global_difficulty ≡ some g
      → 0 < g
      → g < 2 ^ (8 * 254)
      → used_times 10 height 0 t ≡ ok time
      → time < 2 ^ 63
      → (old : ℕ) × (next : ℕ) × Near g old
        × (update_difficulty height t ≡ ok (some (big false next)))
        × Near (next_target old time) next
        × (next ≤ pow_limit)
  update_difficulty-Near height g time b t top read right tenth not_first given more fits times
        small =
      let (old, same, near) = compact_to_big-big_to_compact g more fits in
      let bits = big_to_compact (big false g) in
      let positive : (compact_to_big bits).negative ≡ false = ap (λ (x : Big). x.negative) same in
      let (next, result, close, limit) = calc_next-Near time bits small positive in
      let size : (compact_to_big bits).size ≡ old = ap (λ (x : Big). x.size) same in
      (
        old,
        next,
        near,
        update_difficulty-retargeted height b t top read right tenth not_first
            ∙ retargeted-read height g time b t times given
            ∙ ap (λ (x : Big). ok (some x)) result,
        subst (λ k. Near (next_target k time) next) size close,
        limit,
      )
